-- ===== src/Chat/Reads.antt =====
-- MarkRideRead and MarkDMRead of routes/chat/chat.go, and the rows of models/ChatReadModel.go.
use uni_pool_new_backend.Base.{
  ℕ, Bool, false, not, ◌&&◌, Option, none, some, String, List, ◌==◌, if◌then◌else◌, put_where,
}
use uni_pool_new_backend.Model.{User}
use uni_pool_new_backend.Store.{Db, Env, Locals, missing, malformed, signed_in, Response, save_read}
use uni_pool_new_backend.Text.{codes_eq}
use uni_pool_new_backend.Chat.Access.{
  get_ride_viewer_role, is_participant_or_pending, invalid, denied, failed, allowed,
  can_access_dm_room,
}

pub record ChatRead : Type 0 where
  pub user_id : ℕ
  pub ride_id : Option ℕ
  pub dm_room_id : Option (List ℕ)
  pub last_read_at : ℕ
  pub deleted_at : Option ℕ

pub record Marked : Type 0 where
  pub reads : List ChatRead
  pub response : Response

abbrev pub mark_answer : List ChatRead → ℕ → String → Marked
mark_answer reads status message = record {
  reads = reads;
  response = record { status = status; message = message };
}

-- NULL is no conflict.
abbrev pub is_ride : ℕ → Option ℕ → Bool
is_ride ride_id none = false
is_ride ride_id (some r) = r == ride_id

abbrev pub is_dm_room : List ℕ → Option (List ℕ) → Bool
is_dm_room room_id none = false
is_dm_room room_id (some r) = codes_eq r room_id

unfoldable pub upsert_ride_read_cursor : ℕ → ℕ → ℕ → List ChatRead → List ChatRead
upsert_ride_read_cursor user_id ride_id now reads =
    put_where (λ x. x.user_id == user_id && is_ride ride_id x.ride_id)
      (λ x. record x { last_read_at = now })
      (record {
        user_id = user_id;
        ride_id = some ride_id;
        dm_room_id = none;
        last_read_at = now;
        deleted_at = none;
      })
      reads

unfoldable pub upsert_dm_read_cursor : ℕ → List ℕ → ℕ → List ChatRead → List ChatRead
upsert_dm_read_cursor user_id room_id now reads =
    put_where (λ x. x.user_id == user_id && is_dm_room room_id x.dm_room_id)
      (λ x. record x { last_read_at = now })
      (record {
        user_id = user_id;
        ride_id = none;
        dm_room_id = some room_id;
        last_read_at = now;
        deleted_at = none;
      })
      reads

unfoldable pub mark_ride : Env → User → ℕ → Db → List ChatRead → Marked
mark_ride env user ride_id db reads = elim (get_ride_viewer_role env user.id ride_id db) [
  | none ↦ mark_answer reads 500 "membership lookup failed"
  | some role ↦
      if not (is_participant_or_pending role)
      then mark_answer reads 403 "not a participant in this ride"
      else if env.fails save_read
      then mark_answer reads 500 "failed to mark read"
      else mark_answer (upsert_ride_read_cursor user.id ride_id env.now reads) 200 ""
]

unfoldable pub mark_ride_read : Env → Locals → Option ℕ → Db → List ChatRead → Marked
mark_ride_read env missing ride_id db reads =
    mark_answer reads 401 "User not authenticated or found"
mark_ride_read env malformed ride_id db reads =
    mark_answer reads 401 "User not authenticated or found"
mark_ride_read env (signed_in user) none db reads = mark_answer reads 400 "invalid ride id"
mark_ride_read env (signed_in user) (some ride_id) db reads = mark_ride env user ride_id db reads

module _ (uuid_string : ℕ → List ℕ) (uuid_parse : List ℕ → Option ℕ) where
  unfoldable pub mark_dm : Env → User → List ℕ → Db → List ChatRead → Marked
  mark_dm env user room_id db reads =
      elim (can_access_dm_room uuid_string uuid_parse env user.id room_id db) [
        | invalid ↦ mark_answer reads 400 "invalid dm room id format"
        | failed ↦ mark_answer reads 500 "dm access lookup failed"
        | denied ↦ mark_answer reads 403 "not a participant in this dm"
        | allowed other ↦
            if env.fails save_read
            then mark_answer reads 500 "failed to mark read"
            else mark_answer (upsert_dm_read_cursor user.id room_id env.now reads) 200 ""
      ]

  unfoldable pub mark_dm_read : Env → Locals → List ℕ → Db → List ChatRead → Marked
  unfolding mark_dm
  mark_dm_read env missing room_id db reads =
      mark_answer reads 401 "User not authenticated or found"
  mark_dm_read env malformed room_id db reads =
      mark_answer reads 401 "User not authenticated or found"
  mark_dm_read env (signed_in user) room_id db reads = mark_dm env user room_id db reads
