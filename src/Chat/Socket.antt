-- ===== src/Chat/Socket.antt =====
-- WebSocketHandler of routes/chat/chat.go: who gets a connection to a room.
use uni_pool_new_backend.Base.{ℕ, not, ◌||◌, Option, none, some, String, List, ◌==◌, if◌then◌else◌}
use uni_pool_new_backend.Model.{User}
use uni_pool_new_backend.Store.{Db, Env}
use uni_pool_new_backend.Text.{is_empty}
use uni_pool_new_backend.Chat.Rooms.{strip_prefix, dm_prefix}
use uni_pool_new_backend.Chat.Access.{
  get_ride_viewer_role, is_participant, invalid, denied, failed, allowed, can_access_dm_room,
}

-- What comes of a connection: closed with a reason, or a client of the hub for a user and a room.
pub data Admission : Type 0 where
  rejected : String → Admission
  admitted : ℕ → List ℕ → Admission

module _ (uuid_string : ℕ → List ℕ) (uuid_parse : List ℕ → Option ℕ) where
  unfoldable pub admit_to_ride : Env → ℕ → List ℕ → ℕ → Db → Admission
  admit_to_ride env user_id room_id ride_id db =
      elim (get_ride_viewer_role env user_id ride_id db) [
        | none ↦ rejected "membership lookup failed"
        | some role ↦
            if not (is_participant role)
            then rejected "not a participant"
            else admitted user_id room_id
      ]

  unfoldable pub admit_to_dm : Env → ℕ → List ℕ → Db → Admission
  admit_to_dm env user_id room_id db =
      elim (can_access_dm_room uuid_string uuid_parse env user_id room_id db) [
        | invalid ↦ rejected "invalid DM room_id format"
        | failed ↦ rejected "membership lookup failed"
        | denied ↦ rejected "not a participant"
        | allowed other ↦ admitted user_id room_id
      ]

  unfoldable pub admit_to_room : Env → ℕ → List ℕ → Db → Admission
  unfolding admit_to_ride admit_to_dm
  admit_to_room env user_id room_id db = elim (strip_prefix dm_prefix room_id) [
    | some rest ↦ admit_to_dm env user_id room_id db
    | none ↦ elim (uuid_parse room_id) [
      | none ↦ rejected "invalid room_id format"
      | some ride_id ↦ admit_to_ride env user_id room_id ride_id db
    ]
  ]

  -- The token's user, unless the lookup fails, against the user_id of the query.
  unfoldable pub admit_user : Env → ℕ → Option User → List ℕ → Db → Admission
  unfolding admit_to_room
  admit_user env user_uuid none room_id db = rejected "user lookup failed"
  admit_user env user_uuid (some socket_user) room_id db =
      if not (socket_user.id == user_uuid)
      then rejected "user mismatch"
      else admit_to_room env socket_user.id room_id db

  -- `auth` is middleware.UserFromBearerToken, for the token of the query.
  unfoldable pub web_socket_handler :
      Env → (List ℕ → Option User) → List ℕ → List ℕ → List ℕ → Db → Admission
  unfolding admit_user
  web_socket_handler env auth user_id room_id token db =
      if is_empty user_id || is_empty room_id
      then rejected "missing user_id or room_id"
      else if is_empty token
      then rejected "missing token"
      else elim (uuid_parse user_id) [
        | none ↦ rejected "invalid user_id format"
        | some user_uuid ↦ admit_user env user_uuid (auth token) room_id db
      ]
