-- ===== src/Chat/Pages/Readers.antt =====
-- Who reads which messages: GetRideMessages and GetDMMessages of routes/chat/chat.go.
use uni_pool_new_backend.Base.{
  ℕ, ◌≡◌, ◌≢◌, refl, ◌⊎◌, inl, inr, true, false, not, ◌&&◌, Option, none, some, String, List, [],
  subst, Memᴰ, ◌==◌, if◌then◌else◌, arith, Bool-cases, find_where, find-member, find_where-hit,
}
use uni_pool_new_backend.Model.{User, Ride, Booking, RequestStatus}
use uni_pool_new_backend.Store.{Db, Env, signed_in, find_messages}
use uni_pool_new_backend.Text.{codes, codes_eq}
use uni_pool_new_backend.Text.Equal.{codes_eq→eq}
use uni_pool_new_backend.Chat.Rooms.{parse_dm_room_id}
use uni_pool_new_backend.Chat.Access.{
  ChatMessage, role_host, role_in, is_viewer_booking, is_participant, is_related,
}
use uni_pool_new_backend.Chat.Members.{IsMember, role_in-IsMember, IsDmMember, related-IsDmMember}
use uni_pool_new_backend.Chat.Reads.{ChatRead, is_ride, is_dm_room}
use uni_pool_new_backend.Chat.Query.{PageQuery}
use uni_pool_new_backend.Chat.Pages.{
  Page, says_host, viewer_role, ride_page, get_ride_messages, dm_page, get_dm_messages, message_row,
}
use uni_pool_new_backend.Chat.Pages.Shown.{IsListable, IsPageOf, page_rows-IsPageOf}

abbrev pub IsUnanswered : List ChatRead → Page → Type 0
IsUnanswered reads out = (out.response.status ≢ 200) × (out.messages ≡ []) × (out.reads ≡ reads)

-- An undeleted booking of the user on the ride with the text "host" as its status.
pub record IsNamedHost (user_id ride_id : ℕ) (db : Db) : Type 0 where
  pub booking : Booking
  pub there : Memᴰ booking db.bookings
  pub own : is_viewer_booking user_id ride_id booking ≡ true
  pub text : String
  pub status : booking.request_status ≡ RequestStatus.other text
  pub named : codes text ≡ codes "host"

status_text :
    (s : RequestStatus)
    → (elim s [ RequestStatus.other t ↦ codes_eq (codes t) (codes "host") | _ ↦ false ]) ≡ true
    → (t : String) × (s ≡ RequestStatus.other t) × (codes t ≡ codes "host")
status_text RequestStatus.blank e = absurd (ground arith)
status_text RequestStatus.pending e = absurd (ground arith)
status_text RequestStatus.accepted e = absurd (ground arith)
status_text RequestStatus.rejected e = absurd (ground arith)
status_text (RequestStatus.other t) e = (t, refl, codes_eq→eq (codes t) (codes "host") e)

named_host :
    (user_id ride_id : ℕ) (db : Db) (o : Option Booking)
    → find_where (is_viewer_booking user_id ride_id) db.bookings ≡ o
    → says_host o ≡ true
    → IsNamedHost user_id ride_id db
named_host user_id ride_id db none found e = absurd (ground arith)
named_host user_id ride_id db (some b) found e =
    let (t, is_text, named) = status_text b.request_status e in
    record {
      booking = b;
      there = find-member (is_viewer_booking user_id ride_id) db.bookings b found;
      own = find_where-hit (is_viewer_booking user_id ride_id) db.bookings b found;
      text = t;
      status = is_text;
      named = named;
    }

module _ (env : Env) (user_id ride_id : ℕ) (db : Db) where
  viewer_role-IsMember :
      (o : Option Ride)
      → find_where (λ r. r.id == ride_id) db.rides ≡ o
      → is_participant (viewer_role user_id ride_id db.bookings o) ≡ true
      → IsMember user_id ride_id db ⊎ IsNamedHost user_id ride_id db
  unfolding viewer_role
  viewer_role-IsMember none found e = absurd (ground arith)
  viewer_role-IsMember (some r) found e =
      elim (Bool-cases (says_host (find_where (is_viewer_booking user_id ride_id) db.bookings))) [
        | inl named ↦ inr (named_host user_id ride_id db _ refl named)
        | inr other ↦ inl (
            role_in-IsMember env user_id ride_id db (some r) found (
              subst
                (λ c.
                  is_participant
                    (if c then role_host else role_in user_id ride_id db.bookings (some r))
                  ≡ true)
                other e))
      ]

-- Who reads a ride's chat, and what: for a signed-in user, GetRideMessages either answers with an
-- error, lists nothing and writes no cursor; or the caller hosts the ride, has an undeleted accepted
-- booking on it or an undeleted one with the text "host" as its status, and the list has the newest
-- messages of the ride that are undeleted, have a sender and are older than the cursor of the request:
-- at most 200, the oldest first, none else, and all of them unless has_more is set, and then none that
-- is left out is newer than one that is listed.
pub get_ride_messages-IsPageOf :
    (env : Env) (user : User) (ride_id : ℕ) (query : PageQuery) (db : Db)
    (messages : List ChatMessage) (reads : List ChatRead)
    → let out = get_ride_messages env (signed_in user) (some ride_id) query db messages reads in
      IsUnanswered reads out
      ⊎ ((IsMember user.id ride_id db ⊎ IsNamedHost user.id ride_id db)
          × IsPageOf
              (IsListable (λ m. is_ride ride_id m.ride_id) query.before db.users)
              messages
              out)
unfolding get_ride_messages ride_page
get_ride_messages-IsPageOf env user ride_id query db messages reads =
    let o = find_where (λ (r : Ride). r.id == ride_id) db.rides in
    elim (Bool-cases (env.fails find_messages)) [
      | inl fails ↦ rw fails (inl ((λ e. ground arith), refl, refl))
      | inr works ↦ elim (Bool-cases (is_participant (viewer_role user.id ride_id db.bookings o))) [
        | inr off ↦ rw (works, off) (inl ((λ e. ground arith), refl, refl))
        | inl on ↦
            rw (works, on)
              (inr (
                viewer_role-IsMember env user.id ride_id db o refl on,
                page_rows-IsPageOf (λ m. is_ride ride_id m.ride_id)
                    (message_row (λ x. is_ride ride_id x.ride_id) db.users reads) query db.users
                    messages _ (λ m. refl),
              ))
      ]
    ]

module _ (uuid_string : ℕ → List ℕ) (uuid_parse : List ℕ → Option ℕ) where
  dm_page-IsPageOf :
      (env : Env) (user : User) (room_id : List ℕ) (pair : Option (ℕ × ℕ)) (query : PageQuery)
      (db : Db) (messages : List ChatMessage) (reads : List ChatRead)
      → parse_dm_room_id uuid_string uuid_parse room_id ≡ pair
      → let out = dm_page env user room_id pair query db messages reads in
        IsUnanswered reads out
        ⊎ (IsDmMember uuid_string uuid_parse user.id room_id db
            × IsPageOf
                (IsListable (λ m. is_dm_room room_id m.dm_room_id) query.before db.users)
                messages
                out)
  unfolding dm_page
  dm_page-IsPageOf env user room_id none query db messages reads parsed =
      inl ((λ e. ground arith), refl, refl)
  dm_page-IsPageOf env user room_id (some (a, b)) query db messages reads parsed =
      elim (Bool-cases (not (user.id == a) && not (user.id == b))) [
        | inl stranger ↦ rw stranger (inl ((λ e. ground arith), refl, refl))
        | inr one ↦ elim (Bool-cases (env.fails find_messages)) [
          | inl fails ↦ rw (one, fails) (inl ((λ e. ground arith), refl, refl))
          | inr works ↦ elim (Bool-cases (is_related user.id (if user.id == b then a else b) db)) [
            | inr apart ↦ rw (one, works, apart) (inl ((λ e. ground arith), refl, refl))
            | inl related ↦
                rw (one, works, related)
                  (inr (
                    related-IsDmMember uuid_string uuid_parse user.id a b room_id db parsed one
                        related,
                    page_rows-IsPageOf (λ m. is_dm_room room_id m.dm_room_id)
                        (message_row (λ x. is_dm_room room_id x.dm_room_id) db.users reads) query
                        db.users messages _ (λ m. refl),
                  ))
          ]
        ]
      ]

  -- Who reads a room of two, and what: for a signed-in user, GetDMMessages either answers with an
  -- error, lists nothing and writes no cursor; or the caller is one of the two users that the room's
  -- name parses to, one of whom has an undeleted booking on an undeleted ride of the other, and the
  -- list has the newest messages of the room that are undeleted, have a sender and are older than the
  -- cursor of the request, with the bounds, the order and the completeness of a ride's list.
  pub get_dm_messages-IsPageOf :
      (env : Env) (user : User) (room_id : List ℕ) (query : PageQuery) (db : Db)
      (messages : List ChatMessage) (reads : List ChatRead)
      → let out =
          get_dm_messages uuid_string uuid_parse env
            (signed_in user)
            room_id
            query
            db
            messages
            reads in
        IsUnanswered reads out
        ⊎ (IsDmMember uuid_string uuid_parse user.id room_id db
            × IsPageOf
                (IsListable (λ m. is_dm_room room_id m.dm_room_id) query.before db.users)
                messages
                out)
  unfolding get_dm_messages
  get_dm_messages-IsPageOf env user room_id query db messages reads =
      dm_page-IsPageOf env user room_id (parse_dm_room_id uuid_string uuid_parse room_id) query db
        messages reads refl
