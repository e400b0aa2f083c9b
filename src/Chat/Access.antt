-- ===== src/Chat/Access.antt =====
-- Who may use a room of the chat: getRideViewerRole and canAccessDMRoom of routes/chat/chat.go, and
-- the columns of the messages that the chat writes, with texts as lists of code points.
use uni_pool_new_backend.Base.{
  ℕ, Bool, true, false, not, ◌&&◌, ◌||◌, Option, none, some, List, ◌==◌, is_none, if◌then◌else◌,
  find_where, count_where,
}
use uni_pool_new_backend.Model.{Ride, Booking, RequestStatus}
use uni_pool_new_backend.Store.{Db, Env, find_role, find_relation}
use uni_pool_new_backend.Chat.Rooms.{parse_dm_room_id}

pub record ChatMessage : Type 0 where
  pub id : ℕ
  pub created_at : ℕ
  pub deleted_at : Option ℕ
  pub ride_id : Option ℕ
  pub dm_room_id : Option (List ℕ)
  pub sender_id : ℕ
  pub content : List ℕ

pub data ViewerRole : Type 0 where
  role_host role_accepted role_pending role_rejected role_none : ViewerRole

abbrev pub role_of_status : RequestStatus → ViewerRole
role_of_status RequestStatus.accepted = role_accepted
role_of_status RequestStatus.pending = role_pending
role_of_status RequestStatus.rejected = role_rejected
role_of_status _ = role_none

abbrev pub role_of_booking : Option Booking → ViewerRole
role_of_booking none = role_none
role_of_booking (some b) = role_of_status b.request_status

abbrev pub is_viewer_booking : ℕ → ℕ → Booking → Bool
is_viewer_booking user_id ride_id b =
    b.ride_id == ride_id && (b.passenger_id == user_id && is_none b.deleted_at)

unfoldable pub role_in : ℕ → ℕ → List Booking → Option Ride → ViewerRole
role_in user_id ride_id bookings none = role_none
role_in user_id ride_id bookings (some r) =
    if r.host_user_id == user_id
    then role_host
    else role_of_booking (find_where (is_viewer_booking user_id ride_id) bookings)

-- `none` is an error of the query. The query does not look at deleted_at of the ride.
unfoldable pub get_ride_viewer_role : Env → ℕ → ℕ → Db → Option ViewerRole
get_ride_viewer_role env user_id ride_id db =
    if env.fails find_role
    then none
    else some (role_in user_id ride_id db.bookings (find_where (λ r. r.id == ride_id) db.rides))

abbrev pub is_participant : ViewerRole → Bool
is_participant role_host = true
is_participant role_accepted = true
is_participant _ = false

abbrev pub is_participant_or_pending : ViewerRole → Bool
is_participant_or_pending role_host = true
is_participant_or_pending role_accepted = true
is_participant_or_pending role_pending = true
is_participant_or_pending _ = false

-- The join: b is a booking by one of the two on an undeleted ride r of the other.
abbrev pub joins : ℕ → ℕ → Booking → Ride → Bool
joins user_id other_id b r =
    r.id == b.ride_id
    && (is_none r.deleted_at
        && ((r.host_user_id == user_id && b.passenger_id == other_id)
            || (r.host_user_id == other_id && b.passenger_id == user_id)))

abbrev pub relates : ℕ → ℕ → List Ride → Booking → Bool
relates user_id other_id rides b =
    is_none b.deleted_at && not (count_where (joins user_id other_id b) rides == 0)

unfoldable pub is_related : ℕ → ℕ → Db → Bool
is_related user_id other_id db =
    not (count_where (relates user_id other_id db.rides) db.bookings == 0)

pub data DmAccess : Type 0 where
  invalid denied failed : DmAccess
  allowed : ℕ → DmAccess

unfoldable pub access_of : Env → ℕ → Option (ℕ × ℕ) → Db → DmAccess
access_of env user_id none db = invalid
access_of env user_id (some (a, b)) db =
    let other = if user_id == b then a else b in
    if not (user_id == a) && not (user_id == b)
    then denied
    else if env.fails find_relation
    then failed
    else if is_related user_id other db
    then allowed other
    else denied

module _ (uuid_string : ℕ → List ℕ) (uuid_parse : List ℕ → Option ℕ) where
  unfoldable pub can_access_dm_room : Env → ℕ → List ℕ → Db → DmAccess
  can_access_dm_room env user_id room_id db =
      access_of env user_id (parse_dm_room_id uuid_string uuid_parse room_id) db
