-- ===== src/Booking/Delete.antt =====
-- routes/bookings/deleteBooking.go: the passenger withdraws, or the host removes a booking.
pub mod Seats
use uni_pool_new_backend.Base.{
  ℕ, Bool, ◌&&◌, not, Option, none, some, List, [], ◌++◌, ◌==◌, if◌then◌else◌, find_where,
}
use uni_pool_new_backend.Model.{User, is_accepted}
use uni_pool_new_backend.Store.{
  Db, Env, Locals, missing, malformed, signed_in, Outcome, Notice, NoticeKind, begin_tx, load_row,
  delete_row, release_seat, commit, refuse, notify,
}
use uni_pool_new_backend.Booking.Load.{BookingRideRow, ◌>>=◌, join_row}
use uni_pool_new_backend.Booking.Removal.{removed_db}

-- The join of Accept.go, and one more: JOIN users h ON h.id = r.host_user_id.
unfoldable pub join_host_row : ℕ → Db → Option BookingRideRow
join_host_row id db = do
  row ← join_row id db
  h ← find_where (λ u. u.id == row.ride.host_user_id) db.users
  some row

-- Who is told of a removal: the host, if the passenger gave up an accepted seat; the passenger, if
-- the host took it back; nobody, if the request was not yet accepted.
unfoldable pub removal_notices : Env → User → BookingRideRow → List Notice
removal_notices env user row =
    (if row.booking.passenger_id == user.id && is_accepted row.booking.request_status
      then notify env NoticeKind.withdrawn row.ride.host_user_id
      else [])
    ++ (if row.ride.host_user_id == user.id
          && (not (row.booking.passenger_id == user.id) && is_accepted row.booking.request_status)
        then notify env NoticeKind.removed row.booking.passenger_id
        else [])

unfoldable pub commit_delete : Env → User → BookingRideRow → Db → Outcome
commit_delete env user row db =
    if env.fails delete_row
    then refuse db 500 "Database error"
    else if is_accepted row.booking.request_status && env.fails release_seat
    then refuse db 500 "Database error"
    else if env.fails commit
    then refuse db 500 "Database error"
    else record {
      db = removed_db env row.booking db;
      response = record { status = 200; message = "Booking deleted successfully" };
      notices = removal_notices env user row;
    }

unfoldable pub delete_row_of : Env → User → Option BookingRideRow → Db → Outcome
unfolding commit_delete
delete_row_of env user none db = refuse db 404 "Booking not found"
delete_row_of env user (some row) db =
    if not (row.ride.host_user_id == user.id) && not (row.booking.passenger_id == user.id)
    then refuse db 403 "Only the ride host or the passenger can delete this booking"
    else commit_delete env user row db

unfoldable pub delete_id : Env → User → Option ℕ → Db → Outcome
unfolding delete_row_of
delete_id env user none db = refuse db 400 "Invalid booking ID format"
delete_id env user (some id) db =
    if env.fails begin_tx
    then refuse db 500 "Database error"
    else if env.fails load_row
    then refuse db 502 "Error finding booking"
    else delete_row_of env user (join_host_row id db) db

unfoldable pub delete_booking : Env → Locals → Option ℕ → Db → Outcome
unfolding delete_id
delete_booking env missing id db = refuse db 401 "User not authenticated"
delete_booking env malformed id db = refuse db 401 "Invalid user data"
delete_booking env (signed_in user) id db = delete_id env user id db
