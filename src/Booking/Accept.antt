-- ===== src/Booking/Accept.antt =====
-- routes/bookings/Accept.go. The transaction reads a joined row, decides on it, and then writes
-- under conditions that are checked again at the time of the write: `commit_accept` takes the row
-- that was read, and the database as it then is.
pub mod Seats
pub mod Effect
use uni_pool_new_backend.Base.{
  ℕ, ◌+◌, Bool, ◌&&◌, not, Option, none, some, ◌==◌, if◌then◌else◌, count_where, update_where,
}
use uni_pool_new_backend.Model.{User, Ride, Booking, RequestStatus, is_pending, is_accepted}
use uni_pool_new_backend.Store.{
  Db, Env, Locals, missing, malformed, signed_in, Outcome, NoticeKind, reserve_seat, update_booking,
  commit, refuse, visible, notify,
}
use uni_pool_new_backend.Seats.{seats_left_predicate}
use uni_pool_new_backend.Booking.Load.{BookingRideRow, load_booking}

-- WHERE id = ? AND booked_seats < total_seats - 1
abbrev pub has_seat : Env → ℕ → Ride → Bool
has_seat env ride_id r =
    r.id == ride_id
    && (visible env r.deleted_at && seats_left_predicate r.total_seats r.booked_seats)

-- WHERE id = ? AND request_status = 'pending'
abbrev pub still_pending : Env → ℕ → Booking → Bool
still_pending env booking_id b =
    b.id == booking_id && (visible env b.deleted_at && is_pending b.request_status)

abbrev pub take_seat : Ride → Ride
take_seat r = record r { booked_seats = r.booked_seats + 1 }

abbrev pub set_status : RequestStatus → Booking → Booking
set_status status b = record b { request_status = status }

-- The two updates, each with its test of RowsAffected, and the commit.
unfoldable pub commit_accept : Env → BookingRideRow → Db → Outcome
commit_accept env row db =
    if env.fails reserve_seat
    then refuse db 500 "Error updating booked seats for ride"
    else if count_where (has_seat env row.ride.id) db.rides == 0
    then refuse db 400 "No available seats for this ride"
    else if env.fails update_booking
    then refuse db 500 "Error updating booking status"
    else if count_where (still_pending env row.booking.id) db.bookings == 0
    then refuse db 409 "Booking is no longer pending"
    else if env.fails commit
    then refuse db 500 "Error committing transaction"
    else record {
      db = record db {
        rides = update_where (has_seat env row.ride.id) take_seat db.rides;
        bookings =
            update_where (still_pending env row.booking.id) (set_status RequestStatus.accepted)
              db.bookings;
      };
      response = record { status = 200; message = "Booking accepted successfully" };
      notices = notify env NoticeKind.accepted row.booking.passenger_id;
    }

-- The checks between the read and the first update.
unfoldable pub decide_accept : Env → User → BookingRideRow → Db → Outcome
unfolding commit_accept
decide_accept env user row db =
    if not (row.ride.host_user_id == user.id)
    then refuse db 403 "Only the ride host can accept booking requests"
    else if is_accepted row.booking.request_status
    then refuse db 200 "Booking already accepted"
    else if not (is_pending row.booking.request_status)
    then refuse db 409 "Only pending bookings can be accepted"
    else commit_accept env row db

unfoldable pub accept_row : Env → User → Option BookingRideRow → Db → Outcome
unfolding decide_accept
accept_row env user none db = refuse db 404 "Booking not found"
accept_row env user (some row) db = decide_accept env user row db

unfoldable pub accept_route : Env → Locals → Option ℕ → Db → Outcome
unfolding accept_row load_booking
accept_route env missing id db = refuse db 401 "User not authenticated"
accept_route env malformed id db = refuse db 401 "Invalid user data"
accept_route env (signed_in user) id db = accept_row env user (load_booking env id db) db
