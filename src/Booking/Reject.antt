-- ===== src/Booking/Reject.antt =====
-- routes/bookings/Reject.go, in the steps of `accept_route`.
pub mod Seats
use uni_pool_new_backend.Base.{
  ℕ, not, Option, none, some, ◌==◌, if◌then◌else◌, count_where, update_where,
}
use uni_pool_new_backend.Model.{User, RequestStatus, is_pending, is_rejected}
use uni_pool_new_backend.Store.{
  Db, Env, Locals, missing, malformed, signed_in, Outcome, NoticeKind, update_booking, commit,
  refuse, notify,
}
use uni_pool_new_backend.Booking.Load.{BookingRideRow, load_booking}
use uni_pool_new_backend.Booking.Accept.{still_pending}

unfoldable pub commit_reject : Env → BookingRideRow → Db → Outcome
commit_reject env row db =
    if env.fails update_booking
    then refuse db 500 "Error updating booking status"
    else if count_where (still_pending env row.booking.id) db.bookings == 0
    then refuse db 409 "Booking is no longer pending"
    else if env.fails commit
    then refuse db 500 "Error committing transaction"
    else record {
      db = record db {
        bookings =
            update_where (still_pending env row.booking.id)
              (λ b. record b { request_status = RequestStatus.rejected }) db.bookings;
      };
      response = record { status = 200; message = "Booking rejected successfully" };
      notices = notify env NoticeKind.rejected row.booking.passenger_id;
    }

unfoldable pub decide_reject : Env → User → BookingRideRow → Db → Outcome
unfolding commit_reject
decide_reject env user row db =
    if not (row.ride.host_user_id == user.id)
    then refuse db 403 "Only the ride host can reject booking requests"
    else if is_rejected row.booking.request_status
    then refuse db 200 "Booking already rejected"
    else if not (is_pending row.booking.request_status)
    then refuse db 409 "Only pending bookings can be rejected"
    else commit_reject env row db

unfoldable pub reject_row : Env → User → Option BookingRideRow → Db → Outcome
unfolding decide_reject
reject_row env user none db = refuse db 404 "Booking not found"
reject_row env user (some row) db = decide_reject env user row db

unfoldable pub reject_route : Env → Locals → Option ℕ → Db → Outcome
unfolding reject_row load_booking
reject_route env missing id db = refuse db 401 "User not authenticated"
reject_route env malformed id db = refuse db 401 "Invalid user data"
reject_route env (signed_in user) id db = reject_row env user (load_booking env id db) db
