-- ===== src/Booking/Request.antt =====
-- routes/bookings/Request.go: a passenger asks for a seat.
pub mod Gate
use uni_pool_new_backend.Base.{
  ℕ, Bool, true, false, ◌&&◌, ◌||◌, not, Option, none, some, String, List, [], ◌∷◌, ◌++◌, is_none,
  ◌==◌, ltb, if◌then◌else◌, find_where, count_where,
}
use uni_pool_new_backend.Model.{
  User, Ride, Booking, RequestStatus, PaymentStatus, DismissalSignal, is_blank, is_pending,
  is_accepted,
}
use uni_pool_new_backend.Store.{
  Db, Env, Locals, missing, malformed, signed_in, Outcome, NoticeKind, load_row, create_row, refuse,
  notify,
}
use uni_pool_new_backend.Nested.{BookingBody, created_row, nested_fits, with_booking}
use uni_pool_new_backend.Text.{is_female}
use uni_pool_new_backend.Seats.{can_accept_another_passenger}

-- COUNT(*) of the accepted bookings of a ride that are not deleted.
unfoldable pub accepted_count : ℕ → List Booking → ℕ
accepted_count ride_id =
    count_where
      (λ b. b.ride_id == ride_id && (is_accepted b.request_status && is_none b.deleted_at))

pub record Preflight : Type 0 where
  pub ride : Ride
  pub host : User
  pub accepted_count : ℕ
  pub existing_booking : Option Booking

-- The pre-flight query.
unfoldable pub preflight : ℕ → ℕ → Db → Option Preflight
preflight passenger_id ride_id db =
    elim (find_where (λ r. r.id == ride_id && is_none r.deleted_at) db.rides) [
      | none ↦ none
      | some r ↦ elim (find_where (λ u. u.id == r.host_user_id) db.users) [
        | none ↦ none
        | some h ↦
            if r.id == 0
            then none
            else some (record {
              ride = r;
              host = h;
              accepted_count = accepted_count r.id db.bookings;
              existing_booking =
                  find_where
                    (λ b.
                      b.ride_id == r.id && (b.passenger_id == passenger_id && is_none b.deleted_at))
                    db.bookings;
            })
      ]
    ]

-- The parsed body with the three fields that the handler sets. The other columns, and the rows that
-- the body nests, stay as the body has them.
abbrev pub request_of : User → Preflight → BookingBody → BookingBody
request_of user target body = record body {
  booking = record body.booking {
    ride_id = target.ride.id;
    passenger_id = user.id;
    request_status = RequestStatus.pending;
  };
}

-- The row that is inserted for it.
abbrev pub new_booking : Env → User → Preflight → BookingBody → Booking
new_booking env user target body = created_row env (request_of user target body)

-- The unique index on (ride_id, passenger_id) of 00001_init.sql counts deleted rows too.
unfoldable pub pair_taken : ℕ → ℕ → List Booking → Bool
pair_taken ride_id passenger_id bookings =
    not (count_where (λ b. b.ride_id == ride_id && b.passenger_id == passenger_id) bookings == 0)

unfoldable pub insert_request : Env → User → Preflight → BookingBody → Db → Outcome
insert_request env user target body db =
    let row = new_booking env user target body in
    if env.fails create_row
      || (pair_taken row.ride_id row.passenger_id db.bookings
          || not (nested_fits body.ride db.users))
    then refuse db 500 "Database error"
    else record {
      db = with_booking env (request_of user target body) db;
      response = record { status = 201; message = "pending" };
      notices = notify env NoticeKind.requested target.ride.host_user_id;
    }

-- The gates, in the handler's order.
unfoldable pub gate_request : Env → User → Preflight → BookingBody → Db → Outcome
unfolding insert_request
gate_request env user target body db =
    if not (is_none target.existing_booking)
    then refuse db 409 "already_booked"
    else if target.ride.host_user_id == user.id
    then refuse db 400 "self_booking"
    else if not (target.ride.is_ongoing == 0) || not (ltb env.now target.ride.start_time)
    then refuse db 409 "ride_started"
    else if not (can_accept_another_passenger target.ride.total_seats target.accepted_count)
    then refuse db 409 "ride_full"
    else if target.ride.is_same_gender == 1 && not (is_female user.gender)
    then refuse db 403 "women_only"
    else insert_request env user target body db

unfoldable pub request_target : Env → User → Option Preflight → BookingBody → Db → Outcome
unfolding gate_request
request_target env user none body db = refuse db 404 "Ride not found"
request_target env user (some target) body db = gate_request env user target body db

unfoldable pub load_target : Env → User → Booking → Db → Option Preflight
load_target env user body db =
    if env.fails load_row then none else preflight user.id body.ride_id db

unfoldable pub request_body : Env → User → Option BookingBody → Db → Outcome
unfolding request_target
request_body env user none db = refuse db 400 "Invalid request body"
request_body env user (some body) db =
    if not (is_blank body.booking.request_status) && not (is_pending body.booking.request_status)
    then refuse db 400 "invalid_request_status"
    else request_target env user (load_target env user body.booking db) body db

-- `Request`. The body is `none` where the parser refuses it.
unfoldable pub request : Env → Locals → Option BookingBody → Db → Outcome
unfolding request_body
request env missing body db = refuse db 401 "User not authenticated"
request env malformed body db = refuse db 401 "Invalid user data"
request env (signed_in user) body db = request_body env user body db
