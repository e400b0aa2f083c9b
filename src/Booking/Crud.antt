-- ===== src/Booking/Crud.antt =====
-- routes/CRUD/BookingCRUDRoutes.go: the generic routes on bookings. POST /booking/create and
-- PATCH /booking/update/:id are wired in server/server.go; this file's DeleteBooking is not.
--
-- helpers.ValidateBooking calls a third-party validator: it is the parameter `validate`.
pub mod Bypass
use uni_pool_new_backend.Base.{
  ℕ, Bool, ◌&&◌, ◌||◌, not, Option, none, some, [], ◌∷◌, ◌++◌, is_none, ◌==◌, if◌then◌else◌,
  find_where, update_where,
}
use uni_pool_new_backend.Model.{
  User, Ride, Booking, RequestStatus, is_blank, is_accepted, status_eq,
}
use uni_pool_new_backend.Store.{
  Db, Env, Locals, missing, malformed, signed_in, Outcome, begin_tx, load_row, load_booking,
  create_row, update_booking, delete_row, release_seat, commit, refuse, visible,
}
use uni_pool_new_backend.Nested.{BookingBody, created_row, nested_fits, with_nested, with_booking}
use uni_pool_new_backend.Booking.Request.{pair_taken}
use uni_pool_new_backend.Booking.Accept.{set_status}
use uni_pool_new_backend.Booking.Removal.{removed_db}

-- The foreign keys of 00001_init.sql.
unfoldable pub keys_exist : Booking → Db → Bool
keys_exist b db =
    not (is_none (find_where (λ r. r.id == b.ride_id) db.rides))
    && not (is_none (find_where (λ u. u.id == b.passenger_id) db.users))

-- A booking with the ride that the LEFT JOIN finds for it.
pub record BookingAuthRow : Type 0 where
  pub booking : Booking
  pub ride : Option Ride

unfoldable pub auth_row : ℕ → Db → Option BookingAuthRow
auth_row id db = elim (find_where (λ b. b.id == id && is_none b.deleted_at) db.bookings) [
  | none ↦ none
  | some b ↦
      if b.id == 0
      then none
      else some (record {
        booking = b;
        ride = find_where (λ r. r.id == b.ride_id && is_none r.deleted_at) db.rides;
      })
]

module _ (validate : Booking → Bool) where
  unfoldable pub create_booking : Env → Option BookingBody → Db → Outcome
  create_booking env none db = refuse db 400 "Invalid JSON body"
  create_booking env (some body) db =
      if not (validate body.booking)
      then refuse db 400 "validation"
      else if env.fails load_booking
      then refuse db 502 "Error checking existing booking"
      else if not (
          is_none (
            find_where
              (λ b.
                b.ride_id == body.booking.ride_id
                && (b.passenger_id == body.booking.passenger_id && visible env b.deleted_at))
              db.bookings))
      then refuse db 409 "Booking already exists for this ride and passenger"
      else if env.fails create_row
          || (pair_taken (created_row env body).ride_id (created_row env body).passenger_id
                db.bookings
              || (not (nested_fits body.ride db.users)
                  || not (keys_exist (created_row env body) (with_nested env body db))))
      then refuse db 500 "Database error"
      else record {
        db = with_booking env body db;
        response = record { status = 201; message = "created" };
        notices = [];
      }

  unfoldable pub update_found : Env → User → Booking → BookingAuthRow → Option Ride → Db → Outcome
  update_found env user payload existing none db = refuse db 404 "Ride not found"
  update_found env user payload existing (some ride) db =
      if not (ride.host_user_id == user.id) && not (existing.booking.passenger_id == user.id)
      then refuse db 403 "Only the ride host or the passenger can update this booking"
      else if not (is_blank payload.request_status)
          && not (status_eq payload.request_status existing.booking.request_status)
      then (if env.fails update_booking then refuse db 500 "Database error" else record {
        db = record db {
          bookings =
              update_where (λ b. b.id == existing.booking.id && visible env b.deleted_at)
                (set_status payload.request_status) db.bookings;
        };
        response = record { status = 200; message = "updated" };
        notices = [];
      })
      else refuse db 409 "No fields were updated"

  unfoldable pub update_row : Env → User → Booking → Option BookingAuthRow → Db → Outcome
  unfolding update_found
  update_row env user payload none db = refuse db 404 "Booking not found"
  update_row env user payload (some existing) db =
      update_found env user payload existing existing.ride db

  unfoldable pub update_parsed : Env → User → Option ℕ → Option Booking → Db → Outcome
  unfolding update_row
  update_parsed env user none payload db = refuse db 400 "Invalid booking ID format"
  update_parsed env user (some id) none db = refuse db 400 "Invalid JSON body"
  update_parsed env user (some id) (some payload) db =
      if not (validate payload)
      then refuse db 400 "validation"
      else if env.fails load_row
      then refuse db 502 "Error finding booking"
      else update_row env user payload (auth_row id db) db

  -- `UpdateBooking`, with the path's id and the parsed body.
  unfoldable pub update_booking_by_id : Env → Locals → Option ℕ → Option Booking → Db → Outcome
  unfolding update_parsed
  update_booking_by_id env missing id payload db = refuse db 401 "User not authenticated"
  update_booking_by_id env malformed id payload db = refuse db 401 "Invalid user data"
  update_booking_by_id env (signed_in user) id payload db = update_parsed env user id payload db

unfoldable pub crud_delete_found : Env → User → BookingAuthRow → Option Ride → Db → Outcome
crud_delete_found env user row none db = refuse db 404 "Ride not found"
crud_delete_found env user row (some ride) db =
    if not (ride.host_user_id == user.id) && not (row.booking.passenger_id == user.id)
    then refuse db 403 "Only the ride host or the passenger can delete this booking"
    else if env.fails delete_row
    then refuse db 500 "Database error"
    else if is_accepted row.booking.request_status && env.fails release_seat
    then refuse db 500 "Database error"
    else if env.fails commit
    then refuse db 500 "Database error"
    else record {
      db = removed_db env row.booking db;
      response = record { status = 204; message = "" };
      notices = [];
    }

unfoldable pub crud_delete_row : Env → User → Option BookingAuthRow → Db → Outcome
unfolding crud_delete_found
crud_delete_row env user none db = refuse db 404 "Booking not found"
crud_delete_row env user (some row) db = crud_delete_found env user row row.ride db

-- CRUD's `DeleteBooking`.
unfoldable pub crud_delete_booking : Env → Locals → Option ℕ → Db → Outcome
unfolding crud_delete_row
crud_delete_booking env missing id db = refuse db 401 "User not authenticated"
crud_delete_booking env malformed id db = refuse db 401 "Invalid user data"
crud_delete_booking env (signed_in user) none db = refuse db 400 "Invalid booking ID format"
crud_delete_booking env (signed_in user) (some id) db =
    if env.fails begin_tx
    then refuse db 500 "Database error"
    else if env.fails load_row
    then refuse db 502 "Error finding booking"
    else crud_delete_row env user (auth_row id db) db
