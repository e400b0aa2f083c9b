-- ===== src/Booking/Participants.antt =====
-- routes/rides/participants.go: a passenger leaves a ride, or its host removes one.
pub mod Seats
use uni_pool_new_backend.Base.{
  ℕ, ◌&&◌, not, Option, none, some, [], ◌==◌, if◌then◌else◌, find_where,
}
use uni_pool_new_backend.Model.{User, Ride, Booking, is_accepted}
use uni_pool_new_backend.Store.{
  Db, Env, Locals, missing, malformed, signed_in, Outcome, begin_tx, load_row, load_booking,
  delete_row, release_seat, commit, refuse, visible,
}
use uni_pool_new_backend.Booking.Removal.{removed_db}

-- First(&booking) of the ride and the passenger.
unfoldable pub find_participant : Env → ℕ → ℕ → Db → Option Booking
find_participant env ride_id passenger_id db =
    find_where
      (λ b. b.ride_id == ride_id && (b.passenger_id == passenger_id && visible env b.deleted_at))
      db.bookings

unfoldable pub remove_found : Env → Option Booking → Db → Outcome
remove_found env none db = refuse db 404 "participant booking not found"
remove_found env (some booking) db =
    if env.fails delete_row
    then refuse db 500 "delete failed"
    else if is_accepted booking.request_status && env.fails release_seat
    then refuse db 500 "seat update failed"
    else if env.fails commit
    then refuse db 500 "commit failed"
    else record {
      db = removed_db env booking db;
      response = record { status = 200; message = "success" };
      notices = [];
    }

unfoldable pub remove_from_ride : Env → User → ℕ → Option Ride → Db → Outcome
unfolding remove_found
remove_from_ride env user participant_id none db = refuse db 404 "ride not found"
remove_from_ride env user participant_id (some ride) db =
    if participant_id == ride.host_user_id
    then refuse db 400 "the host cannot be removed as a passenger"
    else if not (user.id == participant_id) && not (user.id == ride.host_user_id)
    then refuse db 403 "not allowed to remove this participant"
    else if env.fails load_booking
    then refuse db 500 "lookup failed"
    else remove_found env (find_participant env ride.id participant_id db) db

unfoldable pub remove_parsed : Env → User → Option ℕ → Option ℕ → Db → Outcome
unfolding remove_from_ride
remove_parsed env user none participant db = refuse db 400 "invalid ride id"
remove_parsed env user (some ride_id) none db = refuse db 400 "invalid user id"
remove_parsed env user (some ride_id) (some participant_id) db =
    if env.fails begin_tx
    then refuse db 500 "transaction failed"
    else if env.fails load_row
    then refuse db 500 "lookup failed"
    else remove_from_ride env user participant_id
        (find_where (λ r. r.id == ride_id && visible env r.deleted_at) db.rides) db

-- The path's ride_id and user_id, each `none` where it is no uuid.
unfoldable pub remove_ride_participant : Env → Locals → Option ℕ → Option ℕ → Db → Outcome
unfolding remove_parsed
remove_ride_participant env missing ride participant db = refuse db 401 "unauthorized"
remove_ride_participant env malformed ride participant db = refuse db 401 "unauthorized"
remove_ride_participant env (signed_in user) ride participant db =
    remove_parsed env user ride participant db
