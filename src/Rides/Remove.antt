-- ===== src/Rides/Remove.antt =====
-- DeleteRideByID of routes/CRUD/RideCRUDRoutes.go.
use uni_pool_new_backend.Base.{
  ℕ, Bool, ◌&&◌, not, Option, none, some, List, [], ◌∷◌, ◌==◌, ltb, if◌then◌else◌, find_where,
  count_where, delete_where,
}
use uni_pool_new_backend.Model.{User, Ride, Booking, is_accepted, is_pending}
use uni_pool_new_backend.Store.{
  Db, Env, Locals, missing, malformed, signed_in, Outcome, Notice, push, NoticeKind, load_row,
  count_rows, fetch_pending, delete_row, refuse, visible, delete_rides_where,
}

-- The count of accepted bookings, by the ORM's own view of the rows.
abbrev pub is_accepted_row : Env → ℕ → Booking → Bool
is_accepted_row env ride_id b =
    b.ride_id == ride_id && (is_accepted b.request_status && visible env b.deleted_at)

abbrev pub is_pending_row : Env → ℕ → Booking → Bool
is_pending_row env ride_id b =
    b.ride_id == ride_id && (is_pending b.request_status && visible env b.deleted_at)

-- A push to the passenger of each pending booking.
unfoldable pub pending_pushes : Env → ℕ → List Booking → List Notice
pending_pushes env ride_id [] = []
pending_pushes env ride_id (b ∷ bs) =
    let rest = pending_pushes env ride_id bs in
    if is_pending_row env ride_id b
    then push NoticeKind.ride_cancelled_pending b.passenger_id ∷ rest
    else rest

-- The row goes; where the ORM removes it, the bookings go by ON DELETE CASCADE.
unfoldable pub without_ride : Env → ℕ → Db → Db
without_ride env ride_id db = record db {
  rides = delete_rides_where env (λ r. r.id == ride_id) db.rides;
  bookings =
      if env.soft_delete then db.bookings else delete_where (λ b. b.ride_id == ride_id) db.bookings;
}

unfoldable pub remove_ride : Env → User → ℕ → Ride → Db → Outcome
remove_ride env user ride_id ride db =
    if not (ride.host_user_id == user.id)
    then refuse db 403 "Only the ride host can delete this ride"
    else if env.fails count_rows
    then refuse db 500 "Error checking ride bookings"
    else if ltb 0 (count_where (is_accepted_row env ride_id) db.bookings)
    then refuse db 400 "You can't delete this ride"
    else if env.fails delete_row
    then refuse db 500 "Error deleting ride"
    else record {
      db = without_ride env ride.id db;
      response = record { status = 200; message = "Ride deleted" };
      notices =
          if env.fcm_ready && not (env.fails fetch_pending)
          then pending_pushes env ride_id db.bookings
          else [];
    }

unfoldable pub remove_ride_row : Env → User → ℕ → Option Ride → Db → Outcome
unfolding remove_ride
remove_ride_row env user ride_id none db = refuse db 404 "Ride not found"
remove_ride_row env user ride_id (some ride) db = remove_ride env user ride_id ride db

unfoldable pub find_ride : Env → ℕ → Db → Option Ride
find_ride env ride_id db = find_where (λ r. r.id == ride_id && visible env r.deleted_at) db.rides

unfoldable pub delete_ride_by_id : Env → Locals → Option ℕ → Db → Outcome
unfolding remove_ride_row
delete_ride_by_id env missing id db = refuse db 401 "User not authenticated"
delete_ride_by_id env malformed id db = refuse db 401 "Invalid user data"
delete_ride_by_id env (signed_in user) none db = refuse db 400 "Invalid ride ID format"
delete_ride_by_id env (signed_in user) (some ride_id) db =
    if env.fails load_row
    then refuse db 500 "Error finding ride"
    else remove_ride_row env user ride_id (find_ride env ride_id db) db
