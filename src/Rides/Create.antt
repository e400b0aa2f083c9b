-- ===== src/Rides/Create.antt =====
-- CreateRide of routes/rides/createRide.go.
use uni_pool_new_backend.Base.{
  ℕ, ◌&&◌, ◌||◌, not, Option, none, some, [], ◌∷◌, ◌++◌, ◌==◌, ltb, if◌then◌else◌, find_where,
}
use uni_pool_new_backend.Text.{is_female}
use uni_pool_new_backend.Model.{User, Ride}
use uni_pool_new_backend.Nested.{RideBody, key_of, with_user}
use uni_pool_new_backend.Store.{
  Db, Env, Locals, missing, malformed, signed_in, Outcome, load_user, create_row, refuse, visible,
}
use uni_pool_new_backend.Seats.{passenger_capacity, min_total_seats}
use uni_pool_new_backend.Rides.Locations.{apply_canonical_ride_coordinates}

-- The parsed body with the caller as host, or the host that the body nests, canonical coordinates and
-- a new id. The column update_notif_last_sent_at is not read from a body.
abbrev pub new_ride : Env → User → RideBody → Ride
new_ride env user body =
    record (apply_canonical_ride_coordinates (record body.ride { host_user_id = user.id })) {
      id = env.new_id;
      host_user_id = key_of body.host_user user.id env.nested_host_id;
      update_notif_last_sent_at = none;
    }

unfoldable pub insert_ride : Env → User → RideBody → Db → Outcome
insert_ride env user body db =
    if env.fails create_row
    then refuse db 500 "Error creating ride - (database creation error)"
    else record {
      db = record db {
        users = with_user env.nested_host_id body.host_user db.users;
        rides = db.rides ++ (new_ride env user body ∷ []);
      };
      response = record { status = 200; message = "OK" };
      notices = [];
    }

-- The checks, in the handler's order.
unfoldable pub check_ride : Env → User → User → RideBody → Db → Outcome
unfolding insert_ride
check_ride env user host body db =
    if ltb body.ride.start_time env.now
    then refuse db 400 "Start time is in the past"
    else if ltb body.ride.total_seats min_total_seats
    then refuse db 400 "Total seats must include you plus at least one passenger"
    else if ltb (passenger_capacity body.ride.total_seats) body.ride.booked_seats
    then refuse db 400 "Booked seats cannot exceed passenger capacity"
    else if body.ride.is_same_gender == 1 && not (is_female host.gender)
    then refuse db 403 "Only female hosts can create women-only rides"
    else if ltb body.ride.total_price 25 || ltb 10000 body.ride.total_price
    then refuse db 400 "Price too low!"
    else insert_ride env user body db

unfoldable pub create_with : Env → User → Option User → RideBody → Db → Outcome
unfolding check_ride
create_with env user none body db = refuse db 400 "Host user ID does not exist"
create_with env user (some host) body db = check_ride env user host body db

unfoldable pub load_host : Env → ℕ → Db → Option User
load_host env user_id db = find_where (λ u. u.id == user_id && visible env u.deleted_at) db.users

-- `CreateRide`, with `none` for a body that the parser refuses.
unfoldable pub create_ride : Env → Locals → Option RideBody → Db → Outcome
unfolding create_with
create_ride env missing body db = refuse db 401 "User not authenticated"
create_ride env malformed body db = refuse db 401 "Invalid user data"
create_ride env (signed_in user) none db = refuse db 400 "Error parsing JSON (body parser)"
create_ride env (signed_in user) (some body) db =
    if env.fails load_user
    then refuse db 502 "Error finding host user"
    else create_with env user (load_host env user.id db) body db
