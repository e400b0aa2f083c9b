-- ===== src/Rides/Update.antt =====
-- UpdateRideByID of routes/CRUD/RideCRUDRoutes.go, with the push that it starts taken as done before the
-- next request.
use uni_pool_new_backend.Base.{
  ℕ, ◌+◌, Bool, false, ◌&&◌, ◌||◌, not, Option, none, some, String, List, [], ◌∷◌, ◌==◌, ltb, leb,
  if◌then◌else◌, update_where,
}
use uni_pool_new_backend.Text.{codes, codes_eq}
use uni_pool_new_backend.Model.{User, Ride, Booking}
use uni_pool_new_backend.Store.{
  Db, Env, Locals, missing, malformed, signed_in, Outcome, Notice, push, NoticeKind, load_row,
  load_user, load_booking, update_ride, stamp_notice, refuse, visible,
}
use uni_pool_new_backend.Rides.Create.{load_host}
use uni_pool_new_backend.Rides.Remove.{is_accepted_row, find_ride}

-- The ORM's `Updates` with a struct writes the fields that are not Go's zero values.
abbrev pub or_number : ℕ → ℕ → ℕ
or_number new old = if new == 0 then old else new

abbrev pub or_text : String → String → String
or_text new old = if codes_eq (codes new) [] then old else new

abbrev pub or_option {ℓ} : {A : Type ℓ} → Option A → Option A → Option A
or_option none old = old
or_option (some a) old = some a

-- The body does not carry update_notif_last_sent_at.
abbrev pub updated : Ride → Ride → Ride
updated new r = record {
  id = or_number new.id r.id;
  deleted_at = or_option new.deleted_at r.deleted_at;
  host_user_id = or_number new.host_user_id r.host_user_id;
  start_location = or_text new.start_location r.start_location;
  end_location = or_text new.end_location r.end_location;
  start_latitude = or_option new.start_latitude r.start_latitude;
  start_longitude = or_option new.start_longitude r.start_longitude;
  end_latitude = or_option new.end_latitude r.end_latitude;
  end_longitude = or_option new.end_longitude r.end_longitude;
  start_time = or_number new.start_time r.start_time;
  total_seats = or_number new.total_seats r.total_seats;
  booked_seats = or_number new.booked_seats r.booked_seats;
  total_price = or_number new.total_price r.total_price;
  is_ongoing = or_number new.is_ongoing r.is_ongoing;
  is_same_gender = or_number new.is_same_gender r.is_same_gender;
  vehicle_info = or_text new.vehicle_info r.vehicle_info;
  update_notif_last_sent_at = r.update_notif_last_sent_at;
}

abbrev pub is_row : Env → ℕ → Ride → Bool
is_row env ride_id r = r.id == ride_id && visible env r.deleted_at

-- Five minutes, in nanoseconds.
abbrev pub cooldown : ℕ
cooldown = 300000000000

-- Some change is worth a push.
unfoldable pub has_changes : Ride → Ride → Bool
has_changes old new =
    not (new.start_time == old.start_time)
    || (not (codes_eq (codes new.start_location) (codes old.start_location))
        || (not (codes_eq (codes new.end_location) (codes old.end_location))
            || not (new.total_price == old.total_price)))

unfoldable pub is_cooling : Env → Ride → Bool
is_cooling env ride = elim ride.update_notif_last_sent_at [
  | none ↦ false
  | some last ↦ ltb env.now (last + cooldown)
]

unfoldable pub accepted_pushes : Env → ℕ → List Booking → List Notice
accepted_pushes env ride_id [] = []
accepted_pushes env ride_id (b ∷ bs) =
    let rest = accepted_pushes env ride_id bs in
    if is_accepted_row env ride_id b
    then push NoticeKind.ride_updated b.passenger_id ∷ rest
    else rest

abbrev pub stamped : Env → ℕ → Db → Db
stamped env ride_id db = record db {
  rides =
      update_where (is_row env ride_id) (λ r. record r { update_notif_last_sent_at = some env.now })
        db.rides;
}

-- The goroutine. A stamp that fails does not keep it from sending.
unfoldable pub announce : Env → Ride → Ride → Db → Db × List Notice
announce env old new db =
    if not (has_changes old new)
      || (is_cooling env new || (not env.fcm_ready || env.fails load_booking))
    then (db, [])
    else (
      if env.fails stamp_notice then db else stamped env new.id db,
      accepted_pushes env new.id db.bookings,
    )

unfoldable pub write_update : Env → Ride → Ride → Db → Outcome
write_update env ride new db =
    let written : Db = record db {
      rides = update_where (is_row env ride.id) (updated new) db.rides;
    } in
    let after = announce env ride (updated new ride) written in
    if env.fails update_ride then refuse db 500 "Error updating ride" else record {
      db = after.0;
      response = record { status = 200; message = "OK" };
      notices = after.1;
    }

unfoldable pub check_update : Env → Ride → Ride → Option User → Db → Outcome
unfolding write_update
check_update env ride new none db = refuse db 400 "Host user ID does not exist"
check_update env ride new (some host) db =
    if ltb new.start_time env.now
    then refuse db 400 "Start time is in the past"
    else if leb new.total_seats new.booked_seats
    then refuse db 400 "Total seats available should be more than booked seats"
    else if ltb new.total_price 25 || ltb 10000 new.total_price
    then refuse db 400 "Price too low!"
    else write_update env ride new db

unfoldable pub update_owned : Env → Ride → Option Ride → Db → Outcome
unfolding check_update
update_owned env ride none db = refuse db 400 "Error parsing JSON (body parser)"
update_owned env ride (some new) db =
    if env.fails load_user
    then refuse db 502 "Error finding host user"
    else check_update env ride new (load_host env new.host_user_id db) db

unfoldable pub update_ride_row : Env → User → Option Ride → Option Ride → Db → Outcome
unfolding update_owned
update_ride_row env user none body db = refuse db 404 "Ride not found"
update_ride_row env user (some ride) body db =
    if not (ride.host_user_id == user.id)
    then refuse db 403 "Only the host can update this ride"
    else update_owned env ride body db

unfoldable pub update_ride_by_id : Env → Locals → Option ℕ → Option Ride → Db → Outcome
unfolding update_ride_row
update_ride_by_id env missing id body db = refuse db 401 "User not authenticated"
update_ride_by_id env malformed id body db = refuse db 401 "Invalid user data"
update_ride_by_id env (signed_in user) none body db = refuse db 400 "Invalid ride ID"
update_ride_by_id env (signed_in user) (some ride_id) body db =
    if env.fails load_row
    then refuse db 500 "Error finding ride"
    else update_ride_row env user (find_ride env ride_id db) body db
