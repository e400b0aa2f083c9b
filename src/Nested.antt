-- ===== src/Nested.antt =====
-- Bodies that nest other rows: the associations Ride and Passenger of models/BookingModel.go and
-- HostUser of models/RideModel.go, and what the ORM's Create does with them.
--
-- BodyParser fills them from the fields `ride`, `passenger` and `host_user` of a body. Create then
-- inserts each that is not Go's zero value before the row itself, with the id that BeforeCreate draws
-- for it, and overwrites the foreign key of the row with this id. A nested user may nest an institute,
-- whose table is not in the model.
pub mod Balance
use uni_pool_new_backend.Base.{
  ℕ, Bool, true, not, ◌||◌, Option, none, some, List, [], ◌∷◌, ◌++◌, is_none, ◌==◌, find_where,
  if◌then◌else◌, ◌+◌,
}
use uni_pool_new_backend.Model.{User, Ride, Booking}
use uni_pool_new_backend.Store.{Db, Env}

-- `none` is the zero value, as where the body leaves the field out.
pub record RideBody : Type 0 where
  pub ride : Ride
  pub host_user : Option User

pub record BookingBody : Type 0 where
  pub booking : Booking
  pub ride : Option RideBody
  pub passenger : Option User

-- The foreign key: as the handler set it, or the id that is drawn for the nested row.
abbrev pub key_of {ℓ} : {A : Type ℓ} → Option A → ℕ → ℕ → ℕ
key_of none set drawn = set
key_of (some _) set drawn = drawn

abbrev pub with_user : ℕ → Option User → List User → List User
with_user drawn none users = users
with_user drawn (some u) users = users ++ (record u { id = drawn } ∷ [])

abbrev pub nested_host : Option RideBody → Option User
nested_host none = none
nested_host (some body) = body.host_user

-- The ride that a booking's body nests, with the host that this nests in turn. The column
-- update_notif_last_sent_at is not read from a body.
abbrev pub nested_ride : Env → RideBody → Ride
nested_ride env body = record body.ride {
  id = env.nested_ride_id;
  host_user_id = key_of body.host_user body.ride.host_user_id env.nested_host_id;
  update_notif_last_sent_at = none;
}

abbrev pub with_ride : Env → Option RideBody → List Ride → List Ride
with_ride env none rides = rides
with_ride env (some body) rides = rides ++ (nested_ride env body ∷ [])

-- The foreign key of a nested ride: a host that it nests itself, or a user that is there.
abbrev pub nested_fits : Option RideBody → List User → Bool
nested_fits none users = true
nested_fits (some body) users =
    not (is_none body.host_user)
    || not (is_none (find_where (λ u. u.id == body.ride.host_user_id) users))

-- The tables with the nested rows of a booking's body.
abbrev pub with_nested : Env → BookingBody → Db → Db
with_nested env body db = record db {
  users =
      with_user env.nested_passenger_id body.passenger
        (with_user env.nested_host_id (nested_host body.ride) db.users);
  rides = with_ride env body.ride db.rides;
}

-- The row that `Create` inserts for a parsed booking: BeforeCreate draws its id, and the ORM stamps
-- created_at if the body left it out.
abbrev pub created_row : Env → BookingBody → Booking
created_row env body = record body.booking {
  id = env.new_id;
  created_at =
      if body.booking.created_at == 0 then env.now + env.elapsed else body.booking.created_at;
  ride_id = key_of body.ride body.booking.ride_id env.nested_ride_id;
  passenger_id = key_of body.passenger body.booking.passenger_id env.nested_passenger_id;
}

abbrev pub with_booking : Env → BookingBody → Db → Db
with_booking env body db = record (with_nested env body db) {
  bookings = db.bookings ++ (created_row env body ∷ []);
}
