-- ===== src/TripCard/Active.antt =====
-- BuildActiveTripCard of routes/bookings/TripCard.go: the one trip that the home screen shows.
-- The host's picture and UPI address are further columns of the same row, left out here. Rows that
-- start at the same instant are ordered as the tables list them; the database may order them otherwise.
use uni_pool_new_backend.Base.{
  ℕ, ◌+◌, ◌*◌, Bool, ◌&&◌, not, Option, none, some, String, List, [], ◌∷◌, ◌++◌, is_none, ◌==◌, ltb,
  leb, if◌then◌else◌, find_where,
}
use uni_pool_new_backend.Model.{User, Ride, Booking, is_accepted}
use uni_pool_new_backend.Store.{Db, Env, load_row}

-- Nanoseconds.
abbrev pub hour : ℕ
hour = 3600000000000

abbrev pub day : ℕ
day = 24 * hour

pub data Stage : Type 0 where
  upcoming in_window stale : Stage

pub record Trip : Type 0 where
  pub booking : Booking
  pub ride : Ride

-- rides JOIN bookings, of both candidate queries.
abbrev pub is_trip : ℕ → Ride → Booking → Bool
is_trip user_id r b =
    b.ride_id == r.id
    && (b.passenger_id == user_id
        && (is_accepted b.request_status
            && (is_none b.deleted_at
                && (is_none r.deleted_at && not (r.host_user_id == b.passenger_id)))))

unfoldable pub trips_on : ℕ → Ride → List Booking → List Trip
trips_on user_id r [] = []
trips_on user_id r (b ∷ bs) =
    let rest = trips_on user_id r bs in
    if is_trip user_id r b then record { booking = b; ride = r } ∷ rest else rest

unfoldable pub trips : ℕ → List Booking → List Ride → List Trip
trips user_id bookings [] = []
trips user_id bookings (r ∷ rs) = trips_on user_id r bookings ++ trips user_id bookings rs

-- start_time BETWEEN now AND now + 12h
abbrev pub is_upcoming : ℕ → Trip → Bool
is_upcoming now t = leb now t.ride.start_time && leb t.ride.start_time (now + 12 * hour)

-- Not dismissed, and begun within the last week.
abbrev pub is_recent : ℕ → Trip → Bool
is_recent now t =
    is_none t.booking.dismissed_at
    && (leb now (t.ride.start_time + 7 * day) && ltb t.ride.start_time now)

-- WHERE p ORDER BY start_time LIMIT 1, with `before` for ASC or DESC.
unfoldable pub first_by : (ℕ → ℕ → Bool) → (Trip → Bool) → List Trip → Option Trip
first_by before p [] = none
first_by before p (t ∷ ts) =
    let rest = first_by before p ts in
    if p t
    then elim rest [
      | none ↦ some t
      | some u ↦ if before t.ride.start_time u.ride.start_time then some t else some u
    ]
    else rest

pub record TripCard : Type 0 where
  pub booking_id : ℕ
  pub ride_id : ℕ
  pub host_user_id : ℕ
  pub host_name : String
  pub start_location : String
  pub end_location : String
  pub start_time : ℕ
  pub total_price : ℕ
  pub stage : Stage

-- The `switch` on the stage.
unfoldable pub stage_of : ℕ → ℕ → Stage
stage_of now start_time =
    if ltb now start_time
    then Stage.upcoming
    else if ltb now (start_time + day)
    then Stage.in_window
    else Stage.stale

unfoldable pub card_of : ℕ → Trip → User → TripCard
unfolding stage_of
card_of now t host = record {
  booking_id = t.booking.id;
  ride_id = t.ride.id;
  host_user_id = host.id;
  host_name = host.name;
  start_location = t.ride.start_location;
  end_location = t.ride.end_location;
  start_time = t.ride.start_time;
  total_price = t.ride.total_price;
  stage = stage_of now t.ride.start_time;
}

-- candidate JOIN users
unfoldable pub with_host : ℕ → List User → Option Trip → Option TripCard
unfolding card_of
with_host now users none = none
with_host now users (some t) = elim (find_where (λ u. u.id == t.ride.host_user_id) users) [
  | none ↦ none
  | some host ↦ some (card_of now t host)
]

-- ORDER BY bucket LIMIT 1
unfoldable pub first_card : Option TripCard → Option TripCard → Option TripCard
first_card (some card) other = some card
first_card none other = other

-- A row without a booking's id is no card.
unfoldable pub real_card : Option TripCard → Option TripCard
real_card none = none
real_card (some card) = if card.booking_id == 0 then none else some card

unfoldable pub next_trip : ℕ → ℕ → Db → Option Trip
next_trip now user_id db = first_by leb (is_upcoming now) (trips user_id db.bookings db.rides)

unfoldable pub last_trip : ℕ → ℕ → Db → Option Trip
last_trip now user_id db =
    first_by (λ a b. leb b a) (is_recent now) (trips user_id db.bookings db.rides)

unfoldable pub build_active_trip_card : Env → ℕ → Db → Option TripCard
unfolding next_trip last_trip with_host first_card real_card
build_active_trip_card env user_id db =
    if env.fails load_row
    then none
    else real_card (
        first_card (with_host env.now db.users (next_trip env.now user_id db))
          (with_host env.now db.users (last_trip env.now user_id db)))
