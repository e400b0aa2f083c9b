-- ===== src/Rides/Launch.antt =====
-- routes/rides/createRide.go: when a ride is created, and the seat contract.
use uni_pool_new_backend.Base.{
  ◌+◌, ◌≡◌, ◌≢◌, refl, sym, ◌∙◌, ◌↔◌, ◌≤◌, true, false, some, [], ◌∷◌, ◌++◌, arith, All, last-All,
  All-append, Keyed-snoc, Option-cases, inl, inr, Bool-cases,
}
use uni_pool_new_backend.Text.{is_female}
use uni_pool_new_backend.Model.{User, Ride}
use uni_pool_new_backend.Store.{
  Db, Env, Locals, missing, malformed, signed_in, create_row, load_user,
}
use uni_pool_new_backend.Seats.{passenger_capacity}
use uni_pool_new_backend.Nested.{RideBody, key_of, with_user}
use uni_pool_new_backend.Nested.Balance.{none_booked}
use uni_pool_new_backend.Ledger.{IsSeated, IsBalanced}
use uni_pool_new_backend.Rides.Locations.{
  canonical_location_coords, apply_canonical_ride_coordinates,
}
use uni_pool_new_backend.Rides.Create.{new_ride, check_ride, load_host, create_ride}

-- What the handler asks of a new ride.
pub record IsOffer (env : Env) (host : User) (body : Ride) : Type 0 where
  pub upcoming : env.now ≤ body.start_time
  pub has_seat : 2 ≤ body.total_seats
  pub in_capacity : body.booked_seats + 1 ≤ body.total_seats
  pub women_only : body.is_same_gender ≡ 1 → is_female host.gender ≡ true
  pub fair_price : (25 ≤ body.total_price) × (body.total_price ≤ 10000)

pub check_ride-created_iff :
    (env : Env) (user host : User) (body : RideBody) (db : Db)
    → ((check_ride env user host body db).response.status ≡ 200)
      ↔ (IsOffer env host body.ride × (env.fails create_row ≡ false))
unfolding check_ride passenger_capacity
check_ride-created_iff env user host body db = (
  λ created. (
    record {
      upcoming = ground arith;
      has_seat = ground arith;
      in_capacity = ground arith;
      women_only = ground arith;
      fair_price = (ground arith, ground arith);
    },
    ground arith,
  ),
  λ h. ground arith,
)

-- The coordinates are the only columns that the labels touch.
new_ride-seats :
    (env : Env) (user : User) (body : RideBody)
    → ((new_ride env user body).id ≡ env.new_id)
      × ((new_ride env user body).booked_seats ≡ body.ride.booked_seats)
      × ((new_ride env user body).total_seats ≡ body.ride.total_seats)
      × ((new_ride env user body).host_user_id ≡ key_of body.host_user user.id env.nested_host_id)
unfolding apply_canonical_ride_coordinates
new_ride-seats env user body =
    elim (Option-cases (canonical_location_coords body.ride.start_location)) [
      | inl no_start ↦ elim (Option-cases (canonical_location_coords body.ride.end_location)) [
        | inl no_end ↦ rw (no_start, no_end) (refl, refl, refl, refl)
        | inr ((lat, lon), at_end) ↦ rw (no_start, at_end) (refl, refl, refl, refl)
      ]
      | inr ((lat, lon), at_start) ↦
          elim (Option-cases (canonical_location_coords body.ride.end_location)) [
            | inl no_end ↦ rw (at_start, no_end) (refl, refl, refl, refl)
            | inr ((lat', lon'), at_end) ↦ rw (at_start, at_end) (refl, refl, refl, refl)
          ]
    ]

abbrev pub launched : Env → User → RideBody → Db → Db
launched env user body db = record db {
  users = with_user env.nested_host_id body.host_user db.users;
  rides = db.rides ++ (new_ride env user body ∷ []);
}

check_ride-launches :
    (env : Env) (user host : User) (body : RideBody) (db : Db)
    → (check_ride env user host body db).response.status ≡ 200
    → (check_ride env user host body db).db ≡ launched env user body db
unfolding check_ride
check_ride-launches env user host body db created = ground arith

-- If the creation of a ride answers 200, the caller's account is there, the ride meets the handler's
-- conditions, and it is added as the body has it, hosted by the caller, or by the new user that the
-- body nests as its host.
pub create_ride-launches :
    (env : Env) (user : User) (body : RideBody) (db : Db)
    → (create_ride env (signed_in user) (some body) db).response.status ≡ 200
    → (host : User) × (load_host env user.id db ≡ some host)
      × IsOffer env host body.ride
      × ((create_ride env (signed_in user) (some body) db).db ≡ launched env user body db)
      × ((new_ride env user body).host_user_id ≡ key_of body.host_user user.id env.nested_host_id)
unfolding create_ride
create_ride-launches env user body db created = elim (Bool-cases (env.fails load_user)) [
  | inl down ↦ absurd (ground arith)
  | inr up ↦ elim (Option-cases (load_host env user.id db)) [
    | inl no_host ↦ absurd (ground arith)
    | inr (host, found) ↦
        let ok : (check_ride env user host body db).response.status ≡ 200 = ground arith in
        (
          host,
          found,
          ((check_ride-created_iff env user host body db).0 ok).0,
          rw (up, found) (check_ride-launches env user host body db ok),
          (new_ride-seats env user body).3,
        )
  ]
]

module _ (env : Env) (user : User) (body : RideBody) (db : Db) (v : IsBalanced db)
    (new_row : All (λ r. r.id ≢ env.new_id) db.rides)
    (unused : All (λ b. b.ride_id ≢ env.new_id) db.bookings)
    (room : body.ride.booked_seats + 1 ≤ body.ride.total_seats) where
  launched-IsBalanced : body.ride.booked_seats ≡ 0 → IsBalanced (launched env user body db)
  unfolding passenger_capacity
  launched-IsBalanced unbooked =
      let (id, booked, total, _) = new_ride-seats env user body in
      record {
        rides_keyed =
            Keyed-snoc (λ (r : Ride). r.id) db.rides (new_ride env user body) (rw id new_row)
              v.rides_keyed;
        bookings_keyed = v.bookings_keyed;
        seated = All-append (IsSeated db.bookings) db.rides (new_ride env user body ∷ []) v.seated (
          rw (id, booked, total)
              (unbooked ∙ sym (none_booked env.new_id db.bookings unused), ground arith),
          tt,
        );
      }

  launched-unbooked : IsBalanced (launched env user body db) → body.ride.booked_seats ≡ 0
  launched-unbooked w =
      let (id, booked, total, _) = new_ride-seats env user body in
      let last = last-All (IsSeated db.bookings) db.rides (new_ride env user body) w.seated in
      sym booked ∙ last.0 ∙ rw id (none_booked env.new_id db.bookings unused)

check_ride-IsBalanced :
    (env : Env) (user host : User) (body : RideBody) (db : Db)
    → IsBalanced db
    → All (λ r. r.id ≢ env.new_id) db.rides
    → All (λ b. b.ride_id ≢ env.new_id) db.bookings
    → body.ride.booked_seats ≡ 0
    → IsBalanced (check_ride env user host body db).db
unfolding check_ride
check_ride-IsBalanced env user host body db v new_row unused unbooked =
    let added : body.ride.booked_seats + 1 ≤ body.ride.total_seats
        → IsBalanced (launched env user body db) =
      λ room. launched-IsBalanced env user body db v new_row unused room unbooked in
    ground (arith, added)

-- The creation of a ride whose body has no booked seats keeps the seat contract.
pub create_ride-IsBalanced :
    (env : Env) (locals : Locals) (body : RideBody) (db : Db)
    → IsBalanced db
    → All (λ r. r.id ≢ env.new_id) db.rides
    → All (λ b. b.ride_id ≢ env.new_id) db.bookings
    → body.ride.booked_seats ≡ 0
    → IsBalanced (create_ride env locals (some body) db).db
unfolding create_ride
create_ride-IsBalanced env missing body db v new_row unused unbooked = v
create_ride-IsBalanced env malformed body db v new_row unused unbooked = v
create_ride-IsBalanced env (signed_in user) body db v new_row unused unbooked =
    elim (Option-cases (load_host env user.id db)) [
      | inl e ↦ rw e (ground arith)
      | inr (host, e) ↦
          rw e
            (ground (arith, check_ride-IsBalanced env user host body db v new_row unused unbooked))
    ]

pub create_ride-bookings :
    (env : Env) (locals : Locals) (body : RideBody) (db : Db)
    → (create_ride env locals (some body) db).db.bookings ≡ db.bookings
unfolding create_ride
create_ride-bookings env missing body db = refl
create_ride-bookings env malformed body db = refl
create_ride-bookings env (signed_in user) body db = elim (Option-cases (load_host env user.id db)) [
  | inl e ↦ rw e (ground arith)
  | inr (host, e) ↦ rw e (ground arith)
]

-- From a database in balance, with a new id, the creation of a ride leads to one in balance exactly
-- if the body says that no seat is booked: the handler takes over the body's booked_seats.
pub create_ride-IsBalanced_iff :
    (env : Env) (user : User) (body : RideBody) (db : Db)
    → IsBalanced db
    → All (λ r. r.id ≢ env.new_id) db.rides
    → All (λ b. b.ride_id ≢ env.new_id) db.bookings
    → (create_ride env (signed_in user) (some body) db).response.status ≡ 200
    → IsBalanced (create_ride env (signed_in user) (some body) db).db ↔ (body.ride.booked_seats ≡ 0)
create_ride-IsBalanced_iff env user body db v new_row unused created =
    let (host, _, offer, out, _) = create_ride-launches env user body db created in
    rw out (
      launched-unbooked env user body db v new_row unused offer.in_capacity,
      launched-IsBalanced env user body db v new_row unused offer.in_capacity,
    )
