-- ===== src/Ratings/Entitled.antt =====
-- When SubmitRideRating of routes/rides/ratings.go writes, and for whom.
use uni_pool_new_backend.Base.{
  ℕ, ◌+◌, ◌*◌, ◌≤◌, ◌≡◌, refl, ◌≢◌, inl, inr, ◌⊎◌, Bool, subst, true, not, ◌&&◌, some, List, [],
  ◌∷◌, ◌==◌, arith, All, All-map, Memᴰ, Bool-cases, ==→eq, &&_split, count_where, count-member,
  find-member, find_where-hit, if◌then◌else◌,
}
use uni_pool_new_backend.Booking.Load.Rows.{is_accepted→accepted}
use uni_pool_new_backend.Model.{User, Ride, Booking, RequestStatus, is_accepted}
use uni_pool_new_backend.Store.{Db, Env, signed_in, visible}
use uni_pool_new_backend.Ratings.{RideRating, find_rated_ride, was_accepted}
use uni_pool_new_backend.Ratings.Submit.{
  ℤ, pos, negsuc, RatingItem, stars_of, passenger_targets, is_target, submit_ride_rating,
}
use uni_pool_new_backend.Ratings.Admitted.{
  counterparts, IsAllowed, IsAdmitted, IsRefused, IsSaved, submit_ride_rating-IsAdmitted,
}

-- The user has an accepted booking on the ride, which the ORM sees.
pub record IsAboard (env : Env) (ride_id user_id : ℕ) (db : Db) : Type 0 where
  pub booking : Booking
  pub there : Memᴰ booking db.bookings
  pub on_ride : booking.ride_id ≡ ride_id
  pub own : booking.passenger_id ≡ user_id
  pub accepted : booking.request_status ≡ RequestStatus.accepted
  pub seen : visible env booking.deleted_at ≡ true

-- One to five stars, by the host for an accepted passenger other than the host, or by anybody else for
-- the host.
pub record IsRatable (env : Env) (user_id : ℕ) (ride : Ride) (db : Db) (x : RatingItem)
    : Type 0 where
  pub stars : (n : ℕ) × (x.stars ≡ pos n) × (1 ≤ n) × (n ≤ 5)
  pub target :
      ((ride.host_user_id ≡ user_id)
        × (x.rated_user_id ≢ user_id)
        × IsAboard env ride.id x.rated_user_id db)
      ⊎ ((ride.host_user_id ≢ user_id) × (x.rated_user_id ≡ ride.host_user_id))

pub record IsEntitled (env : Env) (user_id ride_id : ℕ) (items : List RatingItem) (db : Db)
    : Type 0 where
  pub ride : Ride
  pub there : Memᴰ ride db.rides
  pub at : ride.id ≡ ride_id
  pub seen : visible env ride.deleted_at ≡ true
  pub begun : ride.start_time + 12 * 3600000000000 ≤ env.now
  pub unexpired : env.now ≤ ride.start_time + 30 * 24 * 3600000000000
  pub aboard : (ride.host_user_id ≡ user_id) ⊎ IsAboard env ride_id user_id db
  pub allowed : All (IsRatable env user_id ride db) items

stars_of-bounds :
    (stars : ℤ) (n : ℕ) → stars_of stars ≡ some n → (m : ℕ) × (stars ≡ pos m) × (1 ≤ m) × (m ≤ 5)
unfolding stars_of
stars_of-bounds (pos m) n e = (m, refl, ground arith, ground arith)
stars_of-bounds (negsuc m) n e = absurd (ground arith)

all_there :
    (xs ys : List Booking) → ((x : Booking) → Memᴰ x xs → Memᴰ x ys) → All (λ x. Memᴰ x ys) xs
all_there [] ys h = tt
all_there (x ∷ xs) ys h = (h x (Memᴰ.head refl), all_there xs ys (λ y m. h y (Memᴰ.tail m)))

module _ (env : Env) (ride_id user_id : ℕ) (db : Db) where
  was_accepted-IsAboard :
      was_accepted env ride_id user_id db ≡ true → IsAboard env ride_id user_id db
  unfolding was_accepted
  was_accepted-IsAboard e =
      let (b, m, hit) =
        count-member
          (λ (b : Booking).
            b.ride_id == ride_id
            && (b.passenger_id == user_id
                && (is_accepted b.request_status && visible env b.deleted_at)))
          db.bookings (ground arith) in
      record {
        booking = b;
        there = m;
        on_ride = ground arith;
        own = ground arith;
        accepted = is_accepted→accepted b.request_status (ground arith);
        seen = ground arith;
      }

  passenger_targets-IsAboard :
      (id : ℕ) (bs : List Booking)
      → All (λ b. Memᴰ b db.bookings) bs
      → is_target id (passenger_targets env ride_id user_id bs) ≡ true
      → (id ≢ user_id) × IsAboard env ride_id id db
  unfolding passenger_targets count_where
  passenger_targets-IsAboard id [] all e = absurd (ground arith)
  passenger_targets-IsAboard id (b ∷ bs) all e =
      let later : is_target id (passenger_targets env ride_id user_id bs) ≡ true
          → (id ≢ user_id) × IsAboard env ride_id id db =
        passenger_targets-IsAboard id bs all.1 in
      elim (Bool-cases (
        b.ride_id == ride_id
        && (is_accepted b.request_status
            && (visible env b.deleted_at && not (b.passenger_id == user_id))))) [
              | inr miss ↦ later (ground arith)
              | inl hit ↦ elim (Bool-cases (b.passenger_id == id)) [
                | inr other ↦ later (ground arith)
                | inl same ↦ (
                  ground arith,
                  record {
                    booking = b;
                    there = all.0;
                    on_ride = ground arith;
                    own = ground arith;
                    accepted = is_accepted→accepted b.request_status (ground arith);
                    seen = ground arith;
                  },
                )
              ]
            ]

  allowed-IsRatable :
      (r : Ride) (x : RatingItem)
      → r.id ≡ ride_id
      → IsAllowed (counterparts env user_id ride_id r db) x
      → IsRatable env user_id r db x
  unfolding count_where
  allowed-IsRatable r x at allowed = record {
    stars = stars_of-bounds x.stars allowed.0.0 allowed.0.1;
    target = elim (Bool-cases (r.host_user_id == user_id)) [
      | inl hosts ↦
          let listed : is_target x.rated_user_id (passenger_targets env ride_id user_id db.bookings)
              ≡ true =
            subst
              (λ c.
                is_target x.rated_user_id (
                  if c
                  then passenger_targets env ride_id user_id db.bookings
                  else r.host_user_id ∷ [])
                ≡ true)
              hosts allowed.1 in
          let (other, aboard) =
            passenger_targets-IsAboard x.rated_user_id db.bookings
              (all_there db.bookings db.bookings (λ y m. m)) listed in
          inl (==→eq r.host_user_id user_id hosts, other, rw at aboard)
      | inr other ↦
          let listed : is_target x.rated_user_id (r.host_user_id ∷ []) ≡ true =
            subst
              (λ c.
                is_target x.rated_user_id (
                  if c
                  then passenger_targets env ride_id user_id db.bookings
                  else r.host_user_id ∷ [])
                ≡ true)
              other allowed.1 in
          inr (ground arith, ground arith)
    ];
  }

  admitted-IsEntitled :
      (items : List RatingItem)
      → IsAdmitted env user_id ride_id items db
      → IsEntitled env user_id ride_id items db
  unfolding find_rated_ride
  admitted-IsEntitled items a =
      let p = λ (r : Ride). r.id == ride_id && visible env r.deleted_at in
      let hit = find_where-hit p db.rides a.ride a.found in
      let at = ==→eq a.ride.id ride_id (&&_split (a.ride.id == ride_id) _ hit).0 in
      record {
        ride = a.ride;
        there = find-member p db.rides a.ride a.found;
        at = at;
        seen = (&&_split (a.ride.id == ride_id) _ hit).1;
        begun = a.begun;
        unexpired = a.unexpired;
        aboard = elim a.aboard [
          | inl hosts ↦ inl hosts
          | inr was ↦ inr (was_accepted-IsAboard was)
        ];
        allowed = All-map items (λ x ok. allowed-IsRatable a.ride x at ok) a.allowed;
      }

-- A submission by a signed-in user with a ride and at least one item either answers with an error and
-- leaves the ratings as they are, or answers 200 and writes the rows of all its items. It writes only
-- if there is such a ride that the ORM sees, the time is between 12 hours and 30 days after its start,
-- both included, the caller hosts it or has an accepted booking on it, and every item gives one to
-- five stars: by the host to the passenger of an accepted booking on the ride, other than the host,
-- and by anybody else to the host.
pub submit_ride_rating-IsEntitled :
    (takes : List ℕ → Bool) (env : Env) (user : User) (ride_id : ℕ) (item : RatingItem)
    (items : List RatingItem) (db : Db) (ratings : List RideRating)
    → let out =
        submit_ride_rating takes env
          (signed_in user)
          (some ride_id)
          (some (item ∷ items))
          db
          ratings in
      IsRefused ratings out
      ⊎ (IsEntitled env user.id ride_id (item ∷ items) db
          × IsSaved env user.id ride_id (item ∷ items) ratings out)
submit_ride_rating-IsEntitled takes env user ride_id item items db ratings =
    elim (submit_ride_rating-IsAdmitted takes env user ride_id item items db ratings) [
      | inl refused ↦ inl refused
      | inr (admitted, saved) ↦
          inr (admitted-IsEntitled env ride_id user.id db (item ∷ items) admitted, saved)
    ]
