-- ===== src/Ratings/Offered.antt =====
-- Whom GetRideRatingEligibility of routes/rides/ratings.go offers for a rating.
use uni_pool_new_backend.Base.{
  ℕ, ◌≡◌, refl, ap, ◌⊎◌, inl, inr, Bool, true, false, not, ◌&&◌, ◌||◌, Option, none, some, List, [],
  ◌∷◌, ◌==◌, if◌then◌else◌, arith, Memᴰ, ==→eq, find_where, count_where, find_where-hit,
  member-delete, member-if, delete_where,
}
use mathlib.Core.List.Memᴰ
use uni_pool_new_backend.Model.{User, Ride, Booking, is_accepted}
use uni_pool_new_backend.Store.{Db, Env, load_user, find_accepted, find_ratings, visible}
use uni_pool_new_backend.Ratings.{
  RideRating, has_rated, was_accepted, is_before_window, is_after_window,
}
use uni_pool_new_backend.Ratings.Submit.{passenger_targets, is_target}
use uni_pool_new_backend.Ratings.Eligible.{
  PendingRateTarget, host_targets, add_passenger, target_of, passenger, passenger_candidates,
  host_candidate, unrated, eligibility_of, Eligibility, eligibility_at,
}

add_passenger-cases :
    (user_id : ℕ) (o : Option User) (rest : List PendingRateTarget) (t : PendingRateTarget)
    → Memᴰ t (add_passenger user_id o rest)
    → Memᴰ t rest ⊎ ((u : User) × (o ≡ some u) × ((u.id == user_id) ≡ false) × (t.user_id ≡ u.id))
add_passenger-cases user_id none rest t m = inl m
add_passenger-cases user_id (some u) rest t m =
    elim (member-if (u.id == user_id) rest (target_of passenger u ∷ rest) t m) [
      | inl (_, later) ↦ inl later
      | inr (other, here) ↦ elim (Memᴰ.cases_cons here) [
        | inl e ↦ inr (u, refl, other, ap (λ x. x.user_id) e)
        | inr later ↦ inl later
      ]
    ]

module _ (env : Env) (hard : env.soft_delete ≡ false) (ride_id user_id : ℕ) (users : List User)
    (t : PendingRateTarget) where
  passenger_candidates-targets :
      (bs : List Booking)
      → Memᴰ t (passenger_candidates ride_id user_id users bs)
      → is_target t.user_id (passenger_targets env ride_id user_id bs) ≡ true
  unfolding passenger_candidates passenger_targets count_where
  passenger_candidates-targets [] m = elim m [ ]
  passenger_candidates-targets (b ∷ bs) m =
      let rest = passenger_candidates ride_id user_id users bs in
      let user = find_where (λ (u : User). u.id == b.passenger_id) users in
      elim (member-if (b.ride_id == ride_id && is_accepted b.request_status)
        (add_passenger user_id user rest) rest t m) [
          | inr (off, later) ↦ let known = passenger_candidates-targets bs later in ground arith
          | inl (on, here) ↦ elim (add_passenger-cases user_id user rest t here) [
            | inl later ↦ let known = passenger_candidates-targets bs later in ground arith
            | inr (u, found, other, at) ↦
                let is_passenger : u.id ≡ b.passenger_id =
                  ==→eq u.id b.passenger_id
                    (find_where-hit (λ (u : User). u.id == b.passenger_id) users u found) in
                ground arith
          ]
        ]

  host_targets-cases :
      (o : Option User) → Memᴰ t (host_targets o) → (u : User) × (o ≡ some u) × (t.user_id ≡ u.id)
  host_targets-cases none m = elim m [ ]
  host_targets-cases (some u) m = (u, refl, ap (λ x. x.user_id) (Memᴰ.eq_of_singleton m))

  host_candidate-is_host :
      (host_id : ℕ) (db : Db) → Memᴰ t (host_candidate env host_id db) → t.user_id ≡ host_id
  unfolding host_candidate
  host_candidate-is_host host_id db m =
      let p = λ (u : User). u.id == host_id && visible env u.deleted_at in
      elim (member-if (env.fails load_user) [] (host_targets (find_where p db.users)) t m) [
        | inl (_, nobody) ↦ elim nobody [ ]
        | inr (_, one) ↦
            let (u, found, at) = host_targets-cases (find_where p db.users) one in
            let hit = find_where-hit p db.users u found in ground arith
      ]

unrated-member :
    (env : Env) (ride_id user_id : ℕ) (ratings : List RideRating)
    (candidates : List PendingRateTarget) (t : PendingRateTarget)
    → Memᴰ t (unrated env ride_id user_id ratings candidates)
    → Memᴰ t candidates
unfolding unrated
unrated-member env ride_id user_id ratings candidates t m =
    elim (member-if (env.fails find_ratings) candidates
      (delete_where (λ x. has_rated ride_id user_id x.user_id ratings) candidates) t m) [
        | inl (_, all) ↦ all
        | inr (_, left) ↦
            member-delete (λ x. has_rated ride_id user_id x.user_id ratings) candidates t left
      ]

pub targets-if :
    (b : Bool) (e e' : Eligibility) (t : PendingRateTarget)
    → Memᴰ t (if b then e else e').targets
    → ((b ≡ true) × Memᴰ t e.targets) ⊎ ((b ≡ false) × Memᴰ t e'.targets)
targets-if true e e' t m = inl (refl, m)
targets-if false e e' t m = inr (refl, m)

module _ (env : Env) (hard : env.soft_delete ≡ false) (user : User) (ride_id : ℕ) (r : Ride)
    (db : Db) (ratings : List RideRating) (t : PendingRateTarget) where
  -- What holds when a target is offered.
  pub record IsOffered : Type 0 where
    pub begun : is_before_window env.now r ≡ false
    pub unexpired : is_after_window env.now r ≡ false
    pub aboard :
        ((r.host_user_id == user.id) ≡ true)
          × (env.fails find_accepted ≡ false)
          × (is_target t.user_id (passenger_targets env ride_id user.id db.bookings) ≡ true)
        ⊎ (((r.host_user_id == user.id) ≡ false)
            × (was_accepted env ride_id user.id db ≡ true)
            × (t.user_id ≡ r.host_user_id))

  nobody : Memᴰ t (unrated env ride_id user.id ratings []) → ⊥
  nobody m = elim (unrated-member env ride_id user.id ratings [] t m) [ ]

  pub eligibility_of-IsOffered :
      Memᴰ t (eligibility_of env user ride_id r db ratings).targets → IsOffered
  unfolding eligibility_of
  eligibility_of-IsOffered m =
      elim (targets-if (is_before_window env.now r || is_after_window env.now r) _ _ t m) [
        | inl (_, m1) ↦ absurd (nobody m1)
        | inr (window, m1) ↦ elim (targets-if (r.host_user_id == user.id) _ _ t m1) [
          | inl (hosts, m2) ↦ elim (targets-if (env.fails find_accepted) _ _ t m2) [
            | inl (_, m3) ↦ elim m3 [ ]
            | inr (works, m3) ↦ record {
              begun = ground arith;
              unexpired = ground arith;
              aboard = inl (
                hosts,
                works,
                passenger_candidates-targets env hard ride_id user.id db.users t db.bookings (
                    unrated-member env ride_id user.id ratings
                      (passenger_candidates ride_id user.id db.users db.bookings) t m3),
              );
            }
          ]
          | inr (other, m2) ↦
              elim (targets-if (not (was_accepted env ride_id user.id db)) _ _ t m2) [
                | inl (_, m3) ↦ absurd (nobody m3)
                | inr (seated, m3) ↦ record {
                  begun = ground arith;
                  unexpired = ground arith;
                  aboard = inr (
                    other,
                    ground arith,
                    host_candidate-is_host env hard ride_id user.id db.users t r.host_user_id db (
                        unrated-member env ride_id user.id ratings
                          (host_candidate env r.host_user_id db) t m3),
                  );
                }
              ]
        ]
      ]

pub found-targets :
    (env : Env) (user : User) (ride_id : ℕ) (db : Db) (ratings : List RideRating)
    (t : PendingRateTarget) (o : Option Ride)
    → Memᴰ t (eligibility_at env user ride_id db ratings o).targets
    → (r : Ride) × (o ≡ some r) × Memᴰ t (eligibility_of env user ride_id r db ratings).targets
found-targets env user ride_id db ratings t none m = elim m [ ]
found-targets env user ride_id db ratings t (some r) m = (r, refl, m)
