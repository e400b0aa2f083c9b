-- ===== src/Ratings/Admitted.antt =====
-- The guards of SubmitRideRating of routes/rides/ratings.go, in the words of the model.
use uni_pool_new_backend.Base.{
  ℕ, ◌+◌, ◌≤◌, ◌≡◌, refl, ◌≢◌, inl, inr, ◌⊎◌, Bool, true, not, ◌||◌, none, some, List, [], ◌∷◌,
  ◌==◌, if◌then◌else◌, arith, All, Bool-cases, Option-cases, ==→eq, count_where,
}
use uni_pool_new_backend.Model.{User, Ride}
use uni_pool_new_backend.Store.{Db, Env, signed_in, Response, load_row, find_accepted, save_ratings}
use uni_pool_new_backend.Ratings.{
  RideRating, find_rated_ride, was_accepted, is_before_window, is_after_window,
  rating_eligible_after, rating_eligible_until,
}
use uni_pool_new_backend.Ratings.Submit.{
  RatingItem, Submitted, stars_of, passenger_targets, is_target, check_items, collect, upsert_all,
  save_items, submit_targets, submit_ride, submit_items, submit_ride_rating,
}

-- Whom the caller may rate: the host the accepted passengers, anybody else the host.
abbrev pub counterparts : Env → ℕ → ℕ → Ride → Db → List ℕ
counterparts env user_id ride_id r db =
    if r.host_user_id == user_id
    then passenger_targets env ride_id user_id db.bookings
    else r.host_user_id ∷ []

-- One to five stars for one of the targets.
abbrev pub IsAllowed : List ℕ → RatingItem → Type 0
IsAllowed targets x =
    ((n : ℕ) × (stars_of x.stars ≡ some n)) × (is_target x.rated_user_id targets ≡ true)

pub check_items-All :
    (targets : List ℕ) (items : List RatingItem)
    → check_items targets items ≡ none
    → All (IsAllowed targets) items
unfolding check_items
check_items-All targets [] e = tt
check_items-All targets (x ∷ xs) e = elim (Option-cases (stars_of x.stars)) [
  | inl bad ↦ absurd (ground arith)
  | inr (n, good) ↦ elim (Bool-cases (is_target x.rated_user_id targets)) [
    | inr off ↦ absurd (ground arith)
    | inl on ↦ (((n, good), on), check_items-All targets xs (ground arith))
  ]
]

check_items-refuses :
    (targets : List ℕ) (items : List RatingItem) (refused : Response)
    → check_items targets items ≡ some refused
    → refused.status ≢ 200
unfolding check_items
check_items-refuses targets [] refused e = absurd (ground arith)
check_items-refuses targets (x ∷ xs) refused e = elim (Option-cases (stars_of x.stars)) [
  | inl bad ↦ ground arith
  | inr (n, good) ↦ elim (Bool-cases (is_target x.rated_user_id targets)) [
    | inr off ↦ ground arith
    | inl on ↦ check_items-refuses targets xs refused (ground arith)
  ]
]

-- The ride exists, its window of 12 hours to 30 days after the start is open, the caller hosted it or
-- was accepted, and every item is allowed.
pub record IsAdmitted (env : Env) (user_id ride_id : ℕ) (items : List RatingItem) (db : Db)
    : Type 0 where
  pub ride : Ride
  pub found : find_rated_ride env ride_id db ≡ some ride
  pub begun : ride.start_time + rating_eligible_after ≤ env.now
  pub unexpired : env.now ≤ ride.start_time + rating_eligible_until
  pub aboard : (ride.host_user_id ≡ user_id) ⊎ (was_accepted env ride_id user_id db ≡ true)
  pub allowed : All (IsAllowed (counterparts env user_id ride_id ride db)) items

-- Either nothing is written, or the rows of all items are.
abbrev pub IsRefused : List RideRating → Submitted → Type 0
IsRefused ratings out = (out.response.status ≢ 200) × (out.ratings ≡ ratings)

abbrev pub IsSaved : Env → ℕ → ℕ → List RatingItem → List RideRating → Submitted → Type 0
IsSaved env user_id ride_id items ratings out =
    (out.response.status ≡ 200)
    × (out.ratings ≡ upsert_all (collect env.now ride_id user_id items []) ratings)

module _ (takes : List ℕ → Bool) (env : Env) (user : User) (ride_id : ℕ) (items : List RatingItem)
    (db : Db) (ratings : List RideRating) where
  save_items-cases :
      IsRefused ratings (save_items takes env ride_id user.id items ratings)
      ⊎ IsSaved env user.id ride_id items ratings
          (save_items takes env ride_id user.id items ratings)
  unfolding save_items
  save_items-cases =
      elim (Bool-cases (
        env.fails save_ratings
        || not (
            count_where (λ x. not (takes x.comment)) (collect env.now ride_id user.id items [])
            == 0))) [
              | inl e ↦ rw e (inl (λ x. ground arith, refl))
              | inr e ↦ rw e (inr (refl, refl))
            ]

  submit_targets-cases :
      (targets : List ℕ)
      → let out = submit_targets takes env ride_id user.id targets items ratings in
        IsRefused ratings out
        ⊎ ((All (IsAllowed targets) items) × IsSaved env user.id ride_id items ratings out)
  unfolding submit_targets
  submit_targets-cases [] = inl (λ x. ground arith, refl)
  submit_targets-cases (t ∷ ts) = elim (Option-cases (check_items (t ∷ ts) items)) [
    | inr (refused, e) ↦
        rw (e, submit_targets) (inl (check_items-refuses (t ∷ ts) items refused e, refl))
    | inl e ↦
        rw (e, submit_targets)
          (elim save_items-cases [
            | inl no_write ↦ inl no_write
            | inr saved ↦ inr (check_items-All (t ∷ ts) items e, saved)
          ])
  ]

  submit_ride-cases :
      (r : Ride)
      → find_rated_ride env ride_id db ≡ some r
      → let out = submit_ride takes env user ride_id r items db ratings in
        IsRefused ratings out
        ⊎ (IsAdmitted env user.id ride_id items db × IsSaved env user.id ride_id items ratings out)
  unfolding submit_ride
  submit_ride-cases r found = elim (Bool-cases (is_before_window env.now r)) [
    | inl early ↦ rw early (inl (λ x. ground arith, refl))
    | inr begun ↦ rw begun (elim (Bool-cases (is_after_window env.now r)) [
      | inl late ↦ rw late (inl (λ x. ground arith, refl))
      | inr unexpired ↦ rw unexpired (elim (Bool-cases (r.host_user_id == user.id)) [
        | inl hosts ↦ rw hosts (elim (Bool-cases (env.fails find_accepted)) [
          | inl e ↦ rw e (inl (λ x. ground arith, refl))
          | inr e ↦
              rw e
                (elim (submit_targets-cases (passenger_targets env ride_id user.id db.bookings)) [
                  | inl no_write ↦ inl no_write
                  | inr (allowed, saved) ↦ inr (
                    record {
                      ride = r;
                      found = found;
                      begun = ground arith;
                      unexpired = ground arith;
                      aboard = inl (==→eq r.host_user_id user.id hosts);
                      allowed = rw hosts allowed;
                    },
                    saved,
                  )
                ])
        ])
        | inr other ↦ rw other (elim (Bool-cases (was_accepted env ride_id user.id db)) [
          | inr off ↦ rw off (inl (λ x. ground arith, refl))
          | inl aboard ↦ rw aboard (elim (submit_targets-cases (r.host_user_id ∷ [])) [
            | inl no_write ↦ inl no_write
            | inr (allowed, saved) ↦ inr (
              record {
                ride = r;
                found = found;
                begun = ground arith;
                unexpired = ground arith;
                aboard = inr aboard;
                allowed = rw other allowed;
              },
              saved,
            )
          ])
        ])
      ])
    ])
  ]

pub submit_ride_rating-IsAdmitted :
    (takes : List ℕ → Bool) (env : Env) (user : User) (ride_id : ℕ) (item : RatingItem)
    (items : List RatingItem) (db : Db) (ratings : List RideRating)
    → let out =
        submit_ride_rating takes env
          (signed_in user)
          (some ride_id)
          (some (item ∷ items))
          db
          ratings in
      IsRefused ratings out
      ⊎ (IsAdmitted env user.id ride_id (item ∷ items) db
          × IsSaved env user.id ride_id (item ∷ items) ratings out)
unfolding submit_ride_rating submit_items
submit_ride_rating-IsAdmitted takes env user ride_id item items db ratings =
    elim (Bool-cases (env.fails load_row)) [
      | inl e ↦ rw e (inl (λ x. ground arith, refl))
      | inr e ↦ rw e (elim (Option-cases (find_rated_ride env ride_id db)) [
        | inl f ↦ rw f (inl (λ x. ground arith, refl))
        | inr (r, f) ↦ rw f (submit_ride-cases takes env user ride_id (item ∷ items) db ratings r f)
      ])
    ]
