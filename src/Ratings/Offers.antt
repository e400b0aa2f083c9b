-- ===== src/Ratings/Offers.antt =====
-- GetRideRatingEligibility and SubmitRideRating of routes/rides/ratings.go against each other.
use uni_pool_new_backend.Base.{
  ℕ, ◌≤◌, ◌≡◌, refl, inl, inr, Bool, true, false, ◌||◌, none, some, String, List, [], ◌∷◌, ltb,
  arith, Memᴰ, ==_refl, count_where, put_where,
}
use uni_pool_new_backend.Model.{User, Ride}
use uni_pool_new_backend.Store.{Db, Env, signed_in, load_row, save_ratings}
use uni_pool_new_backend.Ratings.{RideRating, find_rated_ride}
use uni_pool_new_backend.Ratings.Submit.{
  pos, RatingItem, stars_of, cut_comment, passenger_targets, is_target, check_items, put_row,
  collect, save_items, submit_targets, submit_ride, submit_items, submit_ride_rating,
}
use uni_pool_new_backend.Ratings.Eligible.{PendingRateTarget, get_ride_rating_eligibility}
use uni_pool_new_backend.Ratings.Offered.{
  targets-if, IsOffered, eligibility_of-IsOffered, found-targets,
}

abbrev pub one_item : ℕ → ℕ → String → RatingItem
one_item rated stars comment = record {
  rated_user_id = rated;
  stars = pos stars;
  comment = comment;
}

module _ (takes : List ℕ → Bool) (env : Env) (ride_id rater rated stars : ℕ) (comment : String)
    (ratings : List RideRating) (low : 1 ≤ stars) (high : stars ≤ 5)
    (saves : env.fails save_ratings ≡ false) (taken : takes (cut_comment comment) ≡ true) where
  save_items-one :
      (save_items takes env ride_id rater
        (one_item rated stars comment ∷ [])
        ratings).response.status
      ≡ 200
  unfolding save_items collect put_row put_where count_where
  save_items-one = rw (saves, taken) refl

  stars_of-one : stars_of (pos stars) ≡ some stars
  unfolding stars_of
  stars_of-one = let few : (ltb stars 1 || ltb 5 stars) ≡ false = ground arith in rw few refl

  check_items-one :
      (targets : List ℕ)
      → is_target rated targets ≡ true
      → check_items targets (one_item rated stars comment ∷ []) ≡ none
  unfolding check_items
  check_items-one targets on = rw (stars_of-one, check_items, on) refl

  no_target : is_target rated [] ≡ true → ⊥
  unfolding count_where
  no_target on = ground arith

  submit_targets-one :
      (targets : List ℕ)
      → is_target rated targets ≡ true
      → (submit_targets takes env ride_id rater targets
          (one_item rated stars comment ∷ [])
          ratings).response.status
        ≡ 200
  unfolding submit_targets
  submit_targets-one [] on = absurd (no_target on)
  submit_targets-one (t ∷ ts) on = rw (check_items-one (t ∷ ts) on, submit_targets) save_items-one

submit_ride-offered :
    (takes : List ℕ → Bool) (env : Env) (hard : env.soft_delete ≡ false) (user : User) (ride_id : ℕ)
    (r : Ride) (db : Db) (ratings : List RideRating) (t : PendingRateTarget) (stars : ℕ)
    (comment : String)
    → env.fails save_ratings ≡ false
    → takes (cut_comment comment) ≡ true
    → 1 ≤ stars
    → stars ≤ 5
    → IsOffered env hard user ride_id r db ratings t
    → (submit_ride takes env user ride_id r
        (one_item t.user_id stars comment ∷ [])
        db
        ratings).response.status
      ≡ 200
unfolding submit_ride count_where
submit_ride-offered takes env hard user ride_id r db ratings t stars comment saves taken low high
      offered =
    rw (offered.begun, offered.unexpired)
      (elim offered.aboard [
        | inl (hosts, works, on) ↦
            rw (hosts, works)
              (submit_targets-one takes env ride_id user.id t.user_id stars comment ratings low high
                saves taken (passenger_targets env ride_id user.id db.bookings) on)
        | inr (other, seated, at) ↦
            rw (other, seated)
              (submit_targets-one takes env ride_id user.id t.user_id stars comment ratings low high
                saves taken (r.host_user_id ∷ []) (rw (at, ==_refl r.host_user_id) refl))
      ])

-- Whoever is offered for a rating can be rated: if the eligibility of a ride offers a target to a
-- signed-in user, a submission of one to five stars for this target in the same state answers 200,
-- provided that the ORM removes rows, that the write does not fail, and that the database takes the
-- comment.
pub get_ride_rating_eligibility-submits :
    (takes : List ℕ → Bool) (env : Env) (user : User) (ride_id : ℕ) (db : Db)
    (ratings : List RideRating) (t : PendingRateTarget) (stars : ℕ) (comment : String)
    → env.soft_delete ≡ false
    → env.fails save_ratings ≡ false
    → takes (cut_comment comment) ≡ true
    → 1 ≤ stars
    → stars ≤ 5
    → Memᴰ t (get_ride_rating_eligibility env (signed_in user) (some ride_id) db ratings).targets
    → (submit_ride_rating takes env
        (signed_in user)
        (some ride_id)
        (some (one_item t.user_id stars comment ∷ []))
        db
        ratings).response.status
      ≡ 200
unfolding get_ride_rating_eligibility submit_ride_rating submit_items submit_ride
get_ride_rating_eligibility-submits takes env user ride_id db ratings t stars comment hard saves
      taken low high m =
    elim (targets-if (env.fails load_row) _ _ t m) [
      | inl (_, none_there) ↦ elim none_there [ ]
      | inr (loads, m1) ↦
          let (r, found, m2) =
            found-targets env user ride_id db ratings t (find_rated_ride env ride_id db) m1 in
          let offered = eligibility_of-IsOffered env hard user ride_id r db ratings t m2 in
          rw (loads, found)
            (submit_ride-offered takes env hard user ride_id r db ratings t stars comment saves
              taken low high offered)
    ]
