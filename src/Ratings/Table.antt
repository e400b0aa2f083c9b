-- ===== src/Ratings/Table.antt =====
-- What SubmitRideRating of routes/rides/ratings.go keeps of the table of ratings, and what it changes.
use uni_pool_new_backend.Base.{
  ℕ, suc, zero, ◌≤◌, ◌≡◌, refl, sym, ◌∙◌, ap, inl, inr, ◌⊎◌, Bool, ◌&&◌, ◌==◌, some, List, [], ◌∷◌,
  arith, All, All-put, Bool-cases, Option-cases, count_where, count-put_self, count-put_other,
  ==_refl,
}
use uni_pool_new_backend.Model.{User}
use uni_pool_new_backend.Store.{Db, Env, signed_in}
use uni_pool_new_backend.Ratings.{RideRating, is_rating_of}
use uni_pool_new_backend.Ratings.Submit.{
  ℤ, pos, negsuc, RatingItem, take_bytes, cut_comment, stars_of, star_count, row_of, put_row,
  collect, overwrite, upsert, upsert_all, submit_ride_rating,
}
use uni_pool_new_backend.Ratings.Admitted.{IsAllowed, IsRefused, submit_ride_rating-IsAdmitted}
use uni_pool_new_backend.Ratings.View.{rating_of, rated_by, last_for, rating_of-saved}

unfoldable pub length : List ℕ → ℕ
length [] = 0
length (c ∷ cs) = suc (length cs)

abbrev pub IsValued : RideRating → Type 0
IsValued x = (1 ≤ x.stars) × (x.stars ≤ 5) × (length x.comment ≤ 240)

-- At most one row for a ride, a rater and a rated user; one to five stars; at most 240 bytes.
pub record IsRatingTable (ratings : List RideRating) : Type 0 where
  pub single :
      (ride_id rater rated : ℕ) → count_where (is_rating_of ride_id rater rated) ratings ≤ 1
  pub valued : All IsValued ratings

length-take_bytes : (n : ℕ) (cs : List ℕ) → length (take_bytes n cs) ≤ n
unfolding length take_bytes
length-take_bytes zero cs = omega arith
length-take_bytes (suc n) [] = omega arith
length-take_bytes (suc n) (c ∷ cs) = let rest = length-take_bytes n cs in omega arith

star_count-bounds :
    (stars : ℤ) (n : ℕ) → stars_of stars ≡ some n → (1 ≤ star_count stars) × (star_count stars ≤ 5)
unfolding stars_of
star_count-bounds (pos m) n e = (ground arith, ground arith)
star_count-bounds (negsuc m) n e = absurd (ground arith)

module _ (now ride_id rater : ℕ) (targets : List ℕ) where
  collect-IsValued :
      (items : List RatingItem) (rows : List RideRating)
      → All (IsAllowed targets) items
      → All IsValued rows
      → All IsValued (collect now ride_id rater items rows)
  unfolding collect put_row cut_comment
  collect-IsValued [] rows allowed valued = valued
  collect-IsValued (x ∷ xs) rows allowed valued =
      let row = row_of now ride_id rater x in
      let bounds = star_count-bounds x.stars allowed.0.0.0 allowed.0.0.1 in
      let fine : IsValued row = (bounds.0, bounds.1, length-take_bytes 240 _) in
      collect-IsValued xs (put_row row rows) allowed.1 (
        All-put IsValued (λ y. y.rated_user_id == row.rated_user_id) (λ _. row) row rows fine
          (λ _ _. fine) valued)

upsert-IsRatingTable :
    (row : RideRating) (ratings : List RideRating)
    → IsValued row
    → IsRatingTable ratings
    → IsRatingTable (upsert row ratings)
unfolding upsert
upsert-IsRatingTable row ratings fine table = record {
  single = λ ride_id rater rated. elim (Bool-cases (is_rating_of ride_id rater rated row)) [
    | inr miss ↦
        rw
          (count-put_other (is_rating_of row.ride_id row.rater_user_id row.rated_user_id)
            (is_rating_of ride_id rater rated) (overwrite row) row ratings miss (λ y. refl))
          (table.single ride_id rater rated)
    | inl hit ↦
        let at_ride : row.ride_id ≡ ride_id = ground arith in
        let at_rater : row.rater_user_id ≡ rater = ground arith in
        let at_rated : row.rated_user_id ≡ rated = ground arith in
        rw (← at_ride, ← at_rater, ← at_rated)
          (count-put_self (is_rating_of row.ride_id row.rater_user_id row.rated_user_id)
            (overwrite row) row ratings
            (rw (==_refl row.ride_id, ==_refl row.rater_user_id, ==_refl row.rated_user_id) refl)
            (λ y same. same) (table.single row.ride_id row.rater_user_id row.rated_user_id))
  ];
  valued =
      All-put IsValued (is_rating_of row.ride_id row.rater_user_id row.rated_user_id)
        (overwrite row) row ratings fine (λ y _. fine) table.valued;
}

upsert_all-IsRatingTable :
    (rows ratings : List RideRating)
    → All IsValued rows
    → IsRatingTable ratings
    → IsRatingTable (upsert_all rows ratings)
unfolding upsert_all
upsert_all-IsRatingTable [] ratings fine table = table
upsert_all-IsRatingTable (row ∷ rows) ratings fine table =
    upsert_all-IsRatingTable rows (upsert row ratings) fine.1
      (upsert-IsRatingTable row ratings fine.0 table)

module _ (takes : List ℕ → Bool) (env : Env) (user : User) (ride_id : ℕ) (item : RatingItem)
    (items : List RatingItem) (db : Db) (ratings : List RideRating) where
  -- A submission keeps the table such that there is at most one rating of a user by a user for a ride,
  -- each has one to five stars, and no comment is longer than 240 bytes.
  pub submit_ride_rating-IsRatingTable :
      IsRatingTable ratings
      → IsRatingTable
          (submit_ride_rating takes env
            (signed_in user)
            (some ride_id)
            (some (item ∷ items))
            db
            ratings).ratings
  submit_ride_rating-IsRatingTable table =
      elim (submit_ride_rating-IsAdmitted takes env user ride_id item items db ratings) [
        | inl (_, same) ↦ rw same table
        | inr (entitled, (_, saved)) ↦ rw saved (
            upsert_all-IsRatingTable (collect env.now ride_id user.id (item ∷ items) []) ratings
              (collect-IsValued env.now ride_id user.id _ (item ∷ items) [] entitled.allowed tt)
              table)
      ]

  -- The table of ratings as a map from ride, rater and rated user to stars and comment: a submission
  -- either answers with an error and leaves the table as it is, or answers 200 and changes the map
  -- exactly at the users that its items rate, for this ride and this caller, where it puts the last
  -- item for the user.
  pub submit_ride_rating-refines :
      let out =
        submit_ride_rating takes env
          (signed_in user)
          (some ride_id)
          (some (item ∷ items))
          db
          ratings in
      IsRefused ratings out
      ⊎ ((out.response.status ≡ 200)
          × ((ride' rater' rated : ℕ)
              → rating_of out.ratings ride' rater' rated
                ≡ rated_by ride_id user.id (item ∷ items) (rating_of ratings) ride' rater' rated))
  submit_ride_rating-refines =
      elim (submit_ride_rating-IsAdmitted takes env user ride_id item items db ratings) [
        | inl refused ↦ inl refused
        | inr (_, (done, saved)) ↦ inr (
          done,
          λ ride' rater' rated.
              rw saved
                (rating_of-saved ride_id user.id env.now (item ∷ items) ratings ride' rater' rated),
        )
      ]

rated_by-again :
    (ride_id rater : ℕ) (items : List RatingItem) (ratings after : List RideRating)
    (ride' rater' rated : ℕ)
    → rating_of after ride' rater' rated
      ≡ rated_by ride_id rater items (rating_of ratings) ride' rater' rated
    → rated_by ride_id rater items (rating_of after) ride' rater' rated
      ≡ rating_of after ride' rater' rated
unfolding rated_by
rated_by-again ride_id rater items ratings after ride' rater' rated e =
    elim (Bool-cases (ride' == ride_id && rater' == rater)) [
      | inr other ↦ rw other refl
      | inl here ↦ elim (Option-cases (last_for rated items)) [
        | inl none_there ↦ rw (here, none_there) refl
        | inr (x, there) ↦
            let at_last : rated_by ride_id rater items (rating_of ratings) ride' rater' rated
                ≡ some (star_count x.stars, cut_comment x.comment) =
              rw (here, there) refl in
            rw (here, there) (sym (e ∙ at_last))
      ]
    ]

-- The same payload sent again, later and with any changes of the database between, changes no opinion:
-- after a submission that answered 200, a second one of the same items by the same caller for the same
-- ride leaves stars and comment of every ride, rater and rated user as they are.
pub submit_ride_rating-again :
    (takes : List ℕ → Bool) (env env' : Env) (user : User) (ride_id : ℕ) (item : RatingItem)
    (items : List RatingItem) (db db' : Db) (ratings : List RideRating) (ride' rater' rated : ℕ)
    → (submit_ride_rating takes env
        (signed_in user)
        (some ride_id)
        (some (item ∷ items))
        db
        ratings).response.status
      ≡ 200
    → let once =
        submit_ride_rating takes env
          (signed_in user)
          (some ride_id)
          (some (item ∷ items))
          db
          ratings in
      let twice =
        submit_ride_rating takes env'
          (signed_in user)
          (some ride_id)
          (some (item ∷ items))
          db'
          once.ratings in
      rating_of twice.ratings ride' rater' rated ≡ rating_of once.ratings ride' rater' rated
submit_ride_rating-again takes env env' user ride_id item items db db' ratings ride' rater' rated
      ok =
    let once =
      submit_ride_rating takes env (signed_in user) (some ride_id) (some (item ∷ items)) db
        ratings in
    elim (submit_ride_rating-refines takes env user ride_id item items db ratings) [
      | inl (failed, _) ↦ absurd (failed ok)
      | inr (_, change) ↦
          elim (submit_ride_rating-refines takes env' user ride_id item items db' once.ratings) [
            | inl (_, same) ↦ ap (λ xs. rating_of xs ride' rater' rated) same
            | inr (_, change') ↦
                change' ride' rater' rated
                ∙ rated_by-again ride_id user.id (item ∷ items) ratings once.ratings ride' rater'
                    rated (change ride' rater' rated)
          ]
    ]
