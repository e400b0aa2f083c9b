-- ===== src/Ratings/View.antt =====
-- The table of ratings as a map from ride, rater and rated user to stars and comment, and
-- SubmitRideRating of routes/rides/ratings.go as a change of this map.
use uni_pool_new_backend.Base.{
  ℕ, ◌≡◌, refl, ◌∙◌, inl, inr, Bool, true, false, ◌&&◌, Option, none, some, List, [], ◌∷◌, ◌==◌,
  if◌then◌else◌, arith, All, All-map, Keyed, Bool-cases, Option-cases, find_where, Keyed-put_key,
  All-put, find-put_self, find-put_other, none_found, count_none, ==_refl, ==→eq,
}
use uni_pool_new_backend.Ratings.{RideRating, is_rating_of}
use uni_pool_new_backend.Ratings.Submit.{
  RatingItem, row_of, star_count, cut_comment, put_row, collect, overwrite, upsert, upsert_all,
}

abbrev pub Opinion : Type 0
Opinion = ℕ × List ℕ

abbrev pub opinion : RideRating → Opinion
opinion x = (x.stars, x.comment)

abbrev opinion? : Option RideRating → Option Opinion
opinion? none = none
opinion? (some x) = some (opinion x)

-- The map that the table stands for.
unfoldable pub rating_of : List RideRating → ℕ → ℕ → ℕ → Option Opinion
rating_of ratings ride_id rater rated =
    opinion? (find_where (is_rating_of ride_id rater rated) ratings)

-- The last item for a user.
unfoldable pub last_for : ℕ → List RatingItem → Option RatingItem
last_for rated [] = none
last_for rated (x ∷ xs) = elim (last_for rated xs) [
  | none ↦ if x.rated_user_id == rated then some x else none
  | some y ↦ some y
]

abbrev pub or_before : Option Opinion → Option RatingItem → Option Opinion
or_before before none = before
or_before before (some x) = some (star_count x.stars, cut_comment x.comment)

-- The map after a list of items of one rater for one ride.
unfoldable pub rated_by :
    ℕ → ℕ → List RatingItem → (ℕ → ℕ → ℕ → Option Opinion) → ℕ → ℕ → ℕ → Option Opinion
rated_by ride_id rater items before ride' rater' rated =
    if ride' == ride_id && rater' == rater
    then or_before (before ride' rater' rated) (last_for rated items)
    else before ride' rater' rated

abbrev is_for : ℕ → RideRating → Bool
is_for rated x = x.rated_user_id == rated

find-put_row :
    (row : RideRating) (rows : List RideRating) (rated : ℕ)
    → find_where (is_for rated) (put_row row rows)
      ≡ (if row.rated_user_id == rated then some row else find_where (is_for rated) rows)
unfolding put_row
find-put_row row rows rated = elim (Bool-cases (row.rated_user_id == rated)) [
  | inl hit ↦
      let same = ==→eq row.rated_user_id rated hit in
      rw (hit, ← same)
        (find-put_self (is_for row.rated_user_id) (λ _. row) row rows (==_refl row.rated_user_id)
            (λ _ _. ==_refl row.rated_user_id)
          ∙ elim (find_where (is_for row.rated_user_id) rows)
              as (λ o. (elim o [ none ↦ some row | some y ↦ some row ]) ≡ some row) [
                | none ↦ refl
                | some y ↦ refl
              ])
  | inr miss ↦ rw miss (
      find-put_other (is_for row.rated_user_id) (is_for rated) (λ _. row) row rows miss
        (λ y hit. (ground arith, miss)))
]

find-collect :
    (now ride_id rater : ℕ) (items : List RatingItem) (rows : List RideRating) (rated : ℕ)
    → find_where (is_for rated) (collect now ride_id rater items rows)
      ≡ elim (last_for rated items) [
        | none ↦ find_where (is_for rated) rows
        | some x ↦ some (row_of now ride_id rater x)
      ]
unfolding collect last_for
find-collect now ride_id rater [] rows rated = refl
find-collect now ride_id rater (x ∷ xs) rows rated =
    find-collect now ride_id rater xs (put_row (row_of now ride_id rater x) rows) rated
    ∙ elim (Option-cases (last_for rated xs)) [
      | inr (y, e) ↦ rw e refl
      | inl e ↦
          rw (e, find-put_row (row_of now ride_id rater x) rows rated)
            (elim (Bool-cases (x.rated_user_id == rated)) [
              | inl hit ↦ rw hit refl
              | inr miss ↦ rw miss refl
            ])
    ]

rating_of-upsert :
    (row : RideRating) (ratings : List RideRating) (ride_id rater rated : ℕ)
    → rating_of (upsert row ratings) ride_id rater rated ≡ (
        if is_rating_of ride_id rater rated row
        then some (opinion row)
        else rating_of ratings ride_id rater rated)
unfolding rating_of upsert
rating_of-upsert row ratings ride_id rater rated =
    let key = is_rating_of row.ride_id row.rater_user_id row.rated_user_id in
    elim (Bool-cases (is_rating_of ride_id rater rated row)) [
      | inl hit ↦
          let at_ride : row.ride_id ≡ ride_id = ground arith in
          let at_rater : row.rater_user_id ≡ rater = ground arith in
          let at_rated : row.rated_user_id ≡ rated = ground arith in
          let found =
            find-put_self key (overwrite row) row ratings
              (rw (==_refl row.ride_id, ==_refl row.rater_user_id, ==_refl row.rated_user_id) refl)
              (λ y same. same) in
          rw (hit, ← at_ride, ← at_rater, ← at_rated, found)
            (elim (find_where key ratings)
              as (λ o.
                opinion? (elim o [ none ↦ some row | some y ↦ some (overwrite row y) ])
                ≡ some (opinion row)) [ none ↦ refl | some y ↦ refl ])
      | inr miss ↦
          rw
            (
              miss,
              find-put_other key (is_rating_of ride_id rater rated) (overwrite row) row ratings miss
                  (λ y same.
                    let off : is_rating_of ride_id rater rated y ≡ false = ground arith in
                    (off, off)),
            )
            refl
    ]

abbrev pub IsFrom : ℕ → ℕ → RideRating → Type 0
IsFrom ride_id rater row = (row.ride_id ≡ ride_id) × (row.rater_user_id ≡ rater)

abbrev pub rated_key : RideRating → ℕ
rated_key row = row.rated_user_id

abbrev over : Option Opinion → Option RideRating → Option Opinion
over before none = before
over before (some row) = some (opinion row)

module _ (ride_id rater : ℕ) where
  rating_of-upsert_all :
      (rows ratings : List RideRating) (ride' rater' rated : ℕ)
      → All (IsFrom ride_id rater) rows
      → Keyed rated_key rows
      → rating_of (upsert_all rows ratings) ride' rater' rated ≡ (
          if ride' == ride_id && rater' == rater
          then over (rating_of ratings ride' rater' rated) (find_where (is_for rated) rows)
          else rating_of ratings ride' rater' rated)
  unfolding upsert_all find_where
  rating_of-upsert_all [] ratings ride' rater' rated own keyed =
      elim (Bool-cases (ride' == ride_id && rater' == rater)) [
        | inl e ↦ rw e refl
        | inr e ↦ rw e refl
      ]
  rating_of-upsert_all (row ∷ rows) ratings ride' rater' rated own keyed =
      rw
        (
          rating_of-upsert_all rows (upsert row ratings) ride' rater' rated own.1 keyed.1,
          rating_of-upsert row ratings ride' rater' rated,
        )
        (elim (Bool-cases (ride' == ride_id && rater' == rater)) [
          | inr other ↦
              let miss : is_rating_of ride' rater' rated row ≡ false = ground arith in
              rw (other, miss) refl
          | inl here ↦ elim (Bool-cases (row.rated_user_id == rated)) [
            | inr differs ↦
                let miss : is_rating_of ride' rater' rated row ≡ false = ground arith in
                rw (here, miss, differs) refl
            | inl same ↦
                let hit : is_rating_of ride' rater' rated row ≡ true = ground arith in
                let alone = none_found (is_for rated) rows (
                  count_none (is_for rated) rows
                    (All-map rows (λ x apart. ground arith) keyed.0)) in
                rw (here, hit, same, alone) refl
          ]
        ])

  collect-own :
      (now : ℕ) (items : List RatingItem) (rows : List RideRating)
      → All (IsFrom ride_id rater) rows
      → All (IsFrom ride_id rater) (collect now ride_id rater items rows)
  unfolding collect put_row
  collect-own now [] rows own = own
  collect-own now (x ∷ xs) rows own =
      let row = row_of now ride_id rater x in
      collect-own now xs (put_row row rows) (
        All-put (IsFrom ride_id rater) (is_for row.rated_user_id) (λ _. row) row rows (refl, refl)
          (λ _ _. (refl, refl)) own)

  collect-Keyed :
      (now : ℕ) (items : List RatingItem) (rows : List RideRating)
      → Keyed rated_key rows
      → Keyed rated_key (collect now ride_id rater items rows)
  unfolding collect put_row
  collect-Keyed now [] rows keyed = keyed
  collect-Keyed now (x ∷ xs) rows keyed =
      let row = row_of now ride_id rater x in
      collect-Keyed now xs (put_row row rows) (Keyed-put_key rated_key row rows keyed)

  pub rating_of-saved :
      (now : ℕ) (items : List RatingItem) (ratings : List RideRating) (ride' rater' rated : ℕ)
      → rating_of (upsert_all (collect now ride_id rater items []) ratings) ride' rater' rated
        ≡ rated_by ride_id rater items (rating_of ratings) ride' rater' rated
  unfolding rated_by find_where
  rating_of-saved now items ratings ride' rater' rated =
      rw
        (
          rating_of-upsert_all (collect now ride_id rater items []) ratings ride' rater' rated
              (collect-own now items [] tt) (collect-Keyed now items [] tt),
          find-collect now ride_id rater items [] rated,
        )
        (elim (Option-cases (last_for rated items)) [ inl e ↦ rw e refl | inr (x, e) ↦ rw e refl ])
