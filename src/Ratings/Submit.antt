-- ===== src/Ratings/Submit.antt =====
-- SubmitRideRating of routes/rides/ratings.go.
use uni_pool_new_backend.Base.{
  ℕ, ◌+◌, ◌/◌, ◌%◌, suc, zero, Bool, true, not, ◌&&◌, ◌||◌, Option, none, some, String, List, [],
  ◌∷◌, ◌++◌, ◌==◌, ltb, if◌then◌else◌, count_where, put_where,
}
use uni_pool_new_backend.Model.{User, Ride, Booking, is_accepted}
use uni_pool_new_backend.Store.{
  Db, Env, Locals, missing, malformed, signed_in, Response, load_row, find_accepted, save_ratings,
  visible,
}
use uni_pool_new_backend.Text.{codes, trim_space}
use uni_pool_new_backend.Ratings.{
  RideRating, is_rating_of, find_rated_ride, was_accepted, is_before_window, is_after_window,
}

-- Go's int, as the body gives it.
pub data ℤ : Type 0 where
  pos : ℕ → ℤ
  negsuc : ℕ → ℤ

pub record RatingItem : Type 0 where
  pub rated_user_id : ℕ
  pub stars : ℤ
  pub comment : String

pub record Submitted : Type 0 where
  pub ratings : List RideRating
  pub response : Response
  pub saved : ℕ

abbrev pub refuse_rating : List RideRating → ℕ → String → Submitted
refuse_rating ratings status message = record {
  ratings = ratings;
  response = record { status = status; message = message };
  saved = 0;
}

-- The bytes of a code point in Go's strings.
unfoldable pub utf8 : ℕ → List ℕ
utf8 c =
    if ltb c 0x80
    then c ∷ []
    else if ltb c 0x800
    then (0xc0 + c / 64) ∷ (0x80 + c % 64) ∷ []
    else if ltb c 0x10000
    then (0xe0 + c / 4096) ∷ (0x80 + c / 64 % 64) ∷ (0x80 + c % 64) ∷ []
    else (0xf0 + c / 262144) ∷ (0x80 + c / 4096 % 64) ∷ (0x80 + c / 64 % 64) ∷ (0x80 + c % 64) ∷ []

unfoldable pub bytes : List ℕ → List ℕ
bytes [] = []
bytes (c ∷ cs) = utf8 c ++ bytes cs

unfoldable pub take_bytes : ℕ → List ℕ → List ℕ
take_bytes zero cs = []
take_bytes (suc n) [] = []
take_bytes (suc n) (c ∷ cs) = c ∷ take_bytes n cs

-- The comment, trimmed and cut to 240 bytes.
unfoldable pub cut_comment : String → List ℕ
cut_comment comment = take_bytes 240 (bytes (trim_space (codes comment)))

-- The stars of an item, if they are between 1 and 5.
unfoldable pub stars_of : ℤ → Option ℕ
stars_of (negsuc n) = none
stars_of (pos n) = if ltb n 1 || ltb 5 n then none else some n

-- The host may rate the accepted passengers, but for the own id.
unfoldable pub passenger_targets : Env → ℕ → ℕ → List Booking → List ℕ
passenger_targets env ride_id user_id [] = []
passenger_targets env ride_id user_id (b ∷ bs) =
    let rest = passenger_targets env ride_id user_id bs in
    if b.ride_id == ride_id
      && (is_accepted b.request_status
          && (visible env b.deleted_at && not (b.passenger_id == user_id)))
    then b.passenger_id ∷ rest
    else rest

abbrev pub is_target : ℕ → List ℕ → Bool
is_target id targets = not (count_where (λ t. t == id) targets == 0)

-- The first item that is refused, stars before target.
unfoldable pub check_items : List ℕ → List RatingItem → Option Response
check_items targets [] = none
check_items targets (x ∷ xs) =
    let rest = check_items targets xs in
    elim (stars_of x.stars) [
      | none ↦ some (record { status = 400; message = "stars must be between 1 and 5" })
      | some n ↦
          if not (is_target x.rated_user_id targets)
          then some (record { status = 403; message = "rated user was not on this trip" })
          else rest
    ]

abbrev pub star_count : ℤ → ℕ
star_count (pos n) = n
star_count (negsuc n) = 0

abbrev pub row_of : ℕ → ℕ → ℕ → RatingItem → RideRating
row_of now ride_id rater x = record {
  updated_at = now;
  ride_id = ride_id;
  rater_user_id = rater;
  rated_user_id = x.rated_user_id;
  stars = star_count x.stars;
  comment = cut_comment x.comment;
}

-- `rowsByTarget[id] = row`, with the ids in the order in which they came first.
unfoldable pub put_row : RideRating → List RideRating → List RideRating
put_row row rows = put_where (λ x. x.rated_user_id == row.rated_user_id) (λ _. row) row rows

unfoldable pub collect : ℕ → ℕ → ℕ → List RatingItem → List RideRating → List RideRating
collect now ride_id rater [] rows = rows
collect now ride_id rater (x ∷ xs) rows =
    collect now ride_id rater xs (put_row (row_of now ride_id rater x) rows)

abbrev pub overwrite : RideRating → RideRating → RideRating
overwrite row x = record x { stars = row.stars; comment = row.comment; updated_at = row.updated_at }

-- INSERT … ON CONFLICT (ride_id, rater_user_id, rated_user_id) DO UPDATE
unfoldable pub upsert : RideRating → List RideRating → List RideRating
upsert row ratings =
    put_where (is_rating_of row.ride_id row.rater_user_id row.rated_user_id) (overwrite row) row
      ratings

unfoldable pub upsert_all : List RideRating → List RideRating → List RideRating
upsert_all [] ratings = ratings
upsert_all (row ∷ rows) ratings = upsert_all rows (upsert row ratings)

-- `takes` says which comments the database stores; the statement writes all rows or none.
unfoldable pub save_items :
    (List ℕ → Bool) → Env → ℕ → ℕ → List RatingItem → List RideRating → Submitted
save_items takes env ride_id rater items ratings =
    let rows = collect env.now ride_id rater items [] in
    if env.fails save_ratings || not (count_where (λ x. not (takes x.comment)) rows == 0)
    then refuse_rating ratings 500 "save failed"
    else record {
      ratings = upsert_all rows ratings;
      response = record { status = 200; message = "saved" };
      saved = count_where (λ _. true) rows;
    }

unfoldable pub submit_targets :
    (List ℕ → Bool) → Env → ℕ → ℕ → List ℕ → List RatingItem → List RideRating → Submitted
submit_targets takes env ride_id rater [] items ratings =
    refuse_rating ratings 400 "no valid rating targets for this trip"
submit_targets takes env ride_id rater (t ∷ ts) items ratings = elim (check_items (t ∷ ts) items) [
  | some refused ↦ record { ratings = ratings; response = refused; saved = 0 }
  | none ↦ save_items takes env ride_id rater items ratings
]

unfoldable pub submit_ride :
    (List ℕ → Bool) → Env → User → ℕ → Ride → List RatingItem → Db → List RideRating → Submitted
submit_ride takes env user ride_id r items db ratings =
    if is_before_window env.now r
    then refuse_rating ratings 400 "rating opens 12 hours after the trip starts"
    else if is_after_window env.now r
    then refuse_rating ratings 400 "rating window has closed for this trip"
    else if r.host_user_id == user.id
    then (if env.fails find_accepted
        then refuse_rating ratings 500 "lookup failed"
        else submit_targets takes env ride_id user.id
            (passenger_targets env ride_id user.id db.bookings) items ratings)
    else if not (was_accepted env ride_id user.id db)
    then refuse_rating ratings 403 "you weren't on this trip"
    else submit_targets takes env ride_id user.id (r.host_user_id ∷ []) items ratings

unfoldable pub submit_items :
    (List ℕ → Bool) → Env → User → ℕ → List RatingItem → Db → List RideRating → Submitted
submit_items takes env user ride_id items db ratings =
    if env.fails load_row
    then refuse_rating ratings 404 "ride not found"
    else elim (find_rated_ride env ride_id db) [
      | none ↦ refuse_rating ratings 404 "ride not found"
      | some r ↦ submit_ride takes env user ride_id r items db ratings
    ]

-- `none` is a path or a body that the parser refuses.
unfoldable pub submit_ride_rating :
    (List ℕ → Bool)
    → Env
    → Locals
    → Option ℕ
    → Option (List RatingItem)
    → Db
    → List RideRating
    → Submitted
submit_ride_rating takes env missing ride_id body db ratings =
    refuse_rating ratings 401 "unauthorized"
submit_ride_rating takes env malformed ride_id body db ratings =
    refuse_rating ratings 401 "unauthorized"
submit_ride_rating takes env (signed_in user) none body db ratings =
    refuse_rating ratings 400 "invalid ride id"
submit_ride_rating takes env (signed_in user) (some ride_id) none db ratings =
    refuse_rating ratings 400 "missing or invalid ratings array"
submit_ride_rating takes env (signed_in user) (some ride_id) (some []) db ratings =
    refuse_rating ratings 400 "missing or invalid ratings array"
submit_ride_rating takes env (signed_in user) (some ride_id) (some (x ∷ xs)) db ratings =
    submit_items takes env user ride_id (x ∷ xs) db ratings
