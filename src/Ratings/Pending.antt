-- ===== src/Ratings/Pending.antt =====
-- BuildPendingRatings, BuildPendingRatingSet and GetUserRatingSummary of routes/rides/ratings.go.
use uni_pool_new_backend.Base.{
  ℕ, ◌+◌, Bool, not, ◌&&◌, ◌||◌, Option, none, some, String, List, [], ◌∷◌, ◌==◌, leb, is_none,
  if◌then◌else◌, count_where,
}
use uni_pool_new_backend.Model.{Ride, Booking, is_accepted}
use uni_pool_new_backend.Store.{Db, Env, find_ratings}
use uni_pool_new_backend.Ratings.{RideRating, has_rated, rating_eligible_after, rating_prompt_until}

pub record PendingRatingRide : Type 0 where
  pub ride_id : ℕ
  pub start_location : String
  pub end_location : String
  pub start_time : ℕ
  pub pending_count : ℕ

-- `start_time BETWEEN now - 7 days AND now - 12 hours`
abbrev pub is_prompted : ℕ → Ride → Bool
is_prompted now r =
    leb now (r.start_time + rating_prompt_until) && leb (r.start_time + rating_eligible_after) now

abbrev pub is_seated : ℕ → ℕ → Booking → Bool
is_seated ride_id user_id b =
    b.ride_id == ride_id
    && (b.passenger_id == user_id && (is_accepted b.request_status && is_none b.deleted_at))

-- viewer_rides: hosted, or with an accepted booking of the viewer.
unfoldable pub is_viewer_ride : ℕ → ℕ → List Booking → Ride → Bool
is_viewer_ride now user_id bookings r =
    is_none r.deleted_at
    && (is_prompted now r
        && (r.host_user_id == user_id || not (count_where (is_seated r.id user_id) bookings == 0)))

-- An accepted passenger that the viewer has not rated.
abbrev pub is_unrated_passenger : ℕ → ℕ → List RideRating → Booking → Bool
is_unrated_passenger ride_id user_id ratings b =
    b.ride_id == ride_id
    && (is_accepted b.request_status
        && (is_none b.deleted_at && not (has_rated ride_id user_id b.passenger_id ratings)))

-- unrated_targets of a ride, counted: the passengers for the host, the host for anybody else.
unfoldable pub pending_count : ℕ → List Booking → List RideRating → Ride → ℕ
pending_count user_id bookings ratings r =
    if r.host_user_id == user_id
    then count_where (is_unrated_passenger r.id user_id ratings) bookings
    else if has_rated r.id user_id r.host_user_id ratings
    then 0
    else 1

-- ORDER BY start_time DESC
unfoldable pub insert_by_start : PendingRatingRide → List PendingRatingRide → List PendingRatingRide
insert_by_start x [] = x ∷ []
insert_by_start x (y ∷ ys) =
    let further = y ∷ insert_by_start x ys in
    if leb y.start_time x.start_time then x ∷ y ∷ ys else further

abbrev pub pending_ride : Ride → ℕ → PendingRatingRide
pending_ride r count = record {
  ride_id = r.id;
  start_location = r.start_location;
  end_location = r.end_location;
  start_time = r.start_time;
  pending_count = count;
}

-- A ride without an unrated target has no group.
unfoldable pub pending_from :
    ℕ → ℕ → List Booking → List RideRating → List Ride → List PendingRatingRide
pending_from now user_id bookings ratings [] = []
pending_from now user_id bookings ratings (r ∷ rs) =
    let rest = pending_from now user_id bookings ratings rs in
    let count = pending_count user_id bookings ratings r in
    if is_viewer_ride now user_id bookings r && not (count == 0)
    then insert_by_start (pending_ride r count) rest
    else rest

-- `none` is an error of the query.
unfoldable pub build_pending_ratings :
    Env → ℕ → Db → List RideRating → Option (List PendingRatingRide)
build_pending_ratings env user_id db ratings =
    if env.fails find_ratings
    then none
    else some (pending_from env.now user_id db.bookings ratings db.rides)

abbrev ride_ids : List PendingRatingRide → List ℕ
ride_ids [] = []
ride_ids (x ∷ xs) = x.ride_id ∷ ride_ids xs

unfoldable pub build_pending_rating_set : Env → ℕ → Db → List RideRating → Option (List ℕ)
build_pending_rating_set env user_id db ratings =
    elim (build_pending_ratings env user_id db ratings) [
      | none ↦ none
      | some pending ↦ some (ride_ids pending)
    ]

-- AVG(stars) of a user as its two parts.
unfoldable pub sum_stars : ℕ → List RideRating → ℕ
sum_stars user_id [] = 0
sum_stars user_id (x ∷ xs) =
    let rest = sum_stars user_id xs in if x.rated_user_id == user_id then x.stars + rest else rest

unfoldable pub rating_count : ℕ → List RideRating → ℕ
rating_count user_id ratings = count_where (λ x. x.rated_user_id == user_id) ratings
