-- ===== src/Ratings/Eligible.antt =====
-- GetRideRatingEligibility of routes/rides/ratings.go.
use uni_pool_new_backend.Base.{
  ℕ, ◌+◌, Bool, true, false, not, ◌&&◌, ◌||◌, Option, none, some, String, List, [], ◌∷◌, ◌==◌,
  if◌then◌else◌, find_where, delete_where,
}
use uni_pool_new_backend.Model.{User, Ride, Booking, is_accepted}
use uni_pool_new_backend.Store.{
  Db, Env, Locals, missing, malformed, signed_in, Response, load_row, find_accepted, load_user,
  find_ratings, visible,
}
use uni_pool_new_backend.Ratings.{
  RideRating, has_rated, find_rated_ride, was_accepted, is_before_window, is_after_window,
  rating_eligible_after,
}

pub data Role : Type 0 where
  host passenger : Role

pub record PendingRateTarget : Type 0 where
  pub user_id : ℕ
  pub name : String
  pub role : Role

pub record Eligibility : Type 0 where
  pub response : Response
  pub eligible : Bool
  pub opens_at : ℕ
  pub targets : List PendingRateTarget

abbrev pub no_eligibility : ℕ → String → Eligibility
no_eligibility status message = record {
  response = record { status = status; message = message };
  eligible = false;
  opens_at = 0;
  targets = [];
}

abbrev pub target_of : Role → User → PendingRateTarget
target_of role u = record { user_id = u.id; name = u.name; role = role }

-- A passenger without a row in users falls out of the join, and the caller is passed over.
abbrev pub add_passenger : ℕ → Option User → List PendingRateTarget → List PendingRateTarget
add_passenger user_id none rest = rest
add_passenger user_id (some u) rest = if u.id == user_id then rest else target_of passenger u ∷ rest

-- The join of bookings and users, which leaves deleted_at alone.
unfoldable pub passenger_candidates : ℕ → ℕ → List User → List Booking → List PendingRateTarget
passenger_candidates ride_id user_id users [] = []
passenger_candidates ride_id user_id users (b ∷ bs) =
    let rest = passenger_candidates ride_id user_id users bs in
    if b.ride_id == ride_id && is_accepted b.request_status
    then add_passenger user_id (find_where (λ u. u.id == b.passenger_id) users) rest
    else rest

abbrev pub host_targets : Option User → List PendingRateTarget
host_targets none = []
host_targets (some u) = target_of host u ∷ []

unfoldable pub host_candidate : Env → ℕ → Db → List PendingRateTarget
host_candidate env host_id db =
    if env.fails load_user
    then []
    else host_targets (find_where (λ u. u.id == host_id && visible env u.deleted_at) db.users)

abbrev has_any : List PendingRateTarget → Bool
has_any [] = false
has_any (t ∷ ts) = true

-- Those that the caller has not rated; the read of the ratings is not looked at when it fails.
unfoldable pub unrated :
    Env → ℕ → ℕ → List RideRating → List PendingRateTarget → List PendingRateTarget
unrated env ride_id user_id ratings candidates =
    if env.fails find_ratings
    then candidates
    else delete_where (λ t. has_rated ride_id user_id t.user_id ratings) candidates

abbrev pub eligible_response :
    Env → ℕ → Ride → ℕ → List RideRating → List PendingRateTarget → Eligibility
eligible_response env ride_id r user_id ratings candidates =
    let targets = unrated env ride_id user_id ratings candidates in
    record {
      response = record { status = 200; message = "" };
      eligible = has_any targets;
      opens_at = r.start_time + rating_eligible_after;
      targets = targets;
    }

unfoldable pub eligibility_of : Env → User → ℕ → Ride → Db → List RideRating → Eligibility
eligibility_of env user ride_id r db ratings =
    if is_before_window env.now r || is_after_window env.now r
    then eligible_response env ride_id r user.id ratings []
    else if r.host_user_id == user.id
    then (if env.fails find_accepted
        then no_eligibility 500 "lookup failed"
        else eligible_response env ride_id r user.id ratings
            (passenger_candidates ride_id user.id db.users db.bookings))
    else if not (was_accepted env ride_id user.id db)
    then eligible_response env ride_id r user.id ratings []
    else eligible_response env ride_id r user.id ratings (host_candidate env r.host_user_id db)

abbrev pub eligibility_at : Env → User → ℕ → Db → List RideRating → Option Ride → Eligibility
eligibility_at env user ride_id db ratings none = no_eligibility 404 "ride not found"
eligibility_at env user ride_id db ratings (some r) = eligibility_of env user ride_id r db ratings

unfoldable pub get_ride_rating_eligibility :
    Env → Locals → Option ℕ → Db → List RideRating → Eligibility
get_ride_rating_eligibility env missing ride_id db ratings = no_eligibility 401 "unauthorized"
get_ride_rating_eligibility env malformed ride_id db ratings = no_eligibility 401 "unauthorized"
get_ride_rating_eligibility env (signed_in user) none db ratings =
    no_eligibility 400 "invalid ride id"
get_ride_rating_eligibility env (signed_in user) (some ride_id) db ratings =
    if env.fails load_row
    then no_eligibility 500 "lookup failed"
    else eligibility_at env user ride_id db ratings (find_rated_ride env ride_id db)
