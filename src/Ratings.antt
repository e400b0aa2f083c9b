-- ===== src/Ratings.antt =====
-- The ratings of routes/rides/ratings.go and models/RatingModel.go: the rows, when a ride may be
-- rated, and whom.
pub mod Submit
pub mod Eligible
pub mod Pending
pub mod View
pub mod Table
pub mod Admitted
pub mod Entitled
pub mod Offered
pub mod Offers
use uni_pool_new_backend.Base.{
  ℕ, ◌+◌, ◌*◌, Bool, true, false, not, ◌&&◌, ◌||◌, Option, none, some, String, List, [], ◌∷◌, ◌==◌,
  ltb, if◌then◌else◌, find_where, count_where,
}
use uni_pool_new_backend.Model.{User, Ride, Booking, RequestStatus, is_accepted}
use uni_pool_new_backend.Store.{Db, Env, Stmt, count_rows, visible}
use uni_pool_new_backend.TripCard.Active.{hour, day}

-- A row, less its key, its creation and its deletion, which no query reads. The comment is in bytes.
pub record RideRating : Type 0 where
  pub updated_at : ℕ
  pub ride_id : ℕ
  pub rater_user_id : ℕ
  pub rated_user_id : ℕ
  pub stars : ℕ
  pub comment : List ℕ

abbrev pub rating_eligible_after : ℕ
rating_eligible_after = 12 * hour

abbrev pub rating_eligible_until : ℕ
rating_eligible_until = 30 * day

abbrev pub rating_prompt_until : ℕ
rating_prompt_until = 7 * day

-- The columns of the unique index.
abbrev pub is_rating_of : ℕ → ℕ → ℕ → RideRating → Bool
is_rating_of ride_id rater rated x =
    x.ride_id == ride_id && (x.rater_user_id == rater && x.rated_user_id == rated)

unfoldable pub has_rated : ℕ → ℕ → ℕ → List RideRating → Bool
has_rated ride_id rater rated ratings =
    not (count_where (is_rating_of ride_id rater rated) ratings == 0)

unfoldable pub find_rated_ride : Env → ℕ → Db → Option Ride
find_rated_ride env ride_id db =
    find_where (λ r. r.id == ride_id && visible env r.deleted_at) db.rides

-- An accepted booking of the ride and the passenger; a count that fails is 0.
unfoldable pub was_accepted : Env → ℕ → ℕ → Db → Bool
was_accepted env ride_id user_id db =
    not (env.fails count_rows)
    && not (
        count_where
          (λ b.
            b.ride_id == ride_id
            && (b.passenger_id == user_id
                && (is_accepted b.request_status && visible env b.deleted_at)))
          db.bookings
        == 0)

abbrev pub is_before_window : ℕ → Ride → Bool
is_before_window now r = ltb now (r.start_time + rating_eligible_after)

abbrev pub is_after_window : ℕ → Ride → Bool
is_after_window now r = ltb (r.start_time + rating_eligible_until) now
