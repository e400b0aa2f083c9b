-- ===== src/Examples/Stars.antt =====
-- Asha and Bina rate each other after ride 10.
use uni_pool_new_backend.Base.{
  ℕ, ◌+◌, ◌*◌, ◌≡◌, refl, ◌⊎◌, Bool, true, some, List, [], ◌∷◌, arith, Memᴰ, find_where,
  count_where, put_where, update_where, delete_where,
}
use uni_pool_new_backend.Store.{Env, signed_in}
use uni_pool_new_backend.Text.{codes, trim_space, trim_left}
use uni_pool_new_backend.TripCard.Active.{hour}
use uni_pool_new_backend.Ratings.{has_rated, find_rated_ride, was_accepted}
use uni_pool_new_backend.Ratings.Submit.{
  RatingItem, bytes, take_bytes, cut_comment, stars_of, check_items, put_row, collect, upsert,
  upsert_all, save_items, submit_targets, submit_ride, submit_items, submit_ride_rating,
}
use uni_pool_new_backend.Ratings.Eligible.{
  PendingRateTarget, passenger, passenger_candidates, unrated, eligibility_of,
  get_ride_rating_eligibility,
}
use uni_pool_new_backend.Ratings.Pending.{
  is_viewer_ride, pending_count, insert_by_start, pending_from, build_pending_ratings,
}
use uni_pool_new_backend.Ratings.Admitted.{IsRefused, IsSaved}
use uni_pool_new_backend.Ratings.Entitled.{IsEntitled, submit_ride_rating-IsEntitled}
use uni_pool_new_backend.Ratings.View.{rating_of, rated_by}
use uni_pool_new_backend.Ratings.Table.{
  IsRatingTable, submit_ride_rating-IsRatingTable, submit_ride_rating-refines,
  submit_ride_rating-again,
}
use uni_pool_new_backend.Ratings.Offers.{one_item, get_ride_rating_eligibility-submits}
use uni_pool_new_backend.Examples.Fixtures.{asha, bina, calm, start}

abbrev takes_all : List ℕ → Bool
takes_all comment = true

-- Thirteen hours after the start.
abbrev after_trip : Env
after_trip = record calm { now = 1000 + 13 * hour }

abbrev four_stars : RatingItem
four_stars = one_item 1 4 " ok "

abbrev five_stars : RatingItem
five_stars = one_item 1 5 ""

submit_test :
    (submit_ride_rating takes_all after_trip
      (signed_in bina)
      (some 10)
      (some (four_stars ∷ five_stars ∷ []))
      start
      []).ratings
    ≡ record {
      updated_at = 1000 + 13 * hour;
      ride_id = 10;
      rater_user_id = 2;
      rated_user_id = 1;
      stars = 5;
      comment = [];
    }
      ∷ []
unfolding submit_ride_rating submit_items find_rated_ride submit_ride was_accepted submit_targets
    check_items stars_of save_items collect put_row put_where upsert_all upsert cut_comment
    take_bytes bytes codes trim_space trim_left find_where count_where update_where
submit_test = refl

pending_test :
    build_pending_ratings after_trip 1 start []
    ≡ some (
        record {
          ride_id = 10;
          start_location = "VIT Vellore";
          end_location = "Chennai";
          start_time = 1000;
          pending_count = 1;
        }
        ∷ [])
unfolding build_pending_ratings pending_from is_viewer_ride pending_count insert_by_start has_rated
    count_where
pending_test = refl

submit_ride_rating-IsEntitled_example :
    let out =
      submit_ride_rating takes_all after_trip
        (signed_in bina)
        (some 10)
        (some (four_stars ∷ []))
        start
        [] in
    IsRefused [] out
    ⊎ (IsEntitled after_trip 2 10 (four_stars ∷ []) start
        × IsSaved after_trip 2 10 (four_stars ∷ []) [] out)
submit_ride_rating-IsEntitled_example =
    submit_ride_rating-IsEntitled takes_all after_trip bina 10 four_stars [] start []

empty-IsRatingTable : IsRatingTable []
unfolding count_where
empty-IsRatingTable = record { single = λ ride_id rater rated. omega arith; valued = tt }

submit_ride_rating-IsRatingTable_example :
    IsRatingTable
      (submit_ride_rating takes_all after_trip
        (signed_in bina)
        (some 10)
        (some (four_stars ∷ []))
        start
        []).ratings
submit_ride_rating-IsRatingTable_example =
    submit_ride_rating-IsRatingTable takes_all after_trip bina 10 four_stars [] start []
      empty-IsRatingTable

submit_ride_rating-refines_example :
    let out =
      submit_ride_rating takes_all after_trip
        (signed_in bina)
        (some 10)
        (some (four_stars ∷ five_stars ∷ []))
        start
        [] in
    IsRefused [] out
    ⊎ ((out.response.status ≡ 200)
        × ((ride' rater' rated : ℕ)
            → rating_of out.ratings ride' rater' rated
              ≡ rated_by 10 2 (four_stars ∷ five_stars ∷ []) (rating_of []) ride' rater' rated))
submit_ride_rating-refines_example =
    submit_ride_rating-refines takes_all after_trip bina 10 four_stars (five_stars ∷ []) start []

saved_once :
    (submit_ride_rating takes_all after_trip
      (signed_in bina)
      (some 10)
      (some (four_stars ∷ []))
      start
      []).response.status
    ≡ 200
unfolding submit_ride_rating submit_items find_rated_ride submit_ride was_accepted submit_targets
    check_items stars_of save_items collect put_row put_where find_where count_where
saved_once = refl

submit_ride_rating-again_example :
    let once =
      submit_ride_rating takes_all after_trip
        (signed_in bina)
        (some 10)
        (some (four_stars ∷ []))
        start
        [] in
    let twice =
      submit_ride_rating takes_all
        (record after_trip { now = 1000 + 14 * hour })
        (signed_in bina)
        (some 10)
        (some (four_stars ∷ []))
        start
        once.ratings in
    rating_of twice.ratings 10 2 1 ≡ rating_of once.ratings 10 2 1
submit_ride_rating-again_example =
    submit_ride_rating-again takes_all after_trip (record after_trip { now = 1000 + 14 * hour })
      bina 10 four_stars [] start start [] 10 2 1 saved_once

abbrev offered : PendingRateTarget
offered = record { user_id = 2; name = "Bina"; role = passenger }

offered_there :
    Memᴰ offered
      (get_ride_rating_eligibility after_trip (signed_in asha) (some 10) start []).targets
unfolding get_ride_rating_eligibility find_rated_ride eligibility_of passenger_candidates unrated
    has_rated find_where count_where delete_where
offered_there = Memᴰ.head refl

get_ride_rating_eligibility-submits_example :
    (submit_ride_rating takes_all after_trip
      (signed_in asha)
      (some 10)
      (some (one_item 2 5 "calm" ∷ []))
      start
      []).response.status
    ≡ 200
get_ride_rating_eligibility-submits_example =
    get_ride_rating_eligibility-submits takes_all after_trip asha 10 start [] offered 5 "calm" refl
      refl refl (omega arith) (omega arith) offered_there
