-- ===== src/Examples/Accounts.antt =====
-- Account deletion on the fixture: Asha leaves, and Bina takes her ride over.
use uni_pool_new_backend.Base.{
  ◌≡◌, ◌≢◌, ◌≤◌, ◌<◌, ◌⊎◌, refl, ◌↔◌, true, false, some, ◌==◌, arith, All, Memᴰ, find_where,
  count_where, update_where,
}
use mathlib.Core.Bool.{false≢true}
use uni_pool_new_backend.Text.{codes, codes_eq}
use uni_pool_new_backend.Model.{Ride}
use uni_pool_new_backend.Store.{signed_in, visible}
use uni_pool_new_backend.Booking.Atomic.{IsAllOrNothing}
use uni_pool_new_backend.Booking.Request.{accepted_count}
use uni_pool_new_backend.Ledger.{IsBalanced}
use uni_pool_new_backend.Account.Hosted.{
  earliest, is_candidate, first_accepted, transfers_of, empty_rides, transfer_hosted, drop_empty,
  settle_hosted, handle_hosted_rides,
}
use uni_pool_new_backend.Account.Passenger.{
  has_ride_starting_soon, handle_passenger_bookings, handle_user_messages, handle_user_metadata,
  is_placeholder,
}
use uni_pool_new_backend.Account.Delete.{delete_user}
use uni_pool_new_backend.Account.Leaves.{HasNoSelfBooking}
use uni_pool_new_backend.Account.Gone.{IsGone, delete_user-IsGone}
use uni_pool_new_backend.Account.Guards.{delete_user-IsAllOrNothing}
use uni_pool_new_backend.Account.Refusals.{IsDueSoon, delete_user-guards}
use uni_pool_new_backend.Account.Promotion.{IsTaken, delete_user-promotes, delete_user-keeps_seat}
use uni_pool_new_backend.Examples.Fixtures.{
  asha, bina, ride_ten, seated, start, calm, start-IsBalanced,
}

pub deleted_test : (delete_user calm (signed_in asha) start).response.status ≡ 200
unfolding delete_user handle_hosted_rides settle_hosted transfers_of empty_rides first_accepted
    earliest transfer_hosted drop_empty count_where find_where update_where
    handle_passenger_bookings has_ride_starting_soon handle_user_messages handle_user_metadata codes
    codes_eq
deleted_test = refl

-- Bina's seat is within the day.
too_soon_test : (delete_user calm (signed_in bina) start).response.status ≡ 500
unfolding delete_user handle_hosted_rides count_where handle_passenger_bookings
    has_ride_starting_soon
too_soon_test = refl

no_self_booking : HasNoSelfBooking calm 1 start
no_self_booking = (λ _. (λ _. omega arith, (λ _. omega arith, tt)), tt)

not_placeholder : All (λ u. is_placeholder calm u ≡ true → u.id ≢ 1) start.users
unfolding codes codes_eq
not_placeholder =
    (λ h. absurd (false≢true h), (λ _. omega arith, (λ _. omega arith, (λ _. omega arith, tt))))

delete_user-IsGone_example : IsGone calm 1 (delete_user calm (signed_in asha) start).db
delete_user-IsGone_example =
    delete_user-IsGone calm asha start no_self_booking not_placeholder (omega arith) deleted_test

pub bina_next : IsTaken calm 1 10 start ride_ten seated
unfolding find_where first_accepted earliest
bina_next = record {
  found = refl;
  hosted = refl;
  ride_live = refl;
  first = refl;
  other = omega arith;
}

delete_user-promotes_example :
    (find_where (λ x. x.id == 10) (delete_user calm (signed_in asha) start).db.rides
      ≡ some (record ride_ten { host_user_id = 2 }))
    × (is_candidate calm 10 seated ≡ true)
    × All (λ c. is_candidate calm 10 c ≡ true → 5 ≤ c.created_at) start.bookings
delete_user-promotes_example =
    delete_user-promotes calm asha 10 start ride_ten seated bina_next deleted_test

delete_user-keeps_seat_example :
    let out = (delete_user calm (signed_in asha) start).db in
    (accepted_count 10 out.bookings < 1) × ¬ IsBalanced out
delete_user-keeps_seat_example =
    delete_user-keeps_seat calm asha 10 start ride_ten seated start-IsBalanced bina_next refl
      deleted_test

delete_user-IsAllOrNothing_example :
    IsAllOrNothing 200 start (delete_user calm (signed_in bina) start)
delete_user-IsAllOrNothing_example = delete_user-IsAllOrNothing calm (signed_in bina) start

delete_user-guards_example :
    let out = delete_user calm (signed_in bina) start in
    ((r : Ride) × Memᴰ r start.rides
        × (r.host_user_id ≡ 2)
        × (visible calm r.deleted_at ≡ true)
        × (0 < r.is_ongoing)
      → (out.response.status ≡ 500) × (out.db ≡ start))
    × (All (λ r. (r.host_user_id ≢ 2) ⊎ (visible calm r.deleted_at ≡ false)) start.rides
        → (out.response.status ≡ 200) ↔ ¬ IsDueSoon 100 2 start)
delete_user-guards_example = delete_user-guards calm bina start (λ s. refl)
