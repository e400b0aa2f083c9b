-- ===== src/Examples/Rides.antt =====
-- The ride routes on the fixture.
use uni_pool_new_backend.Base.{
  update_where, ℕ, ◌+◌, ◌≡◌, ◌≢◌, ◌≤◌, refl, ◌↔◌, true, false, none, some, [], ◌∷◌, arith, All,
  find_where, count_where,
}
use uni_pool_new_backend.Text.{
  codes, codes_eq, normalize, trim_space, trim_left, is_space, to_lower, fields_from, join_fields,
}
use uni_pool_new_backend.Model.{User, Ride}
use uni_pool_new_backend.Store.{Db, signed_in, visible, create_row}
use uni_pool_new_backend.Seats.{passenger_capacity}
use uni_pool_new_backend.Ledger.{IsBalanced}
use uni_pool_new_backend.TripCard.Active.{day}
use uni_pool_new_backend.Booking.Request.{Preflight}
use uni_pool_new_backend.Account.Delete.{delete_user}
use uni_pool_new_backend.Account.Promotion.Stuck.{delete_user-blocks_ride}
use uni_pool_new_backend.Rides.Locations.{
  canonical_location_coords, normalize_canonical_location_label, is_canonical,
  canonical_vit_vellore_lat, canonical_vit_vellore_lon,
}
use uni_pool_new_backend.Rides.Create.{check_ride, load_host, create_ride}
use uni_pool_new_backend.Rides.Remove.{is_accepted_row, find_ride, delete_ride_by_id}
use uni_pool_new_backend.Rides.Viewer.{resolve_viewer_state}
use uni_pool_new_backend.Rides.Offers.{is_unbooked, resolve_viewer_state-offers_iff}
use uni_pool_new_backend.Nested.{RideBody}
use uni_pool_new_backend.Rides.Launch.{IsOffer, check_ride-created_iff, create_ride-IsBalanced_iff}
use uni_pool_new_backend.Rides.Update.{
  has_changes, is_cooling, accepted_pushes, announce, update_ride_by_id,
}
use uni_pool_new_backend.Rides.Resize.{update_ride_by_id-IsBalanced_iff}
use uni_pool_new_backend.Rides.Pull.{delete_ride_by_id-guarded}
use uni_pool_new_backend.Examples.Fixtures.{
  asha, bina, dev, ride_ten, seated, waiting, start, calm, start-IsBalanced,
}
use uni_pool_new_backend.Examples.Accounts.{bina_next, deleted_test}

-- " VIT-Vellore, Main Gate" is one of the labels, up to case, punctuation and spaces.
label_test :
    canonical_location_coords " VIT-Vellore, Main Gate"
    ≡ some (canonical_vit_vellore_lat, canonical_vit_vellore_lon)
unfolding canonical_location_coords normalize_canonical_location_label is_canonical codes codes_eq
    normalize trim_space trim_left is_space to_lower fields_from join_fields
label_test = refl

city_test : canonical_location_coords "Vellore" ≡ none
unfolding canonical_location_coords normalize_canonical_location_label is_canonical codes codes_eq
    normalize trim_space trim_left is_space to_lower fields_from join_fields
city_test = refl

-- Dev offers a ride to everybody, at time 500.
abbrev offer : RideBody
offer = record {
  ride = record ride_ten { id = 0; start_time = 500; booked_seats = 0; is_same_gender = 0 };
  host_user = none;
}

offered : (create_ride calm (signed_in dev) (some offer) start).response.status ≡ 200
unfolding create_ride load_host find_where passenger_capacity
offered = refl

check_ride-created_iff_example :
    ((check_ride calm dev dev offer start).response.status ≡ 200)
    ↔ (IsOffer calm dev offer.ride × (calm.fails create_row ≡ false))
check_ride-created_iff_example = check_ride-created_iff calm dev dev offer start

create_ride-IsBalanced_iff_example :
    IsBalanced (create_ride calm (signed_in dev) (some offer) start).db
    ↔ (offer.ride.booked_seats ≡ 0)
create_ride-IsBalanced_iff_example =
    create_ride-IsBalanced_iff calm dev offer start start-IsBalanced (omega arith, tt)
      (omega arith, (omega arith, tt)) offered

-- With nobody accepted, Asha may delete her ride.
abbrev quiet : Db
quiet = record start { bookings = waiting ∷ [] }

pulled : (delete_ride_by_id calm (signed_in asha) (some 10) quiet).response.status ≡ 200
unfolding delete_ride_by_id find_ride find_where count_where
pulled = refl

delete_ride_by_id-guarded_example :
    (user : User) × (ride_id : ℕ) × (ride : Ride) × (signed_in asha ≡ signed_in user)
    × (some 10 ≡ some ride_id)
    × (find_ride calm ride_id quiet ≡ some ride)
    × (ride.host_user_id ≡ user.id)
    × (count_where (is_accepted_row calm ride_id) quiet.bookings ≡ 0)
    × All
        (λ r. visible calm r.deleted_at ≡ true → r.id ≢ ride_id)
        (delete_ride_by_id calm (signed_in asha) (some 10) quiet).db.rides
delete_ride_by_id-guarded_example =
    delete_ride_by_id-guarded calm (signed_in asha) (some 10) quiet pulled

resolve_viewer_state-offers_iff_example :
    ((resolve_viewer_state 100 ride_ten 4 none).actions.can_request_seat ≡ true)
    ↔ ((100 ≤ 1000 + day) × (ride_ten.host_user_id ≢ 4) × (is_unbooked none ≡ true) × (1 + 2 ≤ 3))
resolve_viewer_state-offers_iff_example = resolve_viewer_state-offers_iff 100 ride_ten 4 none

abbrev mixed : Preflight
mixed = record {
  ride = record ride_ten { is_same_gender = 0 };
  host = asha;
  accepted_count = 1;
  existing_booking = none;
}

delete_user-blocks_ride_example :
    let out = (delete_user calm (signed_in asha) start).db in
    (delete_ride_by_id calm (signed_in bina) (some 10) out).response.status ≢ 200
delete_user-blocks_ride_example =
    delete_user-blocks_ride calm calm asha bina 10 start ride_ten seated start-IsBalanced bina_next
      refl refl deleted_test

-- Asha lowers her ride to one seat, while Bina has one.
abbrev smaller : Ride
smaller = record ride_ten { id = 0; start_time = 2000; total_seats = 1; booked_seats = 0 }

shrunk :
    (update_ride_by_id calm (signed_in asha) (some 10) (some smaller) start).response.status ≡ 200
unfolding update_ride_by_id find_ride load_host find_where announce has_changes is_cooling codes
    codes_eq update_where accepted_pushes
shrunk = refl

update_ride_by_id-IsBalanced_iff_example :
    IsBalanced (update_ride_by_id calm (signed_in asha) (some 10) (some smaller) start).db
    ↔ (1 + 1 ≤ 1)
update_ride_by_id-IsBalanced_iff_example =
    update_ride_by_id-IsBalanced_iff calm asha 10 smaller start ride_ten start-IsBalanced
      (unfold find_ride find_where in refl)
      (record { same_id = refl; live = refl; unbooked = refl }) shrunk
