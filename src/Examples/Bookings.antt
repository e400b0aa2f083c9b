-- ===== src/Examples/Bookings.antt =====
-- The booking routes on the fixture.
use uni_pool_new_backend.Base.{
  ◌+◌, ◌≡◌, refl, map, ◌↔◌, ◌≤◌, ◌⊎◌, true, false, none, some, [], ◌∷◌, arith, find_where,
  count_where, update_where, delete_where,
}
use uni_pool_new_backend.Model.{User, is_pending, is_accepted}
use uni_pool_new_backend.Store.{Db, signed_in, create_row, delete_bookings}
use uni_pool_new_backend.Booking.Load.{BookingRideRow, join_row, load_booking}
use uni_pool_new_backend.Booking.Removal.{removed_db}
use uni_pool_new_backend.Text.{is_female, codes, codes_eq, to_lower}
use uni_pool_new_backend.Nested.{BookingBody, nested_fits}
use uni_pool_new_backend.Booking.Request.{
  accepted_count, preflight, load_target, insert_request, gate_request, pair_taken, request,
  Preflight,
}
use uni_pool_new_backend.Booking.Accept.{commit_accept, accept_route}
use uni_pool_new_backend.Booking.Delete.{join_host_row, delete_booking}
use uni_pool_new_backend.Booking.Crud.{auth_row, update_booking_by_id}
use uni_pool_new_backend.Booking.Accept.Seats.{commit_accept-IsBalanced}
use uni_pool_new_backend.Booking.Accept.Effect.{accept_route-accepts, accept_route-authorized}
use uni_pool_new_backend.Booking.Request.Gate.{IsOpen, gate_request-created_iff}
use uni_pool_new_backend.Booking.Atomic.{IsAllOrNothing, all_or_nothing}
use uni_pool_new_backend.Booking.History.{IsSound, here, next, accepts, deletes, Reach-IsSound}
use uni_pool_new_backend.Booking.Crud.Bypass.{update_booking-self_accept}
use uni_pool_new_backend.Ledger.{IsBalanced}
use uni_pool_new_backend.Seats.Capacity.{can_accept-eq-predicate, can_accept_iff}
use uni_pool_new_backend.Seats.{can_accept_another_passenger, seats_left_predicate}
use uni_pool_new_backend.Examples.Fixtures.{
  asha, bina, chitra, dev, ride_ten, seated, waiting, start, calm, start-IsBalanced,
}

abbrev waiting_row : BookingRideRow
waiting_row = record { booking = waiting; ride = ride_ten; passenger = chitra }

abbrev after_accept : Db
after_accept = (accept_route calm (signed_in asha) (some 21) start).db

accepts_test : (accept_route calm (signed_in asha) (some 21) start).response.status ≡ 200
unfolding accept_route find_where count_where
accepts_test = refl

-- A second acceptance finds the ride full.
full_test :
    (accept_route calm
      (signed_in asha)
      (some 21)
      (record start { rides = record ride_ten { total_seats = 2 } ∷ [] })).response.status
    ≡ 400
unfolding accept_route find_where count_where
full_test = refl

withdraw_test :
    (delete_booking calm (signed_in bina) (some 20) start).db
    ≡ record start { rides = record ride_ten { booked_seats = 0 } ∷ []; bookings = waiting ∷ [] }
unfolding delete_booking join_host_row join_row removed_db delete_bookings find_where update_where
    delete_where
withdraw_test = refl

commit_accept-IsBalanced_example : IsBalanced (commit_accept calm waiting_row start).db
commit_accept-IsBalanced_example =
    commit_accept-IsBalanced calm waiting_row start start-IsBalanced
      (λ h. absurd (omega arith), ((λ h. (refl, refl)), tt))

loaded : load_booking calm (some 21) start ≡ some waiting_row
unfolding load_booking find_where
loaded = refl

accept_route-accepts_example :
    accepted_count 10 (accept_route calm (signed_in asha) (some 21) start).db.bookings
    ≡ accepted_count 10 start.bookings + 1
accept_route-accepts_example =
    (accept_route-accepts calm asha 21 start waiting_row start-IsBalanced loaded refl refl
      (unfold accepted_count count_where in omega arith) (λ s. refl)).1

accept_route-authorized_example :
    (user : User) × (row : BookingRideRow) × (signed_in asha ≡ signed_in user)
    × (load_booking calm (some 21) start ≡ some row)
    × (row.ride.host_user_id ≡ user.id)
    × ((is_pending row.booking.request_status ≡ true)
        ⊎ ((is_accepted row.booking.request_status ≡ true)
            × ((accept_route calm (signed_in asha) (some 21) start).db ≡ start)))
accept_route-authorized_example =
    accept_route-authorized calm (signed_in asha) (some 21) start accepts_test

-- A body that nests nothing.
abbrev asked : BookingBody
asked = record { booking = waiting; ride = none; passenger = none }

abbrev devi : User
devi = record dev { gender = "female" }

abbrev target : Preflight
target = record { ride = ride_ten; host = asha; accepted_count = 1; existing_booking = none }

gate_request-created_iff_example :
    ((gate_request calm dev target asked start).response.status ≡ 201) ↔ (
      IsOpen calm dev target
      × (calm.fails create_row ≡ false)
      × (pair_taken 10 4 start.bookings ≡ false)
      × (nested_fits none start.users ≡ true))
gate_request-created_iff_example = gate_request-created_iff calm dev target asked start

-- A body that nests a ride with two booked seats: Devi's request puts this ride into the table, with
-- nobody accepted, and is one for a seat on it.
abbrev nesting : BookingBody
nesting = record asked {
  ride = some (record { ride = record ride_ten { id = 0; booked_seats = 2 }; host_user = none });
}

nested_test :
    let out = (request calm (signed_in devi) (some nesting) start).db in
    (map (λ r. r.booked_seats) out.rides ≡ 1 ∷ 2 ∷ [])
    × (map (λ r. accepted_count r.id out.bookings) out.rides ≡ 1 ∷ 0 ∷ [])
    × (map (λ b. b.ride_id) out.bookings ≡ 10 ∷ 10 ∷ 51 ∷ [])
unfolding request load_target preflight gate_request insert_request accepted_count pair_taken
    find_where count_where is_female codes codes_eq to_lower can_accept_another_passenger
nested_test = (refl, refl, refl)

all_or_nothing_example :
    IsAllOrNothing 200 start (accept_route calm (signed_in bina) (some 21) start)
all_or_nothing_example =
    (all_or_nothing calm (signed_in bina) (some asked) (some 21) (some 3) start).1

start-IsSound : IsSound false start
start-IsSound = record { balanced = start-IsBalanced; unstamped = λ _. (refl, (refl, tt)) }

Reach-IsSound_example :
    IsSound false (delete_booking calm (signed_in bina) (some 20) after_accept).db
Reach-IsSound_example = Reach-IsSound start-IsSound (
    next (next here (accepts calm (signed_in asha) (some 21) start refl))
      (deletes calm (signed_in bina) (some 20) after_accept refl))

update_booking-self_accept_example :
    let out =
      update_booking_by_id (λ _. true) calm (signed_in chitra) (some 21) (some seated) start in
    (out.response.status ≡ 200) × ¬ IsBalanced out.db
update_booking-self_accept_example =
    update_booking-self_accept (λ _. true) calm chitra 21 seated start
      (record { booking = waiting; ride = some ride_ten }) ride_ten start-IsBalanced
      (unfold auth_row find_where in refl) refl refl refl refl refl refl refl

can_accept-eq-predicate_example : can_accept_another_passenger 3 1 ≡ seats_left_predicate 3 1
can_accept-eq-predicate_example = can_accept-eq-predicate 3 1

can_accept_iff_example : (can_accept_another_passenger 3 1 ≡ true) ↔ (3 ≤ 3)
can_accept_iff_example = can_accept_iff 3 1
