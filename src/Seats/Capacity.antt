-- ===== src/Seats/Capacity.antt =====
-- The Go helpers of helpers/seats.go and its SQL predicate.
use uni_pool_new_backend.Base.{ℕ, ◌+◌, ◌≤◌, ◌≡◌, ◌↔◌, true, arith}
use uni_pool_new_backend.Seats.{
  passenger_capacity, passenger_seats_left, can_accept_another_passenger, seats_left_predicate,
}

-- The gate in Go and the gate in SQL are the same test, for all seat counts, corrupt ones included.
pub can_accept-eq-predicate :
    (total booked : ℕ)
    → can_accept_another_passenger total booked ≡ seats_left_predicate total booked
unfolding can_accept_another_passenger
can_accept-eq-predicate total booked = ground arith

-- A ride may take another passenger exactly when host, booked passengers and the new one fit.
pub can_accept_iff :
    (total booked : ℕ) → (can_accept_another_passenger total booked ≡ true) ↔ (booked + 2 ≤ total)
unfolding can_accept_another_passenger
can_accept_iff total booked = ground arith

-- The seats left never go below zero, and with the booked ones they fill the passenger capacity
-- whenever the row is not corrupt.
pub seats_left_balance :
    (total booked : ℕ)
    → booked ≤ passenger_capacity total
    → passenger_seats_left total booked + booked ≡ passenger_capacity total
unfolding passenger_seats_left
seats_left_balance total booked h = ground arith
