-- ===== src/Seats.antt =====
-- helpers/seats.go: how many passengers a ride takes.
pub mod Capacity
use uni_pool_new_backend.Base.{ℕ, ◌-◌, Bool, ◌==◌, leb, ltb, if◌then◌else◌}

unfoldable pub passenger_capacity : ℕ → ℕ
passenger_capacity total_seats = if total_seats == 0 then 0 else total_seats - 1

unfoldable pub passenger_seats_left : ℕ → ℕ → ℕ
unfolding passenger_capacity
passenger_seats_left total_seats booked_seats =
    let cap = passenger_capacity total_seats in
    if leb cap booked_seats then 0 else cap - booked_seats

unfoldable pub can_accept_another_passenger : ℕ → ℕ → Bool
unfolding passenger_seats_left
can_accept_another_passenger total_seats booked_seats =
    ltb 0 (passenger_seats_left total_seats booked_seats)

-- The SQL text `booked_seats < total_seats - 1`. The columns are signed: at total_seats = 0 the right
-- side is -1 there and 0 here, and no booked_seats is below either.
abbrev pub seats_left_predicate : ℕ → ℕ → Bool
seats_left_predicate total_seats booked_seats = ltb booked_seats (total_seats - 1)

abbrev pub min_total_seats : ℕ
min_total_seats = 2

abbrev pub max_total_seats : ℕ
max_total_seats = 20
