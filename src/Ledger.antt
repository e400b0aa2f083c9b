-- ===== src/Ledger.antt =====
-- What the tables rides and bookings owe each other, by the contract of helpers/seats.go:
-- booked_seats counts the accepted bookings of the ride, and never passes its passenger capacity.
pub mod Counts
use uni_pool_new_backend.Base.{ℕ, ◌≤◌, ◌≡◌, List, All, Keyed}
use uni_pool_new_backend.Model.{Ride, Booking}
use uni_pool_new_backend.Store.{Db}
use uni_pool_new_backend.Seats.{passenger_capacity}
use uni_pool_new_backend.Booking.Request.{accepted_count}

abbrev pub IsSeated : List Booking → Ride → Type 0
IsSeated bookings r =
    (r.booked_seats ≡ accepted_count r.id bookings)
    × (r.booked_seats ≤ passenger_capacity r.total_seats)

pub record IsBalanced (db : Db) : Type 0 where
  pub rides_keyed : Keyed (λ r. r.id) db.rides
  pub bookings_keyed : Keyed (λ b. b.id) db.bookings
  pub seated : All (IsSeated db.bookings) db.rides
