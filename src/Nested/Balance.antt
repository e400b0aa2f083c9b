-- ===== src/Nested/Balance.antt =====
-- The rides that bodies of bookings nest (models/BookingModel.go), against the seat contract.
use uni_pool_new_backend.Base.{
  ℕ, ◌≡◌, ◌≢◌, sym, ◌∙◌, Option, none, some, List, [], ◌∷◌, arith, All, All-map, All-append, Keyed,
  Keyed-snoc, count_none,
}
use uni_pool_new_backend.Model.{Ride, Booking}
use uni_pool_new_backend.Store.{Db, Env}
use uni_pool_new_backend.Seats.{passenger_capacity}
use uni_pool_new_backend.Booking.Request.{accepted_count}
use uni_pool_new_backend.Ledger.{IsSeated}
use uni_pool_new_backend.Nested.{RideBody, nested_ride, with_ride}

pub none_booked :
    (ride_id : ℕ) (bs : List Booking)
    → All (λ b. b.ride_id ≢ ride_id) bs
    → accepted_count ride_id bs ≡ 0
unfolding accepted_count
none_booked ride_id bs others = count_none _ bs (All-map bs (λ b ne. ground arith) others)

-- A ride that the body nests, if any, has no booked seats, and the id that it draws is new.
abbrev pub NestsUnbooked : Env → Option RideBody → Db → Type 0
NestsUnbooked env none db = Unit
NestsUnbooked env (some body) db =
    (body.ride.booked_seats ≡ 0)
    × All (λ r. r.id ≢ env.nested_ride_id) db.rides
    × All (λ b. b.ride_id ≢ env.nested_ride_id) db.bookings

pub with_ride-Keyed :
    (env : Env) (nested : Option RideBody) (db : Db)
    → NestsUnbooked env nested db
    → Keyed (λ r. r.id) db.rides
    → Keyed (λ r. r.id) (with_ride env nested db.rides)
with_ride-Keyed env none db unbooked keyed = keyed
with_ride-Keyed env (some body) db (zero_seats, fresh, unused) keyed =
    Keyed-snoc (λ (r : Ride). r.id) db.rides (nested_ride env body) fresh keyed

pub with_ride-seated :
    (env : Env) (nested : Option RideBody) (db : Db)
    → NestsUnbooked env nested db
    → All (IsSeated db.bookings) db.rides
    → All (IsSeated db.bookings) (with_ride env nested db.rides)
unfolding passenger_capacity
with_ride-seated env none db unbooked seated = seated
with_ride-seated env (some body) db (zero_seats, fresh, unused) seated =
    All-append (IsSeated db.bookings) db.rides (nested_ride env body ∷ []) seated (
      (
        zero_seats ∙ sym (none_booked env.nested_ride_id db.bookings unused),
        rw zero_seats (ground arith),
      ),
      tt,
    )
