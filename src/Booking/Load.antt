-- ===== src/Booking/Load.antt =====
-- The joined read with which Accept.go, Reject.go and deleteBooking.go start.
pub mod Rows
use Prim.Native.Nat.{ℕ}
use uni_pool_new_backend.Base.{◌&&◌, Option, none, some, is_none, ◌==◌, if◌then◌else◌, find_where}
use uni_pool_new_backend.Model.{User, Ride, Booking}
use uni_pool_new_backend.Store.{Db, Env, load_row}

-- One row of the join: the booking with its ride and its passenger.
pub record BookingRideRow : Type 0 where
  pub booking : Booking
  pub ride : Ride
  pub passenger : User

infixl 5 ◌>>=◌
abbrev pub ◌>>=◌ {ℓ κ} : {A : Type ℓ} {B : Type κ} → Option A → (A → Option B) → Option B
none >>= f = none
some a >>= f = f a

-- bookings JOIN rides JOIN users, for one booking id, over rows that are not deleted. A row whose id
-- is uuid.Nil counts as no row.
unfoldable pub join_row : ℕ → Db → Option BookingRideRow
join_row id db = do
  b ← find_where (λ b. b.id == id && is_none b.deleted_at) db.bookings
  r ← find_where (λ r. r.id == b.ride_id && is_none r.deleted_at) db.rides
  p ← find_where (λ u. u.id == b.passenger_id) db.users
  if b.id == 0 then none else some (record { booking = b; ride = r; passenger = p })

-- The read fails on an id that is no uuid, and on a database error.
unfoldable pub load_booking : Env → Option ℕ → Db → Option BookingRideRow
unfolding join_row
load_booking env none db = none
load_booking env (some id) db = if env.fails load_row then none else join_row id db
