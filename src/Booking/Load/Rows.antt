-- ===== src/Booking/Load/Rows.antt =====
-- What the joined row has to do with the tables that it was read from.
use uni_pool_new_backend.Base.{
  ℕ, ◌≡◌, refl, sym, true, ◌&&◌, Option, none, some, is_none, ◌==◌, arith, All, All-map, Keyed,
  find_where, find_where_unique, find_where-hit, &&_split, ==→eq,
}
use uni_pool_new_backend.Model.{Booking, RequestStatus, is_accepted}
use uni_pool_new_backend.Store.{Db, Env}
use uni_pool_new_backend.Booking.Load.{BookingRideRow, join_row, load_booking}

-- A booking with this id is a live one of this ride.
abbrev pub IsOf : ℕ → ℕ → Booking → Type 0
IsOf booking_id ride_id b = b.id ≡ booking_id → (b.ride_id ≡ ride_id) × (b.deleted_at ≡ none)

pub is_accepted→accepted : (s : RequestStatus) → is_accepted s ≡ true → s ≡ RequestStatus.accepted
is_accepted→accepted s e = ground arith

pub is_none→none : (o : Option ℕ) → is_none o ≡ true → o ≡ none
is_none→none o e = ground arith

-- The parts of a joined row are rows of their tables.
pub record IsJoined (id : ℕ) (db : Db) (row : BookingRideRow) : Type 0 where
  pub booking_found :
      find_where (λ b. b.id == id && is_none b.deleted_at) db.bookings ≡ some row.booking
  pub ride_found :
      find_where (λ r. r.id == row.booking.ride_id && is_none r.deleted_at) db.rides ≡ some row.ride
  pub passenger_found :
      find_where (λ u. u.id == row.booking.passenger_id) db.users ≡ some row.passenger

pub join_row-IsJoined :
    (id : ℕ) (db : Db) (row : BookingRideRow) → join_row id db ≡ some row → IsJoined id db row
unfolding join_row
join_row-IsJoined id db row e = record {
  booking_found = ground arith;
  ride_found = ground arith;
  passenger_found = ground arith;
}

pub IsJoined-IsOf :
    (id : ℕ) (db : Db) (row : BookingRideRow)
    → Keyed (λ (b : Booking). b.id) db.bookings
    → IsJoined id db row
    → All (IsOf row.booking.id row.ride.id) db.bookings
IsJoined-IsOf id db row keyed j =
    let only =
      find_where_unique (λ (b : Booking). b.id) _ db.bookings row.booking keyed j.booking_found in
    let live = &&_split _ _ (find_where-hit _ db.bookings row.booking j.booking_found) in
    let same = &&_split _ _ (find_where-hit _ db.rides row.ride j.ride_found) in
    All-map db.bookings
      (λ b unique at. rw (unique at) (
        sym (==→eq row.ride.id row.booking.ride_id same.0),
        is_none→none row.booking.deleted_at live.1,
      ))
      only

pub load_booking_id-IsJoined :
    (env : Env) (k : ℕ) (db : Db) (row : BookingRideRow)
    → load_booking env (some k) db ≡ some row
    → IsJoined k db row
unfolding load_booking
load_booking_id-IsJoined env k db row e = join_row-IsJoined k db row (ground arith)

pub load_booking-IsJoined :
    (env : Env) (id : Option ℕ) (db : Db) (row : BookingRideRow)
    → load_booking env id db ≡ some row
    → (k : ℕ) × (id ≡ some k) × IsJoined k db row
unfolding load_booking
load_booking-IsJoined env none db row e = cc
load_booking-IsJoined env (some k) db row e = (k, refl, load_booking_id-IsJoined env k db row e)

pub load_booking-IsOf :
    (env : Env) (id : Option ℕ) (db : Db) (row : BookingRideRow)
    → Keyed (λ (b : Booking). b.id) db.bookings
    → load_booking env id db ≡ some row
    → All (IsOf row.booking.id row.ride.id) db.bookings
load_booking-IsOf env id db row keyed e =
    let (k, _, j) = load_booking-IsJoined env id db row e in IsJoined-IsOf k db row keyed j
