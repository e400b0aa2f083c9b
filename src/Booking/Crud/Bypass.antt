-- ===== src/Booking/Crud/Bypass.antt =====
-- BookingCRUDRoutes.go against the seat contract.
use uni_pool_new_backend.Base.{
  ℕ, ◌+◌, ◌≡◌, refl, ap, ◌∙◌, Bool, true, false, ◌&&◌, none, some, [], is_none, ◌==◌, arith,
  All-map, find_where, count_where, update_where, count-update_gain, count_unique,
  find_where_unique, find_where-hit, find_where-All, &&_split, ==→eq,
}
use uni_pool_new_backend.Model.{
  User, Booking, Ride, RequestStatus, is_blank, is_accepted, status_eq,
}
use uni_pool_new_backend.Store.{Db, Env, signed_in, visible, load_row, update_booking}
use uni_pool_new_backend.Booking.Load.Rows.{is_none→none}
use uni_pool_new_backend.Booking.Request.{accepted_count}
use uni_pool_new_backend.Booking.Accept.{set_status}
use uni_pool_new_backend.Booking.Crud.{BookingAuthRow, auth_row, update_booking_by_id}
use uni_pool_new_backend.Ledger.{IsSeated, IsBalanced}

abbrev of_id : Env → Booking → Booking → Bool
of_id env booking b = b.id == booking.id && visible env b.deleted_at

abbrev updated_db : Env → Booking → Booking → Db → Db
updated_db env payload booking db = record db {
  bookings = update_where (of_id env booking) (set_status payload.request_status) db.bookings;
}

-- The update raises the number of accepted bookings by one, and leaves booked_seats as it is.
updated-count :
    (env : Env) (payload booking : Booking) (p : Booking → Bool) (db : Db)
    → IsBalanced db
    → find_where p db.bookings ≡ some booking
    → booking.deleted_at ≡ none
    → is_accepted booking.request_status ≡ false
    → is_accepted payload.request_status ≡ true
    → accepted_count booking.ride_id (updated_db env payload booking db).bookings
      ≡ accepted_count booking.ride_id db.bookings + 1
unfolding accepted_count
updated-count env payload booking p db v found live old new =
    count-update_gain _ _ _ db.bookings (
      All-map db.bookings
        (λ b unique hit.
          let same : b ≡ booking = unique (==→eq b.id booking.id (&&_split _ _ hit).0) in
          rw same (ground arith))
        (find_where_unique (λ (b : Booking). b.id) p db.bookings booking v.bookings_keyed found))
    ∙ ap (◌+◌ (count_where _ db.bookings)) (
        count_unique (λ (b : Booking). b.id) p (λ b. visible env b.deleted_at) db.bookings booking
          v.bookings_keyed found
        ∙ ground arith)

status_eq-accepted :
    (s t : RequestStatus)
    → is_accepted s ≡ true
    → is_accepted t ≡ false
    → (is_blank s ≡ false) × (status_eq s t ≡ false)
unfolding status_eq
status_eq-accepted RequestStatus.accepted t e f = ground arith
status_eq-accepted RequestStatus.blank t e f = cc
status_eq-accepted RequestStatus.pending t e f = cc
status_eq-accepted RequestStatus.rejected t e f = cc
status_eq-accepted (RequestStatus.other _) t e f = cc

-- The rows behind the read of the two routes.
pub record IsAuthRow (id : ℕ) (db : Db) (booking : Booking) (ride : Ride) : Type 0 where
  pub booking_found :
      find_where (λ b. b.id == id && is_none b.deleted_at) db.bookings ≡ some booking
  pub ride_found :
      find_where (λ r. r.id == booking.ride_id && is_none r.deleted_at) db.rides ≡ some ride

auth_row-IsAuthRow :
    (id : ℕ) (db : Db) (row : BookingAuthRow) (ride : Ride)
    → auth_row id db ≡ some row
    → row.ride ≡ some ride
    → IsAuthRow id db row.booking ride
unfolding auth_row
auth_row-IsAuthRow id db row ride e f = record {
  booking_found = ground arith;
  ride_found = ground arith;
}

-- A ride whose accepted bookings grow by one while its booked_seats stays is out of balance.
updated-not_IsBalanced :
    (env : Env) (payload : Booking) (id : ℕ) (db : Db) (booking : Booking) (ride : Ride)
    → IsBalanced db
    → IsAuthRow id db booking ride
    → is_accepted booking.request_status ≡ false
    → is_accepted payload.request_status ≡ true
    → ¬ IsBalanced (updated_db env payload booking db)
updated-not_IsBalanced env payload id db booking ride v j old new w =
    let live =
      is_none→none booking.deleted_at
        (&&_split _ _ (find_where-hit _ db.bookings booking j.booking_found)).1 in
    let after = find_where-All (IsSeated _) _ db.rides ride w.seated j.ride_found in
    let before = (find_where-All (IsSeated _) _ db.rides ride v.seated j.ride_found).0.0 in
    let same : ride.id ≡ booking.ride_id = ==→eq ride.id booking.ride_id (&&_split _ _ after.1).0 in
    let grown = updated-count env payload booking _ db v j.booking_found live old new in
    absurd (
      omega (
        arith,
        before,
        after.0.0,
        grown,
        ap (λ i. accepted_count i db.bookings) same,
        ap (λ i. accepted_count i (updated_db env payload booking db).bookings) same,
      ))

update_booking-outcome :
    (validate : Booking → Bool) (env : Env) (user : User) (id : ℕ) (payload : Booking) (db : Db)
    (row : BookingAuthRow) (ride : Ride)
    → auth_row id db ≡ some row
    → row.ride ≡ some ride
    → row.booking.passenger_id ≡ user.id
    → is_blank payload.request_status ≡ false
    → status_eq payload.request_status row.booking.request_status ≡ false
    → validate payload ≡ true
    → env.fails load_row ≡ false
    → env.fails update_booking ≡ false
    → update_booking_by_id validate env (signed_in user) (some id) (some payload) db ≡ record {
      db = updated_db env payload row.booking db;
      response = record { status = 200; message = "updated" };
      notices = [];
    }
unfolding update_booking_by_id
update_booking-outcome validate env user id payload db row ride e f own filled new ok l u =
    rw (ok, l, e, f, filled, new, u) (ground arith)

-- On any database in balance: the passenger of a booking that is not accepted can have it accepted by
-- PATCH /booking/update/:id, with no seat check and with no seat taken, and the answer is 200.
pub update_booking-self_accept :
    (validate : Booking → Bool) (env : Env) (user : User) (id : ℕ) (payload : Booking) (db : Db)
    (row : BookingAuthRow) (ride : Ride)
    → IsBalanced db
    → auth_row id db ≡ some row
    → row.ride ≡ some ride
    → row.booking.passenger_id ≡ user.id
    → is_accepted row.booking.request_status ≡ false
    → is_accepted payload.request_status ≡ true
    → validate payload ≡ true
    → env.fails load_row ≡ false
    → env.fails update_booking ≡ false
    → let out = update_booking_by_id validate env (signed_in user) (some id) (some payload) db in
      (out.response.status ≡ 200) × ¬ IsBalanced out.db
update_booking-self_accept validate env user id payload db row ride v e f own old new ok l u =
    let tests = status_eq-accepted payload.request_status row.booking.request_status new old in
    let broken =
      updated-not_IsBalanced env payload id db row.booking ride v
        (auth_row-IsAuthRow id db row ride e f) old new in
    let out =
      update_booking-outcome validate env user id payload db row ride e f own tests.0 tests.1 ok l
        u in
    rw out (refl, broken)
