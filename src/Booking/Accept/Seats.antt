-- ===== src/Booking/Accept/Seats.antt =====
-- Accept.go against the seat contract.
use uni_pool_new_backend.Base.{
  ℕ, ◌≡◌, refl, sym, ap, ◌∙◌, ◌≢◌, Bool, true, false, ◌&&◌, Option, ◌==◌, arith, All, All-zip,
  All-update, Keyed-update, count_where, update_where, count-matched, count-key_le_one,
  Option-cases, inl, inr,
}
use uni_pool_new_backend.Model.{User, Booking, Ride, RequestStatus, is_pending}
use uni_pool_new_backend.Store.{Db, Env, Locals, missing, malformed, signed_in, visible}
use uni_pool_new_backend.Seats.{passenger_capacity}
use uni_pool_new_backend.Booking.Request.{accepted_count}
use uni_pool_new_backend.Booking.Load.{BookingRideRow, load_booking}
use uni_pool_new_backend.Booking.Load.Rows.{IsOf, load_booking-IsOf}
use uni_pool_new_backend.Booking.Accept.{
  still_pending, has_seat, take_seat, set_status, commit_accept, decide_accept, accept_row,
  accept_route,
}
use uni_pool_new_backend.Ledger.{IsSeated, IsBalanced}
use uni_pool_new_backend.Ledger.Counts.{accepted_count-accept, accepted_count-accept_other}

abbrev accepted_db : Env → BookingRideRow → Db → Db
accepted_db env row db = record db {
  rides = update_where (has_seat env row.ride.id) take_seat db.rides;
  bookings =
      update_where (still_pending env row.booking.id) (set_status RequestStatus.accepted)
        db.bookings;
}

commit_accept_cases :
    (P : Db → Type 0) (env : Env) (row : BookingRideRow) (db : Db)
    → P db
    → (count_where (has_seat env row.ride.id) db.rides ≢ 0
        → count_where (still_pending env row.booking.id) db.bookings ≢ 0
        → P (accepted_db env row db))
    → P (commit_accept env row db).db
unfolding commit_accept
commit_accept_cases P env row db stay write = ground arith

take_seat-IsSeated :
    (env : Env) (row : BookingRideRow) (db : Db) (r : Ride)
    → IsBalanced db
    → All (IsOf row.booking.id row.ride.id) db.bookings
    → count_where (still_pending env row.booking.id) db.bookings ≢ 0
    → has_seat env row.ride.id r ≡ true
    → IsSeated db.bookings r
    → IsSeated (accepted_db env row db).bookings (take_seat r)
unfolding passenger_capacity
take_seat-IsSeated env row db r v own pending free s =
    let same : r.id ≡ row.ride.id = ground arith in
    let after = (accepted_db env row db).bookings in
    let one =
      count-key_le_one (λ (b : Booking). b.id) row.booking.id
        (λ b. visible env b.deleted_at && is_pending b.request_status) db.bookings
        v.bookings_keyed in
    let gain = accepted_count-accept env row.booking.id row.ride.id db.bookings own in
    let here = ap (λ i. accepted_count i db.bookings) same in
    let there = ap (λ i. accepted_count i after) same in
    (omega (arith, s.0, one, gain, here, there), ground arith)

missed : (a b : Bool) → a ≡ true → b ≡ true → (a && b) ≢ false
missed a b p q e = cc

==_eq : {a b : ℕ} → a ≡ b → (a == b) ≡ true
==_eq e = ground arith

-- Whatever the database has become since the row was read, the two writes keep the contract: no
-- interleaving of accepts overbooks a ride or loses count of a seat.
pub commit_accept-IsBalanced :
    (env : Env) (row : BookingRideRow) (db : Db)
    → IsBalanced db
    → All (IsOf row.booking.id row.ride.id) db.bookings
    → IsBalanced (commit_accept env row db).db
commit_accept-IsBalanced env row db v own =
    commit_accept_cases IsBalanced env row db v λ free pending. record {
      rides_keyed = Keyed-update (λ (r : Ride). r.id) _ _ db.rides (λ r. refl) v.rides_keyed;
      bookings_keyed =
          Keyed-update (λ (b : Booking). b.id) _ _ db.bookings (λ b. refl) v.bookings_keyed;
      seated =
          All-update (has_seat env row.ride.id) take_seat db.rides
            (λ r hit s. take_seat-IsSeated env row db r v own pending hit s.0)
            (λ r miss s.
              let apart : r.id ≢ row.ride.id = λ e. missed _ _ (==_eq e) (s.1 e) miss in
              (
                s.0.0
                    ∙ sym (
                        accepted_count-accept_other env row.booking.id row.ride.id db.bookings r.id
                          apart own),
                s.0.1,
              ))
            (All-zip (IsSeated db.bookings) _ db.rides v.seated
              (count-matched (λ (r : Ride). r.id) row.ride.id _ db.rides v.rides_keyed free));
    }

decide_accept-IsBalanced :
    (env : Env) (user : User) (row : BookingRideRow) (db : Db)
    → IsBalanced db
    → All (IsOf row.booking.id row.ride.id) db.bookings
    → IsBalanced (decide_accept env user row db).db
unfolding decide_accept
decide_accept-IsBalanced env user row db v own =
    ground (arith, commit_accept-IsBalanced env row db v own)

-- A whole call of the route keeps the contract, whoever calls it and whatever fails.
pub accept_route-IsBalanced :
    (env : Env) (locals : Locals) (id : Option ℕ) (db : Db)
    → IsBalanced db
    → IsBalanced (accept_route env locals id db).db
unfolding accept_route accept_row
accept_route-IsBalanced env missing id db v = v
accept_route-IsBalanced env malformed id db v = v
accept_route-IsBalanced env (signed_in user) id db v =
    elim (Option-cases (load_booking env id db)) [
      | inl e ↦ rw e v
      | inr (row, e) ↦ rw e (
          decide_accept-IsBalanced env user row db v
            (load_booking-IsOf env id db row v.bookings_keyed e))
    ]
