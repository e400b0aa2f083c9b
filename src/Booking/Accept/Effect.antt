-- ===== src/Booking/Accept/Effect.antt =====
-- What an acceptance does, and who can cause it.
use uni_pool_new_backend.Base.{
  ℕ, ◌+◌, ◌≤◌, ◌≡◌, refl, ◌∙◌, ◌≢◌, true, false, ◌&&◌, Option, some, is_none, ◌==◌, arith, ◌⊎◌,
  find_where, count_where, update_where, count-found, count-key_le_one, find-update, find_where-hit,
  find_where-All, Bool-cases, Option-cases, inl, inr, &&_split,
}
use uni_pool_new_backend.Model.{User, Booking, RequestStatus, is_pending, is_accepted}
use uni_pool_new_backend.Store.{
  Db, Env, Stmt, Locals, missing, malformed, signed_in, visible, NoticeKind, notify,
}
use uni_pool_new_backend.Seats.{passenger_capacity}
use uni_pool_new_backend.Booking.Request.{accepted_count}
use uni_pool_new_backend.Booking.Load.{BookingRideRow, load_booking}
use uni_pool_new_backend.Booking.Load.Rows.{IsJoined, IsJoined-IsOf, load_booking_id-IsJoined}
use uni_pool_new_backend.Booking.Accept.{
  still_pending, has_seat, take_seat, set_status, accept_route,
}
use uni_pool_new_backend.Ledger.{IsSeated, IsBalanced}
use uni_pool_new_backend.Ledger.Counts.{accepted_count-accept}

-- A success is the host's doing, on a booking that was pending or had been accepted before.
pub accept_route-authorized :
    (env : Env) (locals : Locals) (id : Option ℕ) (db : Db)
    → (accept_route env locals id db).response.status ≡ 200
    → (user : User) × (row : BookingRideRow) × (locals ≡ signed_in user)
      × (load_booking env id db ≡ some row)
      × (row.ride.host_user_id ≡ user.id)
      × ((is_pending row.booking.request_status ≡ true)
          ⊎ ((is_accepted row.booking.request_status ≡ true)
              × ((accept_route env locals id db).db ≡ db)))
unfolding accept_route
accept_route-authorized env missing id db e = absurd (omega arith)
accept_route-authorized env malformed id db e = absurd (omega arith)
accept_route-authorized env (signed_in user) id db e =
    elim (Option-cases (load_booking env id db)) [
      | inl m ↦ absurd (ground arith)
      | inr (row, m) ↦ (user, row, refl, m, ground arith, decided user row m)
    ]
  where
    decided :
        (user : User) (row : BookingRideRow)
        → load_booking env id db ≡ some row
        → (is_pending row.booking.request_status ≡ true)
          ⊎ ((is_accepted row.booking.request_status ≡ true)
              × ((accept_route env (signed_in user) id db).db ≡ db))
    decided user row m = elim (Bool-cases (is_pending row.booking.request_status)) [
      | inl p ↦ inl p
      | inr p ↦ inr (ground arith, ground arith)
    ]

-- A pending booking with room left, accepted by the host while no statement fails.
module _ (env : Env) (user : User) (id : ℕ) (db : Db) (row : BookingRideRow) (v : IsBalanced db)
    (loaded : load_booking env (some id) db ≡ some row) (host : row.ride.host_user_id ≡ user.id)
    (waiting : is_pending row.booking.request_status ≡ true)
    (room : accepted_count row.ride.id db.bookings + 2 ≤ row.ride.total_seats)
    (healthy : (s : Stmt) → env.fails s ≡ false) where
  joined : IsJoined id db row
  joined = load_booking_id-IsJoined env id db row loaded

  seat_found : count_where (has_seat env row.ride.id) db.rides ≢ 0
  unfolding passenger_capacity
  seat_found =
      let seat =
        find_where-All (IsSeated db.bookings) _ db.rides row.ride v.seated joined.ride_found in
      let live : is_none row.ride.deleted_at ≡ true = (&&_split _ _ seat.1).1 in
      let booked : row.ride.booked_seats ≡ accepted_count row.ride.id db.bookings = seat.0.0 in
      count-found _ (has_seat env row.ride.id) db.rides row.ride joined.ride_found (ground arith)

  pending_found : count_where (still_pending env row.booking.id) db.bookings ≢ 0
  pending_found =
      let live : is_none row.booking.deleted_at ≡ true =
        (&&_split _ _ (find_where-hit _ db.bookings row.booking joined.booking_found)).1 in
      count-found _ (still_pending env row.booking.id) db.bookings row.booking joined.booking_found
        (ground arith)

  written : accept_route env (signed_in user) (some id) db ≡ record {
    db = record db {
      rides = update_where (has_seat env row.ride.id) take_seat db.rides;
      bookings =
          update_where
            (still_pending env row.booking.id)
            (set_status RequestStatus.accepted)
            db.bookings;
    };
    response = record { status = 200; message = "Booking accepted successfully" };
    notices = notify env NoticeKind.accepted row.booking.passenger_id;
  }
  unfolding accept_route
  written = rw loaded (
      ground (
        arith,
        seat_found,
        pending_found,
        healthy Stmt.reserve_seat,
        healthy Stmt.update_booking,
        healthy Stmt.commit,
      ))

  -- Then the answer is 200, the ride has one accepted booking more, the booking is accepted, and the
  -- passenger is told.
  pub accept_route-accepts :
      let out = accept_route env (signed_in user) (some id) db in
      (out.response.status ≡ 200)
      × (accepted_count row.ride.id out.db.bookings ≡ accepted_count row.ride.id db.bookings + 1)
      × (find_where (λ b. b.id == id && is_none b.deleted_at) out.db.bookings
          ≡ some (record row.booking { request_status = RequestStatus.accepted }))
      × (out.notices ≡ notify env NoticeKind.accepted row.booking.passenger_id)
  accept_route-accepts =
      let once =
        count-key_le_one (λ (b : Booking). b.id) row.booking.id
          (λ b. visible env b.deleted_at && is_pending b.request_status) db.bookings
          v.bookings_keyed in
      let gain =
        accepted_count-accept env row.booking.id row.ride.id db.bookings
          (IsJoined-IsOf id db row v.bookings_keyed joined) in
      let found =
        find-update _ (still_pending env row.booking.id) (set_status RequestStatus.accepted)
          db.bookings row.booking (λ b. refl) joined.booking_found in
      let live : is_none row.booking.deleted_at ≡ true =
        (&&_split _ _ (find_where-hit _ db.bookings row.booking joined.booking_found)).1 in
      let hit : still_pending env row.booking.id row.booking ≡ true = ground arith in
      rw written (refl, omega (arith, gain, once, pending_found), found ∙ rw hit, refl)
