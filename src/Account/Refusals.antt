-- ===== src/Account/Refusals.antt =====
-- Whom DeleteUser of routes/users/DeleteUser.go refuses.
use uni_pool_new_backend.Base.{
  ℕ, ◌≡◌, refl, ◌↔◌, Bool, true, false, ◌≤◌, ◌&&◌, ltb, List, [], ◌∷◌, arith, find_where,
  count_where, Option-cases, Bool-cases, inl, inr, ◌≢◌, ◌⊎◌, ◌<◌, ◌+◌, ◌*◌, ◌==◌, none, is_none,
  All, All-map, count_none, count-member, member-count, Memᴰ,
}
use uni_pool_new_backend.Model.{User, Ride, Booking, RequestStatus, is_accepted}
use uni_pool_new_backend.Store.{Db, Env, Stmt, signed_in, visible}
use uni_pool_new_backend.Booking.Load.Rows.{is_none→none, is_accepted→accepted}
use uni_pool_new_backend.Account.Guards.{delete_user-IsAllOrNothing}
use uni_pool_new_backend.Account.Hosted.{
  Fault, failed, done, exists_where, is_hosted, is_ongoing_hosted, handle_hosted_rides,
}
use uni_pool_new_backend.Account.Steps.{after_hosted-failed}
use uni_pool_new_backend.Account.Passenger.{
  is_soon, has_ride_starting_soon, is_placeholder, handle_passenger_bookings, handle_user_messages,
  handle_user_metadata,
}
use uni_pool_new_backend.Account.Delete.{after_hosted, after_bookings, delete_user}

count_narrow :
    (p q : Ride → Bool) (rs : List Ride) → count_where (λ r. p r && q r) rs ≤ count_where p rs
unfolding count_where
count_narrow p q [] = omega arith
count_narrow p q (r ∷ rs) = ground (arith, count_narrow p q rs)

ongoing_ride-refused :
    (env : Env) (user_id : ℕ) (db : Db)
    → ((s : Stmt) → env.fails s ≡ false)
    → exists_where (is_ongoing_hosted env user_id) db.rides ≡ true
    → handle_hosted_rides env user_id db ≡ failed Fault.ongoing_ride
unfolding handle_hosted_rides
ongoing_ride-refused env user_id db ok busy =
    let some_ride = count_narrow (is_hosted env user_id) (λ r. ltb 0 r.is_ongoing) db.rides in
    let mine : exists_where (is_hosted env user_id) db.rides ≡ true = ground arith in
    rw (ok Stmt.find_hosted, mine, busy) refl

no_ride-passes :
    (env : Env) (user_id : ℕ) (db : Db)
    → ((s : Stmt) → env.fails s ≡ false)
    → exists_where (is_hosted env user_id) db.rides ≡ false
    → handle_hosted_rides env user_id db ≡ done db
unfolding handle_hosted_rides
no_ride-passes env user_id db ok free = rw (ok Stmt.find_hosted, free) refl

module _ (env : Env) (user_id : ℕ) (db : Db) (ok : (s : Stmt) → env.fails s ≡ false) where
  messages-pass : (d : Db) × (handle_user_messages env user_id db ≡ done d)
  unfolding handle_user_messages
  messages-pass = elim (Option-cases (find_where (is_placeholder env) db.users)) [
    | inl no_one ↦
        rw (ok Stmt.find_placeholder, no_one, ok Stmt.create_placeholder, ok Stmt.update_messages)
          (_, refl)
    | inr (u, found) ↦ rw (ok Stmt.find_placeholder, found, ok Stmt.update_messages) (_, refl)
  ]

  metadata-pass : (d : Db) × (handle_user_metadata env user_id db ≡ done d)
  unfolding handle_user_metadata
  metadata-pass = rw (ok Stmt.delete_metadata) (_, refl)

module _ (env : Env) (user : User) (db : Db) (ok : (s : Stmt) → env.fails s ≡ false) where
  busy-status :
      exists_where (is_ongoing_hosted env user.id) db.rides ≡ true
      → (delete_user env (signed_in user) db).response.status ≡ 500
  unfolding delete_user
  busy-status busy =
      rw (ok Stmt.begin_tx, ongoing_ride-refused env user.id db ok busy)
        (after_hosted-failed env user db Fault.ongoing_ride).0

  soon-refused :
      has_ride_starting_soon env user.id db ≡ true
      → handle_passenger_bookings env user.id db ≡ failed Fault.starts_soon
  unfolding handle_passenger_bookings
  soon-refused soon = rw (ok Stmt.find_soon, soon) refl

  late-passes :
      has_ride_starting_soon env user.id db ≡ false
      → (d : Db) × (handle_passenger_bookings env user.id db ≡ done d)
  unfolding handle_passenger_bookings
  late-passes late = rw (ok Stmt.find_soon, late, ok Stmt.delete_passenger) (_, refl)

  free-outcome :
      exists_where (is_hosted env user.id) db.rides ≡ false
      → delete_user env (signed_in user) db
        ≡ after_bookings env user db (handle_passenger_bookings env user.id db)
  unfolding delete_user after_hosted
  free-outcome free = rw (ok Stmt.begin_tx, no_ride-passes env user.id db ok free) refl

  soon-status :
      has_ride_starting_soon env user.id db ≡ true
      → (after_bookings env user db (handle_passenger_bookings env user.id db)).response.status
        ≡ 500
  unfolding after_bookings
  soon-status soon = rw (soon-refused soon) refl

  late-status :
      has_ride_starting_soon env user.id db ≡ false
      → (after_bookings env user db (handle_passenger_bookings env user.id db)).response.status
        ≡ 200
  unfolding after_bookings
  late-status late =
      let (d, step) = late-passes late in
      let (d', step') = messages-pass env user.id d ok in
      let (d'', step'') = metadata-pass env user.id d' ok in
      rw (step, step', step'', ok Stmt.delete_account, ok Stmt.commit) refl

-- A confirmed booking of the user on a ride that is not ongoing and starts within 24 hours.
pub record IsDueSoon (now user_id : ℕ) (db : Db) : Type 0 where
  pub booking : Booking
  pub ride : Ride
  pub booked : Memᴰ booking db.bookings
  pub offered : Memᴰ ride db.rides
  pub on_ride : ride.id ≡ booking.ride_id
  pub own : booking.passenger_id ≡ user_id
  pub accepted : booking.request_status ≡ RequestStatus.accepted
  pub undeleted : (booking.deleted_at ≡ none) × (ride.deleted_at ≡ none)
  pub later : now < ride.start_time
  pub within : ride.start_time < now + 24 * 3600000000000
  pub not_ongoing : ride.is_ongoing ≡ 0

module _ (env : Env) (user_id : ℕ) (db : Db) where
  abbrev due : Booking → Bool
  due b =
      is_none b.deleted_at
      && (b.passenger_id == user_id
          && (is_accepted b.request_status && exists_where (is_soon env b) db.rides))

  soon-IsDueSoon : has_ride_starting_soon env user_id db ≡ true → IsDueSoon env.now user_id db
  unfolding has_ride_starting_soon
  soon-IsDueSoon e =
      let (b, booked, hit) = count-member due db.bookings (ground arith) in
      let (r, offered, near) = count-member (is_soon env b) db.rides (ground arith) in
      record {
        booking = b;
        ride = r;
        booked = booked;
        offered = offered;
        on_ride = ground arith;
        own = ground arith;
        accepted = is_accepted→accepted b.request_status (ground arith);
        undeleted =
            (is_none→none b.deleted_at (ground arith), is_none→none r.deleted_at (ground arith));
        later = ground arith;
        within = ground arith;
        not_ongoing = ground arith;
      }

  IsDueSoon-soon : IsDueSoon env.now user_id db → has_ride_starting_soon env user_id db ≡ true
  unfolding has_ride_starting_soon
  IsDueSoon-soon d =
      let near : is_soon env d.booking d.ride ≡ true =
        rw (d.undeleted.1, d.on_ride, d.not_ongoing) (ground arith) in
      let some_ride = member-count (is_soon env d.booking) db.rides d.ride near d.offered in
      let hit : due d.booking ≡ true = rw (d.undeleted.0, d.own, d.accepted) (ground arith) in
      let some_one = member-count due db.bookings d.booking hit d.booked in ground arith

module _ (env : Env) (user_id : ℕ) (db : Db) where
  busy-exists :
      (r : Ride)
      → Memᴰ r db.rides
      → r.host_user_id ≡ user_id
      → visible env r.deleted_at ≡ true
      → 0 < r.is_ongoing
      → exists_where (is_ongoing_hosted env user_id) db.rides ≡ true
  busy-exists r m host seen busy =
      let hit : is_ongoing_hosted env user_id r ≡ true = rw (host, seen) (ground arith) in
      let there = member-count (is_ongoing_hosted env user_id) db.rides r hit m in ground arith

  free-exists :
      All (λ r. (r.host_user_id ≢ user_id) ⊎ (visible env r.deleted_at ≡ false)) db.rides
      → exists_where (is_hosted env user_id) db.rides ≡ false
  free-exists free =
      let zero = count_none (is_hosted env user_id) db.rides (
        All-map db.rides
          (λ r not_mine. elim not_mine [ inl other ↦ ground arith | inr gone ↦ ground arith ])
          free) in
      ground arith

-- If no statement fails: whoever hosts an ongoing ride that the ORM sees is refused with 500 and
-- nothing changes; and an account that hosts no ride that the ORM sees is deleted, with 200, exactly if
-- it has no undeleted accepted booking on an undeleted ride that is not ongoing and starts later than
-- now and within 24 hours.
pub delete_user-guards :
    (env : Env) (user : User) (db : Db)
    → ((s : Stmt) → env.fails s ≡ false)
    → let out = delete_user env (signed_in user) db in
      ((r : Ride) × Memᴰ r db.rides
          × (r.host_user_id ≡ user.id)
          × (visible env r.deleted_at ≡ true)
          × (0 < r.is_ongoing)
        → (out.response.status ≡ 500) × (out.db ≡ db))
      × (All (λ r. (r.host_user_id ≢ user.id) ⊎ (visible env r.deleted_at ≡ false)) db.rides
          → (out.response.status ≡ 200) ↔ ¬ IsDueSoon env.now user.id db)
delete_user-guards env user db ok = (
  (λ host_of.
      let (r, m, host, seen, busy) = host_of in
      let refused = busy-status env user db ok (busy-exists env user.id db r m host seen busy) in
      (refused, (delete_user-IsAllOrNothing env (signed_in user) db (λ done_ok. omega arith)).0)),
  (λ free. rw (free-outcome env user db ok (free-exists env user.id db free)) (
    (λ done_ok due.
        let refused = soon-status env user db ok (IsDueSoon-soon env user.id db due) in
        omega arith),
    (λ not_due. elim (Bool-cases (has_ride_starting_soon env user.id db)) [
      | inl soon ↦ absurd (not_due (soon-IsDueSoon env user.id db soon))
      | inr late ↦ late-status env user db ok late
    ]),
  )),
)
