-- ===== src/Rides/Resize.antt =====
-- UpdateRideByID of routes/CRUD/RideCRUDRoutes.go against the seat contract.
use uni_pool_new_backend.Base.{
  ℕ, ◌+◌, ◌≤◌, ◌≡◌, ◌≢◌, refl, sym, ◌∙◌, ◌↔◌, ◌⊎◌, subst, true, Option, none, some, arith, All,
  All-zip, All-update, All-before_update, Keyed-update, find_where, find_where-All, find_where-hit,
  find_where_unique, find-update, inl, inr, update_where, ==→eq,
}
use uni_pool_new_backend.Model.{User, Ride}
use uni_pool_new_backend.Store.{Db, Env, signed_in}
use uni_pool_new_backend.Seats.{passenger_capacity}
use uni_pool_new_backend.Ledger.{IsSeated, IsBalanced}
use uni_pool_new_backend.Rides.Create.{load_host}
use uni_pool_new_backend.Rides.Remove.{find_ride}
use uni_pool_new_backend.Rides.Update.{
  updated, is_row, stamped, announce, check_update, update_ride_by_id,
}

-- The database that the update writes, before the push.
abbrev written : Env → Ride → Ride → Db → Db
written env ride new db = record db {
  rides = update_where (is_row env ride.id) (updated new) db.rides;
}

-- A payload that leaves the keys and the count of booked seats alone.
pub record IsPlain (new : Ride) : Type 0 where
  pub same_id : new.id ≡ 0
  pub live : new.deleted_at ≡ none
  pub unbooked : new.booked_seats ≡ 0

stamped-IsBalanced : (env : Env) (id : ℕ) (db : Db) → IsBalanced db → IsBalanced (stamped env id db)
stamped-IsBalanced env id db v = record {
  rides_keyed = Keyed-update (λ (r : Ride). r.id) _ _ db.rides (λ r. refl) v.rides_keyed;
  bookings_keyed = v.bookings_keyed;
  seated = All-update _ _ db.rides (λ r _ s. s) (λ r _ s. s) v.seated;
}

stamped-seated :
    (env : Env) (id : ℕ) (db : Db)
    → All (IsSeated db.bookings) (stamped env id db).rides
    → All (IsSeated db.bookings) db.rides
stamped-seated env id db a = All-before_update (IsSeated db.bookings) _ _ db.rides (λ r s. s) a

module _ (env : Env) (k : ℕ) (ride new : Ride) (db : Db) (v : IsBalanced db)
    (found : find_ride env k db ≡ some ride) (plain : IsPlain new)
    (sized : new.total_seats ≢ 0) where
  same_row : (r : Ride) → is_row env ride.id (updated new r) ≡ is_row env ride.id r
  same_row r = rw (plain.same_id, plain.live) refl

  at_k : ride.id ≡ k
  unfolding find_ride
  at_k = let hit = find_where-hit _ db.rides ride found in ground arith

  written-IsBalanced :
      ride.booked_seats + 1 ≤ new.total_seats → IsBalanced (written env ride new db)
  unfolding find_ride passenger_capacity
  written-IsBalanced room = record {
    rides_keyed =
        Keyed-update (λ (r : Ride). r.id) _ _ db.rides (λ r. rw plain.same_id refl) v.rides_keyed;
    bookings_keyed = v.bookings_keyed;
    seated =
        All-update (is_row env ride.id) (updated new) db.rides
          (λ r hit s.
            let same : r ≡ ride = s.1 (==→eq r.id ride.id (ground arith)) in
            let room_r : r.booked_seats + 1 ≤ new.total_seats = rw same room in
            rw (plain.same_id, plain.unbooked) (s.0.0, ground arith))
          (λ r miss s. s.0)
          (All-zip (IsSeated db.bookings) (λ r. r.id ≡ ride.id → r ≡ ride) db.rides v.seated
            (find_where_unique (λ (r : Ride). r.id) _ db.rides ride v.rides_keyed found));
  }

  written-room :
      All (IsSeated db.bookings) (written env ride new db).rides
      → ride.booked_seats + 1 ≤ new.total_seats
  unfolding find_ride passenger_capacity
  written-room seated =
      let hit : is_row env k ride ≡ true = find_where-hit (is_row env k) db.rides ride found in
      let seen : is_row env ride.id ride ≡ true =
        subst (λ i. is_row env i ride ≡ true) (sym at_k) hit in
      let mine = subst (λ i. find_where (is_row env i) db.rides ≡ some ride) (sym at_k) found in
      let there =
        find-update (is_row env ride.id) (is_row env ride.id) (updated new) db.rides ride same_row
          mine
        ∙ rw seen refl in
      let (s, _) = find_where-All (IsSeated db.bookings) _ _ (updated new ride) seated there in
      let unbooked = plain.unbooked in ground arith

announced :
    (env : Env) (old new : Ride) (db : Db)
    → ((announce env old new db).0 ≡ db) ⊎ ((announce env old new db).0 ≡ stamped env new.id db)
unfolding announce
announced env old new db = ground arith

check_update-writes :
    (env : Env) (ride new : Ride) (host : Option User) (db : Db)
    → (check_update env ride new host db).response.status ≡ 200
    → ((check_update env ride new host db).db
        ≡ (announce env ride (updated new ride) (written env ride new db)).0)
      × (new.total_seats ≢ 0)
unfolding check_update
check_update-writes env ride new none db ok = absurd (ground arith)
check_update-writes env ride new (some host) db ok = (ground arith, ground arith)

update_ride_by_id-writes :
    (env : Env) (user : User) (k : ℕ) (new : Ride) (db : Db) (ride : Ride)
    → find_ride env k db ≡ some ride
    → (update_ride_by_id env (signed_in user) (some k) (some new) db).response.status ≡ 200
    → ((update_ride_by_id env (signed_in user) (some k) (some new) db).db
        ≡ (announce env ride (updated new ride) (written env ride new db)).0)
      × (new.total_seats ≢ 0)
unfolding update_ride_by_id
update_ride_by_id-writes env user k new db ride found ok =
    let host = load_host env new.host_user_id db in
    let writes = check_update-writes env ride new host db in (ground arith, ground arith)

-- If an update of a ride in a database in balance answers 200, with a payload that leaves id,
-- deleted_at and booked_seats out, the database stays in balance exactly if the booked seats and the
-- host fit into the payload's total_seats; the handler compares that with the payload's booked_seats.
pub update_ride_by_id-IsBalanced_iff :
    (env : Env) (user : User) (k : ℕ) (new : Ride) (db : Db) (ride : Ride)
    → IsBalanced db
    → find_ride env k db ≡ some ride
    → IsPlain new
    → (update_ride_by_id env (signed_in user) (some k) (some new) db).response.status ≡ 200
    → IsBalanced (update_ride_by_id env (signed_in user) (some k) (some new) db).db
      ↔ (ride.booked_seats + 1 ≤ new.total_seats)
update_ride_by_id-IsBalanced_iff env user k new db ride v found plain ok =
    let (out, sized) = update_ride_by_id-writes env user k new db ride found ok in
    let after = written env ride new db in
    let keeps = written-IsBalanced env k ride new db v found plain sized in
    let room = written-room env k ride new db v found plain sized in
    elim (announced env ride (updated new ride) after) [
      | inl silent ↦ rw (out, silent) (λ w. room w.seated, keeps)
      | inr pushed ↦
          let id = (updated new ride).id in
          rw (out, pushed)
            (
              λ w. room (stamped-seated env id after w.seated),
              λ fits. stamped-IsBalanced env id after (keeps fits),
            )
    ]
