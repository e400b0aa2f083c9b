-- ===== src/Rides/Pull.antt =====
-- DeleteRideByID of routes/CRUD/RideCRUDRoutes.go: what it asks for and what it leaves.
use uni_pool_new_backend.Base.{
  ℕ, ◌≡◌, ◌≢◌, refl, sym, ◌∙◌, Bool, true, false, ◌&&◌, Option, none, some, List, ◌==◌, arith, All,
  All-map, All-zip, All-of, All-update, All-delete, All-deleted, Keyed-update, Keyed-delete,
  count_where, count_none, count-delete, Option-cases, inl, inr, Bool-cases, is_none, delete_where,
  find_where-hit,
}
use uni_pool_new_backend.Model.{User, Ride, Booking, is_accepted}
use uni_pool_new_backend.Store.{
  Db, Env, Locals, missing, malformed, signed_in, visible, delete_rides_where,
}
use uni_pool_new_backend.Booking.Request.{accepted_count}
use uni_pool_new_backend.Ledger.{IsSeated, IsBalanced}
use uni_pool_new_backend.Rides.Remove.{is_accepted_row, without_ride, find_ride, delete_ride_by_id}

accepted_count-other :
    (ride_id j : ℕ) (bs : List Booking)
    → j ≢ ride_id
    → accepted_count j (delete_where (λ b. b.ride_id == ride_id) bs) ≡ accepted_count j bs
unfolding accepted_count
accepted_count-other ride_id j bs ne =
    let q : Booking → Bool =
      λ b. b.ride_id == j && (is_accepted b.request_status && is_none b.deleted_at) in
    let sum = count-delete (λ b. b.ride_id == ride_id) q bs in
    let apart =
      count_none (λ b. (b.ride_id == ride_id) && q b) bs (All-of _ bs (λ b. ground arith)) in
    omega arith

pub without_ride-IsBalanced :
    (env : Env) (ride_id : ℕ) (db : Db) → IsBalanced db → IsBalanced (without_ride env ride_id db)
unfolding without_ride delete_rides_where
without_ride-IsBalanced env ride_id db v = elim (Bool-cases env.soft_delete) [
  | inl soft ↦ rw soft (record {
    rides_keyed = Keyed-update (λ (r : Ride). r.id) _ _ db.rides (λ r. refl) v.rides_keyed;
    bookings_keyed = v.bookings_keyed;
    seated = All-update _ _ db.rides (λ r _ s. s) (λ r _ s. s) v.seated;
  })
  | inr hard ↦ rw hard (record {
    rides_keyed = Keyed-delete (λ (r : Ride). r.id) _ db.rides v.rides_keyed;
    bookings_keyed = Keyed-delete (λ (b : Booking). b.id) _ db.bookings v.bookings_keyed;
    seated =
        All-map (delete_where (λ r. r.id == ride_id) db.rides)
          (λ r h. (
            h.0.0 ∙ sym (accepted_count-other ride_id r.id db.bookings (ground (arith, h.1))),
            h.0.1,
          ))
          (All-zip (IsSeated db.bookings) (λ r. (r.id == ride_id) ≡ false) _
            (All-delete (IsSeated db.bookings) _ db.rides v.seated) (All-deleted _ db.rides));
  })
]

-- The deletion of a ride, by anyone and with any failures, keeps the seat contract.
pub delete_ride_by_id-IsBalanced :
    (env : Env) (locals : Locals) (id : Option ℕ) (db : Db)
    → IsBalanced db
    → IsBalanced (delete_ride_by_id env locals id db).db
unfolding delete_ride_by_id
delete_ride_by_id-IsBalanced env missing id db v = v
delete_ride_by_id-IsBalanced env malformed id db v = v
delete_ride_by_id-IsBalanced env (signed_in user) none db v = v
delete_ride_by_id-IsBalanced env (signed_in user) (some ride_id) db v =
    elim (Option-cases (find_ride env ride_id db)) [
      | inl e ↦ rw e (ground arith)
      | inr (ride, e) ↦ rw e (ground (arith, without_ride-IsBalanced env ride.id db v))
    ]

-- Bookings go with the ride or stay as they are.
pub delete_ride_by_id-All :
    (P : Booking → Type 0) (env : Env) (locals : Locals) (id : Option ℕ) (db : Db)
    → All P db.bookings
    → All P (delete_ride_by_id env locals id db).db.bookings
unfolding delete_ride_by_id without_ride
delete_ride_by_id-All P env missing id db a = a
delete_ride_by_id-All P env malformed id db a = a
delete_ride_by_id-All P env (signed_in user) none db a = a
delete_ride_by_id-All P env (signed_in user) (some ride_id) db a =
    elim (Option-cases (find_ride env ride_id db)) [
      | inl e ↦ rw e (ground arith)
      | inr (ride, e) ↦
          let rest = All-delete P (λ b. b.ride_id == ride.id) db.bookings a in
          rw e (ground (arith, rest))
    ]

without_ride-unseen :
    (env : Env) (ride_id : ℕ) (db : Db)
    → All
        (λ r. visible env r.deleted_at ≡ true → r.id ≢ ride_id)
        (without_ride env ride_id db).rides
unfolding without_ride delete_rides_where
without_ride-unseen env ride_id db = elim (Bool-cases env.soft_delete) [
  | inl soft ↦ rw soft (
      All-update {P = λ _. Unit {0}} _ _ db.rides (λ r hit _ seen. absurd (ground arith))
        (λ r miss _ seen. ground arith) (All-of _ db.rides (λ _. tt)))
  | inr hard ↦ rw hard (All-map _ (λ r no _. ground arith) (All-deleted _ db.rides))
]

find_ride-id :
    (env : Env) (ride_id : ℕ) (db : Db) (ride : Ride)
    → find_ride env ride_id db ≡ some ride
    → ride.id ≡ ride_id
unfolding find_ride
find_ride-id env ride_id db ride e = let hit = find_where-hit _ db.rides ride e in ground arith

-- If the deletion of a ride answers 200, the caller is signed in and hosts it, no booking that the
-- ORM sees on it is accepted, and the program no longer sees a ride of that id.
pub delete_ride_by_id-guarded :
    (env : Env) (locals : Locals) (id : Option ℕ) (db : Db)
    → (delete_ride_by_id env locals id db).response.status ≡ 200
    → (user : User) × (ride_id : ℕ) × (ride : Ride) × (locals ≡ signed_in user)
      × (id ≡ some ride_id)
      × (find_ride env ride_id db ≡ some ride)
      × (ride.host_user_id ≡ user.id)
      × (count_where (is_accepted_row env ride_id) db.bookings ≡ 0)
      × All
          (λ r. visible env r.deleted_at ≡ true → r.id ≢ ride_id)
          (delete_ride_by_id env locals id db).db.rides
unfolding delete_ride_by_id
delete_ride_by_id-guarded env missing id db ok = absurd (ground arith)
delete_ride_by_id-guarded env malformed id db ok = absurd (ground arith)
delete_ride_by_id-guarded env (signed_in user) none db ok = absurd (ground arith)
delete_ride_by_id-guarded env (signed_in user) (some ride_id) db ok =
    elim (Option-cases (find_ride env ride_id db)) [
      | inl e ↦ absurd (ground arith)
      | inr (ride, e) ↦
          let same : ride.id ≡ ride_id = find_ride-id env ride_id db ride e in
          let gone : (delete_ride_by_id env (signed_in user) (some ride_id) db).db
              ≡ without_ride env ride.id db =
            ground arith in
          (
            user,
            ride_id,
            ride,
            refl,
            refl,
            e,
            ground arith,
            ground arith,
            rw (gone, same) (without_ride-unseen env ride_id db),
          )
    ]
