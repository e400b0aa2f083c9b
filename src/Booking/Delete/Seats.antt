-- ===== src/Booking/Delete/Seats.antt =====
-- deleteBooking.go against the seat contract.
use uni_pool_new_backend.Base.{
  ℕ, ◌≡◌, sym, ◌∙◌, ◌&&◌, Option, none, some, is_none, ◌==◌, arith, All-map, find_where_unique,
  find_where-hit, Option-cases, inl, inr, &&_split, ==→eq,
}
use uni_pool_new_backend.Model.{User, Ride}
use uni_pool_new_backend.Store.{Db, Env, Locals, missing, malformed, signed_in}
use uni_pool_new_backend.Booking.Load.{BookingRideRow}
use uni_pool_new_backend.Booking.Load.Rows.{IsJoined, is_none→none, join_row-IsJoined}
use uni_pool_new_backend.Booking.Removal.Seats.{IsRemovable, removed_db-IsBalanced}
use uni_pool_new_backend.Booking.Delete.{join_host_row, delete_row_of, delete_booking}
use uni_pool_new_backend.Ledger.{IsBalanced}

join_host_row-IsJoined :
    (id : ℕ) (db : Db) (row : BookingRideRow) → join_host_row id db ≡ some row → IsJoined id db row
unfolding join_host_row
join_host_row-IsJoined id db row e = join_row-IsJoined id db row (ground arith)

pub IsJoined-IsRemovable :
    (env : Env) (id : ℕ) (db : Db) (row : BookingRideRow)
    → IsBalanced db
    → IsJoined id db row
    → IsRemovable env row.booking db
IsJoined-IsRemovable env id db row v j =
    let hit = &&_split _ _ (find_where-hit _ db.bookings row.booking j.booking_found) in
    let ride = &&_split _ _ (find_where-hit _ db.rides row.ride j.ride_found) in
    let same = ==→eq row.ride.id row.booking.ride_id ride.0 in
    let live = is_none→none row.ride.deleted_at ride.1 in
    record {
      test = λ b. b.id == id && is_none b.deleted_at;
      found = j.booking_found;
      live = is_none→none row.booking.deleted_at hit.1;
      ride_seen =
          All-map db.rides (λ r unique at. rw (unique (at ∙ sym same)) (ground arith))
            (find_where_unique (λ (r : Ride). r.id) _ db.rides row.ride v.rides_keyed j.ride_found);
    }

delete_row_of-IsBalanced :
    (env : Env) (user : User) (row : BookingRideRow) (db : Db)
    → IsBalanced db
    → IsRemovable env row.booking db
    → IsBalanced (delete_row_of env user (some row) db).db
unfolding delete_row_of
delete_row_of-IsBalanced env user row db v h =
    ground (arith, removed_db-IsBalanced env row.booking db v h)

-- Deleting a booking keeps the seat contract, whoever calls and whatever fails.
pub delete_booking-IsBalanced :
    (env : Env) (locals : Locals) (id : Option ℕ) (db : Db)
    → IsBalanced db
    → IsBalanced (delete_booking env locals id db).db
unfolding delete_booking
delete_booking-IsBalanced env missing id db v = v
delete_booking-IsBalanced env malformed id db v = v
delete_booking-IsBalanced env (signed_in user) none db v = v
delete_booking-IsBalanced env (signed_in user) (some id) db v =
    elim (Option-cases (join_host_row id db)) [
      | inl e ↦ rw e (ground arith)
      | inr (row, e) ↦
          let kept =
            delete_row_of-IsBalanced env user row db v
              (IsJoined-IsRemovable env id db row v (join_host_row-IsJoined id db row e)) in
          rw e (ground (arith, kept))
    ]
