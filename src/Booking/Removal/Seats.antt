-- ===== src/Booking/Removal/Seats.antt =====
-- The removal of a booking against the seat contract.
use uni_pool_new_backend.Base.{
  ℕ, ◌+◌, ◌≡◌, refl, Bool, true, false, ◌&&◌, none, some, List, is_none, ◌==◌, if◌then◌else◌, arith,
  All, All-map, All-zip, All-update, Keyed, Keyed-update, Keyed-delete, find_where, Bool-cases, inl,
  inr,
}
use uni_pool_new_backend.Model.{Booking, Ride, is_accepted}
use uni_pool_new_backend.Store.{Db, Env, visible, delete_bookings}
use uni_pool_new_backend.Booking.Request.{accepted_count}
use uni_pool_new_backend.Booking.Removal.{has_booked, free_seat, removed_db}
use uni_pool_new_backend.Ledger.{IsSeated, IsBalanced}
use uni_pool_new_backend.Ledger.Counts.{accepted_count-delete_one}

pub delete_bookings-Keyed :
    (env : Env) (p : Booking → Bool) (bs : List Booking)
    → Keyed (λ b. b.id) bs
    → Keyed (λ b. b.id) (delete_bookings env p bs)
unfolding delete_bookings
delete_bookings-Keyed env p bs k = elim (Bool-cases env.soft_delete) [
  | inl soft ↦ rw soft (Keyed-update (λ (b : Booking). b.id) _ _ bs (λ b. refl) k)
  | inr hard ↦ rw hard (Keyed-delete (λ (b : Booking). b.id) p bs k)
]

-- What a handler knows of the booking that it removes: a lookup found it, it is not deleted, and the
-- ORM sees its ride.
pub record IsRemovable (env : Env) (booking : Booking) (db : Db) : Type 0 where
  pub test : Booking → Bool
  pub found : find_where test db.bookings ≡ some booking
  pub live : booking.deleted_at ≡ none
  pub ride_seen : All (λ r. r.id ≡ booking.ride_id → visible env r.deleted_at ≡ true) db.rides

module _ (env : Env) (booking : Booking) (db : Db) (v : IsBalanced db)
    (h : IsRemovable env booking db) where
  counted :
      (j : ℕ)
      → accepted_count j (delete_bookings env (λ x. x.id == booking.id) db.bookings)
          + (if booking.ride_id == j
                && (is_accepted booking.request_status && is_none booking.deleted_at)
              then 1
              else 0)
        ≡ accepted_count j db.bookings
  counted j = accepted_count-delete_one env h.test j db.bookings booking v.bookings_keyed h.found

  free_seat-IsSeated :
      (r : Ride)
      → is_accepted booking.request_status ≡ true
      → (r.id == booking.ride_id) ≡ true
      → IsSeated db.bookings r
      → IsSeated (delete_bookings env (λ x. x.id == booking.id) db.bookings) (free_seat r)
  free_seat-IsSeated r acc same s = ground (arith, counted r.id, h.live)

  other-IsSeated :
      (r : Ride)
      → (is_accepted booking.request_status && (r.id == booking.ride_id)) ≡ false
      → IsSeated db.bookings r
      → IsSeated (delete_bookings env (λ x. x.id == booking.id) db.bookings) r
  other-IsSeated r apart s = ground (arith, counted r.id, h.live)

  -- A seat of the ride is booked while the booking is accepted, so the update finds the ride.
  matched :
      (r : Ride)
      → is_accepted booking.request_status ≡ true
      → IsSeated db.bookings r
      → (r.id ≡ booking.ride_id → visible env r.deleted_at ≡ true)
      → has_booked env booking.ride_id r ≡ false
      → (r.id == booking.ride_id) ≡ false
  matched r acc s seen miss = ground (arith, counted r.id, h.live)

  pub removed_db-IsBalanced : IsBalanced (removed_db env booking db)
  unfolding removed_db
  removed_db-IsBalanced = elim (Bool-cases (is_accepted booking.request_status)) [
    | inl acc ↦ rw acc (record {
      rides_keyed = Keyed-update (λ (r : Ride). r.id) _ _ db.rides (λ r. refl) v.rides_keyed;
      bookings_keyed = delete_bookings-Keyed env _ db.bookings v.bookings_keyed;
      seated =
          All-update (has_booked env booking.ride_id) free_seat db.rides
            (λ r hit s. free_seat-IsSeated r acc (ground arith) s.0)
            (λ r miss s. other-IsSeated r (ground (arith, matched r acc s.0 s.1 miss)) s.0)
            (All-zip (IsSeated db.bookings) _ db.rides v.seated h.ride_seen);
    })
    | inr not_acc ↦ rw not_acc (record {
      rides_keyed = v.rides_keyed;
      bookings_keyed = delete_bookings-Keyed env _ db.bookings v.bookings_keyed;
      seated = All-map db.rides (λ r s. other-IsSeated r (ground arith) s) v.seated;
    })
  ]
