-- ===== src/Ledger/Counts.antt =====
-- How the count of a ride's accepted bookings moves when the bookings change.
use uni_pool_new_backend.Base.{
  ℕ, ◌+◌, ◌≡◌, sym, ap, ◌∙◌, ◌≢◌, Bool, ◌&&◌, some, List, is_none, ◌==◌, if◌then◌else◌, arith, All,
  All-map, All-of, count-cong, Keyed, find_where, count_where, update_where, count-update_gain,
  count-update_keep, count-update_lose, count-delete, count_unique, Bool-cases, inl, inr,
}
use uni_pool_new_backend.Model.{Booking, RequestStatus, is_accepted}
use uni_pool_new_backend.Store.{Env, delete_bookings}
use uni_pool_new_backend.Booking.Request.{accepted_count}
use uni_pool_new_backend.Booking.Load.Rows.{IsOf}
use uni_pool_new_backend.Booking.Accept.{still_pending, set_status}

module _ (env : Env) (booking_id ride_id : ℕ) (bs : List Booking) where
  pub accepted_count-accept :
      All (IsOf booking_id ride_id) bs
      → accepted_count ride_id
          (update_where (still_pending env booking_id) (set_status RequestStatus.accepted) bs)
        ≡ accepted_count ride_id bs + count_where (still_pending env booking_id) bs
  unfolding accepted_count
  accepted_count-accept own =
      count-update_gain _ _ _ bs (All-map bs (λ b of p. ground (arith, of)) own)

  pub accepted_count-accept_other :
      (j : ℕ)
      → j ≢ ride_id
      → All (IsOf booking_id ride_id) bs
      → accepted_count j
          (update_where (still_pending env booking_id) (set_status RequestStatus.accepted) bs)
        ≡ accepted_count j bs
  unfolding accepted_count
  accepted_count-accept_other j ne own =
      count-update_keep _ _ _ bs (All-map bs (λ b of p. ground (arith, of)) own)

pub accepted_count-reject :
    (env : Env) (booking_id : ℕ) (bs : List Booking) (j : ℕ)
    → accepted_count j
        (update_where (still_pending env booking_id) (set_status RequestStatus.rejected) bs)
      ≡ accepted_count j bs
unfolding accepted_count
accepted_count-reject env booking_id bs j =
    count-update_keep _ _ _ bs (All-of _ bs (λ b p. ground arith))

-- The rows that a deletion takes out of the count are the counted ones among those it fits.
pub accepted_count-delete :
    (env : Env) (p : Booking → Bool) (j : ℕ) (bs : List Booking)
    → accepted_count j (delete_bookings env p bs)
        + count_where
            (λ b. p b && (b.ride_id == j && (is_accepted b.request_status && is_none b.deleted_at)))
            bs
      ≡ accepted_count j bs
unfolding accepted_count delete_bookings
accepted_count-delete env p j bs = elim (Bool-cases env.soft_delete) [
  | inl soft ↦ rw soft (
      ap (◌+◌ (count_where _ _)) (count-cong _ _ bs (λ b. ground arith))
      ∙ count-update_lose (λ b. p b && is_none b.deleted_at) _ _ bs (λ b. ground arith))
  | inr hard ↦ rw hard (count-delete p _ bs)
]

-- Deleting one booking by its id takes it out of the count of its own ride only, if it counted.
pub accepted_count-delete_one :
    (env : Env) (p : Booking → Bool) (j : ℕ) (bs : List Booking) (b : Booking)
    → Keyed (λ x. x.id) bs
    → find_where p bs ≡ some b
    → accepted_count j (delete_bookings env (λ x. x.id == b.id) bs)
        + (if b.ride_id == j && (is_accepted b.request_status && is_none b.deleted_at)
            then 1
            else 0)
      ≡ accepted_count j bs
accepted_count-delete_one env p j bs b keyed found =
    ap (◌+◌ (accepted_count j (delete_bookings env (λ x. x.id == b.id) bs)))
      (sym (count_unique (λ x. x.id) p _ bs b keyed found))
    ∙ accepted_count-delete env (λ x. x.id == b.id) j bs
