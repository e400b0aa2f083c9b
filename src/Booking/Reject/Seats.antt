-- ===== src/Booking/Reject/Seats.antt =====
-- Reject.go against the seat contract.
use uni_pool_new_backend.Base.{
  ℕ, refl, sym, ◌∙◌, Option, arith, All-map, Keyed-update, Option-cases, inl, inr,
}
use uni_pool_new_backend.Model.{Booking, RequestStatus}
use uni_pool_new_backend.Store.{Db, Env, Locals, missing, malformed, signed_in}
use uni_pool_new_backend.Booking.Load.{load_booking}
use uni_pool_new_backend.Booking.Accept.{still_pending, set_status}
use uni_pool_new_backend.Booking.Reject.{reject_route}
use uni_pool_new_backend.Ledger.{IsBalanced}
use uni_pool_new_backend.Ledger.Counts.{accepted_count-reject}
use uni_pool_new_backend.Base.{update_where}

rejected_db-IsBalanced :
    (env : Env) (id : ℕ) (db : Db)
    → IsBalanced db
    → IsBalanced (record db {
      bookings =
          update_where (still_pending env id) (set_status RequestStatus.rejected) db.bookings;
    })
rejected_db-IsBalanced env id db v = record {
  rides_keyed = v.rides_keyed;
  bookings_keyed =
      Keyed-update (λ (b : Booking). b.id) _ _ db.bookings (λ b. refl) v.bookings_keyed;
  seated =
      All-map db.rides (λ r s. (s.0 ∙ sym (accepted_count-reject env id db.bookings r.id), s.1))
        v.seated;
}

-- Rejecting a booking keeps the seat contract, whoever calls and whatever fails.
pub reject_route-IsBalanced :
    (env : Env) (locals : Locals) (id : Option ℕ) (db : Db)
    → IsBalanced db
    → IsBalanced (reject_route env locals id db).db
unfolding reject_route
reject_route-IsBalanced env missing id db v = v
reject_route-IsBalanced env malformed id db v = v
reject_route-IsBalanced env (signed_in user) id db v =
    elim (Option-cases (load_booking env id db)) [
      | inl e ↦ rw e v
      | inr (row, e) ↦ rw e (ground (arith, rejected_db-IsBalanced env row.booking.id db v))
    ]
