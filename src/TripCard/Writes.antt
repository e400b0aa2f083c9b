-- ===== src/TripCard/Writes.antt =====
-- The writes of routes/bookings/TripCard.go against the seat contract.
use uni_pool_new_backend.Base.{
  ℕ, ◌≡◌, refl, Bool, Option, none, some, String, List, arith, All-map, All-of, Keyed-update,
  count-update_keep, update_where, Option-cases, inl, inr,
}
use uni_pool_new_backend.Text.{normalize}
use uni_pool_new_backend.Model.{User, Booking, DismissalSignal}
use uni_pool_new_backend.Store.{Db, Env, Locals, missing, malformed, signed_in}
use uni_pool_new_backend.Booking.Request.{accepted_count}
use uni_pool_new_backend.Ledger.{IsBalanced}
use uni_pool_new_backend.TripCard.Dismiss.{
  DismissBody, parse_signal, dismissed, first_dismissal, own_booking, find_own, dismiss_signal,
  dismiss_trip_card,
}
use uni_pool_new_backend.TripCard.Ack.{
  Ack, parse_ack, ack_row, acked_row, acked, ack_parsed, payment_ack,
}

-- What a change of a row leaves to the seat contract.
pub record IsStamp (f : Booking → Booking) : Type 0 where
  pub id : (b : Booking) → (f b).id ≡ b.id
  pub ride_id : (b : Booking) → (f b).ride_id ≡ b.ride_id
  pub request_status : (b : Booking) → (f b).request_status ≡ b.request_status
  pub deleted_at : (b : Booking) → (f b).deleted_at ≡ b.deleted_at

dismissed-IsStamp : (env : Env) (signal : DismissalSignal) → IsStamp (dismissed env signal)
dismissed-IsStamp env signal = record {
  id = λ b. refl;
  ride_id = λ b. refl;
  request_status = λ b. refl;
  deleted_at = λ b. refl;
}

acked-IsStamp : (env : Env) (ack : Ack) → IsStamp (acked env ack)
acked-IsStamp env ack = record {
  id = λ b. refl;
  ride_id = λ b. refl;
  request_status = λ b. refl;
  deleted_at = λ b. refl;
}

accepted_count-stamp :
    (f : Booking → Booking)
    → IsStamp f
    → (p : Booking → Bool) (j : ℕ) (bs : List Booking)
    → accepted_count j (update_where p f bs) ≡ accepted_count j bs
unfolding accepted_count
accepted_count-stamp f same p j bs =
    count-update_keep _ _ _ bs
      (All-of _ bs (λ b _. rw (same.ride_id b, same.request_status b, same.deleted_at b) refl))

pub stamp-IsBalanced :
    (f : Booking → Booking)
    → IsStamp f
    → (p : Booking → Bool) (db : Db) → IsBalanced db
    → IsBalanced (record db { bookings = update_where p f db.bookings })
stamp-IsBalanced f same p db v = record {
  rides_keyed = v.rides_keyed;
  bookings_keyed = Keyed-update (λ (b : Booking). b.id) p f db.bookings same.id v.bookings_keyed;
  seated = All-map db.rides (λ r s. rw (accepted_count-stamp f same p r.id db.bookings) s) v.seated;
}

-- A property of databases that stamps keep.
module _ (P : Db → Type 0)
    (kept : (f : Booking → Booking)
      → IsStamp f
      → (p : Booking → Bool) (db : Db) → P db
      → P (record db { bookings = update_where p f db.bookings })) where
  dismiss_signal-keeps :
      (env : Env) (user : User) (signal : Option DismissalSignal) (id : Option ℕ) (db : Db)
      → P db
      → P (dismiss_signal env user signal id db).db
  unfolding dismiss_signal
  dismiss_signal-keeps env user none id db v = v
  dismiss_signal-keeps env user (some signal) none db v = v
  dismiss_signal-keeps env user (some signal) (some id) db v =
      elim (Option-cases (find_own id user.id db)) [
        | inl e ↦ rw e (ground arith)
        | inr (booking, e) ↦
            let f = dismissed env signal in
            let stamp = dismissed-IsStamp env signal in
            rw e (
              ground (
                arith,
                kept f stamp (first_dismissal env booking.id user.id) db v,
                kept f stamp (own_booking env booking.id user.id) db v,
              ))
      ]

  pub dismiss_trip_card-keeps :
      (env : Env) (locals : Locals) (body : Option DismissBody) (db : Db)
      → P db
      → P (dismiss_trip_card env locals body db).db
  unfolding dismiss_trip_card
  dismiss_trip_card-keeps env missing body db v = v
  dismiss_trip_card-keeps env malformed body db v = v
  dismiss_trip_card-keeps env (signed_in user) none db v = v
  dismiss_trip_card-keeps env (signed_in user) (some body) db v =
      dismiss_signal-keeps env user (parse_signal (normalize body.signal)) body.booking_id db v

  ack_parsed-keeps :
      (env : Env) (user : User) (id : Option ℕ) (body : Option (Option Ack)) (db : Db)
      → P db
      → P (ack_parsed env user id body db).db
  unfolding ack_parsed
  ack_parsed-keeps env user none body db v = v
  ack_parsed-keeps env user (some id) none db v = v
  ack_parsed-keeps env user (some id) (some none) db v = v
  ack_parsed-keeps env user (some id) (some (some ack)) db v = elim (Option-cases (ack_row id db)) [
    | inl e ↦ rw e (ground arith)
    | inr (row, e) ↦ rw e (
        ground
          (arith, kept (acked env ack) (acked-IsStamp env ack) (acked_row env row.booking.id) db v))
  ]

  pub payment_ack-keeps :
      (env : Env) (locals : Locals) (id : Option ℕ) (text : Option String) (db : Db)
      → P db
      → P (payment_ack env locals id text db).db
  unfolding payment_ack
  payment_ack-keeps env missing id text db v = v
  payment_ack-keeps env malformed id text db v = v
  payment_ack-keeps env (signed_in user) id none db v = ack_parsed-keeps env user id none db v
  payment_ack-keeps env (signed_in user) id (some text) db v =
      ack_parsed-keeps env user id (some (parse_ack (normalize text))) db v
