-- ===== src/TripCard/Dismissal.antt =====
-- What DismissTripCard of routes/bookings/TripCard.go writes, in the words of the model.
use uni_pool_new_backend.Base.{
  ℕ, ◌≡◌, refl, ◌∙◌, ◌≢◌, Bool, true, false, ◌&&◌, some, [], ◌∷◌, is_none, ◌==◌, if◌then◌else◌,
  arith, All-map, Keyed, Keyed-update, count_where, update_where, find_where_unique, find_where-hit,
  find-update, count-found, count_none, Bool-cases, inl, inr, ==→eq,
}
use uni_pool_new_backend.Model.{User, Booking, DismissalSignal}
use uni_pool_new_backend.Store.{Db, Env, Stmt, post, MessageKind, Outcome}
use uni_pool_new_backend.TripCard.Dismiss.{
  is_paid, dismissed, own_booking, first_dismissal, find_own, dismiss_signal,
}

-- The passenger dismisses a booking of theirs, and no statement fails.
module _ (env : Env) (user : User) (id : ℕ) (signal : DismissalSignal) (db : Db) (booking : Booking)
    (keyed : Keyed (λ (b : Booking). b.id) db.bookings)
    (found : find_own id user.id db ≡ some booking) (real : booking.id ≢ 0)
    (healthy : (s : Stmt) → env.fails s ≡ false) where
  hit : (booking.id == id && (booking.passenger_id == user.id && is_none booking.deleted_at)) ≡ true
  unfolding find_own
  hit = find_where-hit _ db.bookings booking found

  owned : own_booking env booking.id user.id booking ≡ true
  owned = let h = hit in ground arith

  found_count : (q : Booking → Bool) → q booking ≡ true → count_where q db.bookings ≢ 0
  unfolding find_own
  found_count q h = count-found _ q db.bookings booking found h

  first_count :
      is_none booking.dismissed_at ≡ false
      → count_where (first_dismissal env booking.id user.id) db.bookings ≡ 0
  unfolding find_own
  first_count old = count_none _ db.bookings (
      All-map db.bookings (λ b unique. not_first b unique)
        (find_where_unique (λ (b : Booking). b.id) _ db.bookings booking keyed found))
    where
      not_first :
          (b : Booking)
          → (b.id ≡ booking.id → b ≡ booking)
          → first_dismissal env booking.id user.id b ≡ false
      not_first b unique = elim (Bool-cases (b.id == booking.id)) [
        | inl same ↦ rw (unique (==→eq b.id booking.id same)) (ground arith)
        | inr other ↦ ground arith
      ]

  recorded :
      (q : Booking → Bool)
      → q booking ≡ true
      → find_own id user.id
          (record db { bookings = update_where q (dismissed env signal) db.bookings })
        ≡ some (dismissed env signal booking)
  unfolding find_own
  recorded q h = find-update _ q (dismissed env signal) db.bookings booking (λ b. refl) found ∙ rw h

  abbrev dismissed_outcome : (Booking → Bool) → Bool → Outcome
  dismissed_outcome q announced = record {
    db = record db { bookings = update_where q (dismissed env signal) db.bookings };
    response = record { status = 200; message = "OK" };
    notices =
        if announced
        then post MessageKind.payment_marker booking.ride_id user.id booking.id ∷ []
        else [];
  }

  first_time :
      is_none booking.dismissed_at ≡ true
      → dismiss_signal env user (some signal) (some id) db
        ≡ dismissed_outcome (first_dismissal env booking.id user.id) (is_paid signal)
  unfolding dismiss_signal
  first_time new =
      let mine = owned in
      let counted = found_count (first_dismissal env booking.id user.id) (ground arith) in
      rw (healthy Stmt.load_row, found) (ground (arith, real, healthy Stmt.update_booking, counted))

  again :
      is_none booking.dismissed_at ≡ false
      → dismiss_signal env user (some signal) (some id) db
        ≡ dismissed_outcome (own_booking env booking.id user.id) false
  unfolding dismiss_signal
  again old =
      let counted = found_count (own_booking env booking.id user.id) owned in
      rw (healthy Stmt.load_row, found)
        (ground (
          arith,
          real,
          healthy Stmt.update_booking,
          healthy Stmt.rewrite_booking,
          first_count old,
          counted,
        ))

  pub dismiss-writes :
      let out = dismiss_signal env user (some signal) (some id) db in
      (out.response.status ≡ 200)
      × (find_own id user.id out.db ≡ some (dismissed env signal booking))
      × (out.notices ≡ (
          if is_paid signal && is_none booking.dismissed_at
          then post MessageKind.payment_marker booking.ride_id user.id booking.id ∷ []
          else []))
  dismiss-writes = elim (Bool-cases (is_none booking.dismissed_at)) [
    | inl new ↦
        let mine = owned in
        rw (first_time new)
          (refl, recorded (first_dismissal env booking.id user.id) (ground arith), ground arith)
    | inr old ↦
        rw (again old) (refl, recorded (own_booking env booking.id user.id) owned, ground arith)
  ]

  pub dismiss-Keyed :
      Keyed (λ b. b.id) (dismiss_signal env user (some signal) (some id) db).db.bookings
  dismiss-Keyed = elim (Bool-cases (is_none booking.dismissed_at)) [
    | inl new ↦
        rw (first_time new) (Keyed-update (λ (b : Booking). b.id) _ _ db.bookings (λ b. refl) keyed)
    | inr old ↦
        rw (again old) (Keyed-update (λ (b : Booking). b.id) _ _ db.bookings (λ b. refl) keyed)
  ]
