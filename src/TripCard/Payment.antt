-- ===== src/TripCard/Payment.antt =====
-- The payment lifecycle of a booking: dismissals by the passenger, acknowledgements by the host.
use uni_pool_new_backend.Base.{
  ℕ, ◌≡◌, refl, ◌∙◌, ◌≢◌, true, false, ◌&&◌, Option, List, none, some, [], ◌∷◌, is_none, ◌==◌,
  if◌then◌else◌, arith, Keyed, find_where, update_where, find_where-hit, find-update, count-found,
  &&_split,
}
use uni_pool_new_backend.Model.{User, Booking, DismissalSignal, PaymentStatus}
use uni_pool_new_backend.Store.{Db, Env, Stmt, post, MessageKind}
use uni_pool_new_backend.TripCard.Dismiss.{is_paid, dismissed, find_own, dismiss_signal}
use uni_pool_new_backend.TripCard.Dismissal.{dismiss-writes, dismiss-Keyed}
use uni_pool_new_backend.TripCard.Ack.{
  Ack, PaymentAckRow, ack_status, ack_row, acked_row, acked, ack_parsed,
}

dismissed_columns :
    (env : Env) (signal : DismissalSignal) (b : Booking)
    → some (dismissed env signal b)
      ≡ some (record b {
        dismissal_signal = signal;
        dismissed_at = some env.now;
        payment_status = elim signal [
          | DismissalSignal.paid ↦ PaymentStatus.pending
          | _ ↦ b.payment_status
        ];
      })
dismissed_columns env DismissalSignal.active b = refl
dismissed_columns env DismissalSignal.paid b = refl
dismissed_columns env DismissalSignal.no_show b = refl
dismissed_columns env DismissalSignal.cancelled b = refl

announced_once {ℓ} :
    {A : Type ℓ} (signal : DismissalSignal) (first : Option ℕ) (xs : List A)
    → (if is_paid signal && is_none first then xs else [])
      ≡ elim signal [ DismissalSignal.paid ↦ elim first [ none ↦ xs | some _ ↦ [] ] | _ ↦ [] ]
announced_once DismissalSignal.active first xs = refl
announced_once DismissalSignal.paid none xs = refl
announced_once DismissalSignal.paid (some t) xs = refl
announced_once DismissalSignal.no_show first xs = refl
announced_once DismissalSignal.cancelled first xs = refl

-- The passenger dismisses a booking of theirs, and no statement fails.
module _ (env : Env) (user : User) (id : ℕ) (signal : DismissalSignal) (db : Db) (booking : Booking)
    (keyed : Keyed (λ (b : Booking). b.id) db.bookings)
    (found : find_own id user.id db ≡ some booking) (real : booking.id ≢ 0)
    (healthy : (s : Stmt) → env.fails s ≡ false) where
  -- If the passenger dismisses an undeleted booking of theirs with a nonzero id, ids are unique
  -- and no statement fails, the answer is 200, and the booking that is found has the signal, the
  -- time of the call as its dismissed_at, a pending payment if the signal is paid and the payment
  -- status that it had if not, and all other columns as before. The chat gets a payment marker
  -- exactly at a first dismissal as paid, and there is no other notice.
  pub dismiss-records :
      let out = dismiss_signal env user (some signal) (some id) db in
      (out.response.status ≡ 200)
      × (find_own id user.id out.db
          ≡ some (record booking {
            dismissal_signal = signal;
            dismissed_at = some env.now;
            payment_status = elim signal [
              | DismissalSignal.paid ↦ PaymentStatus.pending
              | _ ↦ booking.payment_status
            ];
          }))
      × (out.notices ≡ elim signal [
        | DismissalSignal.paid ↦ elim booking.dismissed_at [
          | none ↦ post MessageKind.payment_marker booking.ride_id user.id booking.id ∷ []
          | some _ ↦ []
        ]
        | _ ↦ []
      ])
  dismiss-records =
      let (ok, found_after, told) =
        dismiss-writes env user id signal db booking keyed found real healthy in
      (
        ok,
        found_after ∙ dismissed_columns env signal booking,
        told
            ∙ announced_once signal booking.dismissed_at
                (post MessageKind.payment_marker booking.ride_id user.id booking.id ∷ []),
      )

-- A second dismissal announces nothing: the chat sees at most one payment marker of a booking.
pub payment_marker_once :
    (env later : Env) (user : User) (id : ℕ) (signal second : DismissalSignal) (db : Db)
    (booking : Booking)
    → Keyed (λ (b : Booking). b.id) db.bookings
    → find_own id user.id db ≡ some booking
    → booking.id ≢ 0
    → ((s : Stmt) → env.fails s ≡ false)
    → ((s : Stmt) → later.fails s ≡ false)
    → let first = dismiss_signal env user (some signal) (some id) db in
      (dismiss_signal later user (some second) (some id) first.db).notices ≡ []
payment_marker_once env later user id signal second db booking keyed found real ok ok' =
    let first = dismiss_signal env user (some signal) (some id) db in
    let kept = (dismiss-writes env user id signal db booking keyed found real ok).1 in
    let keyed' = dismiss-Keyed env user id signal db booking keyed found real ok in
    let told =
      (dismiss-writes later user id second first.db (dismissed env signal booking) keyed' kept real
        ok').2 in
    told ∙ ground arith

-- A payment that the host has confirmed is pending again once the passenger dismisses the card as
-- paid again, and keeps the time of the confirmation.
pub dismiss-reopens_payment :
    (env : Env) (user : User) (id : ℕ) (db : Db) (booking : Booking)
    → Keyed (λ (b : Booking). b.id) db.bookings
    → find_own id user.id db ≡ some booking
    → booking.id ≢ 0
    → ((s : Stmt) → env.fails s ≡ false)
    → booking.dismissal_signal ≡ DismissalSignal.paid
    → booking.payment_status ≡ PaymentStatus.confirmed
    → let out = dismiss_signal env user (some DismissalSignal.paid) (some id) db in
      (b : Booking) × (find_own id user.id out.db ≡ some b)
      × (b.payment_status ≡ PaymentStatus.pending)
      × (b.payment_confirmed_at ≡ booking.payment_confirmed_at)
dismiss-reopens_payment env user id db booking keyed found real ok paid confirmed = (
  dismissed env DismissalSignal.paid booking,
  (dismiss-writes env user id DismissalSignal.paid db booking keyed found real ok).1,
  refl,
  refl,
)

ack_row-found :
    (id : ℕ) (db : Db) (row : PaymentAckRow)
    → ack_row id db ≡ some row
    → find_where (λ b. b.id == id && is_none b.deleted_at) db.bookings ≡ some row.booking
unfolding ack_row
ack_row-found id db row e = ground arith

acked_hit :
    (env : Env) (id : ℕ) (db : Db) (row : PaymentAckRow)
    → ack_row id db ≡ some row
    → acked_row env row.booking.id row.booking ≡ true
acked_hit env id db row e =
    let hit = find_where-hit _ db.bookings row.booking (ack_row-found id db row e) in
    let live : is_none row.booking.deleted_at ≡ true = (&&_split (row.booking.id == id) _ hit).1 in
    ground arith

acked_found :
    (env : Env) (id : ℕ) (ack : Ack) (db : Db) (row : PaymentAckRow)
    → ack_row id db ≡ some row
    → find_where
        (λ b. b.id == id && is_none b.deleted_at)
        (update_where (acked_row env row.booking.id) (acked env ack) db.bookings)
      ≡ some (acked env ack row.booking)
acked_found env id ack db row e =
    find-update _ (acked_row env row.booking.id) (acked env ack) db.bookings row.booking (λ b. refl)
      (ack_row-found id db row e)
    ∙ rw (acked_hit env id db row e)

module _ (env : Env) (user : User) (id : ℕ) (ack : Ack) (db : Db) (row : PaymentAckRow)
    (loaded : ack_row id db ≡ some row) (ok : (s : Stmt) → env.fails s ≡ false) where
  acked_outcome :
      row.ride.host_user_id ≡ user.id
      → ack_parsed env user (some id) (some (some ack)) db ≡ record {
        db = record db {
          bookings = update_where (acked_row env row.booking.id) (acked env ack) db.bookings;
        };
        response = record { status = 200; message = "OK" };
        notices = post MessageKind.payment_ack row.booking.ride_id user.id row.booking.id ∷ [];
      }
  unfolding ack_parsed
  acked_outcome host =
      let counted =
        count-found _ (acked_row env row.booking.id) db.bookings row.booking
          (ack_row-found id db row loaded) (acked_hit env id db row loaded) in
      rw (ok Stmt.load_row, loaded) (ground (arith, ok Stmt.update_booking, counted))

  refused :
      row.ride.host_user_id ≢ user.id
      → let out = ack_parsed env user (some id) (some (some ack)) db in
        (out.response.status ≡ 403) × (out.db ≡ db) × (out.notices ≡ [])
  unfolding ack_parsed
  refused stranger = rw (ok Stmt.load_row, loaded) (ground arith)

acked_columns :
    (env : Env) (ack : Ack) (b : Booking)
    → some (acked env ack b)
      ≡ some (record b {
        payment_status = elim ack [
          | Ack.received ↦ PaymentStatus.confirmed
          | Ack.missing ↦ PaymentStatus.disputed
        ];
        payment_confirmed_at = some env.now;
      })
unfolding ack_status
acked_columns env Ack.received b = refl
acked_columns env Ack.missing b = refl

-- If no statement fails: the host who acknowledges a payment gets 200, and the booking that is found
-- is confirmed if the payment was received and disputed if it is missing, has the time of the call as
-- its payment_confirmed_at, and all other columns as before; the chat gets one payment_ack. Anybody
-- else gets 403, and nothing changes.
pub payment_ack-records :
    (env : Env) (user : User) (id : ℕ) (ack : Ack) (db : Db) (row : PaymentAckRow)
    → ack_row id db ≡ some row
    → ((s : Stmt) → env.fails s ≡ false)
    → let out = ack_parsed env user (some id) (some (some ack)) db in
      (row.ride.host_user_id ≡ user.id
        → (out.response.status ≡ 200)
          × (find_where (λ b. b.id == id && is_none b.deleted_at) out.db.bookings
              ≡ some (record row.booking {
                payment_status = elim ack [
                  | Ack.received ↦ PaymentStatus.confirmed
                  | Ack.missing ↦ PaymentStatus.disputed
                ];
                payment_confirmed_at = some env.now;
              }))
          × (out.notices
              ≡ post MessageKind.payment_ack row.booking.ride_id user.id row.booking.id ∷ []))
      × (row.ride.host_user_id ≢ user.id
          → (out.response.status ≡ 403) × (out.db ≡ db) × (out.notices ≡ []))
payment_ack-records env user id ack db row loaded ok = (
  λ host.
      rw (acked_outcome env user id ack db row loaded ok host)
        (refl, acked_found env id ack db row loaded ∙ acked_columns env ack row.booking, refl),
  λ stranger. refused env user id ack db row loaded ok stranger,
)
