-- ===== src/TripCard/Ack.antt =====
-- PaymentAck of routes/bookings/TripCard.go: the host confirms or disputes the payment.
use uni_pool_new_backend.Base.{
  ℕ, Bool, ◌&&◌, not, Option, none, some, String, List, [], ◌∷◌, is_none, ◌==◌, if◌then◌else◌,
  find_where, count_where, update_where,
}
use uni_pool_new_backend.Text.{codes, codes_eq, normalize}
use uni_pool_new_backend.Model.{User, Ride, Booking, PaymentStatus}
use uni_pool_new_backend.Store.{
  Db, Env, Locals, malformed, signed_in, Outcome, post, MessageKind, load_row, update_booking,
  refuse, visible,
}

pub data Ack : Type 0 where
  received missing : Ack

unfoldable pub parse_ack : List ℕ → Option Ack
parse_ack text =
    if codes_eq text (codes "received")
    then some Ack.received
    else if codes_eq text (codes "missing")
    then some Ack.missing
    else none

unfoldable pub ack_status : Ack → PaymentStatus
ack_status Ack.received = PaymentStatus.confirmed
ack_status Ack.missing = PaymentStatus.disputed

-- The booking with its ride, of the projected read. The passenger's name is text of the messages.
pub record PaymentAckRow : Type 0 where
  pub booking : Booking
  pub ride : Ride

unfoldable pub ack_row : ℕ → Db → Option PaymentAckRow
ack_row id db = elim (find_where (λ b. b.id == id && is_none b.deleted_at) db.bookings) [
  | none ↦ none
  | some b ↦ elim (find_where (λ r. r.id == b.ride_id && is_none r.deleted_at) db.rides) [
    | none ↦ none
    | some r ↦ if b.id == 0 then none else some (record { booking = b; ride = r })
  ]
]

abbrev pub acked_row : Env → ℕ → Booking → Bool
acked_row env id b = b.id == id && visible env b.deleted_at

abbrev pub acked : Env → Ack → Booking → Booking
acked env ack b = record b { payment_status = ack_status ack; payment_confirmed_at = some env.now }

unfoldable pub write_ack : Env → User → Ack → PaymentAckRow → Db → Outcome
write_ack env user ack payment db =
    if not (payment.ride.host_user_id == user.id)
    then refuse db 403 "only the host can confirm payments for this ride"
    else if env.fails update_booking
    then refuse db 500 "failed to record acknowledgement"
    else if count_where (acked_row env payment.booking.id) db.bookings == 0
    then refuse db 404 "booking not found"
    else record {
      db = record db {
        bookings = update_where (acked_row env payment.booking.id) (acked env ack) db.bookings;
      };
      response = record { status = 200; message = "OK" };
      notices =
          post MessageKind.payment_ack payment.booking.ride_id user.id payment.booking.id ∷ [];
    }

unfoldable pub ack_found : Env → User → Ack → Option PaymentAckRow → Db → Outcome
unfolding write_ack
ack_found env user ack none db = refuse db 404 "booking not found"
ack_found env user ack (some payment) db = write_ack env user ack payment db

unfoldable pub ack_parsed : Env → User → Option ℕ → Option (Option Ack) → Db → Outcome
unfolding ack_found
ack_parsed env user none body db = refuse db 400 "invalid booking id"
ack_parsed env user (some id) none db = refuse db 400 "invalid body"
ack_parsed env user (some id) (some none) db = refuse db 400 "ack must be 'received' or 'missing'"
ack_parsed env user (some id) (some (some ack)) db =
    if env.fails load_row
    then refuse db 500 "failed to load booking"
    else ack_found env user ack (ack_row id db) db

-- `PaymentAck`, with the path's id and the text under ack, `none` for a body that does not parse.
unfoldable pub payment_ack : Env → Locals → Option ℕ → Option String → Db → Outcome
unfolding ack_parsed
payment_ack env Locals.missing id text db = refuse db 401 "unauthorized"
payment_ack env malformed id text db = refuse db 401 "unauthorized"
payment_ack env (signed_in user) id none db = ack_parsed env user id none db
payment_ack env (signed_in user) id (some text) db =
    ack_parsed env user id (some (parse_ack (normalize text))) db
