-- ===== src/TripCard/Dismiss.antt =====
-- DismissTripCard of routes/bookings/TripCard.go: the passenger says how the trip ended.
use uni_pool_new_backend.Base.{
  ℕ, Bool, true, false, ◌&&◌, Option, none, some, String, List, [], ◌∷◌, is_none, ◌==◌,
  if◌then◌else◌, find_where, count_where, update_where,
}
use uni_pool_new_backend.Text.{codes, codes_eq, normalize}
use uni_pool_new_backend.Model.{User, Booking, DismissalSignal, PaymentStatus}
use uni_pool_new_backend.Store.{
  Db, Env, Locals, missing, malformed, signed_in, Outcome, post, MessageKind, load_row,
  update_booking, rewrite_booking, refuse, visible,
}

-- The body: the uuid under booking_id, `none` where it is none, and the text under signal.
pub record DismissBody : Type 0 where
  pub booking_id : Option ℕ
  pub signal : String

-- The `switch` on the signal.
unfoldable pub parse_signal : List ℕ → Option DismissalSignal
parse_signal text =
    if codes_eq text (codes "paid")
    then some DismissalSignal.paid
    else if codes_eq text (codes "no_show")
    then some DismissalSignal.no_show
    else if codes_eq text (codes "cancelled")
    then some DismissalSignal.cancelled
    else none

abbrev pub is_paid : DismissalSignal → Bool
is_paid DismissalSignal.paid = true
is_paid _ = false

-- The columns that `updates` sets.
abbrev pub dismissed : Env → DismissalSignal → Booking → Booking
dismissed env signal b = record b {
  dismissed_at = some env.now;
  dismissal_signal = signal;
  payment_status = if is_paid signal then PaymentStatus.pending else b.payment_status;
}

abbrev pub own_booking : Env → ℕ → ℕ → Booking → Bool
own_booking env booking_id passenger_id b =
    b.id == booking_id && (b.passenger_id == passenger_id && visible env b.deleted_at)

abbrev pub first_dismissal : Env → ℕ → ℕ → Booking → Bool
first_dismissal env booking_id passenger_id b =
    own_booking env booking_id passenger_id b && is_none b.dismissed_at

-- The first dismissal claims the row, and announces a payment in the chat; a later one overwrites it.
unfoldable pub write_dismissal : Env → User → Booking → DismissalSignal → Db → Outcome
write_dismissal env user booking signal db =
    if env.fails update_booking
    then refuse db 500 "failed to record dismissal"
    else if count_where (first_dismissal env booking.id user.id) db.bookings == 0
    then (if env.fails rewrite_booking
        then refuse db 500 "failed to record dismissal"
        else if count_where (own_booking env booking.id user.id) db.bookings == 0
        then refuse db 404 "booking not found"
        else record {
          db = record db {
            bookings =
                update_where (own_booking env booking.id user.id) (dismissed env signal)
                  db.bookings;
          };
          response = record { status = 200; message = "OK" };
          notices = [];
        })
    else record {
      db = record db {
        bookings =
            update_where (first_dismissal env booking.id user.id) (dismissed env signal)
              db.bookings;
      };
      response = record { status = 200; message = "OK" };
      notices =
          if is_paid signal
          then post MessageKind.payment_marker booking.ride_id user.id booking.id ∷ []
          else [];
    }

-- The read of the caller's own booking.
unfoldable pub find_own : ℕ → ℕ → Db → Option Booking
find_own booking_id passenger_id db =
    find_where (λ b. b.id == booking_id && (b.passenger_id == passenger_id && is_none b.deleted_at))
      db.bookings

unfoldable pub dismiss_found : Env → User → DismissalSignal → Option Booking → Db → Outcome
unfolding write_dismissal
dismiss_found env user signal none db = refuse db 404 "booking not found"
dismiss_found env user signal (some booking) db =
    if booking.id == 0
    then refuse db 404 "booking not found"
    else write_dismissal env user booking signal db

unfoldable pub dismiss_signal : Env → User → Option DismissalSignal → Option ℕ → Db → Outcome
unfolding dismiss_found
dismiss_signal env user none id db = refuse db 400 "signal must be one of: paid, no_show, cancelled"
dismiss_signal env user (some signal) none db = refuse db 400 "invalid booking_id"
dismiss_signal env user (some signal) (some id) db =
    if env.fails load_row
    then refuse db 500 "failed to load booking"
    else dismiss_found env user signal (find_own id user.id db) db

-- `DismissTripCard`, with `none` for a body that the parser refuses.
unfoldable pub dismiss_trip_card : Env → Locals → Option DismissBody → Db → Outcome
unfolding dismiss_signal
dismiss_trip_card env missing body db = refuse db 401 "unauthorized"
dismiss_trip_card env malformed body db = refuse db 401 "unauthorized"
dismiss_trip_card env (signed_in user) none db = refuse db 400 "invalid body"
dismiss_trip_card env (signed_in user) (some body) db =
    dismiss_signal env user (parse_signal (normalize body.signal)) body.booking_id db
