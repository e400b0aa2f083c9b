-- ===== src/Examples/TripCards.antt =====
-- The trip card on the fixture.
use uni_pool_new_backend.Base.{
  ◌≡◌, ◌≢◌, ◌⊎◌, refl, none, some, [], ◌∷◌, arith, find_where, count_where, is_none, if◌then◌else◌,
  ltb, ◌+◌, ◌==◌, ◌&&◌,
}
use uni_pool_new_backend.Text.{
  codes, codes_eq, normalize, trim_space, trim_left, is_space, to_lower,
}
use uni_pool_new_backend.Model.{Booking, DismissalSignal, PaymentStatus}
use uni_pool_new_backend.Store.{Db, signed_in, post, MessageKind}
use uni_pool_new_backend.TripCard.Dismiss.{
  DismissBody, parse_signal, find_own, dismiss_signal, dismiss_trip_card,
}
use uni_pool_new_backend.TripCard.Ack.{Ack, PaymentAckRow, ack_row, ack_parsed}
use uni_pool_new_backend.TripCard.Active.{
  Stage, Trip, TripCard, day, first_by, trips, trips_on, next_trip, with_host,
  build_active_trip_card,
}
use uni_pool_new_backend.TripCard.Payment.{
  dismiss-records, payment_marker_once, dismiss-reopens_payment, payment_ack-records,
}
use uni_pool_new_backend.TripCard.Selection.{Shows, IsNext, IsLast, build_active_trip_card-Shows}
use uni_pool_new_backend.Examples.Fixtures.{
  asha, bina, ride_ten, seated, waiting, start, calm, start-IsBalanced,
}

abbrev paid_body : DismissBody
paid_body = record { booking_id = some 20; signal = " Paid " }

paid_test :
    (dismiss_trip_card calm (signed_in bina) (some paid_body) start).notices
    ≡ post MessageKind.payment_marker 10 2 20 ∷ []
unfolding dismiss_trip_card parse_signal normalize codes codes_eq find_own find_where count_where
    trim_space trim_left is_space to_lower
paid_test = refl

found : find_own 20 2 start ≡ some seated
unfolding find_own find_where
found = refl

dismiss-records_example :
    let out = dismiss_signal calm bina (some DismissalSignal.paid) (some 20) start in
    (out.response.status ≡ 200)
    × (find_own 20 2 out.db
        ≡ some (record seated {
          dismissal_signal = DismissalSignal.paid;
          dismissed_at = some 100;
          payment_status = PaymentStatus.pending;
        }))
    × (out.notices ≡ post MessageKind.payment_marker 10 2 20 ∷ [])
dismiss-records_example =
    dismiss-records calm bina 20 DismissalSignal.paid start seated start-IsBalanced.bookings_keyed
      found (omega arith) (λ s. refl)

payment_marker_once_example :
    let first = dismiss_signal calm bina (some DismissalSignal.paid) (some 20) start in
    (dismiss_signal calm bina (some DismissalSignal.paid) (some 20) first.db).notices ≡ []
payment_marker_once_example =
    payment_marker_once calm calm bina 20 DismissalSignal.paid DismissalSignal.paid start seated
      start-IsBalanced.bookings_keyed found (omega arith) (λ s. refl) (λ s. refl)

abbrev settled : Booking
settled = record seated {
  dismissed_at = some 60;
  dismissal_signal = DismissalSignal.paid;
  payment_status = PaymentStatus.confirmed;
  payment_confirmed_at = some 70;
}

abbrev settled_db : Db
settled_db = record start { bookings = settled ∷ waiting ∷ [] }

settled_found : find_own 20 2 settled_db ≡ some settled
unfolding find_own find_where
settled_found = refl

dismiss-reopens_payment_example :
    let out = dismiss_signal calm bina (some DismissalSignal.paid) (some 20) settled_db in
    (b : Booking) × (find_own 20 2 out.db ≡ some b)
    × (b.payment_status ≡ PaymentStatus.pending)
    × (b.payment_confirmed_at ≡ some 70)
dismiss-reopens_payment_example =
    dismiss-reopens_payment calm bina 20 settled_db settled ((omega arith, tt), (tt, tt))
      settled_found (omega arith) (λ s. refl) refl refl

abbrev paid_row : PaymentAckRow
paid_row = record { booking = settled; ride = ride_ten }

paid_row_loaded : ack_row 20 settled_db ≡ some paid_row
unfolding ack_row find_where
paid_row_loaded = refl

payment_ack-records_example :
    let out = ack_parsed calm asha (some 20) (some (some Ack.missing)) settled_db in
    (asha.id ≡ 1
      → (out.response.status ≡ 200)
        × (find_where (λ b. b.id == 20 && is_none b.deleted_at) out.db.bookings
            ≡ some (record settled {
              payment_status = PaymentStatus.disputed;
              payment_confirmed_at = some 100;
            }))
        × (out.notices ≡ post MessageKind.payment_ack 10 1 20 ∷ []))
    × (1 ≢ asha.id → (out.response.status ≡ 403) × (out.db ≡ settled_db) × (out.notices ≡ []))
payment_ack-records_example =
    payment_ack-records calm asha 20 Ack.missing settled_db paid_row paid_row_loaded (λ s. refl)

abbrev card : TripCard
card = record {
  booking_id = 20;
  ride_id = 10;
  host_user_id = 1;
  host_name = "Asha";
  start_location = "VIT Vellore";
  end_location = "Chennai";
  start_time = 1000;
  total_price = 900;
  stage = Stage.upcoming;
}

shown : build_active_trip_card calm 2 start ≡ some card
unfolding build_active_trip_card first_by trips trips_on find_where
shown = refl

build_active_trip_card-Shows_example :
    (t : Trip) × Shows 100 2 start t card
    × ((IsNext 100 2 start t
          × (card.stage ≡ (if ltb 100 card.start_time then Stage.upcoming else Stage.in_window)))
        ⊎ (IsLast 100 2 start t
            × (with_host 100 start.users (next_trip 100 2 start) ≡ none)
            × (card.stage
                ≡ (if ltb 100 (card.start_time + day) then Stage.in_window else Stage.stale))))
build_active_trip_card-Shows_example = build_active_trip_card-Shows calm 2 start card shown
