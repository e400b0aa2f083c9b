-- ===== src/TripCard/Selection.antt =====
-- Which trip the card of routes/bookings/TripCard.go shows.
use uni_pool_new_backend.Base.{
  ℕ, ◌+◌, ◌≤◌, ◌≡◌, refl, ap, ◌∙◌, ◌≢◌, ◌⊎◌, true, Option, none, some, List, [], ◌∷◌, ◌==◌, leb,
  ltb, arith, All, All-append, find_where, find_where-hit, Bool-cases, Option-cases, inl, inr,
  ==→eq, if◌then◌else◌,
}
use uni_pool_new_backend.Model.{User, Ride, Booking, is_accepted}
use uni_pool_new_backend.Store.{Db, Env, load_row}
use uni_pool_new_backend.TripCard.Active.{
  day, Stage, Trip, TripCard, is_trip, trips_on, trips, is_upcoming, is_recent, stage_of, with_host,
  next_trip, last_trip, first_card, real_card, build_active_trip_card,
}
use uni_pool_new_backend.TripCard.Choice.{first_by-All, first_by-least}

-- A trip of the viewer: accepted, not deleted, and hosted by someone else.
pub record IsTrip (user_id : ℕ) (t : Trip) : Type 0 where
  pub same_ride : t.booking.ride_id ≡ t.ride.id
  pub mine : t.booking.passenger_id ≡ user_id
  pub accepted : is_accepted t.booking.request_status ≡ true
  pub booking_live : t.booking.deleted_at ≡ none
  pub ride_live : t.ride.deleted_at ≡ none
  pub not_host : t.ride.host_user_id ≢ user_id

trips_on-IsTrip :
    (user_id : ℕ) (r : Ride) (bs : List Booking) → All (IsTrip user_id) (trips_on user_id r bs)
unfolding trips_on
trips_on-IsTrip user_id r [] = tt
trips_on-IsTrip user_id r (b ∷ bs) = elim (Bool-cases (is_trip user_id r b)) [
  | inl hit ↦ rw hit (
    record {
      same_ride = ground arith;
      mine = ground arith;
      accepted = ground arith;
      booking_live = ground arith;
      ride_live = ground arith;
      not_host = ground arith;
    },
    trips_on-IsTrip user_id r bs,
  )
  | inr miss ↦ rw miss (trips_on-IsTrip user_id r bs)
]

trips-IsTrip :
    (user_id : ℕ) (bs : List Booking) (rs : List Ride) → All (IsTrip user_id) (trips user_id bs rs)
unfolding trips
trips-IsTrip user_id bs [] = tt
trips-IsTrip user_id bs (r ∷ rs) =
    All-append (IsTrip user_id) (trips_on user_id r bs) (trips user_id bs rs)
      (trips_on-IsTrip user_id r bs) (trips-IsTrip user_id bs rs)

-- The trip that a card shows, with the window that it was chosen from.
pub record Shows (now user_id : ℕ) (db : Db) (t : Trip) (card : TripCard) : Type 0 where
  pub is_trip : IsTrip user_id t
  pub booking_shown : card.booking_id ≡ t.booking.id
  pub ride_shown : card.ride_id ≡ t.ride.id
  pub host_shown : card.host_user_id ≡ t.ride.host_user_id
  pub start_shown : card.start_time ≡ t.ride.start_time

abbrev pub IsNext : ℕ → ℕ → Db → Trip → Type 0
IsNext now user_id db t =
    (is_upcoming now t ≡ true)
    × All (λ u. is_upcoming now u ≡ true → t.ride.start_time ≤ u.ride.start_time)
        (trips user_id db.bookings db.rides)

abbrev pub IsLast : ℕ → ℕ → Db → Trip → Type 0
IsLast now user_id db t =
    (is_recent now t ≡ true)
    × All (λ u. is_recent now u ≡ true → u.ride.start_time ≤ t.ride.start_time)
        (trips user_id db.bookings db.rides)

next_trip-IsNext :
    (now user_id : ℕ) (db : Db) (t : Trip)
    → next_trip now user_id db ≡ some t
    → IsTrip user_id t × IsNext now user_id db t
unfolding next_trip
next_trip-IsNext now user_id db t e =
    let all = trips user_id db.bookings db.rides in
    let own =
      first_by-All leb (is_upcoming now) (IsTrip user_id) all t
        (trips-IsTrip user_id db.bookings db.rides) e in
    (
      own.0,
      (
        own.1,
        first_by-least leb (is_upcoming now) (λ a b. a ≤ b) (λ a b h. ground arith)
            (λ a b h. ground arith) (λ a b c h k. omega arith) (λ a. omega arith) all t e,
      ),
    )

last_trip-IsLast :
    (now user_id : ℕ) (db : Db) (t : Trip)
    → last_trip now user_id db ≡ some t
    → IsTrip user_id t × IsLast now user_id db t
unfolding last_trip
last_trip-IsLast now user_id db t e =
    let all = trips user_id db.bookings db.rides in
    let own =
      first_by-All (λ a b. leb b a) (is_recent now) (IsTrip user_id) all t
        (trips-IsTrip user_id db.bookings db.rides) e in
    (
      own.0,
      (
        own.1,
        first_by-least (λ a b. leb b a) (is_recent now) (λ a b. b ≤ a) (λ a b h. ground arith)
            (λ a b h. ground arith) (λ a b c h k. omega arith) (λ a. omega arith) all t e,
      ),
    )

card_of-Shows :
    (now user_id : ℕ) (db : Db) (t : Trip) (card : TripCard)
    → IsTrip user_id t
    → with_host now db.users (some t) ≡ some card
    → Shows now user_id db t card × (card.stage ≡ stage_of now t.ride.start_time)
unfolding with_host
card_of-Shows now user_id db t card own e =
    elim (Option-cases (find_where (λ u. u.id == t.ride.host_user_id) db.users)) [
      | inl lost ↦ absurd (ground arith)
      | inr (host, found) ↦
          let same : host.id ≡ t.ride.host_user_id =
            ==→eq host.id t.ride.host_user_id (find_where-hit _ db.users host found) in
          (
            record {
              is_trip = own;
              booking_shown = ground arith;
              ride_shown = ground arith;
              host_shown = ground arith;
              start_shown = ground arith;
            },
            ground arith,
          )
    ]

with_host-some :
    (now : ℕ) (users : List User) (o : Option Trip) (card : TripCard)
    → with_host now users o ≡ some card
    → (t : Trip) × (o ≡ some t) × (with_host now users (some t) ≡ some card)
with_host-some now users none card e = absurd (unfold with_host in cc)
with_host-some now users (some t) card e = (t, refl, e)

upcoming_stage :
    (now : ℕ) (t : Trip)
    → is_upcoming now t ≡ true
    → stage_of now t.ride.start_time
      ≡ (if ltb now t.ride.start_time then Stage.upcoming else Stage.in_window)
unfolding stage_of
upcoming_stage now t soon = ground arith

recent_stage :
    (now : ℕ) (t : Trip)
    → is_recent now t ≡ true
    → stage_of now t.ride.start_time
      ≡ (if ltb now (t.ride.start_time + day) then Stage.in_window else Stage.stale)
unfolding stage_of
recent_stage now t past = ground arith

real_card-some :
    (o : Option TripCard) (card : TripCard)
    → real_card o ≡ some card
    → (o ≡ some card) × (card.booking_id ≢ 0)
unfolding real_card
real_card-some none card e = absurd (ground arith)
real_card-some (some c) card e = elim (Bool-cases (c.booking_id == 0)) [
  | inl missing ↦ absurd (ground arith)
  | inr real ↦ let same : c ≡ card = ground arith in rw same (refl, rw (← same) (ground arith))
]

build_active_trip_card-first :
    (env : Env) (user_id : ℕ) (db : Db) (card : TripCard)
    → build_active_trip_card env user_id db ≡ some card
    → first_card
        (with_host env.now db.users (next_trip env.now user_id db))
        (with_host env.now db.users (last_trip env.now user_id db))
      ≡ some card
unfolding build_active_trip_card
build_active_trip_card-first env user_id db card e = elim (Bool-cases (env.fails load_row)) [
  | inl down ↦ absurd (ground arith)
  | inr up ↦
      (real_card-some
        (first_card (with_host env.now db.users (next_trip env.now user_id db))
          (with_host env.now db.users (last_trip env.now user_id db)))
        card (ground arith)).0
]

-- The card shows a trip of the viewer: the next one within twelve hours, as upcoming or just begun;
-- or, where the first choice gives no card, the last undismissed one within a week, as in its window
-- for a day and stale from then on.
pub build_active_trip_card-Shows :
    (env : Env) (user_id : ℕ) (db : Db) (card : TripCard)
    → build_active_trip_card env user_id db ≡ some card
    → (t : Trip) × Shows env.now user_id db t card
      × ((IsNext env.now user_id db t
            × (card.stage
                ≡ (if ltb env.now card.start_time then Stage.upcoming else Stage.in_window)))
          ⊎ (IsLast env.now user_id db t
              × (with_host env.now db.users (next_trip env.now user_id db) ≡ none)
              × (card.stage ≡ (
                  if ltb env.now (card.start_time + day) then Stage.in_window else Stage.stale))))
unfolding first_card
build_active_trip_card-Shows env user_id db card e =
    let picked = build_active_trip_card-first env user_id db card e in
    elim (Option-cases (with_host env.now db.users (next_trip env.now user_id db))) [
      | inr (c, shown) ↦
          let same : c ≡ card = ground arith in
          let (t, chosen, mine) =
            with_host-some env.now db.users (next_trip env.now user_id db) card
              (shown ∙ ap some same) in
          let (own, first) = next_trip-IsNext env.now user_id db t chosen in
          let (shows, stage) = card_of-Shows env.now user_id db t card own mine in
          (t, shows, inl (first, stage ∙ rw shows.start_shown (upcoming_stage env.now t first.0)))
      | inl no_card ↦
          let other : with_host env.now db.users (last_trip env.now user_id db) ≡ some card =
            ground arith in
          let (t, chosen, mine) =
            with_host-some env.now db.users (last_trip env.now user_id db) card other in
          let (own, last) = last_trip-IsLast env.now user_id db t chosen in
          let (shows, stage) = card_of-Shows env.now user_id db t card own mine in
          (
            t,
            shows,
            inr (last, no_card, stage ∙ rw shows.start_shown (recent_stage env.now t last.0)),
          )
    ]
