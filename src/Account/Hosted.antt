-- ===== src/Account/Hosted.antt =====
-- handleHostedRides of routes/users/DeleteUser.go: a ride with an accepted passenger goes to the one
-- who booked first, the others are deleted.
use uni_pool_new_backend.Base.{
  ℕ, Bool, ◌&&◌, not, Option, none, some, List, [], ◌∷◌, is_none, ◌==◌, ltb, leb, if◌then◌else◌,
  find_where, count_where, update_where,
}
use uni_pool_new_backend.Model.{Ride, Booking, is_accepted}
use uni_pool_new_backend.Store.{
  Db, Env, find_hosted, find_accepted, transfer_rides, delete_promoted, delete_ride_bookings,
  delete_rides, visible, delete_bookings, delete_rides_where,
}

-- Why a step gives up: two guards of the program, or a failing statement.
pub data Fault : Type 0 where
  ongoing_ride starts_soon database : Fault

pub data Attempt : Type 0 where
  failed : Fault → Attempt
  done : Db → Attempt

abbrev pub and_then : Attempt → (Db → Attempt) → Attempt
and_then (failed fault) f = failed fault
and_then (done db) f = f db

abbrev pub exists_where {ℓ} : {A : Type ℓ} → (A → Bool) → List A → Bool
exists_where p xs = not (count_where p xs == 0)

pub record Transfer : Type 0 where
  pub ride_id : ℕ
  pub new_host_id : ℕ

abbrev pub is_hosted : Env → ℕ → Ride → Bool
is_hosted env user_id r = r.host_user_id == user_id && visible env r.deleted_at

abbrev pub is_ongoing_hosted : Env → ℕ → Ride → Bool
is_ongoing_hosted env user_id r = is_hosted env user_id r && ltb 0 r.is_ongoing

-- The first row that fits, by created_at. Rows of the same instant stand as the table lists them.
unfoldable pub earliest : (Booking → Bool) → List Booking → Option Booking
earliest p [] = none
earliest p (b ∷ bs) =
    let rest = earliest p bs in
    if p b
    then elim rest [
      | none ↦ some b
      | some c ↦ if leb b.created_at c.created_at then some b else some c
    ]
    else rest

-- ride_id = ? AND request_status = 'accepted'
abbrev pub is_candidate : Env → ℕ → Booking → Bool
is_candidate env ride_id b =
    b.ride_id == ride_id && (is_accepted b.request_status && visible env b.deleted_at)

-- An entry of firstAcceptedByRide.
unfoldable pub first_accepted : Env → ℕ → List Booking → Option Booking
first_accepted env ride_id bookings = earliest (is_candidate env ride_id) bookings

-- The first loop over hostedRides that builds transfers.
unfoldable pub transfers_of : Env → ℕ → List Booking → List Ride → List Transfer
transfers_of env user_id bookings [] = []
transfers_of env user_id bookings (r ∷ rs) =
    let rest = transfers_of env user_id bookings rs in
    if is_hosted env user_id r
    then elim (first_accepted env r.id bookings) [
      | none ↦ rest
      | some b ↦ record { ride_id = r.id; new_host_id = b.passenger_id } ∷ rest
    ]
    else rest

-- Its other branch, noPassengerRideIDs.
unfoldable pub empty_rides : Env → ℕ → List Booking → List Ride → List ℕ
empty_rides env user_id bookings [] = []
empty_rides env user_id bookings (r ∷ rs) =
    let rest = empty_rides env user_id bookings rs in
    if is_hosted env user_id r && is_none (first_accepted env r.id bookings)
    then r.id ∷ rest
    else rest

-- CASE WHEN id = ? THEN ? ... ELSE host_user_id END
abbrev pub new_host : List Transfer → Ride → ℕ
new_host transfers r = elim (find_where (λ t. t.ride_id == r.id) transfers) [
  | none ↦ r.host_user_id
  | some t ↦ t.new_host_id
]

abbrev pub is_transferred : List Transfer → Ride → Bool
is_transferred transfers r = is_none r.deleted_at && exists_where (λ t. t.ride_id == r.id) transfers

-- (ride_id, passenger_id) IN (...)
abbrev pub is_promoted : List Transfer → Booking → Bool
is_promoted transfers b =
    is_none b.deleted_at
    && exists_where (λ t. t.ride_id == b.ride_id && t.new_host_id == b.passenger_id) transfers

-- batchTransferHostedRides and batchDeletePromotedBookings.
unfoldable pub transfer_hosted : Env → List Transfer → Db → Attempt
transfer_hosted env [] db = done db
transfer_hosted env (t ∷ ts) db =
    if env.fails transfer_rides
    then failed Fault.database
    else if env.fails delete_promoted
    then failed Fault.database
    else done (record db {
      rides =
          update_where (is_transferred (t ∷ ts))
            (λ r. record r { host_user_id = new_host (t ∷ ts) r }) db.rides;
      bookings =
          update_where (is_promoted (t ∷ ts)) (λ b. record b { deleted_at = some env.now })
            db.bookings;
    })

unfoldable pub drop_empty : Env → List ℕ → Db → Attempt
drop_empty env [] db = done db
drop_empty env (id ∷ ids) db =
    if env.fails delete_ride_bookings
    then failed Fault.database
    else if env.fails delete_rides
    then failed Fault.database
    else done (record db {
      bookings =
          delete_bookings env (λ b. exists_where (λ i. b.ride_id == i) (id ∷ ids)) db.bookings;
      rides = delete_rides_where env (λ r. exists_where (λ i. r.id == i) (id ∷ ids)) db.rides;
    })

unfoldable pub settle_hosted : Env → ℕ → Db → Attempt
settle_hosted env user_id db =
    and_then (transfer_hosted env (transfers_of env user_id db.bookings db.rides) db)
      (drop_empty env (empty_rides env user_id db.bookings db.rides))

unfoldable pub handle_hosted_rides : Env → ℕ → Db → Attempt
handle_hosted_rides env user_id db =
    if env.fails find_hosted
    then failed Fault.database
    else if not (exists_where (is_hosted env user_id) db.rides)
    then done db
    else if exists_where (is_ongoing_hosted env user_id) db.rides
    then failed Fault.ongoing_ride
    else if env.fails find_accepted
    then failed Fault.database
    else settle_hosted env user_id db
