-- ===== src/Booking/Request/Gate.antt =====
-- Request.go: what lets a request through, and the new row against the seat contract.
use uni_pool_new_backend.Base.{
  ℕ, ◌+◌, ◌≤◌, ◌<◌, ◌≡◌, sym, ◌∙◌, ◌≢◌, ◌↔◌, true, false, Option, none, some, arith, All, All-map,
  Keyed-snoc, count_where, count-append,
}
use uni_pool_new_backend.Text.{is_female}
use uni_pool_new_backend.Model.{User, Booking}
use uni_pool_new_backend.Store.{Db, Env, Locals, missing, malformed, signed_in, create_row}
use uni_pool_new_backend.Seats.Capacity.{can_accept_iff}
use uni_pool_new_backend.Nested.{BookingBody, key_of, nested_fits, with_ride, with_booking}
use uni_pool_new_backend.Nested.Balance.{NestsUnbooked, with_ride-Keyed, with_ride-seated}
use uni_pool_new_backend.Booking.Request.{
  request_of, Preflight, accepted_count, pair_taken, gate_request, request_target, load_target,
  request,
}
use uni_pool_new_backend.Ledger.{IsBalanced}

-- The conditions that the comments of the handler ask of a request.
pub record IsOpen (env : Env) (user : User) (target : Preflight) : Type 0 where
  pub first_request : target.existing_booking ≡ none
  pub not_own_ride : target.ride.host_user_id ≢ user.id
  pub not_ongoing : target.ride.is_ongoing ≡ 0
  pub upcoming : env.now < target.ride.start_time
  pub has_room : target.accepted_count + 2 ≤ target.ride.total_seats
  pub women_only : target.ride.is_same_gender ≡ 1 → is_female user.gender ≡ true

-- A request that got past the lookup is created exactly when the ride is open to the caller and the
-- database takes the row: no statement fails, the pair of the row's ride and passenger has no booking
-- (they are the found ride and the caller, unless the body nests a ride or a passenger), and a ride
-- that the body nests has a host.
pub gate_request-created_iff :
    (env : Env) (user : User) (target : Preflight) (body : BookingBody) (db : Db)
    → ((gate_request env user target body db).response.status ≡ 201) ↔ (
        IsOpen env user target
        × (env.fails create_row ≡ false)
        × (pair_taken
              (key_of body.ride target.ride.id env.nested_ride_id)
              (key_of body.passenger user.id env.nested_passenger_id)
              db.bookings
            ≡ false)
        × (nested_fits body.ride db.users ≡ true))
unfolding gate_request
gate_request-created_iff env user target body db =
    let room = can_accept_iff target.ride.total_seats target.accepted_count in
    (
      λ created. (
        record {
          first_request = ground arith;
          not_own_ride = ground arith;
          not_ongoing = ground arith;
          upcoming = ground arith;
          has_room = room.0 (ground arith);
          women_only = ground arith;
        },
        ground arith,
        ground arith,
        ground arith,
      ),
      λ h. ground (arith, room.1 h.0.has_room),
    )

-- The tables with the row that is added, a pending booking, and what its body nests.
abbrev added : Env → User → Preflight → BookingBody → Db → Db
added env user target body db = with_booking env (request_of user target body) db

accepted_count-added :
    (env : Env) (user : User) (target : Preflight) (body : BookingBody) (db : Db) (j : ℕ)
    → accepted_count j (added env user target body db).bookings ≡ accepted_count j db.bookings
unfolding accepted_count count_where
accepted_count-added env user target body db j = count-append _ db.bookings _ ∙ ground arith

added-IsBalanced :
    (env : Env) (user : User) (target : Preflight) (body : BookingBody) (db : Db)
    → All (λ b. b.id ≢ env.new_id) db.bookings
    → NestsUnbooked env body.ride db
    → IsBalanced db
    → IsBalanced (added env user target body db)
added-IsBalanced env user target body db fresh unbooked v = record {
  rides_keyed = with_ride-Keyed env body.ride db unbooked v.rides_keyed;
  bookings_keyed = Keyed-snoc (λ (b : Booking). b.id) db.bookings _ fresh v.bookings_keyed;
  seated =
      All-map (with_ride env body.ride db.rides)
        (λ r s. (s.0 ∙ sym (accepted_count-added env user target body db r.id), s.1))
        (with_ride-seated env body.ride db unbooked v.seated);
}

request_target-IsBalanced :
    (env : Env) (user : User) (target : Option Preflight) (body : BookingBody) (db : Db)
    → All (λ b. b.id ≢ env.new_id) db.bookings
    → NestsUnbooked env body.ride db
    → IsBalanced db
    → IsBalanced (request_target env user target body db).db
unfolding request_target
request_target-IsBalanced env user none body db fresh unbooked v = v
request_target-IsBalanced env user (some target) body db fresh unbooked v =
    ground (arith, added-IsBalanced env user target body db fresh unbooked v)

abbrev pub BodyNestsUnbooked : Env → Option BookingBody → Db → Type 0
BodyNestsUnbooked env none db = Unit
BodyNestsUnbooked env (some body) db = NestsUnbooked env body.ride db

-- A request for a seat keeps the seat contract, if the id that it draws is new, and so is that of a
-- ride that its body nests, which has no booked seats.
pub request-IsBalanced :
    (env : Env) (locals : Locals) (body : Option BookingBody) (db : Db)
    → All (λ b. b.id ≢ env.new_id) db.bookings
    → BodyNestsUnbooked env body db
    → IsBalanced db
    → IsBalanced (request env locals body db).db
unfolding request
request-IsBalanced env missing body db fresh unbooked v = v
request-IsBalanced env malformed body db fresh unbooked v = v
request-IsBalanced env (signed_in user) none db fresh unbooked v = v
request-IsBalanced env (signed_in user) (some body) db fresh unbooked v = ground (
  arith,
  request_target-IsBalanced env user (load_target env user body.booking db) body db fresh unbooked
      v,
)
