-- ===== src/Rides/Offers.antt =====
-- The viewer state of routes/rides/viewerState.go against the gates of routes/bookings/Request.go.
use uni_pool_new_backend.Base.{
  ℕ, ◌+◌, ◌≡◌, refl, ◌≢◌, ◌↔◌, ◌≤◌, ◌<◌, Bool, true, false, Option, none, some, arith,
}
use uni_pool_new_backend.Model.{User, Ride, Booking, RequestStatus}
use uni_pool_new_backend.Store.{Env}
use uni_pool_new_backend.Seats.Capacity.{can_accept_iff}
use uni_pool_new_backend.TripCard.Active.{day}
use uni_pool_new_backend.Booking.Request.{Preflight}
use uni_pool_new_backend.Booking.Request.Gate.{IsOpen}
use uni_pool_new_backend.Rides.Viewer.{
  resolve_open, resolve_booking, resolve_guest, resolve_viewer_state,
}

-- The status is none of the three that the program writes.
abbrev pub is_undecided : RequestStatus → Bool
is_undecided RequestStatus.pending = false
is_undecided RequestStatus.accepted = false
is_undecided RequestStatus.rejected = false
is_undecided _ = true

abbrev pub is_unbooked : Option Booking → Bool
is_unbooked none = true
is_unbooked (some b) = is_undecided b.request_status

resolve_open-offers :
    (ride : Ride)
    → ((resolve_open ride).actions.can_request_seat ≡ true)
      ↔ (ride.booked_seats + 2 ≤ ride.total_seats)
unfolding resolve_open
resolve_open-offers ride =
    let room = can_accept_iff ride.total_seats ride.booked_seats in
    (λ h. room.0 (ground arith), λ h. ground (arith, room.1 h))

resolve_booking-offers :
    (ride : Ride) (id : ℕ) (status : RequestStatus)
    → ((resolve_booking ride id status).actions.can_request_seat ≡ true)
      ↔ ((is_undecided status ≡ true) × (ride.booked_seats + 2 ≤ ride.total_seats))
unfolding resolve_booking
resolve_booking-offers ride id RequestStatus.accepted =
    (λ h. absurd (ground arith), λ h. absurd (ground arith))
resolve_booking-offers ride id RequestStatus.pending =
    (λ h. absurd (ground arith), λ h. absurd (ground arith))
resolve_booking-offers ride id RequestStatus.rejected =
    (λ h. absurd (ground arith), λ h. absurd (ground arith))
resolve_booking-offers ride id RequestStatus.blank =
    (λ h. (refl, (resolve_open-offers ride).0 h), λ h. (resolve_open-offers ride).1 h.1)
resolve_booking-offers ride id (RequestStatus.other s) =
    (λ h. (refl, (resolve_open-offers ride).0 h), λ h. (resolve_open-offers ride).1 h.1)

resolve_guest-offers :
    (ride : Ride) (booking : Option Booking)
    → ((resolve_guest ride booking).actions.can_request_seat ≡ true)
      ↔ ((is_unbooked booking ≡ true) × (ride.booked_seats + 2 ≤ ride.total_seats))
unfolding resolve_guest
resolve_guest-offers ride none =
    (λ h. (refl, (resolve_open-offers ride).0 h), λ h. (resolve_open-offers ride).1 h.1)
resolve_guest-offers ride (some b) = resolve_booking-offers ride b.id b.request_status

-- A viewer may request a seat exactly if the ride began at most a day ago, is another user's, the viewer
-- has no pending, accepted or rejected booking on it, and there is room by its booked_seats.
pub resolve_viewer_state-offers_iff :
    (now : ℕ) (ride : Ride) (viewer_id : ℕ) (booking : Option Booking)
    → ((resolve_viewer_state now ride viewer_id booking).actions.can_request_seat ≡ true) ↔ (
        (now ≤ ride.start_time + day)
        × (ride.host_user_id ≢ viewer_id)
        × (is_unbooked booking ≡ true)
        × (ride.booked_seats + 2 ≤ ride.total_seats))
unfolding resolve_viewer_state
resolve_viewer_state-offers_iff now ride viewer_id booking =
    let guest = resolve_guest-offers ride booking in
    (
      λ h.
          let g : (resolve_guest ride booking).actions.can_request_seat ≡ true = ground arith in
          (ground arith, ground arith, (guest.0 g).0, (guest.0 g).1),
      λ h. ground (arith, guest.1 (h.2, h.3)),
    )

-- Where booked_seats is the count that the request takes, the ride is not ongoing, starts later and is
-- not for women only, the offer and the request's gates agree, for a viewer without a booking.
pub can_request_seat-IsOpen :
    (env : Env) (user : User) (target : Preflight)
    → target.ride.booked_seats ≡ target.accepted_count
    → target.existing_booking ≡ none
    → target.ride.is_ongoing ≡ 0
    → env.now < target.ride.start_time
    → target.ride.is_same_gender ≢ 1
    → ((resolve_viewer_state env.now target.ride user.id
          target.existing_booking).actions.can_request_seat
        ≡ true)
      ↔ IsOpen env user target
can_request_seat-IsOpen env user target counted first idle later mixed =
    let iff = resolve_viewer_state-offers_iff env.now target.ride user.id target.existing_booking in
    (
      λ offered.
          let (_, other, _, room) = iff.0 offered in
          record {
            first_request = first;
            not_own_ride = other;
            not_ongoing = idle;
            upcoming = later;
            has_room = ground arith;
            women_only = λ same. absurd (mixed same);
          },
      λ h.
          let room = h.has_room in iff.1 (omega arith, h.not_own_ride, rw first refl, ground arith),
    )
