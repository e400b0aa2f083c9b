-- ===== src/Rides/Viewer.antt =====
-- ResolveViewerState of routes/rides/viewerState.go: what a ride offers to the one who looks at it.
use uni_pool_new_backend.Base.{
  ℕ, ◌+◌, Bool, true, false, not, Option, none, some, ◌==◌, ltb, if◌then◌else◌,
}
use uni_pool_new_backend.Model.{Ride, Booking, RequestStatus}
use uni_pool_new_backend.TripCard.Active.{day}
use uni_pool_new_backend.Seats.{can_accept_another_passenger}

pub data ViewerState : Type 0 where
  host confirmed_passenger pending_passenger rejected_passenger available full past : ViewerState

pub record ViewerActions : Type 0 where
  pub can_request_seat : Bool
  pub can_cancel_booking : Bool
  pub can_cancel_ride : Bool
  pub can_accept_passengers : Bool
  pub can_open_chat : Bool
  pub can_rate : Bool

pub record ViewerContext : Type 0 where
  pub state : ViewerState
  pub actions : ViewerActions
  pub booking_id : Option ℕ

-- ViewerActions{}
abbrev pub no_actions : ViewerActions
no_actions = record {
  can_request_seat = false;
  can_cancel_booking = false;
  can_cancel_ride = false;
  can_accept_passengers = false;
  can_open_chat = false;
  can_rate = false;
}

-- Neither host nor passenger: by the seats that are left.
unfoldable pub resolve_open : Ride → ViewerContext
resolve_open ride =
    if not (can_accept_another_passenger ride.total_seats ride.booked_seats)
    then record { state = ViewerState.full; actions = no_actions; booking_id = none }
    else record {
      state = ViewerState.available;
      actions = record no_actions { can_request_seat = true };
      booking_id = none;
    }

-- The `switch` on the status of the viewer's booking.
unfoldable pub resolve_booking : Ride → ℕ → RequestStatus → ViewerContext
unfolding resolve_open
resolve_booking ride id RequestStatus.accepted = record {
  state = ViewerState.confirmed_passenger;
  actions = record no_actions { can_cancel_booking = ride.is_ongoing == 0; can_open_chat = true };
  booking_id = some id;
}
resolve_booking ride id RequestStatus.pending = record {
  state = ViewerState.pending_passenger;
  actions = record no_actions { can_cancel_booking = true };
  booking_id = some id;
}
resolve_booking ride id RequestStatus.rejected = record {
  state = ViewerState.rejected_passenger;
  actions = no_actions;
  booking_id = some id;
}
resolve_booking ride id _ = resolve_open ride

unfoldable pub resolve_guest : Ride → Option Booking → ViewerContext
unfolding resolve_open resolve_booking
resolve_guest ride none = resolve_open ride
resolve_guest ride (some b) = resolve_booking ride b.id b.request_status

unfoldable pub resolve_viewer_state : ℕ → Ride → ℕ → Option Booking → ViewerContext
unfolding resolve_guest
resolve_viewer_state now ride viewer_id booking =
    if ltb (ride.start_time + day) now
    then record {
      state = ViewerState.past;
      actions = record no_actions { can_open_chat = true };
      booking_id = none;
    }
    else if ride.host_user_id == viewer_id
    then record {
      state = ViewerState.host;
      actions = record no_actions {
        can_cancel_ride = ride.is_ongoing == 0;
        can_accept_passengers = true;
        can_open_chat = true;
      };
      booking_id = none;
    }
    else resolve_guest ride booking
