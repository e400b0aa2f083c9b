-- ===== src/Booking/Removal.antt =====
-- The two writes that deleteBooking.go, participants.go and BookingCRUDRoutes.go share: the booking
-- goes, and if it was accepted, its seat is free again.
pub mod Seats
use uni_pool_new_backend.Base.{ℕ, ◌-◌, Bool, ◌&&◌, ◌==◌, ltb, if◌then◌else◌, update_where}
use uni_pool_new_backend.Model.{Ride, Booking, is_accepted}
use uni_pool_new_backend.Store.{Db, Env, visible, delete_bookings}

-- WHERE id = ? AND booked_seats > 0
abbrev pub has_booked : Env → ℕ → Ride → Bool
has_booked env ride_id r = r.id == ride_id && (visible env r.deleted_at && ltb 0 r.booked_seats)

abbrev pub free_seat : Ride → Ride
free_seat r = record r { booked_seats = r.booked_seats - 1 }

unfoldable pub removed_db : Env → Booking → Db → Db
removed_db env booking db = record db {
  bookings = delete_bookings env (λ b. b.id == booking.id) db.bookings;
  rides =
      if is_accepted booking.request_status
      then update_where (has_booked env booking.ride_id) free_seat db.rides
      else db.rides;
}
