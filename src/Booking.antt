-- ===== src/Booking.antt =====
-- routes/bookings/, routes/CRUD/BookingCRUDRoutes.go and routes/rides/participants.go: the life of a
-- booking, from the request for a seat to its acceptance, rejection or removal.
pub mod Load
pub mod Removal
pub mod Request
pub mod Accept
pub mod Reject
pub mod Delete
pub mod Participants
pub mod Crud
pub mod Atomic
pub mod Live
pub mod History
