-- ===== src/TripCard.antt =====
-- routes/bookings/TripCard.go: the card of the current trip, and the payment that ends it.
pub mod Dismiss
pub mod Ack
pub mod Active
pub mod Dismissal
pub mod Payment
pub mod Writes
pub mod Choice
pub mod Selection
