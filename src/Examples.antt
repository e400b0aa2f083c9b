-- ===== src/Examples.antt =====
-- The theorems at concrete inputs, and tests of the definitions.
mod Fixtures
mod Bookings
mod TripCards
mod Accounts
mod Rides
mod Chats
mod Rooms
mod Verification
mod Stars
mod Hubs
mod Posts
mod Pages
