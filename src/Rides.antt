-- ===== src/Rides.antt =====
-- routes/rides/ and routes/CRUD/RideCRUDRoutes.go: the life of a ride.
pub mod Locations
pub mod Create
pub mod Remove
pub mod Update
pub mod Resize
pub mod Viewer
pub mod Offers
pub mod Launch
pub mod Pull
