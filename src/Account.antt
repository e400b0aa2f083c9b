-- ===== src/Account.antt =====
-- routes/users/DeleteUser.go: an account is deleted with what hangs on it.
pub mod Hosted
pub mod Passenger
pub mod Delete
pub mod Steps
pub mod Transfers
pub mod Settled
pub mod Leaves
pub mod Gone
pub mod Promotion
pub mod Guards
pub mod Refusals
