-- ===== src/Account/Guards.antt =====
-- DeleteUser of routes/users/DeleteUser.go, where a step fails.
use uni_pool_new_backend.Base.{refl, arith}
use uni_pool_new_backend.Model.{User}
use uni_pool_new_backend.Store.{Db, Env, Locals, missing, malformed, signed_in}
use uni_pool_new_backend.Booking.Atomic.{IsAllOrNothing}
use uni_pool_new_backend.Account.Hosted.{Fault, Attempt, failed, done, handle_hosted_rides}
use uni_pool_new_backend.Account.Passenger.{
  handle_passenger_bookings, handle_user_messages, handle_user_metadata,
}
use uni_pool_new_backend.Account.Delete.{
  after_hosted, after_bookings, after_messages, after_metadata, finish, delete_user,
}

module _ (env : Env) (user : User) (before : Db) where
  finish-IsAllOrNothing : (db : Db) → IsAllOrNothing 200 before (finish env user before db)
  unfolding finish
  finish-IsAllOrNothing db h = ground arith

  metadata-IsAllOrNothing :
      (a : Attempt) → IsAllOrNothing 200 before (after_metadata env user before a)
  unfolding after_metadata
  metadata-IsAllOrNothing (failed fault) h = (refl, refl)
  metadata-IsAllOrNothing (done db) h = finish-IsAllOrNothing db h

  messages-IsAllOrNothing :
      (a : Attempt) → IsAllOrNothing 200 before (after_messages env user before a)
  unfolding after_messages
  messages-IsAllOrNothing (failed fault) h = (refl, refl)
  messages-IsAllOrNothing (done db) h =
      metadata-IsAllOrNothing (handle_user_metadata env user.id db) h

  bookings-IsAllOrNothing :
      (a : Attempt) → IsAllOrNothing 200 before (after_bookings env user before a)
  unfolding after_bookings
  bookings-IsAllOrNothing (failed Fault.ongoing_ride) h = (refl, refl)
  bookings-IsAllOrNothing (failed Fault.starts_soon) h = (refl, refl)
  bookings-IsAllOrNothing (failed Fault.database) h = (refl, refl)
  bookings-IsAllOrNothing (done db) h =
      messages-IsAllOrNothing (handle_user_messages env user.id db) h

  hosted-IsAllOrNothing : (a : Attempt) → IsAllOrNothing 200 before (after_hosted env user before a)
  unfolding after_hosted
  hosted-IsAllOrNothing (failed Fault.ongoing_ride) h = (refl, refl)
  hosted-IsAllOrNothing (failed Fault.starts_soon) h = (refl, refl)
  hosted-IsAllOrNothing (failed Fault.database) h = (refl, refl)
  hosted-IsAllOrNothing (done db) h =
      bookings-IsAllOrNothing (handle_passenger_bookings env user.id db) h

-- Whatever step of an account's deletion fails, the database is as it was before.
pub delete_user-IsAllOrNothing :
    (env : Env) (locals : Locals) (db : Db) → IsAllOrNothing 200 db (delete_user env locals db)
unfolding delete_user
delete_user-IsAllOrNothing env missing db h = (refl, refl)
delete_user-IsAllOrNothing env malformed db h = (refl, refl)
delete_user-IsAllOrNothing env (signed_in user) db h =
    ground (arith, hosted-IsAllOrNothing env user db (handle_hosted_rides env user.id db))
