-- ===== src/Account/Delete.antt =====
-- DeleteUser of routes/users/DeleteUser.go: the steps in one transaction, and the account itself.
use uni_pool_new_backend.Base.{
  ℕ, ◌&&◌, ◌||◌, some, [], is_none, ◌==◌, if◌then◌else◌, update_where, delete_where,
}
use uni_pool_new_backend.Model.{User}
use uni_pool_new_backend.Store.{
  Db, Env, Locals, missing, malformed, signed_in, Outcome, begin_tx, delete_account, commit, refuse,
}
use uni_pool_new_backend.Account.Hosted.{
  Fault, Attempt, failed, done, exists_where, handle_hosted_rides,
}
use uni_pool_new_backend.Account.Passenger.{
  handle_passenger_bookings, handle_user_messages, handle_user_metadata,
}

-- The rows that the foreign keys of 00001_init.sql remove with a user's row (ON DELETE CASCADE). The
-- keys of user_metadata and reports have no cascade: there the statement fails.
unfoldable pub cascade_user : ℕ → Db → Db
cascade_user user_id db = record db {
  users = delete_where (λ u. u.id == user_id) db.users;
  rides = delete_where (λ r. r.host_user_id == user_id) db.rides;
  bookings =
      delete_where
        (λ b.
          b.passenger_id == user_id
          || exists_where (λ r. r.host_user_id == user_id && r.id == b.ride_id) db.rides)
        db.bookings;
  messages = delete_where (λ m. m.sender_id == user_id) db.messages;
}

-- The ORM's `Delete` of the account.
unfoldable pub delete_account_row : Env → ℕ → Db → Db
delete_account_row env user_id db =
    if env.soft_delete
    then record db {
      users =
          update_where (λ u. u.id == user_id && is_none u.deleted_at)
            (λ u. record u { deleted_at = some env.now }) db.users;
    }
    else cascade_user user_id db

unfoldable pub finish : Env → User → Db → Db → Outcome
finish env user before db =
    if env.fails delete_account
    then refuse before 500 "Error deleting user account"
    else if env.fails commit
    then refuse before 500 "Error completing user deletion"
    else record {
      db = delete_account_row env user.id db;
      response = record { status = 200; message = "User account deleted successfully" };
      notices = [];
    }

unfoldable pub after_metadata : Env → User → Db → Attempt → Outcome
unfolding finish
after_metadata env user before (failed fault) = refuse before 500 "Error deleting user metadata"
after_metadata env user before (done db) = finish env user before db

unfoldable pub after_messages : Env → User → Db → Attempt → Outcome
unfolding after_metadata
after_messages env user before (failed fault) = refuse before 500 "Error updating chat messages"
after_messages env user before (done db) =
    after_metadata env user before (handle_user_metadata env user.id db)

-- The reply for a failed step: what the step was, and the guard's own text.
unfoldable pub after_bookings : Env → User → Db → Attempt → Outcome
unfolding after_messages
after_bookings env user before (failed Fault.starts_soon) =
    refuse before 500
      "Error canceling your ride bookings: cannot delete account with confirmed rides starting within 24 hours"
after_bookings env user before (failed _) = refuse before 500 "Error canceling your ride bookings"
after_bookings env user before (done db) =
    after_messages env user before (handle_user_messages env user.id db)

unfoldable pub after_hosted : Env → User → Db → Attempt → Outcome
unfolding after_bookings
after_hosted env user before (failed Fault.ongoing_ride) =
    refuse before 500
      "Error transferring ride ownership: cannot delete account while hosting an ongoing ride"
after_hosted env user before (failed _) = refuse before 500 "Error transferring ride ownership"
after_hosted env user before (done db) =
    after_bookings env user before (handle_passenger_bookings env user.id db)

unfoldable pub delete_user : Env → Locals → Db → Outcome
unfolding after_hosted
delete_user env missing db = refuse db 400 "User data not found in locals"
delete_user env malformed db = refuse db 400 "User data not found in locals"
delete_user env (signed_in user) db =
    if env.fails begin_tx
    then refuse db 500 "Error starting deletion process"
    else after_hosted env user db (handle_hosted_rides env user.id db)
