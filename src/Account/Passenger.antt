-- ===== src/Account/Passenger.antt =====
-- handlePassengerBookings, handleUserMessages and handleUserMetadata of routes/users/DeleteUser.go.
use uni_pool_new_backend.Base.{
  ℕ, ◌+◌, Bool, ◌&&◌, Option, none, some, [], ◌∷◌, ◌++◌, is_none, ◌==◌, ltb, if◌then◌else◌,
  find_where, update_where, delete_where,
}
use uni_pool_new_backend.Text.{codes, codes_eq}
use uni_pool_new_backend.Model.{User, Ride, Booking, is_accepted}
use uni_pool_new_backend.Store.{
  Db, Env, find_soon, delete_passenger, find_placeholder, create_placeholder, update_messages,
  delete_metadata, visible, delete_bookings,
}
use uni_pool_new_backend.TripCard.Active.{day}
use uni_pool_new_backend.Account.Hosted.{Fault, Attempt, failed, done, exists_where}

abbrev pub is_soon : Env → Booking → Ride → Bool
is_soon env b r =
    r.id == b.ride_id
    && (is_none r.deleted_at
        && (ltb env.now r.start_time && (ltb r.start_time (env.now + day) && r.is_ongoing == 0)))

-- SELECT EXISTS (... bookings JOIN rides ...)
unfoldable pub has_ride_starting_soon : Env → ℕ → Db → Bool
has_ride_starting_soon env user_id db =
    exists_where
      (λ b.
        is_none b.deleted_at
        && (b.passenger_id == user_id
            && (is_accepted b.request_status && exists_where (is_soon env b) db.rides)))
      db.bookings

unfoldable pub handle_passenger_bookings : Env → ℕ → Db → Attempt
handle_passenger_bookings env user_id db =
    if env.fails find_soon
    then failed Fault.database
    else if has_ride_starting_soon env user_id db
    then failed Fault.starts_soon
    else if env.fails delete_passenger
    then failed Fault.database
    else done
        (record db { bookings = delete_bookings env (λ b. b.passenger_id == user_id) db.bookings })

abbrev pub is_placeholder : Env → User → Bool
is_placeholder env u =
    codes_eq (codes u.email) (codes "deleted@unipool.com") && visible env u.deleted_at

-- The account that stands for all deleted users.
abbrev pub placeholder : Env → User
placeholder env = record {
  id = env.new_id;
  deleted_at = none;
  name = "Deleted User";
  email = "deleted@unipool.com";
  gender = "";
}

unfoldable pub reassign_messages : Env → ℕ → ℕ → Db → Attempt
reassign_messages env user_id sender_id db =
    if env.fails update_messages
    then failed Fault.database
    else done (record db {
      messages =
          update_where (λ m. m.sender_id == user_id && visible env m.deleted_at)
            (λ m. record m { sender_id = sender_id }) db.messages;
    })

unfoldable pub handle_with : Env → ℕ → Option User → Db → Attempt
unfolding reassign_messages
handle_with env user_id none db =
    if env.fails create_placeholder
    then failed Fault.database
    else reassign_messages env user_id env.new_id
        (record db { users = db.users ++ (placeholder env ∷ []) })
handle_with env user_id (some existing) db = reassign_messages env user_id existing.id db

unfoldable pub handle_user_messages : Env → ℕ → Db → Attempt
unfolding handle_with
handle_user_messages env user_id db =
    if env.fails find_placeholder
    then failed Fault.database
    else handle_with env user_id (find_where (is_placeholder env) db.users) db

unfoldable pub handle_user_metadata : Env → ℕ → Db → Attempt
handle_user_metadata env user_id db =
    if env.fails delete_metadata
    then failed Fault.database
    else done (record db {
      metadata =
          if env.soft_delete
          then update_where (λ x. x.user_id == user_id && is_none x.deleted_at)
              (λ x. record x { deleted_at = some env.now }) db.metadata
          else delete_where (λ x. x.user_id == user_id) db.metadata;
    })
