-- ===== src/Account/Steps.antt =====
-- What an account deletion that succeeds has run through.
use uni_pool_new_backend.Base.{ℕ, ◌≡◌, refl, ◌⊎◌, inl, inr, arith, Bool-cases, subst, if◌then◌else◌}
use uni_pool_new_backend.Model.{User}
use uni_pool_new_backend.Store.{Db, Env, signed_in, begin_tx, refuse}
use uni_pool_new_backend.Account.Hosted.{Fault, Attempt, failed, done, handle_hosted_rides}
use uni_pool_new_backend.Account.Passenger.{
  handle_passenger_bookings, handle_user_messages, handle_user_metadata,
}
use uni_pool_new_backend.Account.Delete.{
  delete_account_row, finish, after_metadata, after_messages, after_bookings, after_hosted,
  delete_user,
}

pub record Ran (env : Env) (user_id : ℕ) (db out : Db) : Type 0 where
  pub settled : Db
  pub hosted : handle_hosted_rides env user_id db ≡ done settled
  pub withdrawn : Db
  pub bookings : handle_passenger_bookings env user_id settled ≡ done withdrawn
  pub signed_over : Db
  pub messages : handle_user_messages env user_id withdrawn ≡ done signed_over
  pub unregistered : Db
  pub metadata : handle_user_metadata env user_id signed_over ≡ done unregistered
  pub gone : out ≡ delete_account_row env user_id unregistered

pub Attempt-cases :
    (a : Attempt) → ((fault : Fault) × (a ≡ failed fault)) ⊎ ((db : Db) × (a ≡ done db))
Attempt-cases (failed fault) = inl (fault, refl)
Attempt-cases (done db) = inr (db, refl)

after_bookings-failed :
    (env : Env) (user : User) (before : Db) (fault : Fault)
    → (after_bookings env user before (failed fault)).response.status ≡ 500
unfolding after_bookings
after_bookings-failed env user before Fault.ongoing_ride = refl
after_bookings-failed env user before Fault.starts_soon = refl
after_bookings-failed env user before Fault.database = refl

pub after_hosted-failed :
    (env : Env) (user : User) (before : Db) (fault : Fault)
    → let out = after_hosted env user before (failed fault) in
      (out.response.status ≡ 500) × (out.db ≡ before)
unfolding after_hosted
after_hosted-failed env user before Fault.ongoing_ride = (refl, refl)
after_hosted-failed env user before Fault.starts_soon = (refl, refl)
after_hosted-failed env user before Fault.database = (refl, refl)

module _ (env : Env) (user : User) (before : Db) where
  finish-ran :
      (db : Db)
      → (finish env user before db).response.status ≡ 200
      → (finish env user before db).db ≡ delete_account_row env user.id db
  unfolding finish
  finish-ran db ok = ground arith

  after_metadata-ran :
      (a : Attempt)
      → (after_metadata env user before a).response.status ≡ 200
      → (db : Db) × (a ≡ done db)
        × ((after_metadata env user before a).db ≡ delete_account_row env user.id db)
  unfolding after_metadata
  after_metadata-ran (failed fault) ok = absurd (ground arith)
  after_metadata-ran (done db) ok = (db, refl, finish-ran db ok)

  after_messages-ran :
      (a : Attempt)
      → (after_messages env user before a).response.status ≡ 200
      → (db db' : Db) × (a ≡ done db)
        × (handle_user_metadata env user.id db ≡ done db')
        × ((after_messages env user before a).db ≡ delete_account_row env user.id db')
  unfolding after_messages
  after_messages-ran (failed fault) ok = absurd (ground arith)
  after_messages-ran (done db) ok =
      let (db', step, gone) = after_metadata-ran (handle_user_metadata env user.id db) ok in
      (db, db', refl, step, gone)

  after_bookings-ran :
      (a : Attempt)
      → (after_bookings env user before a).response.status ≡ 200
      → (db db' db'' : Db) × (a ≡ done db)
        × (handle_user_messages env user.id db ≡ done db')
        × (handle_user_metadata env user.id db' ≡ done db'')
        × ((after_bookings env user before a).db ≡ delete_account_row env user.id db'')
  unfolding after_bookings
  after_bookings-ran (failed fault) ok =
      let no = after_bookings-failed env user before fault in absurd (omega arith)
  after_bookings-ran (done db) ok =
      let (db', db'', step, last, gone) =
        after_messages-ran (handle_user_messages env user.id db) ok in
      (db, db', db'', refl, step, last, gone)

  after_hosted-Ran :
      (a : Attempt)
      → handle_hosted_rides env user.id before ≡ a
      → (after_hosted env user before a).response.status ≡ 200
      → Ran env user.id before (after_hosted env user before a).db
  unfolding after_hosted
  after_hosted-Ran (failed fault) e ok =
      let no = (after_hosted-failed env user before fault).0 in absurd (omega arith)
  after_hosted-Ran (done db) e ok =
      let (withdrawn, signed_over, unregistered, step, next, last, gone) =
        after_bookings-ran (handle_passenger_bookings env user.id db) ok in
      record {
        settled = db;
        hosted = e;
        withdrawn = withdrawn;
        bookings = step;
        signed_over = signed_over;
        messages = next;
        unregistered = unregistered;
        metadata = last;
        gone = gone;
      }

  pub delete_user-Ran :
      (delete_user env (signed_in user) before).response.status ≡ 200
      → Ran env user.id before (delete_user env (signed_in user) before).db
  unfolding delete_user
  delete_user-Ran ok = elim (Bool-cases (env.fails begin_tx)) [
    | inl down ↦ absurd (ground arith)
    | inr up ↦ rw up (
        after_hosted-Ran (handle_hosted_rides env user.id before) refl (
          subst
            (λ b.
              (if b
                then refuse before 500 "Error starting deletion process"
                else after_hosted env user before
                    (handle_hosted_rides env user.id before)).response.status
              ≡ 200)
            up ok))
  ]
