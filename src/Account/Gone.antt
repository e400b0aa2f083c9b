-- ===== src/Account/Gone.antt =====
-- The tables after DeleteUser of routes/users/DeleteUser.go.
use uni_pool_new_backend.Base.{
  ℕ, ◌≡◌, refl, ◌≢◌, Bool, true, false, ◌&&◌, some, List, is_none, ◌==◌, arith, All, All-of,
  All-map, All-update, All-deleted, All-zip, All-delete, find_where, find_where-All, find_none, inl,
  inr, Bool-cases, Option-cases, update_where,
}
use uni_pool_new_backend.Model.{User, Ride}
use uni_pool_new_backend.Store.{Db, Env, signed_in, visible, delete_rides_where}
use uni_pool_new_backend.Account.Hosted.{
  exists_where, Transfer, is_hosted, first_accepted, transfers_of, empty_rides, new_host,
  is_transferred,
}
use uni_pool_new_backend.Account.Passenger.{is_placeholder}
use uni_pool_new_backend.Account.Delete.{cascade_user, delete_account_row, delete_user}
use uni_pool_new_backend.Account.Steps.{delete_user-Ran}
use uni_pool_new_backend.Account.Transfers.{transfers_of-covers, empty_rides-covers}
use uni_pool_new_backend.Account.Settled.{
  Settled, moved_rides, kept_rides, handle_hosted_rides-Settled,
}
use uni_pool_new_backend.Account.Leaves.{
  HasNoSelfBooking, IsUnsent, IsUnregistered, delete_bookings-All, metadata_gone, metadata-keeps,
  bookings-keeps, messages_gone, messages-keeps, transfers_of-others,
}

-- Every row that the program sees is another user's.
pub record IsGone (env : Env) (user_id : ℕ) (db : Db) : Type 0 where
  pub users : All (λ u. visible env u.deleted_at ≡ true → u.id ≢ user_id) db.users
  pub rides : All (λ r. visible env r.deleted_at ≡ true → r.host_user_id ≢ user_id) db.rides
  pub bookings : All (λ b. visible env b.deleted_at ≡ true → b.passenger_id ≢ user_id) db.bookings
  pub messages : IsUnsent env user_id db.messages
  pub metadata : IsUnregistered env user_id db.metadata

module _ (env : Env) (user_id : ℕ) (ts : List Transfer)
    (others : All (λ t. t.new_host_id ≢ user_id) ts) where
  new_host_other :
      (r : Ride) → exists_where (λ t. t.ride_id == r.id) ts ≡ true → new_host ts r ≢ user_id
  new_host_other r moved = elim (Option-cases (find_where (λ t. t.ride_id == r.id) ts)) [
    | inl lost ↦
        let no_one = find_none (λ (t : Transfer). t.ride_id == r.id) ts lost in
        absurd (ground arith)
    | inr (t, found) ↦
        let (other, _) = find_where-All (λ x. x.new_host_id ≢ user_id) _ ts t others found in
        rw (new_host, found) other
  ]

  moved_rides-other :
      (p : Ride → Bool) (rides : List Ride)
      → ((r : Ride) (host : ℕ) → p (record r { host_user_id = host }) ≡ p r)
      → env.soft_delete ≡ true
      → All
          (λ r.
            is_hosted env user_id r ≡ true
            → (exists_where (λ t. t.ride_id == r.id) ts ≡ false)
            → p r ≡ true)
          rides
      → All
          (λ r. visible env r.deleted_at ≡ true → p r ≡ false → r.host_user_id ≢ user_id)
          (moved_rides ts rides)
  moved_rides-other p rides same soft covers =
      All-update (is_transferred ts) _ rides (λ r hit h seen no. new_host_other r (ground arith))
        (λ r miss h seen no. ground (arith, h, soft)) covers

kept_rides-other :
    (env : Env) (user_id : ℕ) (ids : List ℕ) (rides : List Ride)
    → env.soft_delete ≡ true
    → All
        (λ r.
          visible env r.deleted_at ≡ true
          → exists_where (λ i. r.id == i) ids ≡ false
          → r.host_user_id ≢ user_id)
        rides
    → All
        (λ r. visible env r.deleted_at ≡ true → r.host_user_id ≢ user_id)
        (kept_rides env ids rides)
unfolding delete_rides_where
kept_rides-other env user_id ids rides soft h = rw soft (
    All-update _ _ rides (λ r hit o seen. absurd (ground arith))
      (λ r miss o seen. ground (arith, o, soft)) h)

hosts_after :
    (env : Env) (user_id : ℕ) (db d : Db)
    → env.soft_delete ≡ true
    → HasNoSelfBooking env user_id db
    → Settled env user_id db d
    → All (λ r. visible env r.deleted_at ≡ true → r.host_user_id ≢ user_id) d.rides
hosts_after env user_id db d soft no_self s =
    let ts = transfers_of env user_id db.bookings db.rides in
    let ids = empty_rides env user_id db.bookings db.rides in
    let covers =
      All-zip _ _ db.rides (transfers_of-covers env user_id db.bookings db.rides)
        (empty_rides-covers env user_id db.bookings db.rides) in
    rw s.rides (
      kept_rides-other env user_id ids (moved_rides ts db.rides) soft (
        moved_rides-other env user_id ts
          (transfers_of-others env user_id db.bookings db.rides no_self)
          (λ r. exists_where (λ i. r.id == i) ids) db.rides (λ r host. refl) soft
          (All-map db.rides
            (λ r h mine unmoved. elim (Bool-cases (is_none (first_accepted env r.id db.bookings))) [
              | inl no_one ↦ h.1 mine no_one
              | inr some_one ↦ absurd (ground (arith, h.0 mine some_one))
            ])
            covers)))

pub soft_account :
    (env : Env) (user_id : ℕ) (db : Db)
    → env.soft_delete ≡ true
    → delete_account_row env user_id db ≡ record db {
      users =
          update_where
            (λ u. u.id == user_id && is_none u.deleted_at)
            (λ u. record u { deleted_at = some env.now })
            db.users;
    }
unfolding delete_account_row
soft_account env user_id db soft = ground arith

pub hard_account :
    (env : Env) (user_id : ℕ) (db : Db)
    → env.soft_delete ≡ false
    → delete_account_row env user_id db ≡ cascade_user user_id db
unfolding delete_account_row
hard_account env user_id db hard = ground arith

account-IsGone :
    (env : Env) (user_id : ℕ) (db : Db)
    → (env.soft_delete ≡ true
        → All (λ r. visible env r.deleted_at ≡ true → r.host_user_id ≢ user_id) db.rides)
    → All (λ b. visible env b.deleted_at ≡ true → b.passenger_id ≢ user_id) db.bookings
    → IsUnsent env user_id db.messages
    → IsUnregistered env user_id db.metadata
    → IsGone env user_id (delete_account_row env user_id db)
unfolding cascade_user
account-IsGone env user_id db rides bookings messages metadata = elim (Bool-cases env.soft_delete) [
  | inl soft ↦ rw (soft_account env user_id db soft) (record {
    users =
        All-update {P = λ _. Unit {0}} _ _ db.users (λ u hit _ seen. absurd (ground arith))
          (λ u miss _ seen. ground arith) (All-of _ db.users (λ _. tt));
    rides = rides soft;
    bookings = bookings;
    messages = messages;
    metadata = metadata;
  })
  | inr hard ↦ rw (hard_account env user_id db hard) (record {
    users = All-map _ (λ u no _. ground arith) (All-deleted _ db.users);
    rides = All-map _ (λ r no _. ground arith) (All-deleted _ db.rides);
    bookings = All-delete _ _ db.bookings bookings;
    messages = All-delete _ _ db.messages messages;
    metadata = metadata;
  })
]

-- If the deletion of an account answers 200, no user, ride, booking, message or push token that the
-- program still sees carries its id. (No candidate for one of its rides is the account itself, and
-- it is not the placeholder for deleted users, nor has the id that is drawn for that.)
pub delete_user-IsGone :
    (env : Env) (user : User) (db : Db)
    → HasNoSelfBooking env user.id db
    → All (λ u. is_placeholder env u ≡ true → u.id ≢ user.id) db.users
    → env.new_id ≢ user.id
    → (delete_user env (signed_in user) db).response.status ≡ 200
    → IsGone env user.id (delete_user env (signed_in user) db).db
delete_user-IsGone env user db no_self others fresh ok =
    let ran = delete_user-Ran env user db ok in
    let s = handle_hosted_rides-Settled env user.id db ran.settled ran.hosted in
    let (b1, r1, u1) = bookings-keeps env user.id ran.settled ran.withdrawn ran.bookings in
    let (r2, b2) = messages-keeps env user.id ran.withdrawn ran.signed_over ran.messages in
    let sent =
      messages_gone env user.id ran.withdrawn ran.signed_over ran.messages (rw (u1, s.users) others)
        fresh in
    let (r3, b3, m3) = metadata-keeps env user.id ran.signed_over ran.unregistered ran.metadata in
    rw ran.gone (
      account-IsGone env user.id ran.unregistered
        (λ soft. rw (r3, r2, r1) (hosts_after env user.id db ran.settled soft no_self s))
        (rw (b3, b2, b1)
          (All-map _ (λ b no seen. let miss = no seen in ground arith)
            (delete_bookings-All env (λ b. b.passenger_id == user.id) ran.settled.bookings)))
        (rw m3 sent) (metadata_gone env user.id ran.signed_over ran.unregistered ran.metadata))
