-- ===== src/Account/Leaves.antt =====
-- The tables after each step of routes/users/DeleteUser.go.
use uni_pool_new_backend.Base.{
  ℕ, ◌≡◌, ◌≢◌, Bool, true, false, ◌&&◌, some, List, [], ◌∷◌, ◌++◌, update_where, delete_where,
  is_none, ◌==◌, arith, All, All-of, All-map, All-update, All-deleted, find_where, find_where-All,
  inl, inr, Bool-cases, Option-cases,
}
use uni_pool_new_backend.Model.{Ride, Booking, Message, UserMetadata}
use uni_pool_new_backend.Store.{Db, Env, visible, delete_bookings}
use uni_pool_new_backend.Account.Hosted.{
  done, is_hosted, is_candidate, first_accepted, transfers_of,
}
use uni_pool_new_backend.Account.Passenger.{
  is_placeholder, placeholder, handle_passenger_bookings, reassign_messages, handle_user_messages,
  handle_user_metadata,
}
use uni_pool_new_backend.Account.Transfers.{earliest-All}

-- No candidate of a ride of the host is the host.
abbrev pub HasNoSelfBooking : Env → ℕ → Db → Type 0
HasNoSelfBooking env user_id db =
    All
      (λ r.
        is_hosted env user_id r ≡ true
        → All (λ b. is_candidate env r.id b ≡ true → b.passenger_id ≢ user_id) db.bookings)
      db.rides

pub delete_bookings-All :
    (env : Env) (p : Booking → Bool) (bs : List Booking)
    → All (λ b. visible env b.deleted_at ≡ true → p b ≡ false) (delete_bookings env p bs)
unfolding delete_bookings
delete_bookings-All env p bs = elim (Bool-cases env.soft_delete) [
  | inl soft ↦ rw soft (
      All-update {P = λ _. Unit {0}} _ _ bs (λ b hit _ seen. absurd (ground arith))
        (λ b miss _ seen. ground arith) (All-of _ bs (λ _. tt)))
  | inr hard ↦ rw hard (All-map _ (λ b no _. no) (All-deleted p bs))
]

-- No message that the program sees is from the account, no token is registered for it.
abbrev pub IsUnsent : Env → ℕ → List Message → Type 0
IsUnsent env user_id messages =
    All (λ m. visible env m.deleted_at ≡ true → m.sender_id ≢ user_id) messages

abbrev pub IsUnregistered : Env → ℕ → List UserMetadata → Type 0
IsUnregistered env user_id metadata =
    All (λ x. visible env x.deleted_at ≡ true → x.user_id ≢ user_id) metadata

module _ (env : Env) (user_id : ℕ) (db d : Db) where
  pub metadata_gone :
      handle_user_metadata env user_id db ≡ done d → IsUnregistered env user_id d.metadata
  unfolding handle_user_metadata
  metadata_gone e = elim (Bool-cases env.soft_delete) [
    | inl soft ↦
        let at : d.metadata
            ≡ update_where (λ x. x.user_id == user_id && is_none x.deleted_at)
                (λ x. record x { deleted_at = some env.now }) db.metadata =
          ground arith in
        rw at (
          All-update {P = λ _. Unit {0}} _ _ db.metadata (λ x hit _ seen. absurd (ground arith))
            (λ x miss _ seen. ground arith) (All-of _ db.metadata (λ _. tt)))
    | inr hard ↦
        let at : d.metadata ≡ delete_where (λ x. x.user_id == user_id) db.metadata = ground arith in
        rw at
          (All-map _ (λ x no _. ground arith) (All-deleted (λ x. x.user_id == user_id) db.metadata))
  ]

  pub metadata-keeps :
      handle_user_metadata env user_id db ≡ done d
      → (d.rides ≡ db.rides) × (d.bookings ≡ db.bookings) × (d.messages ≡ db.messages)
  unfolding handle_user_metadata
  metadata-keeps e = (ground arith, ground arith, ground arith)

  pub bookings-keeps :
      handle_passenger_bookings env user_id db ≡ done d
      → (d.bookings ≡ delete_bookings env (λ b. b.passenger_id == user_id) db.bookings)
        × (d.rides ≡ db.rides)
        × (d.users ≡ db.users)
  unfolding handle_passenger_bookings
  bookings-keeps e = (ground arith, ground arith, ground arith)

  reassigned :
      (sender_id : ℕ)
      → reassign_messages env user_id sender_id db ≡ done d
      → (sender_id ≢ user_id → IsUnsent env user_id d.messages)
        × (d.rides ≡ db.rides)
        × (d.bookings ≡ db.bookings)
  unfolding reassign_messages
  reassigned sender_id e =
      let at : d.messages
          ≡ update_where (λ m. m.sender_id == user_id && visible env m.deleted_at)
              (λ m. record m { sender_id = sender_id }) db.messages =
        ground arith in
      (
        λ other. rw at (
            All-update {P = λ _. Unit {0}} _ _ db.messages (λ m hit _ seen. other)
              (λ m miss _ seen. ground arith) (All-of _ db.messages (λ _. tt))),
        ground arith,
        ground arith,
      )

pub messages-keeps :
    (env : Env) (user_id : ℕ) (db d : Db)
    → handle_user_messages env user_id db ≡ done d
    → (d.rides ≡ db.rides) × (d.bookings ≡ db.bookings)
unfolding handle_user_messages
messages-keeps env user_id db d e = elim (Option-cases (find_where (is_placeholder env) db.users)) [
  | inl no_one ↦
      let (_, r, b) =
        reassigned env user_id (record db { users = db.users ++ (placeholder env ∷ []) }) d
          env.new_id (ground arith) in
      (r, b)
  | inr (u, found) ↦ let (_, r, b) = reassigned env user_id db d u.id (ground arith) in (r, b)
]

pub messages_gone :
    (env : Env) (user_id : ℕ) (db d : Db)
    → handle_user_messages env user_id db ≡ done d
    → All (λ u. is_placeholder env u ≡ true → u.id ≢ user_id) db.users
    → env.new_id ≢ user_id
    → IsUnsent env user_id d.messages
unfolding handle_user_messages
messages_gone env user_id db d e others fresh =
    elim (Option-cases (find_where (is_placeholder env) db.users)) [
      | inl no_one ↦
          (reassigned env user_id (record db { users = db.users ++ (placeholder env ∷ []) }) d
              env.new_id (ground arith)).0
            fresh
      | inr (u, found) ↦
          let (other, hit) =
            find_where-All (λ v. is_placeholder env v ≡ true → v.id ≢ user_id) _ db.users u others
              found in
          (reassigned env user_id db d u.id (ground arith)).0 (other hit)
    ]

module _ (env : Env) (user_id : ℕ) (bookings : List Booking) where
  pub transfers_of-others :
      (rs : List Ride)
      → All
          (λ r.
            is_hosted env user_id r ≡ true
            → All (λ b. is_candidate env r.id b ≡ true → b.passenger_id ≢ user_id) bookings)
          rs
      → All (λ t. t.new_host_id ≢ user_id) (transfers_of env user_id bookings rs)
  unfolding transfers_of first_accepted
  transfers_of-others [] h = tt
  transfers_of-others (r ∷ rs) h = elim (Bool-cases (is_hosted env user_id r)) [
    | inr other ↦ rw other (transfers_of-others rs h.1)
    | inl mine ↦ elim (Option-cases (first_accepted env r.id bookings)) [
      | inl no_one ↦ rw (mine, no_one) (transfers_of-others rs h.1)
      | inr (b, first) ↦
          let (other, hit) =
            earliest-All (is_candidate env r.id)
              (λ c. is_candidate env r.id c ≡ true → c.passenger_id ≢ user_id) bookings b (h.0 mine)
              first in
          rw (mine, first) (other hit, transfers_of-others rs h.1)
    ]
  ]
