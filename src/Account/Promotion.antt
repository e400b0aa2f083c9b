-- ===== src/Account/Promotion.antt =====
-- A hosted ride whose host deletes the account: who takes it over, and what that does to its seats.
pub mod Stuck
use uni_pool_new_backend.Base.{
  ℕ, ◌≤◌, ◌<◌, ◌≡◌, refl, sym, ap, ◌∙◌, ◌≢◌, Bool, true, false, ◌&&◌, ◌||◌, none, some, List,
  is_none, ◌==◌, arith, All, All-of, find_where, find_where-All, find-update, find-delete,
  find_none, count-found, inl, inr, Bool-cases, Option-cases, ==→eq, count-update_lose,
  count-delete,
}
use uni_pool_new_backend.Model.{User, Ride, Booking, is_accepted}
use uni_pool_new_backend.Store.{Db, Env, signed_in, delete_bookings, delete_rides_where}
use uni_pool_new_backend.Booking.Request.{accepted_count}
use uni_pool_new_backend.Ledger.{IsSeated, IsBalanced}
use uni_pool_new_backend.Ledger.Counts.{accepted_count-delete}
use uni_pool_new_backend.Account.Hosted.{
  exists_where, Transfer, is_hosted, is_candidate, first_accepted, transfers_of, empty_rides,
  new_host, is_transferred, is_promoted,
}
use uni_pool_new_backend.Account.Delete.{cascade_user, delete_account_row, delete_user}
use uni_pool_new_backend.Account.Steps.{Ran, delete_user-Ran}
use uni_pool_new_backend.Account.Transfers.{
  IsDue, earliest-All, earliest-least, earliest-counts, transfers_of-IsDue, transfers_of-covers,
  empty_rides-empty,
}
use uni_pool_new_backend.Account.Settled.{
  moved_rides, kept_rides, stamped_bookings, kept_bookings, handle_hosted_rides-Settled,
}
use uni_pool_new_backend.Account.Leaves.{metadata-keeps, bookings-keeps, messages-keeps}
use uni_pool_new_backend.Account.Gone.{soft_account, hard_account}

-- A ride that the account hosts, and the accepted booking that comes first.
pub record IsTaken (env : Env) (user_id k : ℕ) (db : Db) (r : Ride) (b : Booking) : Type 0 where
  pub found : find_where (λ r. r.id == k) db.rides ≡ some r
  pub hosted : is_hosted env user_id r ≡ true
  pub ride_live : r.deleted_at ≡ none
  pub first : first_accepted env r.id db.bookings ≡ some b
  pub other : b.passenger_id ≢ user_id

module _ (env : Env) (user_id k : ℕ) (db : Db) (r : Ride) (b : Booking)
    (h : IsTaken env user_id k db r b) where
  ts : List Transfer
  ts = transfers_of env user_id db.bookings db.rides

  ids : List ℕ
  ids = empty_rides env user_id db.bookings db.rides

  moved : exists_where (λ t. t.ride_id == r.id) ts ≡ true
  unfolding ts
  moved =
      (find_where-All _ _ db.rides r (transfers_of-covers env user_id db.bookings db.rides)
          h.found).0
        h.hosted (rw h.first refl)

  due :
      (t : Transfer)
      → find_where (λ t. t.ride_id == r.id) ts ≡ some t
      → (t.ride_id ≡ r.id) × (t.new_host_id ≡ b.passenger_id)
  unfolding ts
  due t e =
      let ((b', first', host), hit) =
        find_where-All (IsDue env user_id db.bookings) _ ts t
          (transfers_of-IsDue env user_id db.bookings db.rides) e in
      let at : t.ride_id ≡ r.id = ==→eq t.ride_id r.id hit in
      let same : some b' ≡ some b =
        sym first' ∙ ap (λ i. first_accepted env i db.bookings) at ∙ h.first in
      (at, sym host ∙ ground arith)

  taken_by : new_host ts r ≡ b.passenger_id
  taken_by = elim (Option-cases (find_where (λ t. t.ride_id == r.id) ts)) [
    | inl lost ↦
        let no_one = find_none (λ (t : Transfer). t.ride_id == r.id) ts lost in
        let there = moved in absurd (ground arith)
    | inr (t, found) ↦ rw (new_host, found) (due t found).1
  ]

  paired :
      (c : Booking)
      → c.ride_id ≡ r.id
      → c.passenger_id ≡ b.passenger_id
      → exists_where (λ t. t.ride_id == c.ride_id && t.new_host_id == c.passenger_id) ts ≡ true
  paired c same_ride same_passenger = elim (Option-cases (find_where (λ t. t.ride_id == r.id) ts)) [
    | inl lost ↦
        let no_one = find_none (λ (t : Transfer). t.ride_id == r.id) ts lost in
        let there = moved in absurd (ground arith)
    | inr (t, found) ↦
        let (at, host) = due t found in
        let counted =
          count-found (λ (t : Transfer). t.ride_id == r.id)
            (λ t. t.ride_id == c.ride_id && t.new_host_id == c.passenger_id) ts t found
            (ground arith) in
        ground arith
  ]

  spared : exists_where (λ i. r.id == i) ids ≡ false
  unfolding ids
  spared = elim (Option-cases (find_where (λ i. r.id == i) ids)) [
    | inl lost ↦ let no_one = find_none (λ i. r.id == i) ids lost in ground arith
    | inr (i, found) ↦
        let (empty, hit) =
          find_where-All (λ i. first_accepted env i db.bookings ≡ none) _ ids i
            (empty_rides-empty env user_id db.bookings db.rides) found in
        let at : r.id ≡ i = ==→eq r.id i hit in
        absurd (ground (arith, empty, at, h.first, ap (λ i. first_accepted env i db.bookings) at))
  ]

  new_ride : Ride
  new_ride = record r { host_user_id = b.passenger_id }

  found_moved : find_where (λ x. x.id == k) (moved_rides ts db.rides) ≡ some new_ride
  unfolding new_ride
  found_moved =
      let there = moved in
      let taken : is_transferred ts r ≡ true = ground (arith, h.ride_live) in
      find-update _ (is_transferred ts) _ db.rides r (λ x. refl) h.found ∙ rw (taken, taken_by) refl

  found_kept :
      find_where (λ x. x.id == k) (kept_rides env ids (moved_rides ts db.rides)) ≡ some new_ride
  unfolding delete_rides_where new_ride
  found_kept =
      let safe = spared in
      elim (Bool-cases env.soft_delete) [
        | inl soft ↦ rw soft (
            find-update _ (λ x. exists_where (λ i. x.id == i) ids && is_none x.deleted_at)
              (λ x. record x { deleted_at = some env.now }) (moved_rides ts db.rides)
              (record r { host_user_id = b.passenger_id }) (λ x. refl) found_moved
            ∙ rw safe refl)
        | inr hard ↦ rw hard (
            find-delete _ (λ x. exists_where (λ i. x.id == i) ids) (moved_rides ts db.rides)
              (record r { host_user_id = b.passenger_id }) found_moved safe)
      ]

  fewer_stamped :
      b.deleted_at ≡ none
      → accepted_count r.id (stamped_bookings env ts db.bookings) < accepted_count r.id db.bookings
  unfolding accepted_count first_accepted
  fewer_stamped live =
      let q : Booking → Bool =
        λ c. c.ride_id == r.id && (is_accepted c.request_status && is_none c.deleted_at) in
      let hit =
        (earliest-All (is_candidate env r.id) (λ _. Unit {0}) db.bookings b
          (All-of _ db.bookings (λ _. tt)) h.first).1 in
      let pair = paired b (ground arith) refl in
      let counted =
        earliest-counts (is_candidate env r.id) (λ c. is_promoted ts c && q c) db.bookings b h.first
          (ground (arith, live)) in
      let sum =
        count-update_lose (is_promoted ts) q (λ c. record c { deleted_at = some env.now })
          db.bookings (λ c. ground arith) in
      omega arith

  fewer_kept :
      b.deleted_at ≡ none
      → accepted_count r.id (kept_bookings env ids (stamped_bookings env ts db.bookings))
        < accepted_count r.id db.bookings
  fewer_kept live =
      let less = fewer_stamped live in
      let sum =
        accepted_count-delete env (λ c. exists_where (λ i. c.ride_id == i) ids) r.id
          (stamped_bookings env ts db.bookings) in
      omega arith

  module _ (before_last out : Db)
      (rides : before_last.rides ≡ kept_rides env ids (moved_rides ts db.rides))
      (bookings : before_last.bookings
        ≡ delete_bookings env
            (λ c. c.passenger_id == user_id)
            (kept_bookings env ids (stamped_bookings env ts db.bookings)))
      (gone : out ≡ delete_account_row env user_id before_last) where
    found_out : find_where (λ x. x.id == k) out.rides ≡ some new_ride
    unfolding cascade_user new_ride
    found_out = elim (Bool-cases env.soft_delete) [
      | inl soft ↦ rw (gone, soft_account env user_id before_last soft, rides) found_kept
      | inr hard ↦
          rw (gone, hard_account env user_id before_last hard, rides)
            (find-delete _ (λ x. x.host_user_id == user_id)
              (kept_rides env ids (moved_rides ts db.rides))
              (record r { host_user_id = b.passenger_id }) found_kept (ground (arith, h.other)))
    ]

    fewer_before :
        b.deleted_at ≡ none
        → accepted_count r.id before_last.bookings < accepted_count r.id db.bookings
    fewer_before live =
        let less = fewer_kept live in
        let sum =
          accepted_count-delete env (λ c. c.passenger_id == user_id) r.id
            (kept_bookings env ids (stamped_bookings env ts db.bookings)) in
        rw bookings (omega arith)

    fewer_out :
        b.deleted_at ≡ none → accepted_count r.id out.bookings < accepted_count r.id db.bookings
    unfolding cascade_user accepted_count
    fewer_out live =
        let less = fewer_before live in
        elim (Bool-cases env.soft_delete) [
          | inl soft ↦ rw (gone, soft_account env user_id before_last soft) less
          | inr hard ↦
              let sum =
                count-delete
                  (λ c.
                    c.passenger_id == user_id
                    || exists_where (λ x. x.host_user_id == user_id && x.id == c.ride_id)
                        before_last.rides)
                  (λ c. c.ride_id == r.id && (is_accepted c.request_status && is_none c.deleted_at))
                  before_last.bookings in
              rw (gone, hard_account env user_id before_last hard) (omega arith)
        ]

  pub taken-out :
      (out : Db)
      → Ran env user_id db out
      → (find_where (λ x. x.id == k) out.rides ≡ some (record r { host_user_id = b.passenger_id }))
        × (b.deleted_at ≡ none → accepted_count r.id out.bookings < accepted_count r.id db.bookings)
  unfolding ts ids new_ride
  taken-out out ran =
      let s = handle_hosted_rides-Settled env user_id db ran.settled ran.hosted in
      let (b1, r1, _) = bookings-keeps env user_id ran.settled ran.withdrawn ran.bookings in
      let (r2, b2) = messages-keeps env user_id ran.withdrawn ran.signed_over ran.messages in
      let (r3, b3, _) = metadata-keeps env user_id ran.signed_over ran.unregistered ran.metadata in
      let rides = r3 ∙ r2 ∙ r1 ∙ s.rides in
      let bookings =
        b3 ∙ b2 ∙ b1 ∙ ap (delete_bookings env (λ c. c.passenger_id == user_id)) s.bookings in
      (
        found_out ran.unregistered out rides bookings ran.gone,
        fewer_out ran.unregistered out rides bookings ran.gone,
      )

-- If the deletion of an account answers 200, a ride that it hosted and that somebody else was
-- accepted on goes on: its host is the passenger of the accepted booking that was created first.
pub delete_user-promotes :
    (env : Env) (user : User) (k : ℕ) (db : Db) (r : Ride) (b : Booking)
    → IsTaken env user.id k db r b
    → (delete_user env (signed_in user) db).response.status ≡ 200
    → (find_where (λ x. x.id == k) (delete_user env (signed_in user) db).db.rides
        ≡ some (record r { host_user_id = b.passenger_id }))
      × (is_candidate env r.id b ≡ true)
      × All (λ c. is_candidate env r.id c ≡ true → b.created_at ≤ c.created_at) db.bookings
unfolding first_accepted
delete_user-promotes env user k db r b h ok = (
  (taken-out env user.id k db r b h _ (delete_user-Ran env user db ok)).0,
  (earliest-All (is_candidate env r.id) (λ _. Unit {0}) db.bookings b
      (All-of _ db.bookings (λ _. tt)) h.first).1,
  earliest-least (is_candidate env r.id) db.bookings b h.first,
)

-- But nothing gives the new host's seat back: from any database in balance, such a deletion leaves
-- one out of balance, with booked_seats above the number of accepted bookings.
pub delete_user-keeps_seat :
    (env : Env) (user : User) (k : ℕ) (db : Db) (r : Ride) (b : Booking)
    → IsBalanced db
    → IsTaken env user.id k db r b
    → b.deleted_at ≡ none
    → (delete_user env (signed_in user) db).response.status ≡ 200
    → let out = (delete_user env (signed_in user) db).db in
      (accepted_count r.id out.bookings < r.booked_seats) × ¬ IsBalanced out
delete_user-keeps_seat env user k db r b v h live ok =
    let out = (delete_user env (signed_in user) db).db in
    let (found, fewer) = taken-out env user.id k db r b h out (delete_user-Ran env user db ok) in
    let (was, _) = find_where-All (IsSeated db.bookings) _ db.rides r v.seated h.found in
    let less = fewer live in
    (
      omega arith,
      λ w.
          let (now, _) =
            find_where-All (IsSeated out.bookings) _ out.rides
              (record r { host_user_id = b.passenger_id }) w.seated found in
          omega arith,
    )
