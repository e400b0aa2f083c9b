-- ===== src/Account/Settled.antt =====
-- handleHostedRides in one equation per table, whichever of its steps had nothing to do.
use uni_pool_new_backend.Base.{
  ℕ, ◌≡◌, refl, sym, ap, ◌∙◌, false, some, List, [], ◌∷◌, ◌==◌, arith, All-of, count_where,
  update_where, update_none, delete_none, inl, inr, Bool-cases,
}
use uni_pool_new_backend.Model.{Ride, Booking}
use uni_pool_new_backend.Store.{Db, Env, delete_bookings, delete_rides_where}
use uni_pool_new_backend.Account.Hosted.{
  done, exists_where, Transfer, is_hosted, is_ongoing_hosted, new_host, is_transferred, is_promoted,
  transfers_of, empty_rides, transfer_hosted, drop_empty, settle_hosted, handle_hosted_rides,
}
use uni_pool_new_backend.Account.Steps.{Attempt-cases}

abbrev pub moved_rides : List Transfer → List Ride → List Ride
moved_rides ts rides =
    update_where (is_transferred ts) (λ r. record r { host_user_id = new_host ts r }) rides

abbrev pub stamped_bookings : Env → List Transfer → List Booking → List Booking
stamped_bookings env ts bookings =
    update_where (is_promoted ts) (λ b. record b { deleted_at = some env.now }) bookings

abbrev pub kept_rides : Env → List ℕ → List Ride → List Ride
kept_rides env ids rides = delete_rides_where env (λ r. exists_where (λ i. r.id == i) ids) rides

abbrev pub kept_bookings : Env → List ℕ → List Booking → List Booking
kept_bookings env ids bookings =
    delete_bookings env (λ b. exists_where (λ i. b.ride_id == i) ids) bookings

pub record Settled (env : Env) (user_id : ℕ) (db d : Db) : Type 0 where
  pub idle : exists_where (is_ongoing_hosted env user_id) db.rides ≡ false
  pub rides :
      d.rides
      ≡ kept_rides env
          (empty_rides env user_id db.bookings db.rides)
          (moved_rides (transfers_of env user_id db.bookings db.rides) db.rides)
  pub bookings :
      d.bookings
      ≡ kept_bookings env
          (empty_rides env user_id db.bookings db.rides)
          (stamped_bookings env (transfers_of env user_id db.bookings db.rides) db.bookings)
  pub users : d.users ≡ db.users

none_moved : (rides : List Ride) → moved_rides [] rides ≡ rides
unfolding count_where
none_moved rides = update_none _ _ rides (All-of _ rides (λ r. ground arith))

none_stamped : (env : Env) (bookings : List Booking) → stamped_bookings env [] bookings ≡ bookings
unfolding count_where
none_stamped env bookings = update_none _ _ bookings (All-of _ bookings (λ b. ground arith))

all_rides_kept : (env : Env) (rides : List Ride) → kept_rides env [] rides ≡ rides
unfolding count_where delete_rides_where
all_rides_kept env rides = elim (Bool-cases env.soft_delete) [
  | inl soft ↦ rw soft (update_none _ _ rides (All-of _ rides (λ r. ground arith)))
  | inr hard ↦ rw hard (delete_none _ rides (All-of _ rides (λ r. refl)))
]

all_bookings_kept : (env : Env) (bookings : List Booking) → kept_bookings env [] bookings ≡ bookings
unfolding count_where delete_bookings
all_bookings_kept env bookings = elim (Bool-cases env.soft_delete) [
  | inl soft ↦ rw soft (update_none _ _ bookings (All-of _ bookings (λ r. ground arith)))
  | inr hard ↦ rw hard (delete_none _ bookings (All-of _ bookings (λ r. refl)))
]

transfer_hosted-moves :
    (env : Env) (ts : List Transfer) (db d : Db)
    → transfer_hosted env ts db ≡ done d
    → (d.rides ≡ moved_rides ts db.rides)
      × (d.bookings ≡ stamped_bookings env ts db.bookings)
      × (d.users ≡ db.users)
unfolding transfer_hosted
transfer_hosted-moves env [] db d e =
    let same : db ≡ d = ground arith in
    rw (← same) (rw (none_moved db.rides) refl, rw (none_stamped env db.bookings) refl, refl)
transfer_hosted-moves env (t ∷ ts) db d e = (ground arith, ground arith, ground arith)

drop_empty-keeps :
    (env : Env) (ids : List ℕ) (db d : Db)
    → drop_empty env ids db ≡ done d
    → (d.rides ≡ kept_rides env ids db.rides)
      × (d.bookings ≡ kept_bookings env ids db.bookings)
      × (d.users ≡ db.users)
unfolding drop_empty
drop_empty-keeps env [] db d e =
    let same : db ≡ d = ground arith in
    rw (← same)
      (rw (all_rides_kept env db.rides) refl, rw (all_bookings_kept env db.bookings) refl, refl)
drop_empty-keeps env (i ∷ ids) db d e = (ground arith, ground arith, ground arith)

none_hosted-transfers :
    (env : Env) (user_id : ℕ) (bookings : List Booking) (rs : List Ride)
    → count_where (is_hosted env user_id) rs ≡ 0
    → (transfers_of env user_id bookings rs ≡ [])
      × (empty_rides env user_id bookings rs ≡ [])
      × (count_where (is_ongoing_hosted env user_id) rs ≡ 0)
unfolding transfers_of empty_rides count_where
none_hosted-transfers env user_id bookings [] e = (refl, refl, refl)
none_hosted-transfers env user_id bookings (r ∷ rs) e =
    elim (Bool-cases (is_hosted env user_id r)) [
      | inl mine ↦ absurd (ground arith)
      | inr other ↦
          let rest = none_hosted-transfers env user_id bookings rs (ground arith) in
          (rw other rest.0, rw other rest.1, ground (arith, rest.2))
    ]

settle_hosted-Settled :
    (env : Env) (user_id : ℕ) (db d : Db)
    → exists_where (is_ongoing_hosted env user_id) db.rides ≡ false
    → settle_hosted env user_id db ≡ done d
    → Settled env user_id db d
unfolding settle_hosted
settle_hosted-Settled env user_id db d idle e =
    let ts = transfers_of env user_id db.bookings db.rides in
    let ids = empty_rides env user_id db.bookings db.rides in
    elim (Attempt-cases (transfer_hosted env ts db)) [
      | inl (fault, down) ↦ absurd (ground arith)
      | inr (mid, moved) ↦
          let (r, b, u) = transfer_hosted-moves env ts db mid moved in
          let (r', b', u') = drop_empty-keeps env ids mid d (ground arith) in
          record {
            idle = idle;
            rides = r' ∙ ap (kept_rides env ids) r;
            bookings = b' ∙ ap (kept_bookings env ids) b;
            users = u' ∙ u;
          }
    ]

pub handle_hosted_rides-Settled :
    (env : Env) (user_id : ℕ) (db d : Db)
    → handle_hosted_rides env user_id db ≡ done d
    → Settled env user_id db d
unfolding handle_hosted_rides
handle_hosted_rides-Settled env user_id db d e =
    elim (Bool-cases (exists_where (is_hosted env user_id) db.rides)) [
      | inl some_ride ↦ settle_hosted-Settled env user_id db d (ground arith) (ground arith)
      | inr no_ride ↦
          let same : db ≡ d = ground arith in
          let (ts, ids, idle) =
            none_hosted-transfers env user_id db.bookings db.rides (ground arith) in
          record {
            idle = ground arith;
            rides =
                rw (ts, ids, none_moved db.rides, all_rides_kept env db.rides)
                  (ap (λ (x : Db). x.rides) (sym same));
            bookings =
                rw (ts, ids, none_stamped env db.bookings, all_bookings_kept env db.bookings)
                  (ap (λ (x : Db). x.bookings) (sym same));
            users = ap (λ (x : Db). x.users) (sym same);
          }
    ]
