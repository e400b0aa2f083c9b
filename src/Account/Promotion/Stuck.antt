-- ===== src/Account/Promotion/Stuck.antt =====
-- The booking that batchDeletePromotedBookings of routes/users/DeleteUser.go stamps, where the ORM
-- removes rows, and DeleteRideByID of routes/CRUD/RideCRUDRoutes.go.
use uni_pool_new_backend.Base.{
  ℕ, ◌≤◌, ◌≡◌, refl, sym, ap, ◌∙◌, ◌≢◌, Bool, true, false, ◌&&◌, some, List, [], ◌∷◌, ◌==◌, arith,
  All-of, All-map, find_where, find_where_unique, count_where, count_none, count-delete,
  count-update_keep, Bool-cases, inl, inr, delete_where, Keyed, Keyed-update, Keyed-delete, ==→eq,
}
use uni_pool_new_backend.Model.{User, Ride, Booking, is_accepted}
use uni_pool_new_backend.Store.{Db, Env, signed_in, delete_bookings, delete_rides_where}
use uni_pool_new_backend.Ledger.{IsBalanced}
use uni_pool_new_backend.Account.Hosted.{is_candidate, first_accepted}
use uni_pool_new_backend.Account.Delete.{cascade_user, delete_user}
use uni_pool_new_backend.Account.Steps.{Ran, delete_user-Ran}
use uni_pool_new_backend.Account.Transfers.{earliest-All, earliest-counts}
use uni_pool_new_backend.Account.Settled.{
  moved_rides, kept_rides, stamped_bookings, kept_bookings, handle_hosted_rides-Settled,
}
use uni_pool_new_backend.Account.Leaves.{metadata-keeps, bookings-keeps, messages-keeps}
use uni_pool_new_backend.Account.Gone.{hard_account}
use uni_pool_new_backend.Account.Promotion.{IsTaken, ts, ids, spared, new_ride, found_kept}
use uni_pool_new_backend.Rides.Remove.{is_accepted_row, delete_ride_by_id}
use uni_pool_new_backend.Rides.Pull.{delete_ride_by_id-guarded}

-- The accepted bookings of a passenger on a ride, deleted or not.
abbrev holds : ℕ → ℕ → Booking → Bool
holds ride_id passenger_id b =
    b.ride_id == ride_id && (is_accepted b.request_status && b.passenger_id == passenger_id)

count_kept :
    (p q : Booking → Bool) (bs : List Booking)
    → ((b : Booking) → q b ≡ true → p b ≡ false)
    → count_where q (delete_where p bs) ≡ count_where q bs
count_kept p q bs apart =
    let sum = count-delete p q bs in
    let no_one = count_none (λ b. p b && q b) bs (All-of _ bs (λ b. ground (arith, apart b))) in
    omega arith

count_mono :
    (p q : Booking → Bool) (bs : List Booking)
    → ((b : Booking) → p b ≡ true → q b ≡ true)
    → count_where p bs ≤ count_where q bs
unfolding count_where
count_mono p q [] h = omega arith
count_mono p q (b ∷ bs) h = ground (arith, h b, count_mono p q bs h)

module _ (env : Env) (user_id k : ℕ) (db : Db) (r : Ride) (b : Booking)
    (h : IsTaken env user_id k db r b) (hard : env.soft_delete ≡ false) where
  held : count_where (holds r.id b.passenger_id) db.bookings ≢ 0
  unfolding first_accepted
  held =
      let hit =
        (earliest-All (is_candidate env r.id) (λ _. Unit {0}) db.bookings b
          (All-of _ db.bookings (λ _. tt)) h.first).1 in
      earliest-counts (is_candidate env r.id) (holds r.id b.passenger_id) db.bookings b h.first
        (ground arith)

  held_stamped :
      count_where
        (holds r.id b.passenger_id)
        (stamped_bookings env (ts env user_id k db r b h) db.bookings)
      ≡ count_where (holds r.id b.passenger_id) db.bookings
  held_stamped = count-update_keep _ _ _ db.bookings (All-of _ db.bookings (λ c _. refl))

  held_kept :
      (bs : List Booking)
      → count_where (holds r.id b.passenger_id) (kept_bookings env (ids env user_id k db r b h) bs)
        ≡ count_where (holds r.id b.passenger_id) bs
  unfolding delete_bookings
  held_kept bs =
      let safe = spared env user_id k db r b h in
      rw hard (count_kept _ _ bs (λ c hit. let at : c.ride_id ≡ r.id = ground arith in rw at safe))

  held_withdrawn :
      (bs : List Booking)
      → count_where
          (holds r.id b.passenger_id)
          (delete_bookings env (λ c. c.passenger_id == user_id) bs)
        ≡ count_where (holds r.id b.passenger_id) bs
  unfolding delete_bookings
  held_withdrawn bs = rw hard (count_kept _ _ bs (λ c hit. ground (arith, h.other)))

  rides_kept-Keyed :
      Keyed (λ r. r.id) db.rides
      → Keyed
          (λ r. r.id)
          (kept_rides env
            (ids env user_id k db r b h)
            (moved_rides (ts env user_id k db r b h) db.rides))
  unfolding delete_rides_where
  rides_kept-Keyed keyed = rw hard (
      Keyed-delete (λ (r : Ride). r.id) _ _
        (Keyed-update (λ (r : Ride). r.id) _ _ db.rides (λ r. refl) keyed))

  held_cascade :
      (last : Db)
      → Keyed (λ x. x.id) last.rides
      → find_where (λ x. x.id == k) last.rides ≡ some (record r { host_user_id = b.passenger_id })
      → count_where (holds r.id b.passenger_id) (cascade_user user_id last).bookings
        ≡ count_where (holds r.id b.passenger_id) last.bookings
  unfolding cascade_user
  held_cascade last keyed found =
      let unique =
        find_where_unique (λ (x : Ride). x.id) (λ x. x.id == k) last.rides
          (record r { host_user_id = b.passenger_id }) keyed found in
      let foreign =
        count_none (λ x. x.host_user_id == user_id && x.id == r.id) last.rides
          (All-map last.rides (λ x same. not_mine x same) unique) in
      count_kept _ _ last.bookings (λ c hit.
        let at : c.ride_id ≡ r.id = ground arith in rw at (ground (arith, foreign, h.other)))
    where
      not_mine :
          (x : Ride)
          → (x.id ≡ r.id → x ≡ record r { host_user_id = b.passenger_id })
          → (x.host_user_id == user_id && x.id == r.id) ≡ false
      not_mine x same = elim (Bool-cases (x.id == r.id)) [
        | inr other ↦ ground arith
        | inl at ↦ rw (same (==→eq x.id r.id at)) (ground (arith, h.other))
      ]

  held_out :
      (out : Db)
      → Keyed (λ x. x.id) db.rides
      → Ran env user_id db out
      → count_where (holds r.id b.passenger_id) out.bookings ≢ 0
  unfolding ts ids new_ride
  held_out out keyed ran =
      let s = handle_hosted_rides-Settled env user_id db ran.settled ran.hosted in
      let (b1, r1, _) = bookings-keeps env user_id ran.settled ran.withdrawn ran.bookings in
      let (r2, b2) = messages-keeps env user_id ran.withdrawn ran.signed_over ran.messages in
      let (r3, b3, _) = metadata-keeps env user_id ran.signed_over ran.unregistered ran.metadata in
      let rides = r3 ∙ r2 ∙ r1 ∙ s.rides in
      let last =
        held_cascade ran.unregistered (rw rides (rides_kept-Keyed keyed))
          (rw rides (found_kept env user_id k db r b h)) in
      let same =
        ap (λ (bs : List Booking). count_where (holds r.id b.passenger_id) bs)
          (b3 ∙ b2 ∙ b1 ∙ ap (delete_bookings env (λ c. c.passenger_id == user_id)) s.bookings)
        ∙ held_withdrawn _
        ∙ held_kept _
        ∙ held_stamped in
      let some_one = held in
      rw (ran.gone, hard_account env user_id ran.unregistered hard) (rw (last, same) some_one)

-- Where the ORM removes rows: after an account's deletion from a database in balance has handed a ride
-- over, DeleteRideByID of that ride answers 200 to no caller, in any environment of that ORM.
pub delete_user-blocks_ride :
    (env later : Env) (user caller : User) (k : ℕ) (db : Db) (r : Ride) (b : Booking)
    → IsBalanced db
    → IsTaken env user.id k db r b
    → env.soft_delete ≡ false
    → later.soft_delete ≡ false
    → (delete_user env (signed_in user) db).response.status ≡ 200
    → let out = (delete_user env (signed_in user) db).db in
      (delete_ride_by_id later (signed_in caller) (some r.id) out).response.status ≢ 200
delete_user-blocks_ride env later user caller k db r b v h hard hard' ok deleted =
    let out = (delete_user env (signed_in user) db).db in
    let (_, ride_id, _, _, at, _, _, none_left, _) =
      delete_ride_by_id-guarded later (signed_in caller) (some r.id) out deleted in
    let still =
      held_out env user.id k db r b h hard out v.rides_keyed (delete_user-Ran env user db ok) in
    let le =
      count_mono (holds r.id b.passenger_id) (is_accepted_row later r.id) out.bookings
        (λ c hit. ground (arith, hard')) in
    let same : ride_id ≡ r.id = ground arith in
    let empty : count_where (is_accepted_row later r.id) out.bookings ≡ 0 =
      ap (λ i. count_where (is_accepted_row later i) out.bookings) (sym same) ∙ none_left in
    absurd (omega arith)
