-- ===== src/Booking/Participants/Seats.antt =====
-- participants.go against the seat contract.
use uni_pool_new_backend.Base.{
  ℕ, ◌≡◌, ◌∙◌, true, ◌&&◌, Option, none, some, ◌==◌, arith, All, All-map, find_where,
  find_where_unique, find_where-hit, find_where-All, Option-cases, inl, inr, &&_split, ==→eq,
}
use uni_pool_new_backend.Model.{User, Booking, Ride}
use uni_pool_new_backend.Store.{Db, Env, Locals, missing, malformed, signed_in, visible}
use uni_pool_new_backend.Booking.Removal.Seats.{IsRemovable, removed_db-IsBalanced}
use uni_pool_new_backend.Booking.Participants.{
  find_participant, remove_from_ride, remove_ride_participant,
}
use uni_pool_new_backend.Ledger.{IsBalanced}

-- The ORM's own queries see no deleted booking: either it filters by deleted_at, or no row is
-- stamped.
abbrev pub IsClean : Env → Db → Type 0
IsClean env db =
    All (λ (b : Booking). visible env b.deleted_at ≡ true → b.deleted_at ≡ none) db.bookings

participant-IsRemovable :
    (env : Env) (ride_id participant_id : ℕ) (db : Db) (ride : Ride) (booking : Booking)
    → IsBalanced db
    → IsClean env db
    → find_where (λ r. r.id == ride_id && visible env r.deleted_at) db.rides ≡ some ride
    → find_participant env ride.id participant_id db ≡ some booking
    → IsRemovable env booking db
unfolding find_participant
participant-IsRemovable env ride_id participant_id db ride booking v clean found_r found_b =
    let seen = &&_split _ _ (find_where-hit _ db.rides ride found_r) in
    let hit = find_where-All _ _ db.bookings booking clean found_b in
    let tests = &&_split (booking.ride_id == ride.id) _ hit.1 in
    let same : booking.ride_id ≡ ride.id = ==→eq booking.ride_id ride.id tests.0 in
    record {
      test = _;
      found = found_b;
      live = hit.0 (&&_split _ _ tests.1).1;
      ride_seen =
          All-map db.rides (λ r unique at. rw (unique (at ∙ same)) seen.1)
            (find_where_unique (λ (r : Ride). r.id) _ db.rides ride v.rides_keyed found_r);
    }

remove_from_ride-IsBalanced :
    (env : Env) (user : User) (ride_id participant_id : ℕ) (ride : Ride) (db : Db)
    → IsBalanced db
    → IsClean env db
    → find_where (λ r. r.id == ride_id && visible env r.deleted_at) db.rides ≡ some ride
    → IsBalanced (remove_from_ride env user participant_id (some ride) db).db
unfolding remove_from_ride
remove_from_ride-IsBalanced env user ride_id participant_id ride db v clean found_r =
    elim (Option-cases (find_participant env ride.id participant_id db)) [
      | inl e ↦ rw e (ground arith)
      | inr (booking, e) ↦
          let kept = removed_db-IsBalanced env booking db v (
            participant-IsRemovable env ride_id participant_id db ride booking v clean found_r e) in
          rw e (ground (arith, kept))
    ]

-- Removing a participant keeps the seat contract, whoever calls and whatever fails.
pub remove_ride_participant-IsBalanced :
    (env : Env) (locals : Locals) (ride participant : Option ℕ) (db : Db)
    → IsBalanced db
    → IsClean env db
    → IsBalanced (remove_ride_participant env locals ride participant db).db
unfolding remove_ride_participant
remove_ride_participant-IsBalanced env missing ride participant db v clean = v
remove_ride_participant-IsBalanced env malformed ride participant db v clean = v
remove_ride_participant-IsBalanced env (signed_in user) none participant db v clean = v
remove_ride_participant-IsBalanced env (signed_in user) (some ride_id) none db v clean = v
remove_ride_participant-IsBalanced env (signed_in user) (some ride_id) (some participant_id) db v
      clean =
    elim (Option-cases (find_where (λ r. r.id == ride_id && visible env r.deleted_at) db.rides)) [
      | inl e ↦ rw e (ground arith)
      | inr (ride, e) ↦
          let kept =
            remove_from_ride-IsBalanced env user ride_id participant_id ride db v clean e in
          rw e (ground (arith, kept))
    ]
