-- ===== src/Booking/History.antt =====
-- Any history of calls of the booking, ride and trip card routes, by any callers and with any failures.
use uni_pool_new_backend.Base.{
  ℕ, ◌≡◌, sym, ◌∙◌, ◌≢◌, Bool, false, Option, none, some, String, All, All-map, All-of, All-update,
  Bool-cases, update_where, inl, inr,
}
use uni_pool_new_backend.Model.{Ride, Booking}
use uni_pool_new_backend.Store.{Db, Env, Locals}
use uni_pool_new_backend.Booking.Load.Rows.{is_none→none}
use uni_pool_new_backend.Nested.{RideBody, BookingBody}
use uni_pool_new_backend.Nested.Balance.{NestsUnbooked}
use uni_pool_new_backend.Booking.Request.{request}
use uni_pool_new_backend.Booking.Request.Gate.{request-IsBalanced}
use uni_pool_new_backend.Booking.Accept.{accept_route}
use uni_pool_new_backend.Booking.Accept.Seats.{accept_route-IsBalanced}
use uni_pool_new_backend.Booking.Reject.{reject_route}
use uni_pool_new_backend.Booking.Reject.Seats.{reject_route-IsBalanced}
use uni_pool_new_backend.Booking.Delete.{delete_booking}
use uni_pool_new_backend.Booking.Delete.Seats.{delete_booking-IsBalanced}
use uni_pool_new_backend.Booking.Participants.{remove_ride_participant}
use uni_pool_new_backend.Booking.Participants.Seats.{IsClean, remove_ride_participant-IsBalanced}
use uni_pool_new_backend.Ledger.{IsBalanced}
use uni_pool_new_backend.Rides.Create.{create_ride}
use uni_pool_new_backend.Rides.Remove.{delete_ride_by_id}
use uni_pool_new_backend.Rides.Launch.{create_ride-IsBalanced, create_ride-bookings}
use uni_pool_new_backend.Rides.Pull.{delete_ride_by_id-IsBalanced, delete_ride_by_id-All}
use uni_pool_new_backend.TripCard.Dismiss.{DismissBody, dismiss_trip_card}
use uni_pool_new_backend.TripCard.Ack.{payment_ack}
use uni_pool_new_backend.TripCard.Writes.{
  IsStamp, stamp-IsBalanced, dismiss_trip_card-keeps, payment_ack-keeps,
}
use uni_pool_new_backend.Booking.Live.{
  IsLive, accept_route-IsLive, reject_route-IsLive, delete_booking-IsLive,
  remove_ride_participant-IsLive, request-IsLive,
}

-- One call. `soft` says how the ORM deletes; it is the same for all calls. A request draws a new id,
-- and its body does not carry a deleted_at of its own, and nests no ride but one with a new id and no
-- booked seats; a new ride draws a new id, and its body has no booked seats.
pub data Step (soft : Bool) : Db → Db → Type 0 where
  requests :
      (env : Env) (locals : Locals) (body : BookingBody) (db : Db)
      → env.soft_delete ≡ soft
      → All (λ (b : Booking). b.id ≢ env.new_id) db.bookings
      → body.booking.deleted_at ≡ none
      → NestsUnbooked env body.ride db
      → Step soft db (request env locals (some body) db).db
  accepts :
      (env : Env) (locals : Locals) (id : Option ℕ) (db : Db)
      → env.soft_delete ≡ soft
      → Step soft db (accept_route env locals id db).db
  rejects :
      (env : Env) (locals : Locals) (id : Option ℕ) (db : Db)
      → env.soft_delete ≡ soft
      → Step soft db (reject_route env locals id db).db
  deletes :
      (env : Env) (locals : Locals) (id : Option ℕ) (db : Db)
      → env.soft_delete ≡ soft
      → Step soft db (delete_booking env locals id db).db
  removes :
      (env : Env) (locals : Locals) (ride participant : Option ℕ) (db : Db)
      → env.soft_delete ≡ soft
      → Step soft db (remove_ride_participant env locals ride participant db).db
  launches :
      (env : Env) (locals : Locals) (body : RideBody) (db : Db)
      → env.soft_delete ≡ soft
      → All (λ (r : Ride). r.id ≢ env.new_id) db.rides
      → All (λ (b : Booking). b.ride_id ≢ env.new_id) db.bookings
      → body.ride.booked_seats ≡ 0
      → Step soft db (create_ride env locals (some body) db).db
  pulls :
      (env : Env) (locals : Locals) (id : Option ℕ) (db : Db)
      → env.soft_delete ≡ soft
      → Step soft db (delete_ride_by_id env locals id db).db
  dismisses :
      (env : Env) (locals : Locals) (body : Option DismissBody) (db : Db)
      → env.soft_delete ≡ soft
      → Step soft db (dismiss_trip_card env locals body db).db
  acknowledges :
      (env : Env) (locals : Locals) (id : Option ℕ) (text : Option String) (db : Db)
      → env.soft_delete ≡ soft
      → Step soft db (payment_ack env locals id text db).db

pub data Reach (soft : Bool) (start : Db) : Db → Type 0 where
  here : Reach soft start start
  next : {db db' : Db} → Reach soft start db → Step soft db db' → Reach soft start db'

-- The seat contract holds, and no booking is stamped as deleted unless the ORM stamps.
pub record IsSound (soft : Bool) (db : Db) : Type 0 where
  pub balanced : IsBalanced db
  pub unstamped : soft ≡ false → All (λ (b : Booking). b.deleted_at ≡ none) db.bookings

stamp-IsSound :
    {soft : Bool} (f : Booking → Booking)
    → IsStamp f
    → (p : Booking → Bool) (db : Db) → IsSound soft db
    → IsSound soft (record db { bookings = update_where p f db.bookings })
stamp-IsSound f same p db s = record {
  balanced = stamp-IsBalanced f same p db s.balanced;
  unstamped = λ hard.
      All-update p f db.bookings (λ b _ l. same.deleted_at b ∙ l) (λ b _ l. l) (s.unstamped hard);
}

unstamped-IsClean :
    (env : Env) {soft : Bool} (db : Db) → env.soft_delete ≡ soft → IsSound soft db → IsClean env db
unstamped-IsClean env db e s = elim (Bool-cases env.soft_delete) [
  | inl soft ↦ rw soft (All-of _ db.bookings (λ b h. is_none→none b.deleted_at h))
  | inr hard ↦ All-map db.bookings (λ b l h. l) (s.unstamped (sym e ∙ hard))
]

Step-IsSound : {soft : Bool} {db db' : Db} → Step soft db db' → IsSound soft db → IsSound soft db'
Step-IsSound (requests env locals body db e fresh live unbooked) s = record {
  balanced = request-IsBalanced env locals (some body) db fresh unbooked s.balanced;
  unstamped = λ hard. request-IsLive env locals body db live (s.unstamped hard);
}
Step-IsSound (accepts env locals id db e) s = record {
  balanced = accept_route-IsBalanced env locals id db s.balanced;
  unstamped = λ hard. accept_route-IsLive env locals id db (s.unstamped hard);
}
Step-IsSound (rejects env locals id db e) s = record {
  balanced = reject_route-IsBalanced env locals id db s.balanced;
  unstamped = λ hard. reject_route-IsLive env locals id db (s.unstamped hard);
}
Step-IsSound (deletes env locals id db e) s = record {
  balanced = delete_booking-IsBalanced env locals id db s.balanced;
  unstamped = λ hard. delete_booking-IsLive env locals id db (e ∙ hard) (s.unstamped hard);
}
Step-IsSound (removes env locals ride participant db e) s = record {
  balanced =
      remove_ride_participant-IsBalanced env locals ride participant db s.balanced
        (unstamped-IsClean env db e s);
  unstamped = λ hard.
      remove_ride_participant-IsLive env locals ride participant db (e ∙ hard) (s.unstamped hard);
}
Step-IsSound (launches env locals body db e new_row unused unbooked) s = record {
  balanced = create_ride-IsBalanced env locals body db s.balanced new_row unused unbooked;
  unstamped = λ hard. rw (create_ride-bookings env locals body db) (s.unstamped hard);
}
Step-IsSound (pulls env locals id db e) s = record {
  balanced = delete_ride_by_id-IsBalanced env locals id db s.balanced;
  unstamped = λ hard. delete_ride_by_id-All IsLive env locals id db (s.unstamped hard);
}
Step-IsSound {soft} (dismisses env locals body db e) s =
    dismiss_trip_card-keeps (IsSound soft) stamp-IsSound env locals body db s
Step-IsSound {soft} (acknowledges env locals id text db e) s =
    payment_ack-keeps (IsSound soft) stamp-IsSound env locals id text db s

-- From a database in balance (with no booking stamped as deleted, where the ORM removes rows), every
-- history of requests, acceptances, rejections, deletions, participant removals, new rides, ride
-- deletions, dismissals and payment acknowledgements, each as `Step` has it, leads to one in balance:
-- booked_seats is the number of accepted bookings, and within the passenger capacity.
pub Reach-IsSound :
    {soft : Bool} {start db : Db} → IsSound soft start → Reach soft start db → IsSound soft db
Reach-IsSound s here = s
Reach-IsSound s (next r st) = Step-IsSound st (Reach-IsSound s r)
