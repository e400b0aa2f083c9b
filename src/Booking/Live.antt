-- ===== src/Booking/Live.antt =====
-- The booking routes on rows whose deleted_at is empty, where the ORM removes rows.
use uni_pool_new_backend.Base.{
  ℕ, ◌≡◌, false, ◌&&◌, Option, none, some, List, arith, All, All-update, All-delete, All-append,
  Option-cases, [], ◌∷◌, ◌==◌, update_where, find_where, inl, inr,
}
use uni_pool_new_backend.Model.{User, Ride, Booking, RequestStatus}
use uni_pool_new_backend.Store.{
  Db, Env, Locals, missing, malformed, signed_in, visible, delete_bookings,
}
use uni_pool_new_backend.Booking.Load.{load_booking}
use uni_pool_new_backend.Nested.{BookingBody}
use uni_pool_new_backend.Booking.Request.{
  Preflight, new_booking, load_target, request_target, request,
}
use uni_pool_new_backend.Booking.Accept.{still_pending, set_status, accept_route}
use uni_pool_new_backend.Booking.Reject.{reject_route}
use uni_pool_new_backend.Booking.Removal.{removed_db}
use uni_pool_new_backend.Booking.Delete.{join_host_row, delete_booking}
use uni_pool_new_backend.Booking.Participants.{
  find_participant, remove_from_ride, remove_ride_participant,
}

abbrev pub IsLive : Booking → Type 0
IsLive b = b.deleted_at ≡ none

pub removed_db-IsLive :
    (env : Env) (booking : Booking) (db : Db)
    → env.soft_delete ≡ false
    → All IsLive db.bookings
    → All IsLive (removed_db env booking db).bookings
unfolding removed_db delete_bookings
removed_db-IsLive env booking db hard a = rw hard (All-delete IsLive _ db.bookings a)

pub set_status-IsLive :
    (env : Env) (id : ℕ) (status : RequestStatus) (bs : List Booking)
    → All IsLive bs
    → All IsLive (update_where (still_pending env id) (set_status status) bs)
set_status-IsLive env id status bs a =
    All-update (still_pending env id) (set_status status) bs (λ b _ l. l) (λ b _ l. l) a

pub accept_route-IsLive :
    (env : Env) (locals : Locals) (id : Option ℕ) (db : Db)
    → All IsLive db.bookings
    → All IsLive (accept_route env locals id db).db.bookings
unfolding accept_route
accept_route-IsLive env missing id db a = a
accept_route-IsLive env malformed id db a = a
accept_route-IsLive env (signed_in user) id db a = elim (Option-cases (load_booking env id db)) [
  | inl e ↦ rw e a
  | inr (row, e) ↦
      rw e
        (ground (arith, set_status-IsLive env row.booking.id RequestStatus.accepted db.bookings a))
]

pub reject_route-IsLive :
    (env : Env) (locals : Locals) (id : Option ℕ) (db : Db)
    → All IsLive db.bookings
    → All IsLive (reject_route env locals id db).db.bookings
unfolding reject_route
reject_route-IsLive env missing id db a = a
reject_route-IsLive env malformed id db a = a
reject_route-IsLive env (signed_in user) id db a = elim (Option-cases (load_booking env id db)) [
  | inl e ↦ rw e a
  | inr (row, e) ↦
      rw e
        (ground (arith, set_status-IsLive env row.booking.id RequestStatus.rejected db.bookings a))
]

pub delete_booking-IsLive :
    (env : Env) (locals : Locals) (id : Option ℕ) (db : Db)
    → env.soft_delete ≡ false
    → All IsLive db.bookings
    → All IsLive (delete_booking env locals id db).db.bookings
unfolding delete_booking
delete_booking-IsLive env missing id db hard a = a
delete_booking-IsLive env malformed id db hard a = a
delete_booking-IsLive env (signed_in user) none db hard a = a
delete_booking-IsLive env (signed_in user) (some id) db hard a =
    elim (Option-cases (join_host_row id db)) [
      | inl e ↦ rw e (ground arith)
      | inr (row, e) ↦ rw e (ground (arith, removed_db-IsLive env row.booking db hard a))
    ]

pub remove_from_ride-IsLive :
    (env : Env) (user : User) (participant : ℕ) (ride : Option Ride) (db : Db)
    → env.soft_delete ≡ false
    → All IsLive db.bookings
    → All IsLive (remove_from_ride env user participant ride db).db.bookings
unfolding remove_from_ride
remove_from_ride-IsLive env user participant none db hard a = a
remove_from_ride-IsLive env user participant (some ride) db hard a =
    elim (Option-cases (find_participant env ride.id participant db)) [
      | inl e ↦ rw e (ground arith)
      | inr (booking, e) ↦ rw e (ground (arith, removed_db-IsLive env booking db hard a))
    ]

pub remove_ride_participant-IsLive :
    (env : Env) (locals : Locals) (ride participant : Option ℕ) (db : Db)
    → env.soft_delete ≡ false
    → All IsLive db.bookings
    → All IsLive (remove_ride_participant env locals ride participant db).db.bookings
unfolding remove_ride_participant
remove_ride_participant-IsLive env missing ride participant db hard a = a
remove_ride_participant-IsLive env malformed ride participant db hard a = a
remove_ride_participant-IsLive env (signed_in user) none participant db hard a = a
remove_ride_participant-IsLive env (signed_in user) (some ride_id) none db hard a = a
remove_ride_participant-IsLive env (signed_in user) (some ride_id) (some participant) db hard a =
    let found = find_where (λ r. r.id == ride_id && visible env r.deleted_at) db.rides in
    ground (arith, remove_from_ride-IsLive env user participant found db hard a)

pub request_target-IsLive :
    (env : Env) (user : User) (target : Option Preflight) (body : BookingBody) (db : Db)
    → body.booking.deleted_at ≡ none
    → All IsLive db.bookings
    → All IsLive (request_target env user target body db).db.bookings
unfolding request_target
request_target-IsLive env user none body db l a = a
request_target-IsLive env user (some target) body db l a =
    ground (arith, All-append IsLive db.bookings (new_booking env user target body ∷ []) a (l, tt))

pub request-IsLive :
    (env : Env) (locals : Locals) (body : BookingBody) (db : Db)
    → body.booking.deleted_at ≡ none
    → All IsLive db.bookings
    → All IsLive (request env locals (some body) db).db.bookings
unfolding request
request-IsLive env missing body db l a = a
request-IsLive env malformed body db l a = a
request-IsLive env (signed_in user) body db l a =
    ground
      (arith, request_target-IsLive env user (load_target env user body.booking db) body db l a)
