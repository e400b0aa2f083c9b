-- ===== src/Booking/Atomic.antt =====
-- The error paths of the booking routes.
use uni_pool_new_backend.Base.{ℕ, ◌≡◌, refl, ◌≢◌, Option, none, some, [], arith}
use uni_pool_new_backend.Store.{Db, Env, Locals, missing, malformed, signed_in, Outcome}
use uni_pool_new_backend.Nested.{BookingBody}
use uni_pool_new_backend.Booking.Request.{request}
use uni_pool_new_backend.Booking.Accept.{accept_route}
use uni_pool_new_backend.Booking.Reject.{reject_route}
use uni_pool_new_backend.Booking.Delete.{delete_booking}
use uni_pool_new_backend.Booking.Participants.{remove_ride_participant}

-- An answer other than the successful one leaves the database as it was and tells nobody.
abbrev pub IsAllOrNothing : ℕ → Db → Outcome → Type 0
IsAllOrNothing success db out = out.response.status ≢ success → (out.db ≡ db) × (out.notices ≡ [])

request-IsAllOrNothing :
    (env : Env) (locals : Locals) (body : Option BookingBody) (db : Db)
    → IsAllOrNothing 201 db (request env locals body db)
unfolding request
request-IsAllOrNothing env missing body db h = (refl, refl)
request-IsAllOrNothing env malformed body db h = (refl, refl)
request-IsAllOrNothing env (signed_in user) none db h = (refl, refl)
request-IsAllOrNothing env (signed_in user) (some body) db h = ground arith

accept-IsAllOrNothing :
    (env : Env) (locals : Locals) (id : Option ℕ) (db : Db)
    → IsAllOrNothing 200 db (accept_route env locals id db)
unfolding accept_route
accept-IsAllOrNothing env missing id db h = (refl, refl)
accept-IsAllOrNothing env malformed id db h = (refl, refl)
accept-IsAllOrNothing env (signed_in user) id db h = ground arith

reject-IsAllOrNothing :
    (env : Env) (locals : Locals) (id : Option ℕ) (db : Db)
    → IsAllOrNothing 200 db (reject_route env locals id db)
unfolding reject_route
reject-IsAllOrNothing env missing id db h = (refl, refl)
reject-IsAllOrNothing env malformed id db h = (refl, refl)
reject-IsAllOrNothing env (signed_in user) id db h = ground arith

delete-IsAllOrNothing :
    (env : Env) (locals : Locals) (id : Option ℕ) (db : Db)
    → IsAllOrNothing 200 db (delete_booking env locals id db)
unfolding delete_booking
delete-IsAllOrNothing env missing id db h = (refl, refl)
delete-IsAllOrNothing env malformed id db h = (refl, refl)
delete-IsAllOrNothing env (signed_in user) none db h = (refl, refl)
delete-IsAllOrNothing env (signed_in user) (some id) db h = ground arith

remove-IsAllOrNothing :
    (env : Env) (locals : Locals) (ride participant : Option ℕ) (db : Db)
    → IsAllOrNothing 200 db (remove_ride_participant env locals ride participant db)
unfolding remove_ride_participant
remove-IsAllOrNothing env missing ride participant db h = (refl, refl)
remove-IsAllOrNothing env malformed ride participant db h = (refl, refl)
remove-IsAllOrNothing env (signed_in user) none participant db h = (refl, refl)
remove-IsAllOrNothing env (signed_in user) (some ride_id) none db h = (refl, refl)
remove-IsAllOrNothing env (signed_in user) (some ride_id) (some participant_id) db h = ground arith

-- Request, accept, reject, delete and remove a participant: whoever calls, and whichever statement
-- fails, an answer other than success leaves the database as it was, and nobody is told anything.
pub all_or_nothing :
    (env : Env) (locals : Locals) (body : Option BookingBody) (id participant : Option ℕ) (db : Db)
    → IsAllOrNothing 201 db (request env locals body db)
      × IsAllOrNothing 200 db (accept_route env locals id db)
      × IsAllOrNothing 200 db (reject_route env locals id db)
      × IsAllOrNothing 200 db (delete_booking env locals id db)
      × IsAllOrNothing 200 db (remove_ride_participant env locals id participant db)
all_or_nothing env locals body id participant db = (
  request-IsAllOrNothing env locals body db,
  accept-IsAllOrNothing env locals id db,
  reject-IsAllOrNothing env locals id db,
  delete-IsAllOrNothing env locals id db,
  remove-IsAllOrNothing env locals id participant db,
)
