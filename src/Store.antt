-- ===== src/Store.antt =====
-- What the handlers share: the database that they work on, what each request draws from outside,
-- and what a handler gives back.
--
-- A statement of the program is one of the functions of Base/Tables over the rows. What the ORM and
-- the database decide themselves is in `Env`: which statements fail, and whether a `Delete` of the
-- ORM removes the row or stamps its deleted_at (it then adds `deleted_at IS NULL` to its own
-- queries). Theorems hold for both.
use uni_pool_new_backend.Base.{
  ℕ, Bool, true, ◌&&◌, Option, some, String, List, [], ◌∷◌, is_none, if◌then◌else◌, update_where,
  delete_where,
}
use uni_pool_new_backend.Model.{User, Ride, Booking, Message, UserMetadata}

pub record Db : Type 0 where
  pub users : List User
  pub rides : List Ride
  pub bookings : List Booking
  pub messages : List Message
  pub metadata : List UserMetadata

-- The statements that may fail.
pub data Stmt : Type 0 where
  begin_tx load_row load_user load_booking count_rows fetch_pending : Stmt
  reserve_seat release_seat update_booking rewrite_booking update_ride : Stmt
  delete_row create_row commit : Stmt
  find_hosted find_accepted transfer_rides delete_promoted delete_ride_bookings delete_rides : Stmt
  find_soon delete_passenger find_placeholder create_placeholder update_messages : Stmt
  delete_metadata delete_account stamp_notice : Stmt
  find_domain find_challenge create_challenge delete_challenge count_attempt : Stmt
  consume_challenge mark_verified : Stmt
  find_ratings save_ratings : Stmt
  find_role find_relation create_message save_read find_messages : Stmt

pub record Env : Type 0 where
  pub now : ℕ  -- time.Now()
  pub elapsed : ℕ  -- from there to the ORM's stamp of a new row
  pub new_id : ℕ  -- uuid.NewUUID(), of BeforeCreate
  pub nested_ride_id : ℕ  -- the same for a ride, its host and a passenger that a body nests
  pub nested_host_id : ℕ
  pub nested_passenger_id : ℕ
  pub fcm_ready : Bool  -- services.GetFCMService() != nil
  pub soft_delete : Bool
  pub fails : Stmt → Bool

-- The value under c.Locals("user"): no value, a value of another type, or the caller.
pub data Locals : Type 0 where
  missing malformed : Locals
  signed_in : User → Locals

pub record Response : Type 0 where
  pub status : ℕ
  pub message : String

pub data NoticeKind : Type 0 where
  requested accepted rejected withdrawn removed ride_updated ride_cancelled_pending : NoticeKind

-- The kinds of system messages in a ride's chat.
pub data MessageKind : Type 0 where
  payment_marker payment_ack : MessageKind

-- A push or an email that a handler starts, with its recipient's id; or a system message, with its
-- ride's, its sender's and its booking's id (chat.PostSystemMessage).
pub data Notice : Type 0 where
  push : NoticeKind → ℕ → Notice
  mail : NoticeKind → ℕ → Notice
  post : MessageKind → ℕ → ℕ → ℕ → Notice

pub record Outcome : Type 0 where
  pub db : Db
  pub response : Response
  pub notices : List Notice

-- A push, if there is a push service, and an email (sendBookingEmailIfAllowed).
abbrev pub notify : Env → NoticeKind → ℕ → List Notice
notify env kind user =
    if env.fcm_ready then push kind user ∷ mail kind user ∷ [] else mail kind user ∷ []

-- An early return, with nothing committed.
abbrev pub refuse : Db → ℕ → String → Outcome
refuse db status message = record {
  db = db;
  response = record { status = status; message = message };
  notices = [];
}

-- What the ORM's own queries see of a row.
abbrev pub visible : Env → Option ℕ → Bool
visible env deleted_at = if env.soft_delete then is_none deleted_at else true

-- The ORM's `Delete` on bookings that fit.
unfoldable pub delete_bookings : Env → (Booking → Bool) → List Booking → List Booking
delete_bookings env p bookings =
    if env.soft_delete
    then update_where (λ b. p b && is_none b.deleted_at)
        (λ b. record b { deleted_at = some env.now }) bookings
    else delete_where p bookings

-- The ORM's `Delete` on rides that fit. The bookings of a ride that is removed go by the foreign key's
-- ON DELETE CASCADE; the callers write that out.
unfoldable pub delete_rides_where : Env → (Ride → Bool) → List Ride → List Ride
delete_rides_where env p rides =
    if env.soft_delete
    then update_where (λ r. p r && is_none r.deleted_at)
        (λ r. record r { deleted_at = some env.now }) rides
    else delete_where p rides
