-- ===== src/Model.antt =====
-- models/: the rows of the tables users, rides, bookings, messages and user_metadata (UserModel.go,
-- RideModel.go, BookingModel.go, MessageModel.go, UserMetadata.go, BaseModel.go), and Go's tests on the
-- status strings.
use uni_pool_new_backend.Text.{codes, codes_eq}
use uni_pool_new_backend.Base.{ℕ, Bool, true, false, Option, String}

-- An id is a number, and 0 is `uuid.Nil`. An instant is a number of nanoseconds.
pub record User : Type 0 where
  pub id : ℕ
  pub deleted_at : Option ℕ
  pub name : String
  pub email : String
  pub gender : String

-- The values of the column request_status. `blank` is Go's zero value.
pub data RequestStatus : Type 0 where
  blank pending accepted rejected : RequestStatus
  other : String → RequestStatus

-- The values of the column payment_status.
pub data PaymentStatus : Type 0 where
  unset pending confirmed disputed : PaymentStatus

-- The values of the column dismissal_signal.
pub data DismissalSignal : Type 0 where
  active paid no_show cancelled : DismissalSignal

-- A latitude or longitude column: a decimal with eight digits behind the point, in units of the
-- last one.
pub data Coordinate : Type 0 where
  north_east : ℕ → Coordinate
  south_west : ℕ → Coordinate

pub record Ride : Type 0 where
  pub id : ℕ
  pub deleted_at : Option ℕ
  pub host_user_id : ℕ
  pub start_location : String
  pub end_location : String
  pub start_latitude : Option Coordinate
  pub start_longitude : Option Coordinate
  pub end_latitude : Option Coordinate
  pub end_longitude : Option Coordinate
  pub start_time : ℕ
  pub total_seats : ℕ
  pub booked_seats : ℕ
  pub total_price : ℕ
  pub is_ongoing : ℕ
  pub is_same_gender : ℕ
  pub vehicle_info : String
  pub update_notif_last_sent_at : Option ℕ

pub record Booking : Type 0 where
  pub id : ℕ
  pub created_at : ℕ
  pub deleted_at : Option ℕ
  pub ride_id : ℕ
  pub passenger_id : ℕ
  pub request_status : RequestStatus
  pub dismissed_at : Option ℕ
  pub dismissal_signal : DismissalSignal
  pub payment_status : PaymentStatus
  pub payment_confirmed_at : Option ℕ

pub record Message : Type 0 where
  pub id : ℕ
  pub deleted_at : Option ℕ
  pub ride_id : Option ℕ
  pub sender_id : ℕ
  pub content : String

pub record UserMetadata : Type 0 where
  pub id : ℕ
  pub deleted_at : Option ℕ
  pub user_id : ℕ
  pub fcm_token : String

abbrev pub is_blank : RequestStatus → Bool
is_blank RequestStatus.blank = true
is_blank _ = false

abbrev pub is_pending : RequestStatus → Bool
is_pending RequestStatus.pending = true
is_pending _ = false

abbrev pub is_accepted : RequestStatus → Bool
is_accepted RequestStatus.accepted = true
is_accepted _ = false

abbrev pub is_rejected : RequestStatus → Bool
is_rejected RequestStatus.rejected = true
is_rejected _ = false

-- `==` on the status strings.
unfoldable pub status_eq : RequestStatus → RequestStatus → Bool
status_eq RequestStatus.blank RequestStatus.blank = true
status_eq RequestStatus.pending RequestStatus.pending = true
status_eq RequestStatus.accepted RequestStatus.accepted = true
status_eq RequestStatus.rejected RequestStatus.rejected = true
status_eq (RequestStatus.other s) (RequestStatus.other t) = codes_eq (codes s) (codes t)
status_eq _ _ = false
