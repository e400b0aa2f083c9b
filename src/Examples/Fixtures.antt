-- ===== src/Examples/Fixtures.antt =====
-- A small database: Asha hosts ride 10 for three people; Bina has a seat, Chitra waits.
use uni_pool_new_backend.Base.{ℕ, refl, true, false, none, some, [], ◌∷◌, arith, count_where}
use uni_pool_new_backend.Model.{
  User, Ride, Booking, Message, UserMetadata, RequestStatus, PaymentStatus, DismissalSignal,
}
use uni_pool_new_backend.Store.{Db, Env}
use uni_pool_new_backend.Booking.Request.{accepted_count}
use uni_pool_new_backend.Ledger.{IsBalanced}
use uni_pool_new_backend.Seats.{passenger_capacity}

abbrev pub asha : User
asha = record {
  id = 1;
  deleted_at = none;
  name = "Asha";
  email = "asha@vit.ac.in";
  gender = "Female";
}

abbrev pub bina : User
bina = record {
  id = 2;
  deleted_at = none;
  name = "Bina";
  email = "bina@vit.ac.in";
  gender = "female";
}

abbrev pub chitra : User
chitra = record {
  id = 3;
  deleted_at = none;
  name = "Chitra";
  email = "chitra@vit.ac.in";
  gender = "female";
}

abbrev pub dev : User
dev = record { id = 4; deleted_at = none; name = "Dev"; email = "dev@vit.ac.in"; gender = "male" }

abbrev pub ride_ten : Ride
ride_ten = record {
  id = 10;
  deleted_at = none;
  host_user_id = 1;
  start_location = "VIT Vellore";
  end_location = "Chennai";
  start_latitude = none;
  start_longitude = none;
  end_latitude = none;
  end_longitude = none;
  start_time = 1000;
  total_seats = 3;
  booked_seats = 1;
  total_price = 900;
  is_ongoing = 0;
  is_same_gender = 1;
  vehicle_info = "";
  update_notif_last_sent_at = none;
}

abbrev pub booking_of : ℕ → ℕ → RequestStatus → Booking
booking_of id passenger status = record {
  id = id;
  created_at = 5;
  deleted_at = none;
  ride_id = 10;
  passenger_id = passenger;
  request_status = status;
  dismissed_at = none;
  dismissal_signal = DismissalSignal.active;
  payment_status = PaymentStatus.unset;
  payment_confirmed_at = none;
}

abbrev pub seated : Booking
seated = booking_of 20 2 RequestStatus.accepted

abbrev pub waiting : Booking
waiting = booking_of 21 3 RequestStatus.pending

abbrev pub hello : Message
hello = record {
  id = 30;
  deleted_at = none;
  ride_id = some 10;
  sender_id = 1;
  content = "At the gate";
}

abbrev pub phone : UserMetadata
phone = record { id = 40; deleted_at = none; user_id = 1; fcm_token = "t" }

abbrev pub start : Db
start = record {
  users = asha ∷ bina ∷ chitra ∷ dev ∷ [];
  rides = ride_ten ∷ [];
  bookings = seated ∷ waiting ∷ [];
  messages = hello ∷ [];
  metadata = phone ∷ [];
}

-- A request at time 100, with no failures, under an ORM that removes rows.
abbrev pub calm : Env
calm = record {
  now = 100;
  elapsed = 1;
  new_id = 50;
  nested_ride_id = 51;
  nested_host_id = 52;
  nested_passenger_id = 53;
  fcm_ready = true;
  soft_delete = false;
  fails = λ _. false;
}

pub start-IsBalanced : IsBalanced start
unfolding accepted_count count_where passenger_capacity
start-IsBalanced = record {
  rides_keyed = (tt, tt);
  bookings_keyed = ((omega arith, tt), (tt, tt));
  seated = ((refl, omega arith), tt);
}
