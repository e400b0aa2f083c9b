-- ===== src/Chat/Pages.antt =====
-- GetRideMessages and GetDMMessages of routes/chat/chat.go.
--
-- Two messages of the same time come in an order that the database chooses: here, in the stored one.
-- The outer query states no order, and the rows are taken in the order of its subquery `page`.
-- The kind and the metadata of a message and the picture of its sender are left out, and a page has
-- the readers of a message as ids, not as a text of ids between commas.
pub mod Order
pub mod Shown
pub mod Readers
use uni_pool_new_backend.Base.{
  ℕ, zero, suc, ◌+◌, ◌-◌, ◌*◌, Bool, true, false, not, ◌&&◌, ◌||◌, Option, none, some, String, List,
  [], ◌∷◌, ◌++◌, ltb, leb, ◌==◌, is_none, if◌then◌else◌, find_where, count_where,
}
use uni_pool_new_backend.Model.{User, Ride, Booking, RequestStatus}
use uni_pool_new_backend.Store.{
  Db, Env, Locals, missing, malformed, signed_in, Response, find_messages, save_read,
}
use uni_pool_new_backend.Text.{codes, codes_eq, is_empty, normalize}
use uni_pool_new_backend.Chat.Rooms.{parse_dm_room_id}
use uni_pool_new_backend.Chat.Access.{
  ChatMessage, ViewerRole, role_host, role_none, role_in, is_viewer_booking, is_participant,
  is_related,
}
use uni_pool_new_backend.Chat.Query.{PageQuery, parse_limit, should_mark_read}
use uni_pool_new_backend.Chat.Reads.{
  ChatRead, is_ride, is_dm_room, upsert_ride_read_cursor, upsert_dm_read_cursor,
}

pub record MessageRow : Type 0 where
  pub message : ChatMessage
  pub sender_name : String
  pub read_by : List ℕ

pub record Page : Type 0 where
  pub messages : List MessageRow
  pub count : ℕ
  pub has_more : Bool
  pub reads : List ChatRead
  pub response : Response

-- `m.created_at < before`, with a cursor.
abbrev pub is_before : Option ℕ → ℕ → Bool
is_before none created_at = true
is_before (some before) created_at = ltb created_at before

abbrev pub is_sender : ChatMessage → User → Bool
is_sender m u = u.id == m.sender_id

-- The WHERE and the JOIN of `page`.
abbrev pub fits_page : (ChatMessage → Bool) → Option ℕ → List User → ChatMessage → Bool
fits_page in_room before users m =
    in_room m
    && (is_none m.deleted_at
        && (is_before before m.created_at && not (is_none (find_where (is_sender m) users))))

unfoldable pub insert_newest : ChatMessage → List ChatMessage → List ChatMessage
insert_newest x [] = x ∷ []
insert_newest x (y ∷ ys) =
    let further = y ∷ insert_newest x ys in
    if leb y.created_at x.created_at then x ∷ y ∷ ys else further

-- `ORDER BY m.created_at DESC`, of the rows that fit.
unfoldable pub newest_first : (ChatMessage → Bool) → List ChatMessage → List ChatMessage
newest_first p [] = []
newest_first p (m ∷ ms) = let rest = newest_first p ms in if p m then insert_newest m rest else rest

-- `LIMIT`
unfoldable pub take {ℓ} : {A : Type ℓ} → ℕ → List A → List A
take n [] = []
take zero (x ∷ xs) = []
take (suc n) (x ∷ xs) = x ∷ take n xs

unfoldable pub length {ℓ} : {A : Type ℓ} → List A → ℕ
length [] = 0
length (x ∷ xs) = length xs + 1

abbrev pub name_of : Option User → String
name_of none = ""
name_of (some u) = u.name

-- The readers of a message, but for its sender.
unfoldable pub readers_of : (ChatRead → Bool) → ChatMessage → List ChatRead → List ℕ
readers_of in_room m [] = []
readers_of in_room m (x ∷ xs) =
    let rest = readers_of in_room m xs in
    if is_none x.deleted_at
      && (in_room x && (not (x.user_id == m.sender_id) && leb m.created_at x.last_read_at))
    then x.user_id ∷ rest
    else rest

abbrev pub message_row : (ChatRead → Bool) → List User → List ChatRead → ChatMessage → MessageRow
message_row in_room users reads m = record {
  message = m;
  sender_name = name_of (find_where (is_sender m) users);
  read_by = readers_of in_room m reads;
}

-- The loop from the last row to the first.
unfoldable pub transform_reversed {ℓ κ} : {A : Type ℓ} {B : Type κ} → (A → B) → List A → List B
transform_reversed f [] = []
transform_reversed f (x ∷ xs) = transform_reversed f xs ++ (f x ∷ [])

abbrev pub refuse_page : List ChatRead → ℕ → String → Page
refuse_page reads status message = record {
  messages = [];
  count = 0;
  has_more = false;
  reads = reads;
  response = record { status = status; message = message };
}

-- The rows of `page`.
unfoldable pub page_rows :
    (ChatMessage → Bool) → PageQuery → List User → List ChatMessage → List ChatMessage
page_rows in_room query users messages =
    take (parse_limit query.limit) (newest_first (fits_page in_room query.before users) messages)

-- The answer with the rows that the query found.
unfoldable pub answer_page :
    (ChatMessage → MessageRow) → PageQuery → List ChatMessage → List ChatRead → Page
answer_page row query found reads =
    let transformed = transform_reversed row found in
    record {
      messages = transformed;
      count = length transformed;
      has_more = length found == parse_limit query.limit;
      reads = reads;
      response = record { status = 200; message = "" };
    }

-- A write of the cursor that fails is only logged.
abbrev pub mark_page : Env → PageQuery → List ChatRead → List ChatRead → List ChatRead
mark_page env query marked reads =
    if should_mark_read query.mark_read && not (env.fails save_read) then marked else reads

abbrev pub says_host : Option Booking → Bool
says_host none = false
says_host (some b) = elim b.request_status [
  | RequestStatus.other s ↦ codes_eq (codes s) (codes "host")
  | _ ↦ false
]

-- The CASE of `membership` gives the status as it stands: the text "host" counts as the host.
unfoldable pub viewer_role : ℕ → ℕ → List Booking → Option Ride → ViewerRole
viewer_role user_id ride_id bookings none = role_none
viewer_role user_id ride_id bookings (some r) =
    if says_host (find_where (is_viewer_booking user_id ride_id) bookings)
    then role_host
    else role_in user_id ride_id bookings (some r)

unfoldable pub ride_page : Env → User → ℕ → PageQuery → Db → List ChatMessage → List ChatRead → Page
ride_page env user ride_id query db messages reads =
    if env.fails find_messages
    then refuse_page reads 500 "failed to fetch messages"
    else if not (
        is_participant
          (viewer_role user.id ride_id db.bookings (find_where (λ r. r.id == ride_id) db.rides)))
    then refuse_page reads 403 "not a participant in this ride"
    else answer_page (message_row (λ x. is_ride ride_id x.ride_id) db.users reads) query
        (page_rows (λ m. is_ride ride_id m.ride_id) query db.users messages)
        (mark_page env query (upsert_ride_read_cursor user.id ride_id env.now reads) reads)

unfoldable pub get_ride_messages :
    Env → Locals → Option ℕ → PageQuery → Db → List ChatMessage → List ChatRead → Page
get_ride_messages env locals none query db messages reads = refuse_page reads 400 "invalid ride id"
get_ride_messages env missing (some ride_id) query db messages reads =
    refuse_page reads 401 "User not authenticated or found"
get_ride_messages env malformed (some ride_id) query db messages reads =
    refuse_page reads 401 "User not authenticated or found"
get_ride_messages env (signed_in user) (some ride_id) query db messages reads =
    ride_page env user ride_id query db messages reads

unfoldable pub dm_page :
    Env → User → List ℕ → Option (ℕ × ℕ) → PageQuery → Db → List ChatMessage → List ChatRead → Page
dm_page env user room_id none query db messages reads =
    refuse_page reads 400 "invalid dm room id format"
dm_page env user room_id (some (a, b)) query db messages reads =
    let other = if user.id == b then a else b in
    if not (user.id == a) && not (user.id == b)
    then refuse_page reads 403 "not a participant in this dm"
    else if env.fails find_messages
    then refuse_page reads 500 "failed to fetch messages"
    else if not (is_related user.id other db)
    then refuse_page reads 403 "not a participant in this dm"
    else answer_page (message_row (λ x. is_dm_room room_id x.dm_room_id) db.users reads) query
        (page_rows (λ m. is_dm_room room_id m.dm_room_id) query db.users messages)
        (mark_page env query (upsert_dm_read_cursor user.id room_id env.now reads) reads)

module _ (uuid_string : ℕ → List ℕ) (uuid_parse : List ℕ → Option ℕ) where
  unfoldable pub get_dm_messages :
      Env → Locals → List ℕ → PageQuery → Db → List ChatMessage → List ChatRead → Page
  get_dm_messages env missing room_id query db messages reads =
      refuse_page reads 401 "User not authenticated or found"
  get_dm_messages env malformed room_id query db messages reads =
      refuse_page reads 401 "User not authenticated or found"
  get_dm_messages env (signed_in user) room_id query db messages reads =
      dm_page env user room_id (parse_dm_room_id uuid_string uuid_parse room_id) query db messages
        reads
