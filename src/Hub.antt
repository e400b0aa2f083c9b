-- ===== src/Hub.antt =====
-- The hub of initializer/websocket.go: the connections of the chat, their rooms, and what is sent
-- under the lock. A set of clients is a flag of each client: `registered` for Clients, and `in_room` for
-- the set of its own room in Rooms, the only one that it is ever put into; `rooms` are the keys of Rooms.
-- A send to or a close of a closed channel panics: `none`. Users and rooms are numbers, and 0 is the
-- empty text.
pub mod Calls
pub mod Sound
pub mod Leave
pub mod Run
pub mod Presence
use uni_pool_new_backend.Base.{
  ℕ, suc, ◌+◌, Bool, true, false, not, ◌&&◌, Option, none, some, String, List, [], ◌∷◌, ◌++◌, ◌==◌,
  ltb, if◌then◌else◌, count_where, update_where, delete_where, put_where,
}

pub record Client : Type 0 where
  pub id : ℕ
  pub user_id : ℕ
  pub room_id : ℕ
  pub name : String

pub record UserPresence : Type 0 where
  pub user_id : ℕ
  pub user_name : String

-- What goes over a connection. `payload` is a chat message.
pub data HubMessage : Type 0 where
  user_joined user_left : ℕ → String → ℕ → HubMessage
  presence_snapshot : ℕ → List UserPresence → HubMessage
  typing : ℕ → String → ℕ → Bool → HubMessage
  message_status : ℕ → ℕ → String → HubMessage
  payload : ℕ → HubMessage

-- A client with the contents of its channel Send.
pub record Conn : Type 0 where
  pub client : Client
  pub send : List HubMessage
  pub closed : Bool
  pub registered : Bool
  pub in_room : Bool

pub record Hub : Type 0 where
  pub conns : List Conn
  pub rooms : List ℕ

abbrev pub send_capacity : ℕ
send_capacity = 256

unfoldable pub pending : List HubMessage → ℕ
pending [] = 0
pending (m ∷ ms) = suc (pending ms)

abbrev pub is_member_of : ℕ → Conn → Bool
is_member_of room_id c = c.in_room && c.client.room_id == room_id

unfoldable pub has_key : ℕ → List ℕ → Bool
has_key room_id rooms = not (count_where (λ r. r == room_id) rooms == 0)

abbrev pub pushed : HubMessage → Conn → Conn
pushed m c = record c { send = c.send ++ (m ∷ []) }

-- close(client.Send), and the two deletions.
abbrev pub dropped : Conn → Conn
dropped c = record c { closed = true; registered = false; in_room = false }

-- The select with a default that drops a client whose buffer is full.
unfoldable pub deliver : HubMessage → Conn → Option Conn
deliver m c =
    if c.closed
    then none
    else if ltb (pending c.send) send_capacity
    then some (pushed m c)
    else some (dropped c)

abbrev pub both : Option Conn → Option (List Conn) → Option (List Conn)
both none cs = none
both (some c) none = none
both (some c) (some cs) = some (c ∷ cs)

-- The loop over the clients that fit.
unfoldable pub deliver_where : (Conn → Bool) → HubMessage → List Conn → Option (List Conn)
deliver_where p m [] = some []
deliver_where p m (c ∷ cs) =
    let rest = deliver_where p m cs in both (if p c then deliver m c else some c) rest

abbrev pub with_conns : Hub → Option (List Conn) → Option Hub
with_conns hub none = none
with_conns hub (some conns) = some (record hub { conns = conns })

unfoldable pub user_connection_count : ℕ → ℕ → Hub → ℕ
user_connection_count room_id user_id hub =
    count_where (λ c. is_member_of room_id c && c.client.user_id == user_id) hub.conns

-- usersByID, with the name of the last connection.
unfoldable pub users_by_id : ℕ → List Conn → List UserPresence → List UserPresence
users_by_id room_id [] users = users
users_by_id room_id (c ∷ cs) users =
    let x : UserPresence = record { user_id = c.client.user_id; user_name = c.client.name } in
    let put = users_by_id room_id cs (put_where (λ u. u.user_id == x.user_id) (λ _. x) x users) in
    let pass = users_by_id room_id cs users in if is_member_of room_id c then put else pass

unfoldable pub presence_snapshot_locked : ℕ → List Conn → HubMessage
presence_snapshot_locked room_id conns = presence_snapshot room_id (users_by_id room_id conns [])
