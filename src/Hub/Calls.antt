-- ===== src/Hub/Calls.antt =====
-- The steps of run, the broadcasts and the readers of initializer/websocket.go, and the two handlers
-- of initializer/websocket_client.go that pass on what a client sends.
use uni_pool_new_backend.Base.{
  ℕ, ◌+◌, Bool, true, false, not, ◌&&◌, ◌||◌, Option, none, some, String, List, [], ◌∷◌, ◌++◌, ◌==◌,
  if◌then◌else◌, count_where, update_where, delete_where, find_where,
}
use uni_pool_new_backend.Hub.{
  Client, HubMessage, user_joined, user_left, typing, message_status, Conn, Hub, is_member_of,
  has_key, pushed, dropped, deliver_where, with_conns, user_connection_count,
  presence_snapshot_locked,
}

-- h.Broadcast
unfoldable pub broadcast : HubMessage → Hub → Option Hub
broadcast m hub = with_conns hub (deliver_where (λ c. c.registered) m hub.conns)

unfoldable pub broadcast_to_room : ℕ → HubMessage → Hub → Option Hub
broadcast_to_room room_id m hub =
    let sent = with_conns hub (deliver_where (is_member_of room_id) m hub.conns) in
    if has_key room_id hub.rooms then sent else some hub

unfoldable pub broadcast_to_room_except_sender : ℕ → ℕ → HubMessage → Hub → Option Hub
broadcast_to_room_except_sender room_id sender m hub =
    let sent =
      with_conns hub
        (deliver_where (λ c. is_member_of room_id c && not (c.client.id == sender)) m hub.conns) in
    if has_key room_id hub.rooms then sent else some hub

abbrev pub fresh_conn : Client → Conn
fresh_conn client = record {
  client = client;
  send = [];
  closed = false;
  registered = true;
  in_room = true;
}

-- h.Rooms[client.RoomID], made if it is nil.
unfoldable pub add_room : ℕ → List ℕ → List ℕ
add_room room_id rooms = if has_key room_id rooms then rooms else room_id ∷ rooms

-- The part of h.Register under the lock; the snapshot goes into an empty buffer.
unfoldable pub join : Client → Hub → Hub
join client hub =
    let conns = hub.conns ++ (fresh_conn client ∷ []) in
    let snapshot = presence_snapshot_locked client.room_id conns in
    record {
      conns = hub.conns ++ (pushed snapshot (fresh_conn client) ∷ []);
      rooms = add_room client.room_id hub.rooms;
    }

unfoldable pub register : Client → Hub → Option Hub
register client hub =
    let joined = join client hub in
    if user_connection_count client.room_id client.user_id hub == 0
    then broadcast_to_room_except_sender client.room_id client.id
        (user_joined client.user_id client.name client.room_id) joined
    else some joined

-- A room that has become empty loses its key.
unfoldable pub prune_room : ℕ → List Conn → List ℕ → List ℕ
prune_room room_id conns rooms =
    if count_where (is_member_of room_id) conns == 0
    then delete_where (λ r. r == room_id) rooms
    else rooms

-- The part of h.Unregister under the lock, for a client that is registered.
unfoldable pub leave : Client → Hub → Hub
leave client hub =
    let conns = update_where (λ c. c.client.id == client.id) dropped hub.conns in
    record { conns = conns; rooms = prune_room client.room_id conns hub.rooms }

unfoldable pub leave_conn : Conn → Hub → Option Hub
leave_conn c hub =
    let left = leave c.client hub in
    if c.closed
    then none
    else if user_connection_count c.client.room_id c.client.user_id left == 0
    then broadcast_to_room c.client.room_id
        (user_left c.client.user_id c.client.name c.client.room_id) left
    else some left

unfoldable pub unregister : ℕ → Hub → Option Hub
unregister id hub = elim (find_where (λ c. c.client.id == id && c.registered) hub.conns) [
  | none ↦ some hub
  | some c ↦ leave_conn c hub
]

-- What unregister does before it gives the lock back.
unfoldable pub unregister_locked : ℕ → Hub → Option Hub
unregister_locked id hub = elim (find_where (λ c. c.client.id == id && c.registered) hub.conns) [
  | none ↦ some hub
  | some c ↦ if c.closed then none else some (leave c.client hub)
]

abbrev pub tail_of : List HubMessage → List HubMessage
tail_of [] = []
tail_of (m ∷ ms) = ms

-- writePump takes a message.
unfoldable pub drain : ℕ → Hub → Hub
drain id hub = record hub {
  conns = update_where (λ c. c.client.id == id) (λ c. record c { send = tail_of c.send }) hub.conns;
}

-- handleTypingIndicator: the sender's own user, name and room.
unfoldable pub handle_typing_indicator : Client → Bool → Hub → Option Hub
handle_typing_indicator client is_typing hub =
    broadcast_to_room_except_sender client.room_id client.id
      (typing client.user_id client.name client.room_id is_typing) hub

unfoldable pub handle_message_status : Client → ℕ → String → Hub → Option Hub
handle_message_status client message_id status hub =
    broadcast_to_room client.room_id (message_status message_id client.user_id status) hub

-- `none` is a nil hub.
unfoldable pub is_user_active_in_room : Option Hub → ℕ → ℕ → Bool
is_user_active_in_room none room_id user_id = false
is_user_active_in_room (some hub) room_id user_id =
    if room_id == 0 || user_id == 0
    then false
    else not (user_connection_count room_id user_id hub == 0)

-- The set inRoom.
unfoldable pub users_in_room : ℕ → List Conn → List ℕ
users_in_room room_id [] = []
users_in_room room_id (c ∷ cs) =
    let rest = users_in_room room_id cs in
    if is_member_of room_id c then c.client.user_id ∷ rest else rest

unfoldable pub filter_users_not_in_room : Option Hub → ℕ → List ℕ → List ℕ
filter_users_not_in_room none room_id user_ids = user_ids
filter_users_not_in_room (some hub) room_id user_ids =
    let viewing = users_in_room room_id hub.conns in
    if room_id == 0
    then user_ids
    else delete_where (λ id. not (count_where (λ u. u == id) viewing == 0)) user_ids

pub record RoomStat : Type 0 where
  pub room_id : ℕ
  pub connections : ℕ

unfoldable pub room_stats : List ℕ → List Conn → List RoomStat × ℕ
room_stats [] conns = ([], 0)
room_stats (r ∷ rs) conns =
    let (stats, total) = room_stats rs conns in
    let n = count_where (is_member_of r) conns in
    (record { room_id = r; connections = n } ∷ stats, n + total)
