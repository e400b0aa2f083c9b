-- ===== src/Hub/Sound.antt =====
-- The hub of initializer/websocket.go through any history: no send to a closed channel, no second close.
use uni_pool_new_backend.Base.{
  ℕ, ◌≤◌, ◌+◌, ◌≡◌, refl, inl, inr, Bool, true, false, not, ◌&&◌, Option, some, List, [], ◌∷◌, ◌++◌,
  ◌==◌, ltb, arith, All, Bool-cases,
}
use uni_pool_new_backend.Hub.{
  HubMessage, Conn, Hub, send_capacity, pending, is_member_of, has_key, pushed, dropped, deliver,
  deliver_where,
}
use uni_pool_new_backend.Hub.Calls.{broadcast, broadcast_to_room, broadcast_to_room_except_sender}

-- A client is in Clients and in its room, with an open channel and the room's key, or in neither.
abbrev pub IsConn : List ℕ → Conn → Type 0
IsConn rooms c =
    (c.registered ≡ c.in_room)
    × (c.registered ≡ true → c.closed ≡ false)
    × (pending c.send ≤ send_capacity)
    × (c.in_room ≡ true → has_key c.client.room_id rooms ≡ true)

abbrev pub IsSound : Hub → Type 0
IsSound hub = All (IsConn hub.rooms) hub.conns

pending-snoc : (ms : List HubMessage) (m : HubMessage) → pending (ms ++ (m ∷ [])) ≡ pending ms + 1
unfolding pending
pending-snoc [] m = refl
pending-snoc (x ∷ ms) m = let rest = pending-snoc ms m in omega arith

-- A state that a step leads to, sound again.
abbrev pub Runs : Option Hub → Type 0
Runs result = (after : Hub) × (result ≡ some after) × IsSound after

module _ (rooms : List ℕ) where
  deliver-IsConn :
      (m : HubMessage) (c : Conn)
      → c.registered ≡ true
      → IsConn rooms c
      → (d : Conn) × (deliver m c ≡ some d) × IsConn rooms d
  unfolding deliver
  deliver-IsConn m c on (same, opened, small, keyed) =
      let shut : c.closed ≡ false = opened on in
      elim (Bool-cases (ltb (pending c.send) send_capacity)) [
        | inl fits ↦ (
          pushed m c,
          rw (shut, fits) refl,
          (same, opened, rw (pending-snoc c.send m) (ground arith), keyed),
        )
        | inr full ↦ (
          dropped c,
          rw (shut, full) refl,
          (refl, (λ e. absurd (ground arith)), small, (λ e. absurd (ground arith))),
        )
      ]

  deliver_where-IsConn :
      (p : Conn → Bool) (m : HubMessage) (cs : List Conn)
      → ((c : Conn) → p c ≡ true → (c.registered ≡ c.in_room) → c.registered ≡ true)
      → All (IsConn rooms) cs
      → (ds : List Conn) × (deliver_where p m cs ≡ some ds) × All (IsConn rooms) ds
  unfolding deliver_where
  deliver_where-IsConn p m [] listed a = ([], refl, tt)
  deliver_where-IsConn p m (c ∷ cs) listed a =
      let (ds, rest, sound) = deliver_where-IsConn p m cs listed a.1 in
      elim (Bool-cases (p c)) [
        | inr miss ↦ (c ∷ ds, rw (miss, rest) refl, (a.0, sound))
        | inl hit ↦
            let (d, there, fine) = deliver-IsConn m c (listed c hit a.0.0) a.0 in
            (d ∷ ds, rw (hit, there, rest) refl, (fine, sound))
      ]

pub broadcast-Runs : (m : HubMessage) (hub : Hub) → IsSound hub → Runs (broadcast m hub)
unfolding broadcast
broadcast-Runs m hub sound =
    let (cs, sent, fine) =
      deliver_where-IsConn hub.rooms (λ c. c.registered) m hub.conns (λ c on _. on) sound in
    (record hub { conns = cs }, rw sent refl, fine)

pub broadcast_to_room-Runs :
    (room_id : ℕ) (m : HubMessage) (hub : Hub)
    → IsSound hub
    → Runs (broadcast_to_room room_id m hub)
unfolding broadcast_to_room
broadcast_to_room-Runs room_id m hub sound =
    let (cs, sent, fine) =
      deliver_where-IsConn hub.rooms (is_member_of room_id) m hub.conns (λ c on same. ground arith)
        sound in
    elim (Bool-cases (has_key room_id hub.rooms)) [
      | inl there ↦ (record hub { conns = cs }, rw (there, sent) refl, fine)
      | inr gone ↦ (hub, rw gone refl, sound)
    ]

pub broadcast_to_room_except_sender-Runs :
    (room_id sender : ℕ) (m : HubMessage) (hub : Hub)
    → IsSound hub
    → Runs (broadcast_to_room_except_sender room_id sender m hub)
unfolding broadcast_to_room_except_sender
broadcast_to_room_except_sender-Runs room_id sender m hub sound =
    let (cs, sent, fine) =
      deliver_where-IsConn hub.rooms (λ c. is_member_of room_id c && not (c.client.id == sender)) m
        hub.conns (λ c on same. ground arith) sound in
    elim (Bool-cases (has_key room_id hub.rooms)) [
      | inl there ↦ (record hub { conns = cs }, rw (there, sent) refl, fine)
      | inr gone ↦ (hub, rw gone refl, sound)
    ]
