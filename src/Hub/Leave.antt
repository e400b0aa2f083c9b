-- ===== src/Hub/Leave.antt =====
-- Who joins and leaves the hub of initializer/websocket.go, on sound states.
use uni_pool_new_backend.Base.{
  ℕ, ◌≤◌, ◌≡◌, ◌≢◌, refl, inl, inr, true, false, ◌&&◌, List, [], ◌∷◌, ◌==◌, arith, All, All-map,
  All-zip, All-append, All-update, Bool-cases, Option-cases, count_where, find_where,
  find_where-All, update_where, delete_where, &&_split, ==_refl,
}
use uni_pool_new_backend.Hub.{
  Client, HubMessage, user_joined, user_left, Conn, Hub, send_capacity, pending, is_member_of,
  has_key, dropped, user_connection_count,
}
use uni_pool_new_backend.Hub.Calls.{
  add_room, join, register, prune_room, leave, leave_conn, unregister, unregister_locked, tail_of,
  drain,
}
use uni_pool_new_backend.Hub.Sound.{
  IsConn, IsSound, Runs, broadcast_to_room-Runs, broadcast_to_room_except_sender-Runs,
}

has_key-add : (room_id : ℕ) (rooms : List ℕ) → has_key room_id (add_room room_id rooms) ≡ true
unfolding has_key add_room count_where
has_key-add room_id rooms = elim (Bool-cases (has_key room_id rooms)) [
  | inl there ↦ rw there there
  | inr absent ↦ rw (absent, ==_refl room_id) (ground arith)
]

has_key-keep :
    (room_id other : ℕ) (rooms : List ℕ)
    → has_key other rooms ≡ true
    → has_key other (add_room room_id rooms) ≡ true
unfolding has_key add_room count_where
has_key-keep room_id other rooms e = elim (Bool-cases (has_key room_id rooms)) [
  | inl there ↦ rw there e
  | inr absent ↦ rw absent (ground arith)
]

has_key-delete :
    (room_id other : ℕ) (rooms : List ℕ)
    → other ≢ room_id
    → count_where (λ r. r == other) (delete_where (λ r. r == room_id) rooms)
      ≡ count_where (λ r. r == other) rooms
unfolding count_where delete_where
has_key-delete room_id other [] apart = refl
has_key-delete room_id other (r ∷ rs) apart = ground (arith, has_key-delete room_id other rs apart)

empty-members :
    (room_id : ℕ) (cs : List Conn)
    → count_where (is_member_of room_id) cs ≡ 0
    → All (λ c. is_member_of room_id c ≡ false) cs
unfolding count_where
empty-members room_id [] e = tt
empty-members room_id (c ∷ cs) e = (ground arith, empty-members room_id cs (ground arith))

prune_room-IsConn :
    (room_id : ℕ) (rooms : List ℕ) (cs : List Conn)
    → All (IsConn rooms) cs
    → All (IsConn (prune_room room_id cs rooms)) cs
unfolding prune_room has_key
prune_room-IsConn room_id rooms cs a =
    elim (Bool-cases (count_where (is_member_of room_id) cs == 0)) [
      | inr lively ↦ rw lively a
      | inl empty ↦ rw empty (
          All-map cs
            (λ c x.
              let (same, opened, small, keyed) = x.0 in
              (
                same,
                opened,
                small,
                λ e.
                    let apart : c.client.room_id ≢ room_id = λ at. ground (arith, x.1) in
                    rw (has_key-delete room_id c.client.room_id rooms apart) (keyed e),
              ))
            (All-zip (IsConn rooms) (λ c. is_member_of room_id c ≡ false) cs a
              (empty-members room_id cs (ground arith))))
    ]

pub join-IsSound : (client : Client) (hub : Hub) → IsSound hub → IsSound (join client hub)
unfolding join pending
join-IsSound client hub sound =
    All-append (IsConn (add_room client.room_id hub.rooms)) hub.conns (_ ∷ [])
      (All-map hub.conns
        (λ c (same, opened, small, keyed). (
          same,
          opened,
          small,
          λ e. has_key-keep client.room_id c.client.room_id hub.rooms (keyed e),
        ))
        sound)
      ((refl, λ _. refl, omega arith, λ _. has_key-add client.room_id hub.rooms), tt)

pub register-Runs : (client : Client) (hub : Hub) → IsSound hub → Runs (register client hub)
unfolding register
register-Runs client hub sound =
    let joined = join-IsSound client hub sound in
    elim (Bool-cases (user_connection_count client.room_id client.user_id hub == 0)) [
      | inr before ↦ (join client hub, rw before refl, joined)
      | inl first ↦ rw first (
          broadcast_to_room_except_sender-Runs client.room_id client.id
            (user_joined client.user_id client.name client.room_id) (join client hub) joined)
    ]

leave-IsSound : (client : Client) (hub : Hub) → IsSound hub → IsSound (leave client hub)
unfolding leave
leave-IsSound client hub sound =
    prune_room-IsConn client.room_id hub.rooms
      (update_where (λ c. c.client.id == client.id) dropped hub.conns)
      (All-update (λ c. c.client.id == client.id) dropped hub.conns
        (λ c _ (same, opened, small, keyed).
          (refl, λ e. absurd (ground arith), small, λ e. absurd (ground arith)))
        (λ c _ fine. fine) sound)

pub unregister-Runs : (id : ℕ) (hub : Hub) → IsSound hub → Runs (unregister id hub)
unfolding unregister leave_conn
unregister-Runs id hub sound =
    elim (Option-cases (find_where (λ (c : Conn). c.client.id == id && c.registered) hub.conns)) [
      | inl e ↦ (hub, rw (e, unregister) refl, sound)
      | inr (c, e) ↦
          let (fine, hit) =
            find_where-All (IsConn hub.rooms) (λ c. c.client.id == id && c.registered) hub.conns c
              sound e in
          let (_, on) = &&_split (c.client.id == id) c.registered hit in
          let shut : c.closed ≡ false = fine.1 on in
          let left = leave-IsSound c.client hub sound in
          rw (e, unregister, shut)
            (elim (Bool-cases
              (user_connection_count c.client.room_id c.client.user_id (leave c.client hub) == 0)) [
                | inr still ↦ (leave c.client hub, rw still refl, left)
                | inl last ↦ rw last (
                    broadcast_to_room-Runs c.client.room_id
                      (user_left c.client.user_id c.client.name c.client.room_id)
                      (leave c.client hub) left)
              ])
    ]

pub drain-IsSound : (id : ℕ) (hub : Hub) → IsSound hub → IsSound (drain id hub)
unfolding drain pending
drain-IsSound id hub sound =
    All-update (λ c. c.client.id == id) (λ c. record c { send = tail_of c.send }) hub.conns
      (λ c _ (same, opened, small, keyed). (same, opened, shorter c.send small, keyed))
      (λ c _ fine. fine) sound
  where
    shorter :
        (ms : List HubMessage) → pending ms ≤ send_capacity → pending (tail_of ms) ≤ send_capacity
    shorter [] h = h
    shorter (m ∷ ms) h = omega arith

pub unregister_locked-Runs : (id : ℕ) (hub : Hub) → IsSound hub → Runs (unregister_locked id hub)
unfolding unregister_locked
unregister_locked-Runs id hub sound =
    elim (Option-cases (find_where (λ (c : Conn). c.client.id == id && c.registered) hub.conns)) [
      | inl e ↦ (hub, rw (e, unregister_locked) refl, sound)
      | inr (c, e) ↦
          let (fine, hit) =
            find_where-All (IsConn hub.rooms) (λ c. c.client.id == id && c.registered) hub.conns c
              sound e in
          let (_, on) = &&_split (c.client.id == id) c.registered hit in
          let shut : c.closed ≡ false = fine.1 on in
          (
            leave c.client hub,
            rw (e, unregister_locked, shut) refl,
            leave-IsSound c.client hub sound,
          )
    ]
