-- ===== src/Hub/Run.antt =====
-- Histories of the hub of initializer/websocket.go: any interleaving of what happens under its lock.
use uni_pool_new_backend.Base.{ℕ, ◌≡◌, refl, Bool, Option, none, some, String, List, [], ◌∷◌}
use uni_pool_new_backend.Hub.{Client, HubMessage, typing, message_status, Hub}
use uni_pool_new_backend.Hub.Calls.{
  broadcast, broadcast_to_room, broadcast_to_room_except_sender, join, register, unregister,
  unregister_locked, drain, handle_typing_indicator, handle_message_status,
}
use uni_pool_new_backend.Hub.Sound.{
  IsSound, Runs, broadcast-Runs, broadcast_to_room-Runs, broadcast_to_room_except_sender-Runs,
}
use uni_pool_new_backend.Hub.Leave.{
  join-IsSound, register-Runs, unregister-Runs, unregister_locked-Runs, drain-IsSound,
}

-- What happens to a hub: a step of run, whole or up to where it gives the lock back, a broadcast by
-- another goroutine, what a client sends, and a message that a writer takes.
pub data Event : Type 0 where
  registers joins : Client → Event
  unregisters leaves takes : ℕ → Event
  sends_all : HubMessage → Event
  sends_room : ℕ → HubMessage → Event
  sends_others : ℕ → ℕ → HubMessage → Event
  types : Client → Bool → Event
  sees : Client → ℕ → String → Event

unfoldable pub run_event : Event → Hub → Option Hub
run_event (registers client) hub = register client hub
run_event (joins client) hub = some (join client hub)
run_event (unregisters id) hub = unregister id hub
run_event (leaves id) hub = unregister_locked id hub
run_event (takes id) hub = some (drain id hub)
run_event (sends_all m) hub = broadcast m hub
run_event (sends_room room_id m) hub = broadcast_to_room room_id m hub
run_event (sends_others room_id sender m) hub = broadcast_to_room_except_sender room_id sender m hub
run_event (types client is_typing) hub = handle_typing_indicator client is_typing hub
run_event (sees client message_id status) hub = handle_message_status client message_id status hub

run_event-Runs : (e : Event) (hub : Hub) → IsSound hub → Runs (run_event e hub)
unfolding run_event handle_typing_indicator handle_message_status
run_event-Runs (registers client) hub sound = register-Runs client hub sound
run_event-Runs (joins client) hub sound = (join client hub, refl, join-IsSound client hub sound)
run_event-Runs (unregisters id) hub sound = unregister-Runs id hub sound
run_event-Runs (leaves id) hub sound = unregister_locked-Runs id hub sound
run_event-Runs (takes id) hub sound = (drain id hub, refl, drain-IsSound id hub sound)
run_event-Runs (sends_all m) hub sound = broadcast-Runs m hub sound
run_event-Runs (sends_room room_id m) hub sound = broadcast_to_room-Runs room_id m hub sound
run_event-Runs (sends_others room_id sender m) hub sound =
    broadcast_to_room_except_sender-Runs room_id sender m hub sound
run_event-Runs (types client is_typing) hub sound =
    broadcast_to_room_except_sender-Runs client.room_id client.id
      (typing client.user_id client.name client.room_id is_typing) hub sound
run_event-Runs (sees client message_id status) hub sound =
    broadcast_to_room-Runs client.room_id (message_status message_id client.user_id status) hub
      sound

abbrev pub then_run : (Hub → Option Hub) → Option Hub → Option Hub
then_run f none = none
then_run f (some hub) = f hub

unfoldable pub run : List Event → Hub → Option Hub
run [] hub = some hub
run (e ∷ es) hub = then_run (run es) (run_event e hub)

-- No history of events makes the hub panic, by a send to a closed channel or a second close: from a
-- sound hub, such as an empty one, every sequence of registrations, unregistrations, broadcasts,
-- messages of clients and messages taken by writers, in any interleaving of the sections under the
-- lock, runs to its end, and to a sound hub: a client is among the clients exactly if it is in its
-- room, its channel is then open and the room has a key, and no buffer holds more than 256 messages.
pub run-IsSound :
    (events : List Event) (hub : Hub)
    → IsSound hub
    → (after : Hub) × (run events hub ≡ some after) × IsSound after
unfolding run
run-IsSound [] hub sound = (hub, refl, sound)
run-IsSound (e ∷ es) hub sound =
    let (middle, ran, fine) = run_event-Runs e hub sound in
    let (after, rest, good) = run-IsSound es middle fine in (after, rw (ran, rest) refl, good)
