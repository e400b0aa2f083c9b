-- ===== src/Examples/Hubs.antt =====
-- Two users in room 10, one of them on two devices.
use uni_pool_new_backend.Base.{
  ◌≡◌, refl, true, false, some, List, [], ◌∷◌, arith, count_where, put_where, delete_where,
}
use uni_pool_new_backend.Hub.{
  Client, HubMessage, user_joined, presence_snapshot, payload, Conn, Hub, pending, has_key, deliver,
  deliver_where, user_connection_count, users_by_id, presence_snapshot_locked,
}
use uni_pool_new_backend.Hub.Calls.{
  broadcast_to_room_except_sender, add_room, join, register, is_user_active_in_room, users_in_room,
  filter_users_not_in_room, room_stats,
}
use uni_pool_new_backend.Hub.Sound.{IsSound}
use uni_pool_new_backend.Hub.Run.{
  registers, joins, unregisters, leaves, takes, sends_room, run_event, run, run-IsSound,
}
use uni_pool_new_backend.Hub.Presence.{filter_users-eq-inactive}

abbrev idle : Hub
idle = record { conns = []; rooms = [] }

abbrev laptop : Client
laptop = record { id = 1; user_id = 2; room_id = 10; name = "Bina" }

abbrev mobile : Client
mobile = record { id = 2; user_id = 2; room_id = 10; name = "Bina" }

abbrev guest : Client
guest = record { id = 3; user_id = 3; room_id = 10; name = "Chitra" }

abbrev sent_to : Client → List HubMessage → Conn
sent_to client send = record {
  client = client;
  send = send;
  closed = false;
  registered = true;
  in_room = true;
}

-- The second device of a user is not announced; the guest is, to both.
abbrev busy : Hub
busy = record {
  conns =
      sent_to laptop (
        presence_snapshot 10 (record { user_id = 2; user_name = "Bina" } ∷ [])
        ∷ user_joined 3 "Chitra" 10
        ∷ [])
      ∷ sent_to guest (
          presence_snapshot 10 (
            record { user_id = 2; user_name = "Bina" }
            ∷ record { user_id = 3; user_name = "Chitra" }
            ∷ [])
          ∷ [])
      ∷ [];
  rooms = 10 ∷ [];
}

announce_test : run (registers laptop ∷ registers guest ∷ []) idle ≡ some busy
unfolding run run_event register join add_room has_key user_connection_count
    broadcast_to_room_except_sender deliver_where deliver pending presence_snapshot_locked
    users_by_id count_where put_where
announce_test = refl

second_device_test : register mobile busy ≡ some (join mobile busy)
unfolding register user_connection_count count_where
second_device_test = refl

stats_test : room_stats busy.rooms busy.conns ≡ (record { room_id = 10; connections = 2 } ∷ [], 2)
unfolding room_stats count_where
stats_test = refl

run-IsSound_example :
    (after : Hub) × (run
        (registers laptop
          ∷ joins guest
          ∷ sends_room 10 (payload 7)
          ∷ takes 1
          ∷ leaves 1
          ∷ unregisters 3
          ∷ [])
        idle
      ≡ some after)
    × IsSound after
run-IsSound_example =
    run-IsSound
      (registers laptop
        ∷ joins guest
        ∷ sends_room 10 (payload 7)
        ∷ takes 1
        ∷ leaves 1
        ∷ unregisters 3
        ∷ [])
      idle tt

filter_test : filter_users_not_in_room (some busy) 10 (2 ∷ 4 ∷ 3 ∷ []) ≡ 4 ∷ []
unfolding filter_users_not_in_room users_in_room count_where delete_where
filter_test = refl

filter_users-eq-inactive_example :
    filter_users_not_in_room (some busy) 10 (2 ∷ 4 ∷ 3 ∷ [])
    ≡ delete_where (is_user_active_in_room (some busy) 10) (2 ∷ 4 ∷ 3 ∷ [])
filter_users-eq-inactive_example =
    filter_users-eq-inactive (some busy) 10 (2 ∷ 4 ∷ 3 ∷ [])
      (omega arith, (omega arith, (omega arith, tt)))
