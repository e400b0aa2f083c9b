-- ===== src/Examples/Posts.antt =====
-- Who writes in the chat of ride 10, with uuids written as one code point.
use uni_pool_new_backend.Base.{
  ℕ, ◌+◌, ◌-◌, ◌≡◌, refl, ◌⊎◌, Option, none, some, List, [], ◌∷◌, ◌++◌, find_where, count_where,
  put_where, ◌==◌, if◌then◌else◌,
}
use uni_pool_new_backend.Model.{User}
use uni_pool_new_backend.Store.{signed_in}
use uni_pool_new_backend.Text.{codes, is_empty, is_space, trim_left, trim_space}
use uni_pool_new_backend.Chat.Rooms.{
  strip_prefix, dm_prefix, split_underscore, parse_dm_room_id, parse_parts, parse_users,
}
use uni_pool_new_backend.Chat.Access.{
  get_ride_viewer_role, role_in, can_access_dm_room, access_of, is_related,
}
use uni_pool_new_backend.Chat.Post.{message_of, post_body, send_to_ride, send_message}
use uni_pool_new_backend.Chat.Reads.{upsert_ride_read_cursor, mark_ride, mark_ride_read}
use uni_pool_new_backend.Chat.Socket.{
  admitted, admit_to_dm, admit_to_room, admit_user, web_socket_handler,
}
use uni_pool_new_backend.Chat.Members.{IsMember}
use uni_pool_new_backend.Chat.Posting.{IsSilent, IsPosted, send_message-IsMember}
use uni_pool_new_backend.Chat.Admit.{IsRejected, Opens, web_socket_handler-IsAdmitted}
use uni_pool_new_backend.Examples.Fixtures.{bina, chitra, calm, start}

abbrev write : ℕ → List ℕ
write u = (u + 200) ∷ []

abbrev read : List ℕ → Option ℕ
read [] = none
read (c ∷ cs) = some (c - 200)

-- The token of a user is the number of the user.
abbrev auth : List ℕ → Option User
auth [] = none
auth (c ∷ cs) = if c == 2 then some bina else some chitra

posted_test :
    (send_message calm (signed_in bina) (some 10) (some " hi ") start []).messages
    ≡ message_of calm 2 (some 10) none (codes "hi") ∷ []
unfolding send_message send_to_ride get_ride_viewer_role role_in post_body codes is_empty is_space
    trim_left trim_space find_where
posted_test = refl

-- A passenger who waits may mark the ride as read, but not write.
waiting_test :
    (send_message calm (signed_in chitra) (some 10) (some "hi") start []).response.status ≡ 403
unfolding send_message send_to_ride get_ride_viewer_role role_in find_where
waiting_test = refl

read_test :
    (mark_ride_read calm (signed_in chitra) (some 10) start []).reads
    ≡ record {
      user_id = 3;
      ride_id = some 10;
      dm_room_id = none;
      last_read_at = 100;
      deleted_at = none;
    }
      ∷ []
unfolding mark_ride_read mark_ride get_ride_viewer_role role_in upsert_ride_read_cursor find_where
    put_where count_where
read_test = refl

-- Chitra writes to the host before she is accepted.
dm_test :
    web_socket_handler write read calm auth
      (203 ∷ [])
      (dm_prefix ++ (201 ∷ b'_' ∷ 203 ∷ []))
      (3 ∷ [])
      start
    ≡ admitted 3 (dm_prefix ++ (201 ∷ b'_' ∷ 203 ∷ []))
unfolding web_socket_handler admit_user admit_to_room admit_to_dm can_access_dm_room access_of
    is_related strip_prefix split_underscore parse_dm_room_id parse_parts parse_users is_empty
    count_where
dm_test = refl

send_message-IsMember_example :
    let out = send_message calm (signed_in bina) (some 10) (some " hi ") start [] in
    IsSilent [] out ⊎ (IsMember 2 10 start × IsPosted calm 2 (some 10) none [] out)
send_message-IsMember_example = send_message-IsMember calm bina 10 (some " hi ") start []

web_socket_handler-IsAdmitted_example :
    let out = web_socket_handler write read calm auth (202 ∷ []) (210 ∷ []) (2 ∷ []) start in
    IsRejected write read out
    ⊎ ((user : User) × (auth (2 ∷ []) ≡ some user)
        × (read (202 ∷ []) ≡ some user.id)
        × Opens write read user.id (210 ∷ []) start out)
web_socket_handler-IsAdmitted_example =
    web_socket_handler-IsAdmitted write read calm auth (202 ∷ []) (210 ∷ []) (2 ∷ []) start
