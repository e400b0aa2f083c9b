-- ===== src/Chat/Post.antt =====
-- SendMessage and SendDMMessage of routes/chat/chat.go.
use uni_pool_new_backend.Base.{
  ℕ, not, Option, none, some, String, List, [], ◌∷◌, ◌++◌, if◌then◌else◌,
}
use uni_pool_new_backend.Model.{User}
use uni_pool_new_backend.Store.{
  Db, Env, Locals, missing, malformed, signed_in, Response, create_message,
}
use uni_pool_new_backend.Text.{codes, is_empty, trim_space}
use uni_pool_new_backend.Chat.Access.{
  ChatMessage, get_ride_viewer_role, is_participant, invalid, denied, failed, allowed,
  can_access_dm_room,
}

-- `sent` is the message that is broadcast to its room and pushed.
pub record Posted : Type 0 where
  pub messages : List ChatMessage
  pub response : Response
  pub sent : Option ChatMessage

abbrev pub refuse_post : List ChatMessage → ℕ → String → Posted
refuse_post messages status message = record {
  messages = messages;
  response = record { status = status; message = message };
  sent = none;
}

abbrev pub message_of : Env → ℕ → Option ℕ → Option (List ℕ) → List ℕ → ChatMessage
message_of env sender_id ride_id dm_room_id content = record {
  id = env.new_id;
  created_at = env.now;
  deleted_at = none;
  ride_id = ride_id;
  dm_room_id = dm_room_id;
  sender_id = sender_id;
  content = content;
}

-- From the body on, for both; the content is trimmed.
unfoldable pub post_body :
    Env → ℕ → Option ℕ → Option (List ℕ) → Option String → List ChatMessage → Posted
post_body env sender_id ride_id dm_room_id none messages = refuse_post messages 400 "invalid body"
post_body env sender_id ride_id dm_room_id (some content) messages =
    let message = message_of env sender_id ride_id dm_room_id (trim_space (codes content)) in
    if is_empty (trim_space (codes content))
    then refuse_post messages 400 "message content cannot be empty"
    else if env.fails create_message
    then refuse_post messages 500 "failed to save message"
    else record {
      messages = messages ++ (message ∷ []);
      response = record { status = 201; message = "" };
      sent = some message;
    }

unfoldable pub send_to_ride : Env → User → ℕ → Option String → Db → List ChatMessage → Posted
send_to_ride env user ride_id body db messages =
    elim (get_ride_viewer_role env user.id ride_id db) [
      | none ↦ refuse_post messages 500 "membership lookup failed"
      | some role ↦
          if not (is_participant role)
          then refuse_post messages 403 "not a participant in this ride"
          else post_body env user.id (some ride_id) none body messages
    ]

unfoldable pub send_message :
    Env → Locals → Option ℕ → Option String → Db → List ChatMessage → Posted
send_message env locals none body db messages = refuse_post messages 400 "invalid ride id"
send_message env missing (some ride_id) body db messages =
    refuse_post messages 401 "User not authenticated or found"
send_message env malformed (some ride_id) body db messages =
    refuse_post messages 401 "User not authenticated or found"
send_message env (signed_in user) (some ride_id) body db messages =
    send_to_ride env user ride_id body db messages

module _ (uuid_string : ℕ → List ℕ) (uuid_parse : List ℕ → Option ℕ) where
  unfoldable pub send_to_dm : Env → User → List ℕ → Option String → Db → List ChatMessage → Posted
  send_to_dm env user room_id body db messages =
      elim (can_access_dm_room uuid_string uuid_parse env user.id room_id db) [
        | invalid ↦ refuse_post messages 400 "invalid dm room id format"
        | failed ↦ refuse_post messages 500 "dm access lookup failed"
        | denied ↦ refuse_post messages 403 "not a participant in this dm"
        | allowed other ↦ post_body env user.id none (some room_id) body messages
      ]

  unfoldable pub send_dm_message :
      Env → Locals → List ℕ → Option String → Db → List ChatMessage → Posted
  unfolding send_to_dm
  send_dm_message env missing room_id body db messages =
      refuse_post messages 401 "User not authenticated or found"
  send_dm_message env malformed room_id body db messages =
      refuse_post messages 401 "User not authenticated or found"
  send_dm_message env (signed_in user) room_id body db messages =
      send_to_dm env user room_id body db messages
