-- ===== src/Chat/Posting.antt =====
-- Who posts: SendMessage and SendDMMessage of routes/chat/chat.go.
use uni_pool_new_backend.Base.{
  ℕ, ◌≡◌, ◌≢◌, ◌⊎◌, refl, inl, inr, false, Option, none, some, String, List, [], ◌∷◌, ◌++◌, arith,
  Bool-cases, Option-cases,
}
use uni_pool_new_backend.Model.{User}
use uni_pool_new_backend.Store.{Db, Env, signed_in, create_message}
use uni_pool_new_backend.Text.{codes, is_empty, trim_space}
use uni_pool_new_backend.Chat.Access.{
  ChatMessage, get_ride_viewer_role, is_participant, can_access_dm_room,
}
use uni_pool_new_backend.Chat.Post.{
  Posted, message_of, post_body, send_to_ride, send_message, send_to_dm, send_dm_message,
}
use uni_pool_new_backend.Chat.Members.{
  IsMember, IsDmMember, get_ride_viewer_role-IsMember, can_access_dm_room-IsDmMember,
  DmAccess-cases,
}

-- Nothing is stored or sent; or one message of the caller, which is not empty, is both.
abbrev pub IsSilent : List ChatMessage → Posted → Type 0
IsSilent messages out = (out.response.status ≢ 201) × (out.messages ≡ messages) × (out.sent ≡ none)

abbrev pub IsPosted : Env → ℕ → Option ℕ → Option (List ℕ) → List ChatMessage → Posted → Type 0
IsPosted env user_id ride_id dm_room_id messages out =
    (m : ChatMessage) × (m.sender_id ≡ user_id)
    × (m.ride_id ≡ ride_id)
    × (m.dm_room_id ≡ dm_room_id)
    × (m.created_at ≡ env.now)
    × (m.deleted_at ≡ none)
    × (is_empty m.content ≡ false)
    × (out.messages ≡ messages ++ (m ∷ []))
    × (out.sent ≡ some m)

post_body-cases :
    (env : Env) (user_id : ℕ) (ride_id : Option ℕ) (dm_room_id : Option (List ℕ))
    (body : Option String) (messages : List ChatMessage)
    → let out = post_body env user_id ride_id dm_room_id body messages in
      IsSilent messages out ⊎ IsPosted env user_id ride_id dm_room_id messages out
unfolding post_body
post_body-cases env user_id ride_id dm_room_id none messages = inl ((λ e. ground arith), refl, refl)
post_body-cases env user_id ride_id dm_room_id (some text) messages =
    elim (Bool-cases (is_empty (trim_space (codes text)))) [
      | inl empty ↦ rw empty (inl ((λ e. ground arith), refl, refl))
      | inr full ↦ rw full (elim (Bool-cases (env.fails create_message)) [
        | inl e ↦ rw e (inl ((λ x. ground arith), refl, refl))
        | inr e ↦ rw e (
            inr (
              message_of env user_id ride_id dm_room_id (trim_space (codes text)),
              refl,
              refl,
              refl,
              refl,
              refl,
              full,
              refl,
              refl,
            ))
      ])
    ]

-- Only the host and accepted passengers post to a ride: for a signed-in user, SendMessage either
-- answers with an error, and stores and sends nothing; or the caller hosts the ride or has an
-- undeleted accepted booking on it, and one message of the caller with a content that is not empty is
-- stored for the ride and sent.
pub send_message-IsMember :
    (env : Env) (user : User) (ride_id : ℕ) (body : Option String) (db : Db)
    (messages : List ChatMessage)
    → let out = send_message env (signed_in user) (some ride_id) body db messages in
      IsSilent messages out
      ⊎ (IsMember user.id ride_id db × IsPosted env user.id (some ride_id) none messages out)
unfolding send_message send_to_ride
send_message-IsMember env user ride_id body db messages =
    elim (Option-cases (get_ride_viewer_role env user.id ride_id db)) [
      | inl e ↦ rw (e, send_to_ride) (inl ((λ x. ground arith), refl, refl))
      | inr (role, e) ↦ elim (Bool-cases (is_participant role)) [
        | inr off ↦ rw (e, send_to_ride, off) (inl ((λ x. ground arith), refl, refl))
        | inl on ↦
            rw (e, send_to_ride, on)
              (elim (post_body-cases env user.id (some ride_id) none body messages) [
                | inl silent ↦ inl silent
                | inr posted ↦
                    inr (get_ride_viewer_role-IsMember env user.id ride_id db role e on, posted)
              ])
      ]
    ]

module _ (uuid_string : ℕ → List ℕ) (uuid_parse : List ℕ → Option ℕ) where
  -- Only the two of a room post to it, and only if they are acquainted: for a signed-in user,
  -- SendDMMessage either answers with an error, and stores and sends nothing; or the caller is one of
  -- the two users that the room's name parses to, one of whom has an undeleted booking on an undeleted
  -- ride of the other, and one message of the caller with a content that is not empty is stored for
  -- the room and sent.
  pub send_dm_message-IsDmMember :
      (env : Env) (user : User) (room_id : List ℕ) (body : Option String) (db : Db)
      (messages : List ChatMessage)
      → let out =
          send_dm_message uuid_string uuid_parse env (signed_in user) room_id body db messages in
        IsSilent messages out
        ⊎ (IsDmMember uuid_string uuid_parse user.id room_id db
            × IsPosted env user.id none (some room_id) messages out)
  unfolding send_dm_message send_to_dm
  send_dm_message-IsDmMember env user room_id body db messages =
      elim (DmAccess-cases (can_access_dm_room uuid_string uuid_parse env user.id room_id db)) [
        | inl (inl e) ↦ rw (e, send_to_dm) (inl ((λ x. ground arith), refl, refl))
        | inl (inr (inl e)) ↦ rw (e, send_to_dm) (inl ((λ x. ground arith), refl, refl))
        | inl (inr (inr e)) ↦ rw (e, send_to_dm) (inl ((λ x. ground arith), refl, refl))
        | inr (other, e) ↦
            rw (e, send_to_dm)
              (elim (post_body-cases env user.id none (some room_id) body messages) [
                | inl silent ↦ inl silent
                | inr posted ↦ inr (
                  can_access_dm_room-IsDmMember uuid_string uuid_parse env user.id other room_id db
                      e,
                  posted,
                )
              ])
      ]
