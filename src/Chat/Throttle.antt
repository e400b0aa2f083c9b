-- ===== src/Chat/Throttle.antt =====
-- filterChatPushThrottle of routes/chat/chat.go, under its lock. A room is known by a number in place
-- of its text, which is only compared.
use uni_pool_new_backend.Base.{
  ℕ, ◌+◌, ◌*◌, Bool, true, ◌&&◌, not, Option, none, some, String, List, [], ◌∷◌, ◌++◌, ◌==◌, ltb,
  if◌then◌else◌, find_where, count_where, update_where, delete_where,
}

-- A device of a user.
pub record Recipient : Type 0 where
  pub user_id : ℕ
  pub token : String

-- An entry of the map lastSent, with its key.
pub record Sent : Type 0 where
  pub room_id : ℕ
  pub user_id : ℕ
  pub at : ℕ

-- Two minutes, in nanoseconds.
abbrev pub chat_push_throttle_window : ℕ
chat_push_throttle_window = 120000000000

abbrev pub is_key : ℕ → ℕ → Sent → Bool
is_key room_id user_id s = s.room_id == room_id && s.user_id == user_id

unfoldable pub last_sent : ℕ → ℕ → List Sent → Option ℕ
last_sent room_id user_id sent = elim (find_where (is_key room_id user_id) sent) [
  | none ↦ none
  | some s ↦ some s.at
]

-- lastSent[key] = now
unfoldable pub put : ℕ → ℕ → ℕ → List Sent → List Sent
put room_id user_id now sent =
    if count_where (is_key room_id user_id) sent == 0
    then sent ++ (record { room_id = room_id; user_id = user_id; at = now } ∷ [])
    else update_where (is_key room_id user_id) (λ s. record s { at = now }) sent

abbrev pub is_member : ℕ → List ℕ → Bool
is_member user_id users = not (count_where (λ u. u == user_id) users == 0)

-- The window since the last push is over, or there was none.
unfoldable pub is_due : ℕ → Option ℕ → Bool
is_due now none = true
is_due now (some last) = not (ltb now (last + chat_push_throttle_window))

-- The loop over the recipients, with the users that it has let through.
unfoldable pub filter_from :
    ℕ → ℕ → List Recipient → List ℕ → List Sent → List Recipient × List Sent
filter_from room_id now [] users sent = ([], sent)
filter_from room_id now (r ∷ rs) users sent =
    let pass = filter_from room_id now rs users sent in
    let mark = filter_from room_id now rs (r.user_id ∷ users) (put room_id r.user_id now sent) in
    if is_member r.user_id users
    then (r ∷ pass.0, pass.1)
    else if is_due now (last_sent room_id r.user_id sent)
    then (r ∷ mark.0, mark.1)
    else pass

-- Beyond ten thousand entries, those older than ten windows go.
unfoldable pub prune : ℕ → List Sent → List Sent
prune now sent =
    if ltb 10000 (count_where (λ _. true) sent)
    then delete_where (λ s. ltb (s.at + 10 * chat_push_throttle_window) now) sent
    else sent

unfoldable pub filter_chat_push_throttle :
    ℕ → ℕ → List Recipient → List Sent → List Recipient × List Sent
filter_chat_push_throttle room_id now [] sent = ([], sent)
filter_chat_push_throttle room_id now (r ∷ rs) sent =
    let (allowed, after) = filter_from room_id now (r ∷ rs) [] sent in (allowed, prune now after)
