-- ===== src/Chat/Limit.antt =====
-- What the throttle of routes/chat/chat.go lets through.
use uni_pool_new_backend.Base.{
  ℕ, ◌+◌, ◌*◌, ◌<◌, ◌≡◌, ◌≢◌, refl, ap, ◌∙◌, true, false, not, some, List, [], ◌∷◌, ◌==◌, ltb,
  find_where, count_where, delete_where, arith, Bool-cases, Option-cases, inl, inr, find-delete,
  All, All-map, All-deleted, ==→eq,
}
use uni_pool_new_backend.Chat.Throttle.{
  Recipient, Sent, chat_push_throttle_window, is_key, last_sent, put, is_member, is_due,
  filter_from, prune, filter_chat_push_throttle,
}
use uni_pool_new_backend.Chat.LastSent.{last_sent-put, last_sent-put_other}

module _ (room_id now : ℕ) where
  -- A push at this instant stays the last one of its user, whatever the loop does afterwards.
  filter_from-keeps :
      (rs : List Recipient) (users : List ℕ) (sent : List Sent) (user_id : ℕ)
      → last_sent room_id user_id sent ≡ some now
      → last_sent room_id user_id (filter_from room_id now rs users sent).1 ≡ some now
  unfolding filter_from
  filter_from-keeps [] users sent user_id e = e
  filter_from-keeps (r ∷ rs) users sent user_id e = elim (Bool-cases (is_member r.user_id users)) [
    | inl in_users ↦ rw in_users (filter_from-keeps rs users sent user_id e)
    | inr out ↦ elim (Bool-cases (is_due now (last_sent room_id r.user_id sent))) [
      | inr wait ↦ rw (out, wait) (filter_from-keeps rs users sent user_id e)
      | inl due ↦
          rw (out, due)
            (filter_from-keeps rs (r.user_id ∷ users) (put room_id r.user_id now sent) user_id
              (elim (Bool-cases (user_id == r.user_id)) [
                | inl same ↦
                    rw (==→eq user_id r.user_id same) (last_sent-put room_id r.user_id now sent)
                | inr other ↦
                    last_sent-put_other room_id r.user_id now sent user_id (ground arith) ∙ e
              ]))
    ]
  ]

  -- The loop has let through the users in the list, whose last push is of this instant; for the
  -- others, the map is as it was at the start.
  record IsMidway (start : List Sent) (users : List ℕ) (sent : List Sent) : Type 0 where
    pub members :
        (u : ℕ)
        → is_member u users ≡ true
        → (is_due now (last_sent room_id u start) ≡ true) × (last_sent room_id u sent ≡ some now)
    pub others :
        (u : ℕ) → is_member u users ≡ false → last_sent room_id u sent ≡ last_sent room_id u start

  put-IsMidway :
      (start : List Sent) (users : List ℕ) (sent : List Sent) (user_id : ℕ)
      → IsMidway start users sent
      → is_due now (last_sent room_id user_id start) ≡ true
      → IsMidway start (user_id ∷ users) (put room_id user_id now sent)
  unfolding count_where
  put-IsMidway start users sent user_id h due = record {
    members = λ u hit. elim (Bool-cases (u == user_id)) [
      | inl same ↦ rw (==→eq u user_id same) (due, last_sent-put room_id user_id now sent)
      | inr other ↦
          let (was, at) = h.members u (ground arith) in
          (was, last_sent-put_other room_id user_id now sent u (ground arith) ∙ at)
    ];
    others = λ u miss.
        last_sent-put_other room_id user_id now sent u (ground arith) ∙ h.others u (ground arith);
  }

  filter_from-eq-delete :
      (start : List Sent) (rs : List Recipient) (users : List ℕ) (sent : List Sent)
      → IsMidway start users sent
      → ((filter_from room_id now rs users sent).0
          ≡ delete_where (λ r. not (is_due now (last_sent room_id r.user_id start))) rs)
        × All
            (λ r. last_sent room_id r.user_id (filter_from room_id now rs users sent).1 ≡ some now)
            (filter_from room_id now rs users sent).0
  unfolding filter_from delete_where
  filter_from-eq-delete start [] users sent h = (refl, tt)
  filter_from-eq-delete start (r ∷ rs) users sent h =
      elim (Bool-cases (is_member r.user_id users)) [
        | inl in_users ↦
            let (due, at) = h.members r.user_id in_users in
            let (same, all) = filter_from-eq-delete start rs users sent h in
            rw (in_users, due)
              (ap (◌∷◌ r) same, (filter_from-keeps rs users sent r.user_id at, all))
        | inr out ↦
            let unchanged = h.others r.user_id out in
            elim (Bool-cases (is_due now (last_sent room_id r.user_id start))) [
              | inr wait ↦ rw (out, unchanged, wait) (filter_from-eq-delete start rs users sent h)
              | inl due ↦
                  let now_sent = put room_id r.user_id now sent in
                  let (same, all) =
                    filter_from-eq-delete start rs (r.user_id ∷ users) now_sent
                      (put-IsMidway start users sent r.user_id h due) in
                  rw (out, unchanged, due)
                    (
                      ap (◌∷◌ r) same,
                      (
                        filter_from-keeps rs (r.user_id ∷ users) now_sent r.user_id
                            (last_sent-put room_id r.user_id now sent),
                        all,
                      ),
                    )
            ]
      ]

  start-IsMidway : (sent : List Sent) → IsMidway sent [] sent
  unfolding count_where
  start-IsMidway sent = record { members = λ u hit. absurd (ground arith); others = λ u _. refl }

  -- What is pruned is older than any push of this instant.
  prune-keeps :
      (sent : List Sent) (user_id : ℕ)
      → last_sent room_id user_id sent ≡ some now
      → last_sent room_id user_id (prune now sent) ≡ some now
  unfolding last_sent prune
  prune-keeps sent user_id e = elim (Option-cases (find_where (is_key room_id user_id) sent)) [
    | inl absent ↦ absurd (ground arith)
    | inr (s, found) ↦
        let at : s.at ≡ now = ground arith in
        elim (Bool-cases (ltb 10000 (count_where (λ _. true) sent))) [
          | inr small ↦ rw small e
          | inl large ↦
              rw
                (
                  large,
                  last_sent,
                  find-delete (is_key room_id user_id)
                      (λ x. ltb (x.at + 10 * chat_push_throttle_window) now) sent s found
                      (ground arith),
                )
                (ap some at)
        ]
  ]

-- The loop is a filter on the map as it was before the call: a device is let through exactly if its
-- user had no push for the room within the window; so all devices of a user, or none.
pub filter_chat_push_throttle-eq-due :
    (room_id now : ℕ) (rs : List Recipient) (sent : List Sent)
    → (filter_chat_push_throttle room_id now rs sent).0
      ≡ delete_where (λ r. not (is_due now (last_sent room_id r.user_id sent))) rs
unfolding filter_chat_push_throttle delete_where
filter_chat_push_throttle-eq-due room_id now [] sent = refl
filter_chat_push_throttle-eq-due room_id now (r ∷ rs) sent =
    (filter_from-eq-delete room_id now sent (r ∷ rs) [] sent (start-IsMidway room_id now sent)).0

sent_now :
    (room_id now : ℕ) (rs : List Recipient) (sent : List Sent)
    → All
        (λ r.
          last_sent room_id r.user_id (filter_chat_push_throttle room_id now rs sent).1 ≡ some now)
        (filter_chat_push_throttle room_id now rs sent).0
unfolding filter_chat_push_throttle
sent_now room_id now [] sent = tt
sent_now room_id now (r ∷ rs) sent =
    All-map (filter_from room_id now (r ∷ rs) [] sent).0
      (λ x e. prune-keeps room_id now (filter_from room_id now (r ∷ rs) [] sent).1 x.user_id e)
      (filter_from-eq-delete room_id now sent (r ∷ rs) [] sent (start-IsMidway room_id now sent)).1

not_due :
    (room_id later now x r : ℕ) (after : List Sent)
    → last_sent room_id r after ≡ some now
    → x ≡ r
    → later < now + chat_push_throttle_window
    → not (is_due later (last_sent room_id x after)) ≡ false
    → ⊥
unfolding is_due
not_due room_id later now x r after e same soon due =
    let at : last_sent room_id x after ≡ some now = ap (λ u. last_sent room_id u after) same ∙ e in
    ground arith

-- A user who was sent a push for a room is sent none for it by a later call within the window.
pub filter_chat_push_throttle-limits :
    (room_id now later : ℕ) (rs rs' : List Recipient) (sent : List Sent)
    → later < now + chat_push_throttle_window
    → let (allowed, after) = filter_chat_push_throttle room_id now rs sent in
      All
        (λ r.
          All (λ x. x.user_id ≢ r.user_id) (filter_chat_push_throttle room_id later rs' after).0)
        allowed
filter_chat_push_throttle-limits room_id now later rs rs' sent soon =
    let after = (filter_chat_push_throttle room_id now rs sent).1 in
    All-map (filter_chat_push_throttle room_id now rs sent).0
      (λ r e. rw (filter_chat_push_throttle-eq-due room_id later rs' after) (
        All-map _
          (λ x due same. not_due room_id later now x.user_id r.user_id after e same soon due)
          (All-deleted (λ x. not (is_due later (last_sent room_id x.user_id after))) rs')))
      (sent_now room_id now rs sent)
