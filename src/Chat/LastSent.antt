-- ===== src/Chat/LastSent.antt =====
-- Reading the map of the push throttle of routes/chat/chat.go behind a write.
use uni_pool_new_backend.Base.{
  ℕ, ◌≡◌, ◌≢◌, refl, true, false, some, List, ◌==◌, find_where, count_where, arith, Bool-cases,
  Option-cases, inl, inr, find-update, find-update_none, find-snoc, find_none, none_found,
  find_where-hit,
}
use uni_pool_new_backend.Chat.Throttle.{Sent, is_key, last_sent, put}

module _ (room_id user_id now : ℕ) (sent : List Sent) where
  pub last_sent-put : last_sent room_id user_id (put room_id user_id now sent) ≡ some now
  unfolding last_sent put
  last_sent-put = elim (Option-cases (find_where (is_key room_id user_id) sent)) [
    | inl absent ↦
        let zero = find_none (is_key room_id user_id) sent absent in
        let test : (count_where (is_key room_id user_id) sent == 0) ≡ true = ground arith in
        let own : is_key room_id user_id (record { room_id = room_id; user_id = user_id; at = now })
            ≡ true =
          ground arith in
        rw
          (
            test,
            last_sent,
            find-snoc (is_key room_id user_id) sent
                (record { room_id = room_id; user_id = user_id; at = now }),
            absent,
            own,
          )
          refl
    | inr (s, found) ↦ elim (Bool-cases (count_where (is_key room_id user_id) sent == 0)) [
      | inl zero ↦
          let gone = none_found (is_key room_id user_id) sent (ground arith) in
          absurd (ground arith)
      | inr some_entry ↦
          rw
            (
              some_entry,
              last_sent,
              find-update (is_key room_id user_id) (is_key room_id user_id)
                  (λ s. record s { at = now }) sent s (λ y. refl) found,
              find_where-hit (is_key room_id user_id) sent s found,
            )
            refl
    ]
  ]

  pub last_sent-put_other :
      (other : ℕ)
      → other ≢ user_id
      → last_sent room_id other (put room_id user_id now sent) ≡ last_sent room_id other sent
  unfolding last_sent put
  last_sent-put_other other ne =
      elim (Bool-cases (count_where (is_key room_id user_id) sent == 0)) [
        | inl zero ↦
            let apart : is_key room_id other
                  (record { room_id = room_id; user_id = user_id; at = now })
                ≡ false =
              ground arith in
            elim (Option-cases (find_where (is_key room_id other) sent)) [
              | inl absent ↦
                  rw
                    (
                      zero,
                      last_sent,
                      find-snoc (is_key room_id other) sent
                          (record { room_id = room_id; user_id = user_id; at = now }),
                      absent,
                      apart,
                    )
                    refl
              | inr (s, found) ↦
                  rw
                    (
                      zero,
                      last_sent,
                      find-snoc (is_key room_id other) sent
                          (record { room_id = room_id; user_id = user_id; at = now }),
                      found,
                    )
                    refl
            ]
        | inr some_entry ↦ elim (Option-cases (find_where (is_key room_id other) sent)) [
          | inl absent ↦
              rw
                (
                  some_entry,
                  last_sent,
                  find-update_none (is_key room_id other) (is_key room_id user_id)
                      (λ s. record s { at = now }) sent (λ y. refl) absent,
                  absent,
                )
                refl
          | inr (s, found) ↦
              let hit = find_where-hit (is_key room_id other) sent s found in
              let apart : is_key room_id user_id s ≡ false = ground arith in
              rw
                (
                  some_entry,
                  last_sent,
                  find-update (is_key room_id other) (is_key room_id user_id)
                      (λ s. record s { at = now }) sent s (λ y. refl) found,
                  apart,
                  found,
                )
                refl
        ]
      ]
