-- ===== src/Examples/Chats.antt =====
-- The throttle on the cases of routes/chat/chat_throttle_test.go.
use uni_pool_new_backend.Base.{
  List, ◌+◌, ◌≡◌, refl, not, [], ◌∷◌, find_where, count_where, update_where, delete_where,
}
use uni_pool_new_backend.Chat.Throttle.{
  Recipient, Sent, chat_push_throttle_window, last_sent, put, is_due, filter_from, prune,
  filter_chat_push_throttle,
}
use uni_pool_new_backend.Chat.Limit.{filter_chat_push_throttle-eq-due}

abbrev phone : Recipient
phone = record { user_id = 2; token = "phone" }

abbrev tablet : Recipient
tablet = record { user_id = 2; token = "tablet" }

abbrev other_phone : Recipient
other_phone = record { user_id = 3; token = "other" }

-- Room 1 pushed to user 3 at time 50.
abbrev before : List Sent
before = record { room_id = 1; user_id = 3; at = 50 } ∷ []

all_tokens_test :
    (filter_chat_push_throttle 1 100 (phone ∷ other_phone ∷ tablet ∷ []) before).0
    ≡ phone ∷ tablet ∷ []
unfolding filter_chat_push_throttle filter_from prune put last_sent is_due find_where count_where
    update_where
all_tokens_test = refl

other_room_test : (filter_chat_push_throttle 2 100 (other_phone ∷ []) before).0 ≡ other_phone ∷ []
unfolding filter_chat_push_throttle filter_from prune put last_sent is_due find_where count_where
    update_where
other_room_test = refl

expired_test :
    (filter_chat_push_throttle 1 (51 + chat_push_throttle_window) (other_phone ∷ []) before).0
    ≡ other_phone ∷ []
unfolding filter_chat_push_throttle filter_from prune put last_sent is_due find_where count_where
    update_where
expired_test = refl

filter_chat_push_throttle-eq-due_example :
    (filter_chat_push_throttle 1 100 (phone ∷ other_phone ∷ tablet ∷ []) before).0
    ≡ delete_where
        (λ r. not (is_due 100 (last_sent 1 r.user_id before)))
        (phone ∷ other_phone ∷ tablet ∷ [])
filter_chat_push_throttle-eq-due_example =
    filter_chat_push_throttle-eq-due 1 100 (phone ∷ other_phone ∷ tablet ∷ []) before
