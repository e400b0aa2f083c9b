-- ===== src/Hub/Presence.antt =====
-- The two readers of the hub of initializer/websocket.go against each other.
use uni_pool_new_backend.Base.{
  ℕ, ◌≡◌, ◌≢◌, refl, sym, inl, inr, Bool, true, false, not, ◌&&◌, Option, none, some, List, [], ◌∷◌,
  ◌==◌, arith, All, All-map, All-of, Bool-cases, count_where, delete_where, delete_none,
}
use uni_pool_new_backend.Hub.{Conn, Hub, is_member_of, user_connection_count}
use uni_pool_new_backend.Hub.Calls.{is_user_active_in_room, users_in_room, filter_users_not_in_room}

count-users_in_room :
    (room_id user_id : ℕ) (cs : List Conn)
    → count_where (λ u. u == user_id) (users_in_room room_id cs)
      ≡ count_where (λ c. is_member_of room_id c && c.client.user_id == user_id) cs
unfolding users_in_room count_where
count-users_in_room room_id user_id [] = refl
count-users_in_room room_id user_id (c ∷ cs) =
    ground (arith, count-users_in_room room_id user_id cs)

delete-cong :
    (p q : ℕ → Bool) (xs : List ℕ) → All (λ x. p x ≡ q x) xs → delete_where p xs ≡ delete_where q xs
unfolding delete_where
delete-cong p q [] a = refl
delete-cong p q (x ∷ xs) a = rw (a.0, delete-cong p q xs a.1) refl

no_hub : (room_id id : ℕ) → is_user_active_in_room none room_id id ≡ false
unfolding is_user_active_in_room
no_hub room_id id = refl

module _ (hub : Hub) (room_id id : ℕ) where
  nowhere : (room_id == 0) ≡ true → is_user_active_in_room (some hub) room_id id ≡ false
  unfolding is_user_active_in_room
  nowhere empty = rw empty refl

  viewing :
      (room_id == 0) ≡ false
      → id ≢ 0
      → not (count_where (λ u. u == id) (users_in_room room_id hub.conns) == 0)
        ≡ is_user_active_in_room (some hub) room_id id
  unfolding is_user_active_in_room user_connection_count
  viewing room named =
      let other : (id == 0) ≡ false = ground arith in
      rw (room, other, count-users_in_room room_id id hub.conns) refl

-- The recipients that the filter leaves are those that are not active in the room, in their order, for
-- any hub, nil or not, and any room, where no recipient is the empty text.
pub filter_users-eq-inactive :
    (hub : Option Hub) (room_id : ℕ) (user_ids : List ℕ)
    → All (λ id. id ≢ 0) user_ids
    → filter_users_not_in_room hub room_id user_ids
      ≡ delete_where (is_user_active_in_room hub room_id) user_ids
unfolding filter_users_not_in_room
filter_users-eq-inactive none room_id user_ids named =
    sym (delete_none (is_user_active_in_room none room_id) user_ids (inactive user_ids))
  where
    inactive : (ids : List ℕ) → All (λ id. is_user_active_in_room none room_id id ≡ false) ids
    inactive ids = All-of _ ids (λ id. no_hub room_id id)
filter_users-eq-inactive (some hub) room_id user_ids named = elim (Bool-cases (room_id == 0)) [
  | inl empty ↦ rw empty (
      sym (
        delete_none (is_user_active_in_room (some hub) room_id) user_ids
          (All-of _ user_ids (λ id. nowhere hub room_id id empty))))
  | inr room ↦ rw room (
      delete-cong (λ id. not (count_where (λ u. u == id) (users_in_room room_id hub.conns) == 0))
        (is_user_active_in_room (some hub) room_id) user_ids
        (All-map user_ids (λ id there. viewing hub room_id id room there) named))
]
