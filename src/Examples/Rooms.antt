-- ===== src/Examples/Rooms.antt =====
-- The rooms of two users, with uuids written as one code point.
use uni_pool_new_backend.Base.{
  ℕ, ◌+◌, ◌-◌, ◌≡◌, ◌⊎◌, refl, Option, none, some, List, [], ◌∷◌, ◌++◌, arith,
}
use uni_pool_new_backend.Chat.Rooms.{
  IsUuid, text_lt, strip_prefix, split_underscore, dm_prefix, dm_room_id, parse_dm_room_id,
  parse-dm_room_id,
}

abbrev write : ℕ → List ℕ
write u = (u + 200) ∷ []

abbrev read : List ℕ → Option ℕ
read [] = none
read (c ∷ cs) = some (c - 200)

write-IsUuid : IsUuid write read
write-IsUuid = record {
  parse_string = λ u. ground arith;
  no_underscore = λ u. (omega arith, tt);
  not_empty = λ u e. ground arith;
}

room_test : dm_room_id write read 7 3 ≡ dm_prefix ++ (203 ∷ b'_' ∷ 207 ∷ [])
unfolding dm_room_id text_lt
room_test = refl

-- A room of one user with itself is refused.
self_test : parse_dm_room_id write read (dm_prefix ++ (203 ∷ b'_' ∷ 203 ∷ [])) ≡ none
unfolding parse_dm_room_id strip_prefix split_underscore
self_test = refl

parse-dm_room_id_example :
    (dm_room_id write read 7 3 ≡ dm_room_id write read 3 7)
    × ((parse_dm_room_id write read (dm_room_id write read 7 3) ≡ some (7, 3))
        ⊎ (parse_dm_room_id write read (dm_room_id write read 7 3) ≡ some (3, 7)))
parse-dm_room_id_example = parse-dm_room_id write read write-IsUuid 7 3 (omega arith)
