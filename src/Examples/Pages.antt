-- ===== src/Examples/Pages.antt =====
-- Who reads the chat of ride 10.
use uni_pool_new_backend.Base.{
  ℕ, ◌≡◌, refl, ◌⊎◌, true, Option, none, some, List, [], ◌∷◌, map, find_where, count_where,
  put_where,
}
use uni_pool_new_backend.Store.{signed_in}
use uni_pool_new_backend.Text.{
  codes, codes_eq, normalize, is_space, is_empty, to_lower, trim_left, trim_space,
}
use uni_pool_new_backend.Chat.Access.{ChatMessage, role_in}
use uni_pool_new_backend.Chat.Reads.{is_ride, upsert_ride_read_cursor}
use uni_pool_new_backend.Chat.Query.{
  PageQuery, parse_limit, atoi_above_zero, digits, should_mark_read,
}
use uni_pool_new_backend.Chat.Pages.{
  insert_newest, newest_first, take, length, readers_of, transform_reversed, page_rows, answer_page,
  viewer_role, ride_page, get_ride_messages,
}
use uni_pool_new_backend.Chat.Members.{IsMember}
use uni_pool_new_backend.Chat.Pages.Shown.{IsListable, IsPageOf}
use uni_pool_new_backend.Chat.Pages.Readers.{IsUnanswered, IsNamedHost, get_ride_messages-IsPageOf}
use uni_pool_new_backend.Examples.Fixtures.{bina, chitra, calm, start}

abbrev said : ℕ → ℕ → Option ℕ → ChatMessage
said id at gone = record {
  id = id;
  created_at = at;
  deleted_at = gone;
  ride_id = some 10;
  dm_room_id = none;
  sender_id = 2;
  content = [];
}

abbrev stored : List ChatMessage
stored =
    said 70 11 none
    ∷ said 71 12 none
    ∷ said 72 13 (some 20)
    ∷ said 73 14 none
    ∷ said 74 15 none
    ∷ []

abbrev two_before : PageQuery
two_before = record { limit = "+2"; before = some 15; mark_read = " TRUE " }

limit_test :
    map parse_limit ("" ∷ "0" ∷ "-3" ∷ "7" ∷ "999" ∷ "7x" ∷ []) ≡ 50 ∷ 50 ∷ 50 ∷ 7 ∷ 200 ∷ 50 ∷ []
unfolding parse_limit atoi_above_zero digits codes is_empty
limit_test = refl

-- The two newest before the cursor, the oldest first; there may be more.
page_test :
    let out = get_ride_messages calm (signed_in bina) (some 10) two_before start stored [] in
    (map (λ v. v.message.id) out.messages ≡ 71 ∷ 73 ∷ [])
    × (out.has_more ≡ true)
    × (length out.reads ≡ 1)
unfolding get_ride_messages ride_page viewer_role role_in answer_page page_rows newest_first
    insert_newest take length transform_reversed readers_of parse_limit atoi_above_zero digits codes
    codes_eq normalize is_space is_empty to_lower trim_left trim_space should_mark_read
    upsert_ride_read_cursor find_where count_where put_where
page_test = (refl, refl, refl)

waiting_test :
    (get_ride_messages calm (signed_in chitra) (some 10) two_before start stored []).response.status
    ≡ 403
unfolding get_ride_messages ride_page viewer_role role_in find_where
waiting_test = refl

get_ride_messages-IsPageOf_example :
    let out = get_ride_messages calm (signed_in bina) (some 10) two_before start stored [] in
    IsUnanswered [] out
    ⊎ ((IsMember 2 10 start ⊎ IsNamedHost 2 10 start)
        × IsPageOf (IsListable (λ m. is_ride 10 m.ride_id) (some 15) start.users) stored out)
get_ride_messages-IsPageOf_example =
    get_ride_messages-IsPageOf calm bina 10 two_before start stored []
