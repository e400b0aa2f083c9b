-- ===== src/Chat/Pages/Shown.antt =====
-- What a page of GetRideMessages or GetDMMessages (routes/chat/chat.go) shows.
use mathlib.Core.List.Memᴰ
use uni_pool_new_backend.Base.{
  ℕ, ◌≤◌, ◌<◌, ◌≡◌, refl, ◌⊎◌, inl, inr, Bool, true, false, Option, none, some, List, [], ◌∷◌, Memᴰ,
  ltb, is_none, arith, Bool-cases, find_where, All, All-map, Option-cases, String, ==_refl, ==→eq,
  find-member, find_where-hit,
}
use uni_pool_new_backend.Booking.Load.Rows.{is_none→none}
use uni_pool_new_backend.Model.{User}
use uni_pool_new_backend.Text.{codes}
use uni_pool_new_backend.Chat.Access.{ChatMessage}
use uni_pool_new_backend.Chat.Reads.{ChatRead}
use uni_pool_new_backend.Chat.Query.{PageQuery, max_message_limit, parse_limit, atoi_above_zero}
use uni_pool_new_backend.Chat.Pages.{
  MessageRow, Page, is_before, fits_page, is_sender, newest_first, take, length, transform_reversed,
  page_rows, answer_page,
}
use uni_pool_new_backend.Chat.Pages.Order.{
  IsChronological, newest_first-All, newest_first-member, newest_first-IsNewestFirst, take-All,
  take-IsNewestFirst, take-newest, length-take, reversed-All, reversed-member, length-reversed,
  reversed-IsChronological,
}

abbrev pub IsOlder : Option ℕ → ℕ → Type 0
IsOlder none created_at = Unit
IsOlder (some before) created_at = created_at < before

-- A message that a page may show.
pub record IsListable (in_room : ChatMessage → Bool) (before : Option ℕ) (users : List User)
    (m : ChatMessage) : Type 0 where
  pub room : in_room m ≡ true
  pub undeleted : m.deleted_at ≡ none
  pub older : IsOlder before m.created_at
  pub sent : (u : User) × Memᴰ u users × (u.id ≡ m.sender_id)

abbrev pub Shows : List MessageRow → ChatMessage → Type 0
Shows rows m = (v : MessageRow) × Memᴰ v rows × (v.message ≡ m)

-- The newest messages that fit: at most as many as the limit, none that does not fit, the oldest
-- first, and all that fit unless there are more, none of which is newer.
pub record IsPageOf (fits : ChatMessage → Type 0) (messages : List ChatMessage) (out : Page)
    : Type 0 where
  pub counted : out.count ≡ length out.messages
  pub bounded : out.count ≤ max_message_limit
  pub shown : All (λ v. Memᴰ v.message messages × fits v.message) out.messages
  pub chronological : IsChronological out.messages
  pub complete :
      (m : ChatMessage)
      → Memᴰ m messages
      → fits m
      → Shows out.messages m
        ⊎ ((out.has_more ≡ true) × All (λ v. m.created_at ≤ v.message.created_at) out.messages)

is_before→IsOlder : (before : Option ℕ) (at : ℕ) → is_before before at ≡ true → IsOlder before at
is_before→IsOlder none at e = tt
is_before→IsOlder (some before) at e = ground arith

IsOlder→is_before : (before : Option ℕ) (at : ℕ) → IsOlder before at → is_before before at ≡ true
IsOlder→is_before none at older = refl
IsOlder→is_before (some before) at older = ground arith

find-there {ℓ} :
    {A : Type ℓ} (p : A → Bool) (xs : List A) (x : A)
    → Memᴰ x xs
    → p x ≡ true
    → is_none (find_where p xs) ≡ false
unfolding find_where
find-there p [] x there e = elim there [ ]
find-there p (y ∷ ys) x there e = elim (Bool-cases (p y)) [
  | inl hit ↦ rw hit refl
  | inr miss ↦ elim (Memᴰ.cases_cons there) [
    | inl same ↦ absurd (ground arith)
    | inr rest ↦ rw miss (find-there p ys x rest e)
  ]
]

module _ (in_room : ChatMessage → Bool) (before : Option ℕ) (users : List User) where
  fits_page→IsListable :
      (m : ChatMessage)
      → fits_page in_room before users m ≡ true
      → IsListable in_room before users m
  fits_page→IsListable m e = elim (Option-cases (find_where (is_sender m) users)) [
    | inl nobody ↦ absurd (ground arith)
    | inr (u, found) ↦ record {
      room = ground arith;
      undeleted = is_none→none m.deleted_at (ground arith);
      older = is_before→IsOlder before m.created_at (ground arith);
      sent = (
        u,
        find-member (is_sender m) users u found,
        ==→eq u.id m.sender_id (find_where-hit (is_sender m) users u found),
      );
    }
  ]

  IsListable→fits_page :
      (m : ChatMessage)
      → IsListable in_room before users m
      → fits_page in_room before users m ≡ true
  IsListable→fits_page m listable =
      let (u, there, own) = listable.sent in
      let found = find-there (is_sender m) users u there (rw own (==_refl m.sender_id)) in
      rw
        (
          listable.room,
          listable.undeleted,
          IsOlder→is_before before m.created_at listable.older,
          found,
        )
        refl

all_members :
    (ms all : List ChatMessage)
    → ((m : ChatMessage) → Memᴰ m ms → Memᴰ m all)
    → All (λ m. Memᴰ m all) ms
all_members [] all there = tt
all_members (m ∷ ms) all there =
    (there m (Memᴰ.head refl), all_members ms all (λ x h. there x (Memᴰ.tail h)))

parse_limit-bounded : (raw : String) → parse_limit raw ≤ max_message_limit
unfolding parse_limit
parse_limit-bounded raw = elim (Option-cases (atoi_above_zero (codes raw))) [
  | inl e ↦ rw (e, parse_limit) (ground arith)
  | inr (v, e) ↦ elim (Bool-cases (ltb max_message_limit v)) [
    | inl big ↦ rw (e, parse_limit, big) (ground arith)
    | inr small ↦ rw (e, parse_limit, small) (ground arith)
  ]
]

pub page_rows-IsPageOf :
    (in_room : ChatMessage → Bool) (row : ChatMessage → MessageRow) (query : PageQuery)
    (users : List User) (messages : List ChatMessage) (reads : List ChatRead)
    → ((m : ChatMessage) → (row m).message ≡ m)
    → IsPageOf
        (IsListable in_room query.before users)
        messages
        (answer_page row query (page_rows in_room query users messages) reads)
unfolding answer_page page_rows
page_rows-IsPageOf in_room row query users messages reads same =
    let fits = fits_page in_room query.before users in
    let limit = parse_limit query.limit in
    let ms = newest_first fits messages in
    let sorted = newest_first-IsNewestFirst fits messages in
    let short = length-take limit ms in
    let small = parse_limit-bounded query.limit in
    let same_length = length-reversed row (take limit ms) in
    let stored : All (λ m. Memᴰ m messages × (fits m ≡ true)) ms =
      newest_first-All fits messages messages (all_members messages messages (λ m h. h)) in
    record {
      counted = refl;
      bounded =
          (let e : length (transform_reversed row (take limit ms)) ≡ length (take limit ms) =
              same_length in
            omega arith);
      shown =
          reversed-All row
            (λ v. Memᴰ v.message messages × IsListable in_room query.before users v.message)
            (take limit ms)
            (All-map (take limit ms)
              (λ m h. rw (same m) (h.0, fits_page→IsListable in_room query.before users m h.1))
              (take-All (λ m. Memᴰ m messages × (fits m ≡ true)) limit ms stored));
      chronological =
          reversed-IsChronological row (take limit ms) same (take-IsNewestFirst limit ms sorted);
      complete = λ m there listable.
          let fit = IsListable→fits_page in_room query.before users m listable in
          elim (take-newest limit ms m sorted (newest_first-member fits messages m there fit)) [
            | inl kept ↦ inl (row m, reversed-member row (take limit ms) m kept, same m)
            | inr (full, newer) ↦ inr (
              rw full (==_refl limit),
              reversed-All row (λ v. m.created_at ≤ v.message.created_at) (take limit ms)
                  (All-map (take limit ms) (λ x h. rw (same x) h) newer),
            )
          ];
    }
