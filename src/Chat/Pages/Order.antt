-- ===== src/Chat/Pages/Order.antt =====
-- The newest rows of GetRideMessages and GetDMMessages (routes/chat/chat.go): ORDER BY, LIMIT and the
-- loop that turns the order round.
use mathlib.Core.List.Memᴰ
use uni_pool_new_backend.Base.{
  ℕ, zero, suc, ◌+◌, ◌≤◌, ◌≡◌, refl, ◌∙◌, subst, ◌⊎◌, inl, inr, Bool, true, List, [], ◌∷◌, ◌++◌,
  Memᴰ, leb, arith, Bool-cases, All, All-map, All-append, All-member,
}
use uni_pool_new_backend.Chat.Access.{ChatMessage}
use uni_pool_new_backend.Chat.Pages.{
  MessageRow, insert_newest, newest_first, take, length, transform_reversed,
}

-- No row is newer than one before it.
abbrev pub IsNewestFirst : List ChatMessage → Type 0
IsNewestFirst [] = Unit
IsNewestFirst (m ∷ ms) = All (λ x. x.created_at ≤ m.created_at) ms × IsNewestFirst ms

-- No row is older than one before it.
abbrev pub IsChronological : List MessageRow → Type 0
IsChronological [] = Unit
IsChronological (v ∷ vs) =
    All (λ w. v.message.created_at ≤ w.message.created_at) vs × IsChronological vs

insert-All {κ} :
    (P : ChatMessage → Type κ) (x : ChatMessage) (ys : List ChatMessage)
    → P x
    → All P ys
    → All P (insert_newest x ys)
unfolding insert_newest
insert-All P x [] px a = (px, tt)
insert-All P x (y ∷ ys) px a = elim (Bool-cases (leb y.created_at x.created_at)) [
  | inl e ↦ rw e (px, a)
  | inr e ↦ rw e (a.0, insert-All P x ys px a.1)
]

insert-head : (x : ChatMessage) (ys : List ChatMessage) → Memᴰ x (insert_newest x ys)
unfolding insert_newest
insert-head x [] = Memᴰ.head refl
insert-head x (y ∷ ys) = elim (Bool-cases (leb y.created_at x.created_at)) [
  | inl e ↦ rw e (Memᴰ.head refl)
  | inr e ↦ rw e (Memᴰ.tail (insert-head x ys))
]

insert-tail : (x m : ChatMessage) (ys : List ChatMessage) → Memᴰ m ys → Memᴰ m (insert_newest x ys)
unfolding insert_newest
insert-tail x m [] there = elim there [ ]
insert-tail x m (y ∷ ys) there = elim (Bool-cases (leb y.created_at x.created_at)) [
  | inl e ↦ rw e (Memᴰ.tail there)
  | inr e ↦ rw e (elim (Memᴰ.cases_cons there) [
    | inl same ↦ Memᴰ.head same
    | inr rest ↦ Memᴰ.tail (insert-tail x m ys rest)
  ])
]

insert-IsNewestFirst :
    (x : ChatMessage) (ys : List ChatMessage)
    → IsNewestFirst ys
    → IsNewestFirst (insert_newest x ys)
unfolding insert_newest
insert-IsNewestFirst x [] sorted = (tt, tt)
insert-IsNewestFirst x (y ∷ ys) sorted = elim (Bool-cases (leb y.created_at x.created_at)) [
  | inl e ↦
      let older : y.created_at ≤ x.created_at = ground arith in
      rw e ((older, All-map ys (λ z h. omega arith) sorted.0), sorted)
  | inr e ↦ rw e (
    insert-All (λ z. z.created_at ≤ y.created_at) x ys (ground arith) sorted.0,
    insert-IsNewestFirst x ys sorted.1,
  )
]

module _ (p : ChatMessage → Bool) where
  pub newest_first-All :
      (ms all : List ChatMessage)
      → All (λ m. Memᴰ m all) ms
      → All (λ m. Memᴰ m all × (p m ≡ true)) (newest_first p ms)
  unfolding newest_first
  newest_first-All [] all a = tt
  newest_first-All (m ∷ ms) all a = elim (Bool-cases (p m)) [
    | inl e ↦ rw e (
        insert-All (λ x. Memᴰ x all × (p x ≡ true)) m (newest_first p ms) (a.0, e)
          (newest_first-All ms all a.1))
    | inr e ↦ rw e (newest_first-All ms all a.1)
  ]

  pub newest_first-member :
      (ms : List ChatMessage) (m : ChatMessage)
      → Memᴰ m ms
      → p m ≡ true
      → Memᴰ m (newest_first p ms)
  unfolding newest_first
  newest_first-member [] m there e = elim there [ ]
  newest_first-member (x ∷ xs) m (Memᴰ.head same) e =
      rw (← same, e) (insert-head m (newest_first p xs))
  newest_first-member (x ∷ xs) m (Memᴰ.tail there) e =
      let rest = newest_first-member xs m there e in
      elim (Bool-cases (p x)) [
        | inl kept ↦ rw kept (insert-tail x m (newest_first p xs) rest)
        | inr gone ↦ rw gone rest
      ]

  pub newest_first-IsNewestFirst : (ms : List ChatMessage) → IsNewestFirst (newest_first p ms)
  unfolding newest_first
  newest_first-IsNewestFirst [] = tt
  newest_first-IsNewestFirst (m ∷ ms) = elim (Bool-cases (p m)) [
    | inl e ↦ rw e (insert-IsNewestFirst m (newest_first p ms) (newest_first-IsNewestFirst ms))
    | inr e ↦ rw e (newest_first-IsNewestFirst ms)
  ]

pub take-All {ℓ κ} :
    {A : Type ℓ} (P : A → Type κ) (n : ℕ) (xs : List A) → All P xs → All P (take n xs)
unfolding take
take-All P n [] a = tt
take-All P zero (x ∷ xs) a = tt
take-All P (suc n) (x ∷ xs) a = (a.0, take-All P n xs a.1)

pub take-IsNewestFirst :
    (n : ℕ) (ms : List ChatMessage) → IsNewestFirst ms → IsNewestFirst (take n ms)
unfolding take
take-IsNewestFirst n [] sorted = tt
take-IsNewestFirst zero (m ∷ ms) sorted = tt
take-IsNewestFirst (suc n) (m ∷ ms) sorted =
    (take-All (λ x. x.created_at ≤ m.created_at) n ms sorted.0, take-IsNewestFirst n ms sorted.1)

pub length-take {ℓ} : {A : Type ℓ} (n : ℕ) (xs : List A) → length (take n xs) ≤ n
unfolding take length
length-take n [] = ground arith
length-take zero (x ∷ xs) = ground arith
length-take (suc n) (x ∷ xs) = let rest = length-take n xs in omega arith

-- A row that the limit cuts off is not newer than those that are left, which are as many as the limit.
pub take-newest :
    (n : ℕ) (ms : List ChatMessage) (m : ChatMessage)
    → IsNewestFirst ms
    → Memᴰ m ms
    → Memᴰ m (take n ms)
      ⊎ ((length (take n ms) ≡ n) × All (λ x. m.created_at ≤ x.created_at) (take n ms))
unfolding take length
take-newest n [] m sorted there = elim there [ ]
take-newest zero (x ∷ xs) m sorted there = inr (refl, tt)
take-newest (suc n) (x ∷ xs) m sorted there = elim (Memᴰ.cases_cons there) [
  | inl same ↦ inl (Memᴰ.head same)
  | inr rest ↦ elim (take-newest n xs m sorted.1 rest) [
    | inl kept ↦ inl (Memᴰ.tail kept)
    | inr (full, newer) ↦ inr (
      (let e : length (take n xs) ≡ n = full in omega arith),
      (All-member (λ z. z.created_at ≤ x.created_at) xs m sorted.0 rest, newer),
    )
  ]
]

member-append {ℓ} : {A : Type ℓ} (xs ys : List A) (x : A) → Memᴰ x xs → Memᴰ x (xs ++ ys)
member-append [] ys x there = elim there [ ]
member-append (z ∷ zs) ys x (Memᴰ.head same) = Memᴰ.head same
member-append (z ∷ zs) ys x (Memᴰ.tail rest) = Memᴰ.tail (member-append zs ys x rest)

member-last {ℓ} : {A : Type ℓ} (xs : List A) (x : A) → Memᴰ x (xs ++ (x ∷ []))
member-last [] x = Memᴰ.head refl
member-last (z ∷ zs) x = Memᴰ.tail (member-last zs x)

length-snoc {ℓ} : {A : Type ℓ} (xs : List A) (x : A) → length (xs ++ (x ∷ [])) ≡ length xs + 1
unfolding length
length-snoc [] x = refl
length-snoc (z ∷ zs) x = rw (length-snoc zs x) refl

snoc-IsChronological :
    (vs : List MessageRow) (v : MessageRow)
    → All (λ w. w.message.created_at ≤ v.message.created_at) vs
    → IsChronological vs
    → IsChronological (vs ++ (v ∷ []))
snoc-IsChronological [] v a sorted = (tt, tt)
snoc-IsChronological (w ∷ ws) v a sorted = (
  All-append (λ x. w.message.created_at ≤ x.message.created_at) ws (v ∷ []) sorted.0 (a.0, tt),
  snoc-IsChronological ws v a.1 sorted.1,
)

module _ {ℓ κ} {A : Type ℓ} {B : Type κ} (f : A → B) where
  pub reversed-All {μ} :
      (P : B → Type μ) (xs : List A) → All (λ x. P (f x)) xs → All P (transform_reversed f xs)
  unfolding transform_reversed
  reversed-All P [] a = tt
  reversed-All P (x ∷ xs) a =
      All-append P (transform_reversed f xs) (f x ∷ []) (reversed-All P xs a.1) (a.0, tt)

  pub reversed-member : (xs : List A) (x : A) → Memᴰ x xs → Memᴰ (f x) (transform_reversed f xs)
  unfolding transform_reversed
  reversed-member [] x there = elim there [ ]
  reversed-member (y ∷ ys) x (Memᴰ.head same) =
      subst (λ z. Memᴰ (f x) (transform_reversed f ys ++ (f z ∷ []))) same
        (member-last (transform_reversed f ys) (f x))
  reversed-member (y ∷ ys) x (Memᴰ.tail rest) =
      member-append (transform_reversed f ys) (f y ∷ []) (f x) (reversed-member ys x rest)

  pub length-reversed : (xs : List A) → length (transform_reversed f xs) ≡ length xs
  unfolding transform_reversed length
  length-reversed [] = refl
  length-reversed (x ∷ xs) =
      length-snoc (transform_reversed f xs) (f x) ∙ rw (length-reversed xs) refl

pub reversed-IsChronological :
    (row : ChatMessage → MessageRow) (ms : List ChatMessage)
    → ((m : ChatMessage) → (row m).message ≡ m)
    → IsNewestFirst ms
    → IsChronological (transform_reversed row ms)
unfolding transform_reversed
reversed-IsChronological row [] same sorted = tt
reversed-IsChronological row (m ∷ ms) same sorted =
    snoc-IsChronological (transform_reversed row ms) (row m)
      (reversed-All row (λ w. w.message.created_at ≤ (row m).message.created_at) ms
        (All-map ms (λ x h. rw (same x, same m) h) sorted.0))
      (reversed-IsChronological row ms same sorted.1)
