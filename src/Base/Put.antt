-- ===== src/Base/Put.antt =====
-- A write under a key: the rows that have it are changed, or a row is added.
use Prim.Native.Nat.{ℕ, ◌≤◌}
use mathlib.Core.Path.{◌≡◌, refl, sym, ◌∙◌}
use mathlib.Core.Logic.{◌≢◌, inl, inr}
use mathlib.Core.Bool.{Bool, true, false}
use mathlib.Core.List.{List, [], ◌∷◌, ◌++◌}
use mathlib.Core.Option.{none, some}
use native.Mathlib.Omega.{arith}
use uni_pool_new_backend.Base.Tests.{◌==◌, if◌then◌else◌, Bool-cases, Option-cases, ==→eq}
use uni_pool_new_backend.Base.Tables.{
  find_where, count_where, update_where, All, All-append, All-update, All-of, Keyed,
}
use uni_pool_new_backend.Base.Lookups.{find-snoc, none_found, find_none}
use uni_pool_new_backend.Base.Counts.{count-append, count-update_keep}
use uni_pool_new_backend.Base.Keys.{Keyed-snoc}

module _ {ℓ} {A : Type ℓ} where
  unfoldable pub put_where : (A → Bool) → (A → A) → A → List A → List A
  put_where p f x xs = if count_where p xs == 0 then xs ++ (x ∷ []) else update_where p f xs

  find-update_self :
      (p : A → Bool) (f : A → A) (xs : List A) (x : A)
      → ((y : A) → p y ≡ true → p (f y) ≡ true)
      → find_where p xs ≡ some x
      → find_where p (update_where p f xs) ≡ some (f x)
  unfolding find_where update_where
  find-update_self p f [] x keeps e = cc
  find-update_self p f (y ∷ ys) x keeps e = elim (Bool-cases (p y)) [
    | inl hit ↦ let same : y ≡ x = ground arith in rw (hit, keeps y hit, same) refl
    | inr miss ↦ rw (miss, find-update_self p f ys x keeps (ground arith), miss) refl
  ]

  find-update_other :
      (p q : A → Bool) (f : A → A) (xs : List A)
      → ((y : A) → p y ≡ true → (q y ≡ false) × (q (f y) ≡ false))
      → find_where q (update_where p f xs) ≡ find_where q xs
  unfolding find_where update_where
  find-update_other p q f [] apart = refl
  find-update_other p q f (y ∷ ys) apart = elim (Bool-cases (p y)) [
    | inl hit ↦
        let (off, off') = apart y hit in rw (hit, off, off', find-update_other p q f ys apart) refl
    | inr miss ↦ rw (miss, find-update_other p q f ys apart) refl
  ]

  pub find-put_self :
      (p : A → Bool) (f : A → A) (x : A) (xs : List A)
      → p x ≡ true
      → ((y : A) → p y ≡ true → p (f y) ≡ true)
      → find_where p (put_where p f x xs)
        ≡ elim (find_where p xs) [ none ↦ some x | some y ↦ some (f y) ]
  unfolding put_where
  find-put_self p f x xs hit keeps = elim (Option-cases (find_where p xs)) [
    | inl e ↦ rw (find_none p xs e, find-snoc p xs x, e, hit) refl
    | inr (y, e) ↦ elim (Bool-cases (count_where p xs == 0)) [
      | inl fresh ↦ let nothing : none ≡ some y = sym (none_found p xs (ground arith)) ∙ e in cc
      | inr there ↦ rw (there, find-update_self p f xs y keeps e, e) refl
    ]
  ]

  pub find-put_other :
      (p q : A → Bool) (f : A → A) (x : A) (xs : List A)
      → q x ≡ false
      → ((y : A) → p y ≡ true → (q y ≡ false) × (q (f y) ≡ false))
      → find_where q (put_where p f x xs) ≡ find_where q xs
  unfolding put_where
  find-put_other p q f x xs off apart = elim (Bool-cases (count_where p xs == 0)) [
    | inl fresh ↦
        rw (fresh, find-snoc q xs x)
          (elim (Option-cases (find_where q xs)) [
            | inl e ↦ rw (e, off) refl
            | inr (y, e) ↦ rw e refl
          ])
    | inr there ↦ rw (there, find-update_other p q f xs apart) refl
  ]

  pub All-put {κ} :
      (P : A → Type κ) (p : A → Bool) (f : A → A) (x : A) (xs : List A)
      → P x
      → ((y : A) → P y → P (f y))
      → All P xs
      → All P (put_where p f x xs)
  unfolding put_where
  All-put P p f x xs new keeps a = elim (Bool-cases (count_where p xs == 0)) [
    | inl fresh ↦ rw fresh (All-append P xs (x ∷ []) a (new, tt))
    | inr there ↦ rw there (All-update p f xs (λ y _ b. keeps y b) (λ y _ b. b) a)
  ]

  pub count-put_self :
      (p : A → Bool) (f : A → A) (x : A) (xs : List A)
      → p x ≡ true
      → ((y : A) → p y ≡ true → p (f y) ≡ true)
      → count_where p xs ≤ 1
      → count_where p (put_where p f x xs) ≤ 1
  unfolding put_where count_where
  count-put_self p f x xs hit keeps one = elim (Bool-cases (count_where p xs == 0)) [
    | inl fresh ↦ rw (fresh, count-append p xs (x ∷ []), hit) (ground arith)
    | inr there ↦
        let same = count-update_keep p p f xs (All-of _ xs (λ y e. keeps y e ∙ sym e)) in
        rw (there, same) one
  ]

  pub count-put_other :
      (p q : A → Bool) (f : A → A) (x : A) (xs : List A)
      → q x ≡ false
      → ((y : A) → q (f y) ≡ q y)
      → count_where q (put_where p f x xs) ≡ count_where q xs
  unfolding put_where count_where
  count-put_other p q f x xs off same = elim (Bool-cases (count_where p xs == 0)) [
    | inl fresh ↦ rw (fresh, count-append q xs (x ∷ []), off) (omega arith)
    | inr there ↦ rw there (count-update_keep p q f xs (All-of _ xs (λ y _. same y)))
  ]

module _ {ℓ} {A : Type ℓ} (key : A → ℕ) where
  replace-Keyed :
      (x : A) (xs : List A)
      → Keyed key xs
      → Keyed key (update_where (λ y. key y == key x) (λ _. x) xs)
  unfolding update_where
  replace-Keyed x [] k = tt
  replace-Keyed x (y ∷ ys) k = (
    All-update (λ z. key z == key x) (λ _. x) ys
        (λ z hit ne at. ne (==→eq (key z) (key x) hit ∙ (at ∙ head_key)))
        (λ z miss ne at. ne (at ∙ head_key)) k.0,
    replace-Keyed x ys k.1,
  )
    where
      head_key : key (if key y == key x then x else y) ≡ key y
      head_key = elim (Bool-cases (key y == key x)) [
        | inl e ↦ rw e (sym (==→eq (key y) (key x) e))
        | inr e ↦ rw e refl
      ]

  none_with_key :
      (x : A) (ys : List A) → count_where (λ y. key y == key x) ys ≡ 0 → All (λ y. key y ≢ key x) ys
  unfolding count_where
  none_with_key x [] e = tt
  none_with_key x (y ∷ ys) e = (λ at. ground arith, none_with_key x ys (ground arith))

  -- A row takes the place of the one with its key.
  pub Keyed-put_key :
      (x : A) (xs : List A)
      → Keyed key xs
      → Keyed key (put_where (λ y. key y == key x) (λ _. x) x xs)
  unfolding put_where
  Keyed-put_key x xs k = elim (Bool-cases (count_where (λ y. key y == key x) xs == 0)) [
    | inl fresh ↦ rw fresh (Keyed-snoc key xs x (none_with_key x xs (ground arith)) k)
    | inr there ↦ rw there (replace-Keyed x xs k)
  ]
