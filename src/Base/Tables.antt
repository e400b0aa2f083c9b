-- ===== src/Base/Tables.antt =====
-- A database table as the list of its rows, and the four statements that the program's queries are
-- made of: the first row that fits, the number of rows that fit, an update and a deletion.
use Prim.Native.Nat.{ℕ, suc}
use mathlib.Core.Path.{◌≡◌, refl, subst}
use mathlib.Core.Logic.{◌≢◌, inl, inr}
use mathlib.Core.Bool.{Bool, true, false}
use mathlib.Core.List.{List, [], ◌∷◌, ◌++◌}
use mathlib.Core.Option.{Option, none, some}
use uni_pool_new_backend.Base.Tests.{if◌then◌else◌, Bool-cases}

module _ {ℓ} {A : Type ℓ} where
  unfoldable pub find_where : (A → Bool) → List A → Option A
  find_where p [] = none
  find_where p (x ∷ xs) = if p x then some x else find_where p xs

  unfoldable pub count_where : (A → Bool) → List A → ℕ
  count_where p [] = 0
  count_where p (x ∷ xs) = let rest = count_where p xs in if p x then suc rest else rest

  unfoldable pub update_where : (A → Bool) → (A → A) → List A → List A
  update_where p f [] = []
  update_where p f (x ∷ xs) = (if p x then f x else x) ∷ update_where p f xs

  unfoldable pub delete_where : (A → Bool) → List A → List A
  delete_where p [] = []
  delete_where p (x ∷ xs) = let rest = delete_where p xs in if p x then rest else x ∷ rest

  -- Every row satisfies the predicate.
  abbrev pub All {κ} : (A → Type κ) → List A → Type κ
  All P [] = Unit
  All P (x ∷ xs) = P x × All P xs

  -- No two rows have the same key.
  abbrev pub Keyed : (A → ℕ) → List A → Type 0
  Keyed key [] = Unit
  Keyed key (x ∷ xs) = All (λ y. key y ≢ key x) xs × Keyed key xs

module _ {ℓ} {A : Type ℓ} where
  pub All-map {κ μ} :
      {P : A → Type κ} {Q : A → Type μ} (xs : List A) → ((x : A) → P x → Q x) → All P xs → All Q xs
  All-map [] h a = tt
  All-map (x ∷ xs) h a = (h x a.0, All-map xs h a.1)

  pub All-of {κ} : (P : A → Type κ) (xs : List A) → ((x : A) → P x) → All P xs
  All-of P [] h = tt
  All-of P (x ∷ xs) h = (h x, All-of P xs h)

  pub All-zip {κ μ} :
      (P : A → Type κ) (Q : A → Type μ) (xs : List A)
      → All P xs
      → All Q xs
      → All (λ x. P x × Q x) xs
  All-zip P Q [] a b = tt
  All-zip P Q (x ∷ xs) a b = ((a.0, b.0), All-zip P Q xs a.1 b.1)

  pub All-append {κ} : (P : A → Type κ) (xs ys : List A) → All P xs → All P ys → All P (xs ++ ys)
  All-append P [] ys a b = b
  All-append P (x ∷ xs) ys a b = (a.0, All-append P xs ys a.1 b)

  pub last-All {κ} : (P : A → Type κ) (xs : List A) (x : A) → All P (xs ++ (x ∷ [])) → P x
  last-All P [] x a = a.0
  last-All P (y ∷ ys) x a = last-All P ys x a.1

  pub All-update {κ μ} :
      {P : A → Type κ} {Q : A → Type μ} (p : A → Bool) (f : A → A) (xs : List A)
      → ((x : A) → p x ≡ true → P x → Q (f x))
      → ((x : A) → p x ≡ false → P x → Q x)
      → All P xs
      → All Q (update_where p f xs)
  unfolding update_where
  All-update p f [] hit miss a = tt
  All-update {Q} p f (x ∷ xs) hit miss a = elim (Bool-cases (p x)) [
    | inl e ↦ (rw e (hit x e a.0), All-update p f xs hit miss a.1)
    | inr e ↦ (rw e (miss x e a.0), All-update p f xs hit miss a.1)
  ]

  pub All-before_update {κ} :
      (P : A → Type κ) (p : A → Bool) (f : A → A) (xs : List A)
      → ((x : A) → P (f x) → P x)
      → All P (update_where p f xs)
      → All P xs
  unfolding update_where
  All-before_update P p f [] back a = tt
  All-before_update P p f (x ∷ xs) back a = (
    elim (Bool-cases (p x)) [
      | inl e ↦ back x (subst (λ b. P (if b then f x else x)) e a.0)
      | inr e ↦ subst (λ b. P (if b then f x else x)) e a.0
    ],
    All-before_update P p f xs back a.1,
  )

  pub All-delete {κ} :
      (P : A → Type κ) (p : A → Bool) (xs : List A) → All P xs → All P (delete_where p xs)
  unfolding delete_where
  All-delete P p [] a = tt
  All-delete P p (x ∷ xs) a = elim (Bool-cases (p x)) [
    | inl e ↦ rw e (All-delete P p xs a.1)
    | inr e ↦ rw e (a.0, All-delete P p xs a.1)
  ]

  pub All-deleted : (p : A → Bool) (xs : List A) → All (λ x. p x ≡ false) (delete_where p xs)
  unfolding delete_where
  All-deleted p [] = tt
  All-deleted p (x ∷ xs) = elim (Bool-cases (p x)) [
    | inl e ↦ rw e (All-deleted p xs)
    | inr e ↦ rw e (e, All-deleted p xs)
  ]

  pub update_none :
      (p : A → Bool) (f : A → A) (xs : List A)
      → All (λ x. p x ≡ false) xs
      → update_where p f xs ≡ xs
  unfolding update_where
  update_none p f [] a = refl
  update_none p f (x ∷ xs) a = rw (a.0, update_none p f xs a.1) refl

  pub delete_none :
      (p : A → Bool) (xs : List A) → All (λ x. p x ≡ false) xs → delete_where p xs ≡ xs
  unfolding delete_where
  delete_none p [] a = refl
  delete_none p (x ∷ xs) a = rw (a.0, delete_none p xs a.1) refl
