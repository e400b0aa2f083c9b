-- ===== src/Base/Counts.antt =====
-- The number of rows that fit, through updates and deletions.
use Prim.Native.Nat.{◌+◌}
use mathlib.Core.Path.{◌≡◌, refl, ap, ◌∙◌}
use mathlib.Core.Logic.{◌≢◌, inl, inr}
use mathlib.Core.Bool.{Bool, true, false, ◌&&◌}
use mathlib.Core.List.{List, [], ◌∷◌, ◌++◌}
use mathlib.Core.Option.{some}
use native.Mathlib.Omega.{arith}
use uni_pool_new_backend.Base.Tests.{Bool-cases}
use uni_pool_new_backend.Base.Tables.{find_where, count_where, update_where, delete_where, All}

module _ {ℓ} {A : Type ℓ} where
  pub count-cong :
      (p q : A → Bool) (xs : List A) → ((x : A) → p x ≡ q x) → count_where p xs ≡ count_where q xs
  unfolding count_where
  count-cong p q [] h = refl
  count-cong p q (x ∷ xs) h = rw (h x, count-cong p q xs h)

  pub count-found :
      (p q : A → Bool) (xs : List A) (x : A)
      → find_where p xs ≡ some x
      → q x ≡ true
      → count_where q xs ≢ 0
  unfolding find_where count_where
  count-found p q [] x e h = cc
  count-found p q (y ∷ ys) x e h = elim (Bool-cases (p y)) [
    | inl hit ↦ let same : q y ≡ true = ap q (ground arith) ∙ h in rw same (ground arith)
    | inr miss ↦ ground (arith, count-found p q ys x)
  ]

  pub count-append :
      (p : A → Bool) (xs ys : List A)
      → count_where p (xs ++ ys) ≡ count_where p xs + count_where p ys
  unfolding count_where
  count-append p [] ys = omega arith
  count-append p (x ∷ xs) ys = ground (arith, count-append p xs ys)

  pub count-update_gain :
      (p q : A → Bool) (f : A → A) (xs : List A)
      → All (λ x. p x ≡ true → (q x ≡ false) × (q (f x) ≡ true)) xs
      → count_where q (update_where p f xs) ≡ count_where q xs + count_where p xs
  unfolding count_where update_where
  count-update_gain p q f [] a = omega arith
  count-update_gain p q f (x ∷ xs) a = ground (arith, count-update_gain p q f xs a.1, a.0)

  pub count-update_keep :
      (p q : A → Bool) (f : A → A) (xs : List A)
      → All (λ x. p x ≡ true → q (f x) ≡ q x) xs
      → count_where q (update_where p f xs) ≡ count_where q xs
  unfolding count_where update_where
  count-update_keep p q f [] a = refl
  count-update_keep p q f (x ∷ xs) a = ground (arith, count-update_keep p q f xs a.1, a.0)

  pub count-update_drop :
      (p q : A → Bool) (f : A → A) (xs : List A)
      → All (λ x. p x ≡ true → (q x ≡ true) × (q (f x) ≡ false)) xs
      → count_where q (update_where p f xs) + count_where p xs ≡ count_where q xs
  unfolding count_where update_where
  count-update_drop p q f [] a = omega arith
  count-update_drop p q f (x ∷ xs) a = ground (arith, count-update_drop p q f xs a.1, a.0)

  pub count-delete :
      (p q : A → Bool) (xs : List A)
      → count_where q (delete_where p xs) + count_where (λ x. p x && q x) xs ≡ count_where q xs
  unfolding count_where delete_where
  count-delete p q [] = omega arith
  count-delete p q (x ∷ xs) = ground (arith, count-delete p q xs)

  pub count_none : (p : A → Bool) (xs : List A) → All (λ x. p x ≡ false) xs → count_where p xs ≡ 0
  unfolding count_where
  count_none p [] a = refl
  count_none p (x ∷ xs) a = ground (arith, count_none p xs a.1, a.0)

  pub count-update_lose :
      (p q : A → Bool) (f : A → A) (xs : List A)
      → ((x : A) → q (f x) ≡ false)
      → count_where q (update_where p f xs) + count_where (λ x. p x && q x) xs ≡ count_where q xs
  unfolding count_where update_where
  count-update_lose p q f [] lost = omega arith
  count-update_lose p q f (x ∷ xs) lost = ground (arith, count-update_lose p q f xs lost, lost x)
