-- ===== src/Base/Lookups.antt =====
-- The first row that fits, through updates and deletions.
use mathlib.Core.Path.{◌≡◌, refl, subst}
use mathlib.Core.Logic.{inl, inr}
use mathlib.Core.Bool.{Bool, true, false}
use mathlib.Core.List.{List, [], ◌∷◌, ◌++◌}
use mathlib.Core.Option.{none, some}
use native.Mathlib.Omega.{arith}
use uni_pool_new_backend.Base.Tests.{if◌then◌else◌, Bool-cases}
use uni_pool_new_backend.Base.Tables.{
  find_where, count_where, update_where, delete_where, All, All-of,
}

module _ {ℓ} {A : Type ℓ} where
  pub find_where-All {κ} :
      (P : A → Type κ) (p : A → Bool) (xs : List A) (x : A)
      → All P xs
      → find_where p xs ≡ some x
      → P x × (p x ≡ true)
  unfolding find_where
  find_where-All P p [] x a e = cc
  find_where-All P p (y ∷ ys) x a e = elim (Bool-cases (p y)) [
    | inl hit ↦ let same : y ≡ x = ground arith in (subst P same a.0, rw (← same) hit)
    | inr miss ↦ find_where-All P p ys x a.1 (ground arith)
  ]

  pub find_where-hit : (p : A → Bool) (xs : List A) (x : A) → find_where p xs ≡ some x → p x ≡ true
  find_where-hit p xs x e =
      (find_where-All (λ _. Unit {0}) p xs x (All-of (λ _. Unit {0}) xs (λ _. tt)) e).1

  pub find_none : (p : A → Bool) (xs : List A) → find_where p xs ≡ none → count_where p xs ≡ 0
  unfolding find_where count_where
  find_none p [] e = refl
  find_none p (x ∷ xs) e = ground (arith, find_none p xs)

  -- A lookup through an update that does not touch what the lookup tests.
  pub find-update :
      (p q : A → Bool) (f : A → A) (xs : List A) (x : A)
      → ((y : A) → p (f y) ≡ p y)
      → find_where p xs ≡ some x
      → find_where p (update_where q f xs) ≡ some (if q x then f x else x)
  unfolding find_where update_where
  find-update p q f [] x same e = cc
  find-update p q f (y ∷ ys) x same e = elim (Bool-cases (p y)) [
    | inl hit ↦
        let at : y ≡ x = ground arith in
        rw (← at) (elim (Bool-cases (q y)) [ inl t ↦ rw (t, same y, hit) | inr t ↦ rw (t, hit) ])
    | inr miss ↦
        let rest = find-update p q f ys x same (ground arith) in
        elim (Bool-cases (q y)) [ inl t ↦ rw (t, same y, miss) rest | inr t ↦ rw (t, miss) rest ]
  ]

  pub none_found : (p : A → Bool) (xs : List A) → count_where p xs ≡ 0 → find_where p xs ≡ none
  unfolding find_where count_where
  none_found p [] e = refl
  none_found p (x ∷ xs) e = ground (arith, none_found p xs)

  pub find-update_none :
      (p q : A → Bool) (f : A → A) (xs : List A)
      → ((y : A) → p (f y) ≡ p y)
      → find_where p xs ≡ none
      → find_where p (update_where q f xs) ≡ none
  unfolding find_where update_where
  find-update_none p q f [] same e = refl
  find-update_none p q f (x ∷ xs) same e =
      let miss : p x ≡ false = ground arith in
      elim (Bool-cases (q x)) [
        | inl hit ↦
            rw (hit, same x, miss) (find-update_none p q f xs same (rw (← e) (rw miss refl)))
        | inr off ↦ rw (off, miss) (find-update_none p q f xs same (rw (← e) (rw miss refl)))
      ]

  pub find-snoc :
      (p : A → Bool) (xs : List A) (x : A)
      → find_where p (xs ++ (x ∷ []))
        ≡ elim (find_where p xs) [ none ↦ if p x then some x else none | some y ↦ some y ]
  unfolding find_where
  find-snoc p [] x = refl
  find-snoc p (y ∷ ys) x = elim (Bool-cases (p y)) [
    | inl hit ↦ rw hit refl
    | inr miss ↦ rw miss (find-snoc p ys x)
  ]

  -- A lookup through a deletion that spares what it finds.
  pub find-delete :
      (p q : A → Bool) (xs : List A) (x : A)
      → find_where p xs ≡ some x
      → q x ≡ false
      → find_where p (delete_where q xs) ≡ some x
  unfolding find_where delete_where
  find-delete p q [] x e h = cc
  find-delete p q (y ∷ ys) x e h = elim (Bool-cases (p y)) [
    | inl hit ↦ let same : y ≡ x = ground arith in rw (same, h) (rw (← same) (rw hit refl))
    | inr miss ↦
        let rest : find_where p (delete_where q ys) ≡ some x =
          find-delete p q ys x (ground arith) h in
        elim (Bool-cases (q y)) [ inl gone ↦ rw gone rest | inr kept ↦ rw (kept, miss) rest ]
  ]
