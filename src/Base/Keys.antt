-- ===== src/Base/Keys.antt =====
-- Tables with unique keys.
use Prim.Native.Nat.{ℕ, ◌≤◌}
use mathlib.Core.Path.{◌≡◌, sym, ap, ◌∙◌}
use mathlib.Core.Logic.{◌≢◌, inl, inr}
use mathlib.Core.Bool.{Bool, true, ◌&&◌}
use mathlib.Core.List.{List, [], ◌∷◌, ◌++◌}
use mathlib.Core.Option.{some}
use native.Mathlib.Omega.{arith}
use uni_pool_new_backend.Base.Tests.{◌==◌, if◌then◌else◌, Bool-cases}
use uni_pool_new_backend.Base.Tables.{
  find_where, count_where, update_where, delete_where, All, Keyed, All-map, All-append, All-update,
  All-delete,
}
use uni_pool_new_backend.Base.Lookups.{find_where-All}
use uni_pool_new_backend.Base.Counts.{count_none}

module _ {ℓ} {A : Type ℓ} (key : A → ℕ) where
  pub Keyed-update :
      (p : A → Bool) (f : A → A) (xs : List A)
      → ((x : A) → key (f x) ≡ key x)
      → Keyed key xs
      → Keyed key (update_where p f xs)
  unfolding update_where
  Keyed-update p f [] same k = tt
  Keyed-update p f (x ∷ xs) same k = (
    All-update p f xs (λ y _ ne. rw (same y, head_key) ne) (λ y _ ne. rw head_key ne) k.0,
    Keyed-update p f xs same k.1,
  )
    where
      head_key : key (if p x then f x else x) ≡ key x
      head_key = elim (Bool-cases (p x)) [ inl e ↦ rw e (same x) | inr e ↦ rw e ]

  pub Keyed-delete : (p : A → Bool) (xs : List A) → Keyed key xs → Keyed key (delete_where p xs)
  unfolding delete_where
  Keyed-delete p [] k = tt
  Keyed-delete p (x ∷ xs) k = elim (Bool-cases (p x)) [
    | inl e ↦ rw e (Keyed-delete p xs k.1)
    | inr e ↦ rw e (All-delete (λ y. key y ≢ key x) p xs k.0, Keyed-delete p xs k.1)
  ]

  pub Keyed-snoc :
      (xs : List A) (x : A)
      → All (λ y. key y ≢ key x) xs
      → Keyed key xs
      → Keyed key (xs ++ (x ∷ []))
  Keyed-snoc [] x fresh k = (tt, tt)
  Keyed-snoc (y ∷ ys) x fresh k = (
    All-append (λ z. key z ≢ key y) ys (x ∷ []) k.0 ((λ e. fresh.0 (sym e)), tt),
    Keyed-snoc ys x fresh.1 k.1,
  )

  -- The row that a lookup finds is the only one with its key.
  pub find_where_unique :
      (p : A → Bool) (xs : List A) (x : A)
      → Keyed key xs
      → find_where p xs ≡ some x
      → All (λ y. key y ≡ key x → y ≡ x) xs
  unfolding find_where
  find_where_unique p [] x k e = tt
  find_where_unique p (y ∷ ys) x k e = elim (Bool-cases (p y)) [
    | inl hit ↦
        let same : y ≡ x = ground arith in
        (λ _. same, All-map ys (λ z ne at. absurd (ne (at ∙ ap key (sym same)))) k.0)
    | inr miss ↦
        let found = find_where-All (λ z. key z ≢ key y) p ys x k.0 (ground arith) in
        (λ at. absurd (found.0 (sym at)), find_where_unique p ys x k.1 (ground arith))
  ]

  pub count_unique :
      (p s : A → Bool) (xs : List A) (x : A)
      → Keyed key xs
      → find_where p xs ≡ some x
      → count_where (λ y. (key y == key x) && s y) xs ≡ (if s x then 1 else 0)
  unfolding find_where count_where
  count_unique p s [] x k e = cc
  count_unique p s (y ∷ ys) x k e = elim (Bool-cases (p y)) [
    | inl hit ↦
        let same : y ≡ x = ground arith in
        let others =
          count_none (λ z. (key z == key x) && s z) ys
            (All-map ys
              (λ z ne. let ne' : key z ≢ key x = λ at. ne (at ∙ ap key (sym same)) in ground arith)
              k.0) in
        rw same (ground (arith, others))
    | inr miss ↦
        let found = find_where-All (λ z. key z ≢ key y) p ys x k.0 (ground arith) in
        let other : key y ≢ key x = λ at. found.0 (sym at) in
        ground (arith, count_unique p s ys x k.1)
  ]

  -- A key that some row fits with a condition belongs to rows with that condition only.
  pub count-matched :
      (i : ℕ) (r : A → Bool) (xs : List A)
      → Keyed key xs
      → count_where (λ y. (key y == i) && r y) xs ≢ 0
      → All (λ y. key y ≡ i → r y ≡ true) xs
  unfolding count_where
  count-matched i r [] k ne = tt
  count-matched i r (y ∷ ys) k ne = elim (Bool-cases (key y == i)) [
    | inl hit ↦
        let rest : count_where (λ z. (key z == i) && r z) ys ≡ 0 =
          count_none (λ z. (key z == i) && r z) ys (All-map ys (λ z other. ground arith) k.0) in
        (λ _. ground (arith, rest), All-map ys (λ z other at. absurd (other (ground arith))) k.0)
    | inr miss ↦ (λ at. ground arith, count-matched i r ys k.1 (λ e. ne (ground arith)))
  ]

  pub count-key_le_one :
      (i : ℕ) (r : A → Bool) (xs : List A)
      → Keyed key xs
      → count_where (λ y. (key y == i) && r y) xs ≤ 1
  unfolding count_where
  count-key_le_one i r [] k = omega arith
  count-key_le_one i r (y ∷ ys) k = elim (Bool-cases (key y == i)) [
    | inl hit ↦
        ground (
          arith,
          count_none (λ z. (key z == i) && r z) ys (All-map ys (λ z other. ground arith) k.0),
        )
    | inr miss ↦ ground (arith, count-key_le_one i r ys k.1)
  ]
