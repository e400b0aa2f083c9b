-- ===== src/Base/Members.antt =====
-- The rows of a table, and what the four statements do to them.
use mathlib.Core.List.Memᴰ
use mathlib.Core.Path.{◌≡◌, refl, sym, subst}
use mathlib.Core.Logic.{◌⊎◌, ◌≢◌, inl, inr}
use mathlib.Core.Bool.{Bool, true, false}
use mathlib.Core.List.{List, [], ◌∷◌, Memᴰ}
use mathlib.Core.Option.{some}
use native.Mathlib.Omega.{arith}
use uni_pool_new_backend.Base.Tests.{if◌then◌else◌, Bool-cases}
use uni_pool_new_backend.Base.Tables.{find_where, count_where, update_where, delete_where, All}

module _ {ℓ} {A : Type ℓ} where
  pub All-member {κ} : (P : A → Type κ) (xs : List A) (x : A) → All P xs → Memᴰ x xs → P x
  All-member P [] x a m = elim m [ ]
  All-member P (y ∷ ys) x a (Memᴰ.head e) = subst P (sym e) a.0
  All-member P (y ∷ ys) x a (Memᴰ.tail m) = All-member P ys x a.1 m

  pub find-member : (p : A → Bool) (xs : List A) (x : A) → find_where p xs ≡ some x → Memᴰ x xs
  unfolding find_where
  find-member p [] x e = absurd (ground arith)
  find-member p (y ∷ ys) x e = elim (Bool-cases (p y)) [
    | inl hit ↦ Memᴰ.head (ground arith)
    | inr miss ↦ Memᴰ.tail (find-member p ys x (ground arith))
  ]

  pub update-member :
      (p : A → Bool) (f : A → A) (xs : List A) (x : A)
      → p x ≡ false
      → Memᴰ x xs
      → Memᴰ x (update_where p f xs)
  unfolding update_where
  update-member p f [] x off m = elim m [ ]
  update-member p f (y ∷ ys) x off (Memᴰ.head e) = rw (← e, off) (Memᴰ.head refl)
  update-member p f (y ∷ ys) x off (Memᴰ.tail m) = Memᴰ.tail (update-member p f ys x off m)

  pub delete-member :
      (p : A → Bool) (xs : List A) (x : A) → p x ≡ false → Memᴰ x xs → Memᴰ x (delete_where p xs)
  unfolding delete_where
  delete-member p [] x off m = elim m [ ]
  delete-member p (y ∷ ys) x off (Memᴰ.head e) = rw (← e, off) (Memᴰ.head refl)
  delete-member p (y ∷ ys) x off (Memᴰ.tail m) =
      let rest = delete-member p ys x off m in
      elim (Bool-cases (p y)) [ inl gone ↦ rw gone rest | inr kept ↦ rw kept (Memᴰ.tail rest) ]

  pub member-if :
      (b : Bool) (xs ys : List A) (x : A)
      → Memᴰ x (if b then xs else ys)
      → ((b ≡ true) × Memᴰ x xs) ⊎ ((b ≡ false) × Memᴰ x ys)
  member-if true xs ys x m = inl (refl, m)
  member-if false xs ys x m = inr (refl, m)

  pub member-delete : (p : A → Bool) (xs : List A) (x : A) → Memᴰ x (delete_where p xs) → Memᴰ x xs
  unfolding delete_where
  member-delete p [] x m = elim m [ ]
  member-delete p (y ∷ ys) x m =
      elim (member-if (p y) (delete_where p ys) (y ∷ delete_where p ys) x m) [
        | inl (_, rest) ↦ Memᴰ.tail (member-delete p ys x rest)
        | inr (_, whole) ↦ elim (Memᴰ.cases_cons whole) [
          | inl e ↦ Memᴰ.head e
          | inr rest ↦ Memᴰ.tail (member-delete p ys x rest)
        ]
      ]

  pub member-count :
      (p : A → Bool) (xs : List A) (x : A) → p x ≡ true → Memᴰ x xs → count_where p xs ≢ 0
  unfolding count_where
  member-count p [] x hit m = elim m [ ]
  member-count p (y ∷ ys) x hit (Memᴰ.head e) = rw (← e, hit) (λ zero. omega arith)
  member-count p (y ∷ ys) x hit (Memᴰ.tail m) =
      let rest = member-count p ys x hit m in
      elim (Bool-cases (p y)) [ inl e ↦ rw e (λ zero. omega arith) | inr e ↦ rw e rest ]

  -- A row that is counted.
  pub count-member :
      (p : A → Bool) (xs : List A) → count_where p xs ≢ 0 → (x : A) × Memᴰ x xs × (p x ≡ true)
  unfolding count_where
  count-member p [] some_there = absurd (some_there refl)
  count-member p (y ∷ ys) some_there = elim (Bool-cases (p y)) [
    | inl hit ↦ (y, Memᴰ.head refl, hit)
    | inr miss ↦
        let (x, m, h) = count-member p ys (λ e. some_there (rw miss e)) in (x, Memᴰ.tail m, h)
  ]
