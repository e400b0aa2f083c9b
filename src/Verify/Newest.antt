-- ===== src/Verify/Newest.antt =====
-- The challenge that ORDER BY created_at DESC puts first.
use uni_pool_new_backend.Base.{
  ◌<◌, ◌≤◌, ◌++◌, All-map, ◌≡◌, refl, sym, ap, ◌∙◌, subst, Bool, true, false, none, some, List, [],
  ◌∷◌, arith, Memᴰ, All, Bool-cases, Option-cases, inl, inr,
}
use mathlib.Core.Bool.{false≢true}
use uni_pool_new_backend.Verify.{EmailVerification, is_newer, newest}

module _ (p : EmailVerification → Bool) where
  pub newest-member :
      (vs : List EmailVerification) (v : EmailVerification)
      → newest p vs ≡ some v
      → Memᴰ v vs × (p v ≡ true)
  unfolding newest
  newest-member [] v e = absurd (ground arith)
  newest-member (w ∷ ws) v e = elim (Bool-cases (p w)) [
    | inr miss ↦ let (m, h) = newest-member ws v (ground arith) in (Memᴰ.tail m, h)
    | inl hit ↦ elim (Option-cases (newest p ws)) [
      | inl no_rest ↦ let same : w ≡ v = ground arith in (Memᴰ.head (sym same), rw (← same) hit)
      | inr (x, rest) ↦
          let (m, h) = newest-member ws x rest in
          elim (Bool-cases (is_newer w x)) [
            | inl first ↦ let same : w ≡ v = ground arith in (Memᴰ.head (sym same), rw (← same) hit)
            | inr later ↦
                let same : x ≡ v = ground arith in
                subst (λ y. Memᴰ y (w ∷ ws) × (p y ≡ true)) same (Memᴰ.tail m, h)
          ]
    ]
  ]

  pub newest-none : (vs : List EmailVerification) → newest p vs ≡ none → All (λ v. p v ≡ false) vs
  unfolding newest
  newest-none [] e = tt
  newest-none (v ∷ vs) e = elim (Option-cases (newest p vs)) [
    | inl no_rest ↦ (ground arith, newest-none vs no_rest)
    | inr (w, rest) ↦ absurd (ground arith)
  ]

  pub newest-latest :
      (vs : List EmailVerification) (v : EmailVerification)
      → newest p vs ≡ some v
      → All (λ w. p w ≡ true → w.created_at ≤ v.created_at) vs
  unfolding newest
  newest-latest [] v e = tt
  newest-latest (w ∷ ws) v e = elim (Option-cases (newest p ws)) [
    | inl no_rest ↦ (
      λ hit. let same : w ≡ v = ground arith in rw same (omega arith),
      All-map ws (λ x miss hit. absurd (false≢true (sym miss ∙ hit))) (newest-none ws no_rest),
    )
    | inr (x, rest) ↦
        let latest = newest-latest ws x rest in
        elim (Bool-cases (p w)) [
          | inr miss ↦
              let same : x ≡ v = ground arith in
              (
                λ hit. absurd (false≢true (sym miss ∙ hit)),
                newest-latest ws v (rest ∙ ap some same),
              )
          | inl hit ↦ elim (Bool-cases (is_newer w x)) [
            | inl first ↦
                let same : w ≡ v = ground arith in
                (
                  λ _. rw same (omega arith),
                  All-map ws (λ y up h. rw (← same) (ground (arith, up h))) latest,
                )
            | inr later ↦
                let same : x ≡ v = ground arith in
                (λ _. rw (← same) (ground arith), newest-latest ws v (rest ∙ ap some same))
          ]
        ]
  ]

  -- A row that is later than all others that fit.
  pub newest-snoc :
      (vs : List EmailVerification) (v : EmailVerification)
      → All (λ w. p w ≡ true → w.created_at < v.created_at) vs
      → p v ≡ true
      → newest p (vs ++ (v ∷ [])) ≡ some v
  unfolding newest
  newest-snoc [] v a hit = rw hit refl
  newest-snoc (w ∷ ws) v a hit =
      let rest = newest-snoc ws v a.1 hit in
      elim (Bool-cases (p w)) [
        | inr miss ↦ rw (miss, rest) refl
        | inl here ↦
            let earlier : w.created_at < v.created_at = a.0 here in
            let later : is_newer w v ≡ false = ground arith in rw (here, rest, later) refl
      ]
