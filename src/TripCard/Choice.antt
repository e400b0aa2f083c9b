-- ===== src/TripCard/Choice.antt =====
-- The row that `first_by` chooses, for the queries of routes/bookings/TripCard.go.
use uni_pool_new_backend.Base.{
  ℕ, ◌≡◌, sym, ap, ◌∙◌, subst, Bool, true, false, none, some, List, [], ◌∷◌, arith, All, All-map,
  Bool-cases, Option-cases, inl, inr,
}
use mathlib.Core.Bool.{false≢true}
use uni_pool_new_backend.TripCard.Active.{Trip, first_by}

-- How the choice from a list comes about.
data Choice (before : ℕ → ℕ → Bool) (p : Trip → Bool) (u : Trip) (us : List Trip) (t : Trip)
    : Type 0 where
  passed : p u ≡ false → first_by before p us ≡ some t → Choice before p u us t
  alone : p u ≡ true → first_by before p us ≡ none → u ≡ t → Choice before p u us t
  wins :
      (v : Trip)
      → p u ≡ true
      → first_by before p us ≡ some v
      → before u.ride.start_time v.ride.start_time ≡ true
      → u ≡ t
      → Choice before p u us t
  yields :
      p u ≡ true
      → first_by before p us ≡ some t
      → before u.ride.start_time t.ride.start_time ≡ false
      → Choice before p u us t

module _ (before : ℕ → ℕ → Bool) (p : Trip → Bool) where
  choice :
      (u : Trip) (us : List Trip) (t : Trip)
      → first_by before p (u ∷ us) ≡ some t
      → Choice before p u us t
  unfolding first_by
  choice u us t e = elim (Bool-cases (p u)) [
    | inl hit ↦ elim (Option-cases (first_by before p us)) [
      | inl no_rest ↦ alone hit no_rest (ground arith)
      | inr (v, rest) ↦ elim (Bool-cases (before u.ride.start_time v.ride.start_time)) [
        | inl sooner ↦ wins v hit rest sooner (ground arith)
        | inr later ↦
            let same : v ≡ t = ground arith in yields hit (rest ∙ ap some same) (rw (← same) later)
      ]
    ]
    | inr miss ↦ passed miss (ground arith)
  ]

  pub first_by-All :
      (P : Trip → Type 0) (ts : List Trip) (t : Trip)
      → All P ts
      → first_by before p ts ≡ some t
      → P t × (p t ≡ true)
  first_by-All P [] t a e = unfold first_by in cc
  first_by-All P (u ∷ us) t a e = elim (choice u us t e) [
    | passed _ rest ↦ first_by-All P us t a.1 rest
    | alone hit _ same ↦ (subst P same a.0, rw (← same) hit)
    | wins _ hit _ _ same ↦ (subst P same a.0, rw (← same) hit)
    | yields _ rest _ ↦ first_by-All P us t a.1 rest
  ]

  pub first_by-none : (ts : List Trip) → first_by before p ts ≡ none → All (λ u. p u ≡ false) ts
  unfolding first_by
  first_by-none [] e = tt
  first_by-none (u ∷ us) e = (ground arith, first_by-none us (ground arith))

  -- The choice stands before every row that fits, in the order by start time.
  pub first_by-least :
      (Le : ℕ → ℕ → Type 0)
      → ((a b : ℕ) → before a b ≡ true → Le a b)
      → ((a b : ℕ) → before a b ≡ false → Le b a)
      → ((a b c : ℕ) → Le a b → Le b c → Le a c)
      → ((a : ℕ) → Le a a)
      → (ts : List Trip) (t : Trip) → first_by before p ts ≡ some t
      → All (λ u. p u ≡ true → Le t.ride.start_time u.ride.start_time) ts
  first_by-least Le yes_le no_le trans le_self [] t e = tt
  first_by-least Le yes_le no_le trans le_self (u ∷ us) t e = elim (choice u us t e) [
    | passed miss rest ↦ (
      λ hit. absurd (false≢true (sym miss ∙ hit)),
      first_by-least Le yes_le no_le trans le_self us t rest,
    )
    | alone _ no_rest same ↦ (
      λ _. rw same (le_self _),
      All-map us (λ v miss hit. absurd (false≢true (sym miss ∙ hit))) (first_by-none us no_rest),
    )
    | wins v _ rest sooner same ↦ (
      λ _. rw same (le_self _),
      All-map us (λ w le hit. rw (← same) (trans _ _ _ (yes_le _ _ sooner) (le hit)))
          (first_by-least Le yes_le no_le trans le_self us v rest),
    )
    | yields _ rest later ↦
        (λ _. no_le _ _ later, first_by-least Le yes_le no_le trans le_self us t rest)
  ]
