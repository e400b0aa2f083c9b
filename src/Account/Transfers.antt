-- ===== src/Account/Transfers.antt =====
-- Which rides handleHostedRides of routes/users/DeleteUser.go transfers, to whom, and which it deletes.
use uni_pool_new_backend.Base.{
  ℕ, ◌≤◌, ◌≡◌, refl, sym, ap, ◌∙◌, ◌≢◌, Bool, true, false, none, some, List, [], ◌∷◌, is_none, ◌==◌,
  leb, arith, All, All-map, count_where, inl, inr, Bool-cases, Option-cases, subst,
}
use mathlib.Core.Bool.{false≢true}
use uni_pool_new_backend.Model.{Ride, Booking}
use uni_pool_new_backend.Store.{Env}
use uni_pool_new_backend.Account.Hosted.{
  Transfer, exists_where, is_hosted, earliest, first_accepted, transfers_of, empty_rides,
}

module _ (p : Booking → Bool) where
  pub earliest-All :
      (P : Booking → Type 0) (bs : List Booking) (b : Booking)
      → All P bs
      → earliest p bs ≡ some b
      → P b × (p b ≡ true)
  unfolding earliest
  earliest-All P [] b a e = cc
  earliest-All P (c ∷ cs) b a e = elim (Option-cases (earliest p cs)) [
    | inl no_rest ↦ elim (Bool-cases (p c)) [
      | inl hit ↦ let same : c ≡ b = ground arith in (subst P same a.0, rw (← same) hit)
      | inr miss ↦ absurd (ground arith)
    ]
    | inr (d, rest) ↦
        let from_rest : d ≡ b → P b × (p b ≡ true) =
          λ same. earliest-All P cs b a.1 (rest ∙ ap some same) in
        elim (Bool-cases (p c)) [
          | inl hit ↦ elim (Bool-cases (leb c.created_at d.created_at)) [
            | inl sooner ↦ let same : c ≡ b = ground arith in (subst P same a.0, rw (← same) hit)
            | inr later ↦ from_rest (ground arith)
          ]
          | inr miss ↦ from_rest (ground arith)
        ]
  ]

  pub earliest-none : (bs : List Booking) → earliest p bs ≡ none → All (λ b. p b ≡ false) bs
  unfolding earliest
  earliest-none [] e = tt
  earliest-none (b ∷ bs) e = elim (Option-cases (earliest p bs)) [
    | inl no_rest ↦ (ground arith, earliest-none bs no_rest)
    | inr (c, rest) ↦ absurd (ground arith)
  ]

  pub earliest-least :
      (bs : List Booking) (b : Booking)
      → earliest p bs ≡ some b
      → All (λ c. p c ≡ true → b.created_at ≤ c.created_at) bs
  unfolding earliest
  earliest-least [] b e = tt
  earliest-least (c ∷ cs) b e = elim (Option-cases (earliest p cs)) [
    | inl no_rest ↦ (
      λ hit. let same : c ≡ b = ground arith in rw same (omega arith),
      All-map cs (λ d miss hit. absurd (false≢true (sym miss ∙ hit))) (earliest-none cs no_rest),
    )
    | inr (d, rest) ↦
        let least_d = earliest-least cs d rest in
        elim (Bool-cases (p c)) [
          | inl hit ↦ elim (Bool-cases (leb c.created_at d.created_at)) [
            | inl sooner ↦
                let same : c ≡ b = ground arith in
                (
                  λ _. rw same (omega arith),
                  All-map cs (λ x le h. let le' = le h in rw (← same) (ground arith)) least_d,
                )
            | inr later ↦
                let same : d ≡ b = ground arith in
                (λ _. rw (← same) (ground arith), earliest-least cs b (rest ∙ ap some same))
          ]
          | inr miss ↦
              let same : d ≡ b = ground arith in
              (
                λ hit. absurd (false≢true (sym miss ∙ hit)),
                earliest-least cs b (rest ∙ ap some same),
              )
        ]
  ]

  pub earliest-counts :
      (q : Booking → Bool) (bs : List Booking) (b : Booking)
      → earliest p bs ≡ some b
      → q b ≡ true
      → count_where q bs ≢ 0
  unfolding earliest count_where
  earliest-counts q [] b e h = cc
  earliest-counts q (c ∷ cs) b e h = elim (Option-cases (earliest p cs)) [
    | inl no_rest ↦
        let same : c ≡ b = ground arith in let at : q c ≡ true = ap q same ∙ h in ground arith
    | inr (d, rest) ↦ elim (Bool-cases (q c)) [
      | inl at ↦ ground arith
      | inr off ↦
          let later : d ≡ b = elim (Bool-cases (p c)) [
            | inl hit ↦ elim (Bool-cases (leb c.created_at d.created_at)) [
              | inl sooner ↦
                  let same : c ≡ b = ground arith in absurd (false≢true (sym off ∙ (ap q same ∙ h)))
              | inr _ ↦ ground arith
            ]
            | inr miss ↦ ground arith
          ] in
          ground (arith, earliest-counts q cs b (rest ∙ ap some later) h)
    ]
  ]

module _ (env : Env) (user_id : ℕ) (bookings : List Booking) where
  -- A transfer names the passenger who booked first.
  abbrev pub IsDue : Transfer → Type 0
  IsDue t =
      (b : Booking) × (first_accepted env t.ride_id bookings ≡ some b)
      × (b.passenger_id ≡ t.new_host_id)

  pub transfers_of-IsDue : (rs : List Ride) → All IsDue (transfers_of env user_id bookings rs)
  unfolding transfers_of
  transfers_of-IsDue [] = tt
  transfers_of-IsDue (r ∷ rs) = elim (Bool-cases (is_hosted env user_id r)) [
    | inr other ↦ rw other (transfers_of-IsDue rs)
    | inl mine ↦ elim (Option-cases (first_accepted env r.id bookings)) [
      | inl no_one ↦ rw (mine, no_one) (transfers_of-IsDue rs)
      | inr (b, first) ↦ rw (mine, first) ((b, first, refl), transfers_of-IsDue rs)
    ]
  ]

  pub transfers_of-covers :
      (rs : List Ride)
      → All
          (λ r.
            is_hosted env user_id r ≡ true
            → is_none (first_accepted env r.id bookings) ≡ false
            → exists_where (λ t. t.ride_id == r.id) (transfers_of env user_id bookings rs) ≡ true)
          rs
  unfolding transfers_of count_where
  transfers_of-covers [] = tt
  transfers_of-covers (r ∷ rs) = elim (Option-cases (first_accepted env r.id bookings)) [
    | inl no_one ↦ (
      λ mine some_one. absurd (ground arith),
      All-map rs (λ x h mine some_one. ground (arith, h mine some_one)) (transfers_of-covers rs),
    )
    | inr (b, first) ↦ (
      λ mine some_one. ground arith,
      All-map rs (λ x h mine some_one. ground (arith, h mine some_one)) (transfers_of-covers rs),
    )
  ]

  pub empty_rides-empty :
      (rs : List Ride)
      → All (λ id. first_accepted env id bookings ≡ none) (empty_rides env user_id bookings rs)
  unfolding empty_rides
  empty_rides-empty [] = tt
  empty_rides-empty (r ∷ rs) = elim (Option-cases (first_accepted env r.id bookings)) [
    | inr (b, first) ↦ rw first (ground (arith, empty_rides-empty rs))
    | inl no_one ↦ elim (Bool-cases (is_hosted env user_id r)) [
      | inl mine ↦ rw (mine, no_one) (no_one, empty_rides-empty rs)
      | inr other ↦ rw other (empty_rides-empty rs)
    ]
  ]

  pub empty_rides-covers :
      (rs : List Ride)
      → All
          (λ r.
            is_hosted env user_id r ≡ true
            → is_none (first_accepted env r.id bookings) ≡ true
            → exists_where (λ i. r.id == i) (empty_rides env user_id bookings rs) ≡ true)
          rs
  unfolding empty_rides count_where
  empty_rides-covers [] = tt
  empty_rides-covers (r ∷ rs) = (
    λ mine no_one. ground arith,
    All-map rs (λ x h mine no_one. ground (arith, h mine no_one)) (empty_rides-covers rs),
  )
