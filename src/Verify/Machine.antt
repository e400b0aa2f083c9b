-- ===== src/Verify/Machine.antt =====
-- ConfirmEmailVerification takes only the transitions of Effects.
use uni_pool_new_backend.Base.{
  ℕ, ◌≤◌, ◌≡◌, ◌⊎◌, refl, inl, inr, ◌||◌, ◌&&◌, some, List, leb, ltb, arith, Memᴰ, Bool-cases,
  Option-cases,
}
use uni_pool_new_backend.Store.{Env, signed_in, begin_tx, consume_challenge, mark_verified, commit}
use uni_pool_new_backend.Model.{User}
use uni_pool_new_backend.Text.{codes_eq, codes, is_empty, normalize, trim_space}
use uni_pool_new_backend.Text.Equal.{codes_eq→eq}
use uni_pool_new_backend.Verify.{
  EmailVerification, Registry, hash_code, verify_max_attempts, resolve_institute_from_email,
}
use uni_pool_new_backend.Verify.Confirm.{
  ConfirmBody, Lookup, absent, other_account, failed, found, lookup, consume, check_code,
  confirm_row, confirm_texts, confirm_email_verification,
}
use uni_pool_new_backend.Verify.Effects.{
  IsFound, IsProved, Effect, nothing, wrong, verified, lookup-found,
}

pub Lookup-cases :
    (l : Lookup)
    → (l ≡ absent)
      ⊎ ((l ≡ other_account) ⊎ ((l ≡ failed) ⊎ ((v : EmailVerification) × (l ≡ found v))))
Lookup-cases absent = inl refl
Lookup-cases other_account = inr (inl refl)
Lookup-cases failed = inr (inr (inl refl))
Lookup-cases (found v) = inr (inr (inr (v, refl)))

module _ (digest : List ℕ → List ℕ) (env : Env) (user_id : ℕ) (target code token : List ℕ)
    (registry : Registry) where
  module _ (v : EmailVerification) (m : Memᴰ v registry.challenges)
      (f : IsFound user_id target token v) where
    consume-Effect :
        env.now ≤ v.expires_at
        → IsProved digest code token v
        → Effect digest env user_id target code token registry
            (consume env user_id v registry).registry
    unfolding consume
    consume-Effect live proved =
        elim (Option-cases (resolve_institute_from_email env v.email registry.domains)) [
          | inl unknown ↦ rw (unknown, consume) nothing
          | inr (i, known) ↦
              rw (known, consume)
                (elim (Bool-cases (env.fails begin_tx || env.fails consume_challenge)) [
                  | inl e ↦ rw e nothing
                  | inr e ↦ rw e (elim (Bool-cases (env.fails mark_verified)) [
                    | inl e' ↦ rw e' nothing
                    | inr e' ↦ rw e' (elim (Bool-cases (env.fails commit)) [
                      | inl e'' ↦ rw e'' nothing
                      | inr e'' ↦ rw e'' (verified v i m f live proved known)
                    ])
                  ])
                ])
        ]

    confirm_row-Effect :
        Effect digest env user_id target code token registry
          (confirm_row digest env user_id code token v registry).registry
    unfolding confirm_row check_code
    confirm_row-Effect = elim (Bool-cases (ltb v.expires_at env.now)) [
      | inl late ↦ rw late nothing
      | inr live ↦ rw live (elim (Bool-cases (is_empty token)) [
        | inr given ↦ rw given (consume-Effect (ground arith) (inl given))
        | inl no_token ↦ rw no_token (elim (Bool-cases (leb verify_max_attempts v.attempts)) [
          | inl many ↦ rw many nothing
          | inr few ↦
              rw few (elim (Bool-cases (codes_eq (hash_code digest code v.salt) v.code_hash)) [
                | inr differs ↦ rw differs (wrong v m f (ground arith))
                | inl same ↦ rw same (
                    consume-Effect (ground arith) (
                      inr (
                        ground arith,
                        codes_eq→eq (hash_code digest code v.salt) v.code_hash same,
                      )))
              ])
        ])
      ])
    ]

  pub confirm_texts-Effect :
      Effect digest env user_id target code token registry
        (confirm_texts digest env user_id target code token registry).registry
  unfolding confirm_texts
  confirm_texts-Effect = elim (Bool-cases (is_empty token && (is_empty target || is_empty code))) [
    | inl e ↦ rw e nothing
    | inr e ↦ rw e (elim (Lookup-cases (lookup env user_id target token registry)) [
      | inl l ↦ rw l nothing
      | inr (inl l) ↦ rw l nothing
      | inr (inr (inl l)) ↦ rw l nothing
      | inr (inr (inr (v, l))) ↦
          let (m, f) = lookup-found env user_id target token registry v l in
          rw l (confirm_row-Effect v m f)
    ])
  ]

pub confirm_email_verification-Effect :
    (digest : List ℕ → List ℕ) (env : Env) (user : User) (body : ConfirmBody) (registry : Registry)
    → Effect digest env user.id
        (normalize body.email)
        (trim_space (codes body.code))
        (trim_space (codes body.token))
        registry
        (confirm_email_verification digest env (signed_in user) (some body) registry).registry
unfolding confirm_email_verification
confirm_email_verification-Effect digest env user body registry =
    confirm_texts-Effect digest env user.id (normalize body.email) (trim_space (codes body.code))
      (trim_space (codes body.token)) registry
