-- ===== src/Verify/Issue.antt =====
-- What StartEmailVerification of routes/users/EmailVerification.go does to the tables.
use uni_pool_new_backend.Base.{
  ℕ, ◌≡◌, inl, inr, false, ◌||◌, Option, none, some, String, List, [], ◌∷◌, ◌++◌, is_none, arith,
  Bool-cases, Option-cases,
}
use uni_pool_new_backend.Store.{Env, Locals, missing, malformed, signed_in, create_challenge}
use uni_pool_new_backend.Text.{normalize}
use uni_pool_new_backend.Verify.{EmailVerification, Registry, Draws, resolve_institute_from_email}
use uni_pool_new_backend.Verify.Start.{
  is_address, challenge_of, token_taken, roll_back, issue, draw, recent, is_too_soon, start_target,
  start_email_verification,
}

abbrev pub with_challenge : EmailVerification → Registry → Registry
with_challenge v registry = record registry { challenges = registry.challenges ++ (v ∷ []) }

-- Nothing, a challenge that stays, or one that is rolled back; its token is a new one.
pub data StartEffect (digest : List ℕ → List ℕ) (env : Env) (registry : Registry)
    : Registry → Type 0 where
  nothing : StartEffect digest env registry registry
  issued :
      (user_id : ℕ) (target code salt token : List ℕ)
      → token_taken token registry ≡ false
      → StartEffect digest env registry
          (with_challenge (challenge_of digest env user_id target code salt token) registry)
  withdrawn :
      (user_id : ℕ) (target code salt token : List ℕ)
      → token_taken token registry ≡ false
      → StartEffect digest env registry (
          roll_back env
            (with_challenge (challenge_of digest env user_id target code salt token) registry))

module _ (digest : List ℕ → List ℕ) (env : Env) (draws : Draws) (registry : Registry) where
  issue-Effect :
      (user_id : ℕ) (target code salt token : List ℕ)
      → StartEffect digest env registry
          (issue digest env draws user_id target code salt token registry).registry
  unfolding issue
  issue-Effect user_id target code salt token =
      elim (Bool-cases (env.fails create_challenge || token_taken token registry)) [
        | inl e ↦ rw e nothing
        | inr e ↦
            let free : token_taken token registry ≡ false = ground arith in
            rw e (elim (Bool-cases draws.sends) [
              | inl e' ↦ rw e' (issued user_id target code salt token free)
              | inr e' ↦ rw e' (withdrawn user_id target code salt token free)
            ])
      ]

  draw-Effect :
      (user_id : ℕ) (target : List ℕ)
      → StartEffect digest env registry (draw digest env draws user_id target registry).registry
  unfolding draw
  draw-Effect user_id target = elim (Option-cases draws.code) [
    | inl e ↦ rw (e, draw) nothing
    | inr (code, e) ↦
        rw (e, draw)
          (elim (Option-cases draws.salt) [
            | inl e' ↦ rw e' nothing
            | inr (salt, e') ↦ rw e' (elim (Option-cases draws.token) [
              | inl e'' ↦ rw e'' nothing
              | inr (token, e'') ↦ rw e'' (issue-Effect user_id target code salt token)
            ])
          ])
  ]

  start_target-Effect :
      (user_id : ℕ) (target : List ℕ)
      → StartEffect digest env registry
          (start_target digest env draws user_id target registry).registry
  unfolding start_target
  start_target-Effect user_id target = elim (Bool-cases (is_address target)) [
    | inr e ↦ rw e nothing
    | inl e ↦
        rw e
          (elim (Bool-cases (is_none (resolve_institute_from_email env target registry.domains))) [
            | inl e' ↦ rw e' nothing
            | inr e' ↦ rw e' (elim (Option-cases (recent env user_id target registry)) [
              | inl r ↦ rw r (draw-Effect user_id target)
              | inr (v, r) ↦ rw r (elim (Bool-cases (is_too_soon env.now v)) [
                | inl c ↦ rw c nothing
                | inr c ↦ rw c (draw-Effect user_id target)
              ])
            ])
          ])
  ]

  pub start_email_verification-Effect :
      (locals : Locals) (body : Option String)
      → StartEffect digest env registry
          (start_email_verification digest env draws locals body registry).registry
  unfolding start_email_verification
  start_email_verification-Effect missing body = nothing
  start_email_verification-Effect malformed body = nothing
  start_email_verification-Effect (signed_in user) none = nothing
  start_email_verification-Effect (signed_in user) (some email) =
      start_target-Effect user.id (normalize email)
