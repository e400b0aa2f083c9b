-- ===== src/Verify/Sent.antt =====
-- What is true when StartEmailVerification answers that a code was sent.
use uni_pool_new_backend.Base.{
  ℕ, ◌≤◌, ◌+◌, ◌≡◌, refl, sym, ◌∙◌, ◌⊎◌, inl, inr, true, false, ◌||◌, none, some, String, List,
  arith, All, All-map, Bool-cases, Option-cases,
}
use mathlib.Core.Bool.{false≢true}
use uni_pool_new_backend.Model.{User}
use uni_pool_new_backend.Store.{Env, signed_in, create_challenge, find_challenge}
use uni_pool_new_backend.Text.{normalize}
use uni_pool_new_backend.Verify.{
  EmailVerification, Registry, Draws, resolve_institute_from_email, is_open_for,
  verify_resend_cooldown,
}
use uni_pool_new_backend.Verify.Start.{
  is_address, challenge_of, token_taken, issue, draw, recent, is_too_soon, start_target,
  start_email_verification,
}
use uni_pool_new_backend.Verify.Issue.{with_challenge}
use uni_pool_new_backend.Verify.Newest.{newest-none, newest-latest}

-- The challenge that is stored.
abbrev pub IsStored : (List ℕ → List ℕ) → Env → Draws → ℕ → List ℕ → Registry → Registry → Type 0
IsStored digest env draws user_id target registry after =
    (code : List ℕ) × (salt : List ℕ) × (token : List ℕ) × (draws.code ≡ some code)
    × (after ≡ with_challenge (challenge_of digest env user_id target code salt token) registry)

abbrev pub IsSpaced : Env → ℕ → List ℕ → List EmailVerification → Type 0
IsSpaced env user_id target = All (λ (v : EmailVerification).
    is_open_for env user_id target v ≡ true → v.created_at + verify_resend_cooldown ≤ env.now)

module _ (digest : List ℕ → List ℕ) (env : Env) (draws : Draws) (registry : Registry) (user_id : ℕ)
    (target : List ℕ) where
  issue-sent :
      (code salt token : List ℕ)
      → (issue digest env draws user_id target code salt token registry).reply.status ≡ 200
      → (issue digest env draws user_id target code salt token registry).registry
        ≡ with_challenge (challenge_of digest env user_id target code salt token) registry
  unfolding issue
  issue-sent code salt token e =
      elim (Bool-cases (env.fails create_challenge || token_taken token registry)) [
        | inl f ↦ absurd (ground arith)
        | inr f ↦ elim (Bool-cases draws.sends) [
          | inl s ↦ rw (f, s) refl
          | inr s ↦ absurd (ground arith)
        ]
      ]

  draw-sent :
      (draw digest env draws user_id target registry).reply.status ≡ 200
      → IsStored digest env draws user_id target registry
          (draw digest env draws user_id target registry).registry
  unfolding draw issue
  draw-sent e = elim (Option-cases draws.code) [
    | inl f ↦ absurd (ground arith)
    | inr (code, f) ↦ elim (Option-cases draws.salt) [
      | inl g ↦ absurd (ground arith)
      | inr (salt, g) ↦ elim (Option-cases draws.token) [
        | inl h ↦ absurd (ground arith)
        | inr (token, h) ↦
            (code, salt, token, f, rw (f, g, h) (issue-sent code salt token (ground arith)))
      ]
    ]
  ]

  recent-IsSpaced :
      env.fails find_challenge ≡ false
      → ((recent env user_id target registry ≡ none)
          ⊎ ((v : EmailVerification) × (recent env user_id target registry ≡ some v)
              × (is_too_soon env.now v ≡ false)))
      → IsSpaced env user_id target registry.challenges
  unfolding recent
  recent-IsSpaced works (inl e) =
      All-map registry.challenges (λ v miss hit. absurd (false≢true (sym miss ∙ hit)))
        (newest-none (is_open_for env user_id target) registry.challenges (ground arith))
  recent-IsSpaced works (inr (v, e, cold)) =
      All-map registry.challenges (λ w latest hit. ground (arith, latest hit))
        (newest-latest (is_open_for env user_id target) registry.challenges v (ground arith))

  pub record IsSent (after : Registry) : Type 0 where
    pub address : is_address target ≡ true
    pub institute : (i : ℕ) × (resolve_institute_from_email env target registry.domains ≡ some i)
    pub spaced : env.fails find_challenge ≡ false → IsSpaced env user_id target registry.challenges
    pub stored : IsStored digest env draws user_id target registry after

  pub start_target-IsSent :
      (start_target digest env draws user_id target registry).reply.status ≡ 200
      → IsSent (start_target digest env draws user_id target registry).registry
  unfolding start_target
  start_target-IsSent e = elim (Bool-cases (is_address target)) [
    | inr f ↦ absurd (ground arith)
    | inl f ↦ elim (Option-cases (resolve_institute_from_email env target registry.domains)) [
      | inl g ↦ absurd (ground arith)
      | inr (i, g) ↦ elim (Option-cases (recent env user_id target registry)) [
        | inl r ↦ record {
          address = f;
          institute = (i, g);
          spaced = λ works. recent-IsSpaced works (inl r);
          stored = rw (f, g, r) (draw-sent (ground arith));
        }
        | inr (v, r) ↦ elim (Bool-cases (is_too_soon env.now v)) [
          | inl c ↦ absurd (ground arith)
          | inr c ↦ record {
            address = f;
            institute = (i, g);
            spaced = λ works. recent-IsSpaced works (inr (v, r, c));
            stored = rw (f, g, r, c) (draw-sent (ground arith));
          }
        ]
      ]
    ]
  ]

-- A code is sent only where each challenge of the caller for the address that is not consumed is at
-- least 45 seconds old, if the lookup of the newest one does not fail.
pub start_email_verification-IsSpaced :
    (digest : List ℕ → List ℕ) (env : Env) (draws : Draws) (user : User) (email : String)
    (registry : Registry)
    → (start_email_verification digest env draws
        (signed_in user)
        (some email)
        registry).reply.status
      ≡ 200
    → env.fails find_challenge ≡ false
    → IsSpaced env user.id (normalize email) registry.challenges
unfolding start_email_verification
start_email_verification-IsSpaced digest env draws user email registry sent works =
    (start_target-IsSent digest env draws registry user.id (normalize email) sent).spaced works
