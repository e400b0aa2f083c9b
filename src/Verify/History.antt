-- ===== src/Verify/History.antt =====
-- Histories of calls of the two routes, by any users, with any draws and failures.
pub mod Spent
use uni_pool_new_backend.Base.{
  ℕ, ◌≤◌, ◌+◌, ◌<◌, ◌≡◌, refl, sym, ◌≢◌, inl, inr, Bool, true, false, Option, none, some, String,
  List, [], ◌∷◌, ◌++◌, ◌&&◌, ◌==◌, is_none, if◌then◌else◌, arith, Memᴰ, All, All-map, All-zip,
  All-append, All-update, All-delete, All-member, Bool-cases, update_where, delete_where,
}
use uni_pool_new_backend.Store.{
  Env, Locals, missing, malformed, signed_in, count_attempt, delete_challenge,
}
use uni_pool_new_backend.Text.{codes, normalize, trim_space}
use uni_pool_new_backend.Verify.{
  EmailVerification, Registry, Draws, verify_code_ttl, verify_max_attempts,
}
use uni_pool_new_backend.Verify.Start.{
  challenge_of, token_taken, roll_back, start_email_verification,
}
use uni_pool_new_backend.Verify.Confirm.{
  ConfirmBody, count_wrong, verified_registry, consume_row, confirm_email_verification,
}
use uni_pool_new_backend.Verify.Effects.{Effect}
use uni_pool_new_backend.Verify.Effects
use uni_pool_new_backend.Verify.Issue
use uni_pool_new_backend.Verify.Machine.{confirm_email_verification-Effect}
use uni_pool_new_backend.Verify.Issue.{StartEffect, with_challenge, start_email_verification-Effect}
use uni_pool_new_backend.Verify.Distinct.{
  IsApart, IsDistinct, IsDistinct-update, IsDistinct-delete, IsDistinct-snoc, token_taken-All,
}

-- A start draws a new id.
pub data Step (digest : List ℕ → List ℕ) : Registry → Registry → Type 0 where
  starts :
      (env : Env) (draws : Draws) (locals : Locals) (body : Option String) (registry : Registry)
      → All (λ (v : EmailVerification). v.id ≢ env.new_id) registry.challenges
      → Step digest registry
          (start_email_verification digest env draws locals body registry).registry
  confirms :
      (env : Env) (locals : Locals) (body : Option ConfirmBody) (registry : Registry)
      → Step digest registry (confirm_email_verification digest env locals body registry).registry

pub data Reach (digest : List ℕ → List ℕ) (first : Registry) : Registry → Type 0 where
  here : Reach digest first first
  step :
      {registry after : Registry}
      → Reach digest first registry
      → Step digest registry after
      → Reach digest first after

-- Six attempts only by a consumed row: five wrong codes and the link.
abbrev pub IsBounded : EmailVerification → Type 0
IsBounded v =
    (v.attempts ≤ verify_max_attempts + 1)
    × (v.consumed_at ≡ none → v.attempts ≤ verify_max_attempts)
    × (v.expires_at ≤ v.created_at + verify_code_ttl)

pub record IsSafe (registry : Registry) : Type 0 where
  pub distinct : IsDistinct registry.challenges
  pub bounded : All IsBounded registry.challenges

module _ (env : Env) (registry : Registry) (sound : IsSafe registry) where
  roll_back-IsSafe : IsSafe (roll_back env registry)
  unfolding roll_back
  roll_back-IsSafe = elim (Bool-cases (env.fails delete_challenge)) [
    | inl e ↦ rw e sound
    | inr e ↦ rw e (elim (Bool-cases env.soft_delete) [
      | inl soft ↦ rw soft (record {
        distinct =
            IsDistinct-update (λ v. v.id == env.new_id && is_none v.deleted_at)
              (λ v. record v { deleted_at = some env.now }) registry.challenges (λ v. (refl, refl))
              sound.distinct;
        bounded =
            All-update (λ v. v.id == env.new_id && is_none v.deleted_at)
              (λ v. record v { deleted_at = some env.now }) registry.challenges (λ v _ b. b)
              (λ v _ b. b) sound.bounded;
      })
      | inr hard ↦ rw hard (record {
        distinct = IsDistinct-delete (λ v. v.id == env.new_id) registry.challenges sound.distinct;
        bounded = All-delete IsBounded (λ v. v.id == env.new_id) registry.challenges sound.bounded;
      })
    ])
  ]

  with_challenge-IsSafe :
      (digest : List ℕ → List ℕ) (user_id : ℕ) (target code salt token : List ℕ)
      → All (λ (v : EmailVerification). v.id ≢ env.new_id) registry.challenges
      → token_taken token registry ≡ false
      → IsSafe (with_challenge (challenge_of digest env user_id target code salt token) registry)
  with_challenge-IsSafe digest user_id target code salt token fresh free = record {
    distinct =
        IsDistinct-snoc registry.challenges (challenge_of digest env user_id target code salt token)
          (All-zip (λ v. v.id ≢ env.new_id) (λ v. v.token ≢ token) registry.challenges fresh
            (token_taken-All token registry.challenges (ground arith)))
          sound.distinct;
    bounded =
        All-append IsBounded registry.challenges
          (challenge_of digest env user_id target code salt token ∷ []) sound.bounded
          ((omega arith, λ _. omega arith, omega arith), tt);
  }

  count_wrong-IsSafe :
      (v : EmailVerification)
      → v.attempts < verify_max_attempts
      → IsSafe (count_wrong env v registry)
  unfolding count_wrong
  count_wrong-IsSafe v few = elim (Bool-cases (env.fails count_attempt)) [
    | inl e ↦ rw e sound
    | inr e ↦ rw e (record {
      distinct =
          IsDistinct-update (λ w. w.id == v.id) (λ w. record w { attempts = v.attempts + 1 })
            registry.challenges (λ w. (refl, refl)) sound.distinct;
      bounded =
          All-update (λ w. w.id == v.id) (λ w. record w { attempts = v.attempts + 1 })
            registry.challenges (λ w _ b. (omega arith, λ _. omega arith, b.2)) (λ w _ b. b)
            sound.bounded;
    })
  ]

  verified_registry-IsSafe :
      (user_id institute_id : ℕ) (v : EmailVerification)
      → v.attempts ≤ verify_max_attempts
      → IsSafe (verified_registry env user_id v institute_id registry)
  unfolding verified_registry
  verified_registry-IsSafe user_id institute_id v few = record {
    distinct =
        IsDistinct-update (λ w. w.id == v.id) (consume_row env.now v) registry.challenges
          (λ w. (refl, refl)) sound.distinct;
    bounded =
        All-update (λ w. w.id == v.id) (consume_row env.now v) registry.challenges
          (λ w _ b. (omega arith, λ unused. absurd (cc), b.2)) (λ w _ b. b) sound.bounded;
  }

Effect-IsSafe :
    (digest : List ℕ → List ℕ) (env : Env) (user_id : ℕ) (target code token : List ℕ)
    (registry after : Registry)
    → IsSafe registry
    → Effect digest env user_id target code token registry after
    → IsSafe after
Effect-IsSafe digest env user_id target code token registry _ sound Effects.nothing = sound
Effect-IsSafe digest env user_id target code token registry _ sound (Effects.wrong v m f few) =
    count_wrong-IsSafe env registry sound v few
Effect-IsSafe digest env user_id target code token registry _ sound
      (Effects.verified v i m f live proved known) =
    let bounds = All-member IsBounded registry.challenges v sound.bounded m in
    verified_registry-IsSafe env registry sound user_id i v (bounds.1 f.unused)

StartEffect-IsSafe :
    (digest : List ℕ → List ℕ) (env : Env) (registry after : Registry)
    → All (λ (v : EmailVerification). v.id ≢ env.new_id) registry.challenges
    → IsSafe registry
    → StartEffect digest env registry after
    → IsSafe after
StartEffect-IsSafe digest env registry _ fresh sound Issue.nothing = sound
StartEffect-IsSafe digest env registry _ fresh sound
      (Issue.issued user_id target code salt token free) =
    with_challenge-IsSafe env registry sound digest user_id target code salt token fresh free
StartEffect-IsSafe digest env registry _ fresh sound
      (Issue.withdrawn user_id target code salt token free) =
    roll_back-IsSafe env
      (with_challenge (challenge_of digest env user_id target code salt token) registry)
      (with_challenge-IsSafe env registry sound digest user_id target code salt token fresh free)

confirm-IsSafe :
    (digest : List ℕ → List ℕ) (env : Env) (locals : Locals) (body : Option ConfirmBody)
    (registry : Registry)
    → IsSafe registry
    → IsSafe (confirm_email_verification digest env locals body registry).registry
unfolding confirm_email_verification
confirm-IsSafe digest env missing body registry sound = sound
confirm-IsSafe digest env malformed body registry sound = sound
confirm-IsSafe digest env (signed_in user) none registry sound = sound
confirm-IsSafe digest env (signed_in user) (some body) registry sound =
    Effect-IsSafe digest env user.id (normalize body.email) (trim_space (codes body.code))
      (trim_space (codes body.token)) registry
      (confirm_email_verification digest env (signed_in user) (some body) registry).registry sound
      (confirm_email_verification-Effect digest env user body registry)

-- After any history of calls no two challenges share an id or a token, none has more than five
-- attempts, or six if it is consumed, and each expires at most ten minutes after its creation. The history
-- starts with tables for which this holds, such as empty ones, and each start draws a new id.
pub Reach-IsSafe :
    (digest : List ℕ → List ℕ) (first after : Registry)
    → IsSafe first
    → Reach digest first after
    → IsSafe after
Reach-IsSafe digest first _ sound here = sound
Reach-IsSafe digest first _ sound (step before (starts env draws locals body registry fresh)) =
    StartEffect-IsSafe digest env registry
      (start_email_verification digest env draws locals body registry).registry fresh
      (Reach-IsSafe digest first registry sound before)
      (start_email_verification-Effect digest env draws registry locals body)
Reach-IsSafe digest first _ sound (step before (confirms env locals body registry)) =
    confirm-IsSafe digest env locals body registry (Reach-IsSafe digest first registry sound before)
