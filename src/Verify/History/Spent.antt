-- ===== src/Verify/History/Spent.antt =====
-- A challenge that was consumed stays as it is, and its link is refused from then on.
use uni_pool_new_backend.Base.{
  ℕ, ◌+◌, ◌≡◌, refl, sym, ◌∙◌, ap, ◌≢◌, inl, inr, false, Option, none, some, List, ◌==◌, ◌&&◌,
  is_none, arith, Memᴰ, All-member, ==→eq, update-member, delete-member, Bool-cases,
}
use mathlib.Core.List.Memᴰ
use uni_pool_new_backend.Store.{
  Env, Locals, missing, malformed, signed_in, count_attempt, delete_challenge,
}
use uni_pool_new_backend.Text.{codes, is_empty, normalize, trim_space}
use uni_pool_new_backend.Verify.{EmailVerification, Registry}
use uni_pool_new_backend.Verify.Start.{roll_back, start_email_verification}
use uni_pool_new_backend.Verify.Confirm.{
  ConfirmBody, count_wrong, verified_registry, consume_row, confirm_email_verification,
}
use uni_pool_new_backend.Verify.Effects.{Effect, IsFound}
use uni_pool_new_backend.Verify.Effects
use uni_pool_new_backend.Verify.Machine.{confirm_email_verification-Effect}
use uni_pool_new_backend.Verify.Issue.{StartEffect, with_challenge, start_email_verification-Effect}
use uni_pool_new_backend.Verify.Issue
use uni_pool_new_backend.Verify.Distinct.{IsSole, IsDistinct-IsSole}
use uni_pool_new_backend.Verify.History.{IsSafe, starts, confirms, Reach, here, step, Reach-IsSafe}

module _ (v : EmailVerification) (at : ℕ) (consumed : v.consumed_at ≡ some at) where
  -- An update of a row that is not consumed leaves v alone.
  other_row :
      (w : EmailVerification) (vs : List EmailVerification)
      → IsSole v vs
      → Memᴰ w vs
      → w.consumed_at ≡ none
      → (v.id == w.id) ≡ false
  other_row w vs sole m unused = elim (Bool-cases (v.id == w.id)) [
    | inr e ↦ e
    | inl e ↦
        let only =
          All-member (λ x. (x.id ≡ v.id → x ≡ v) × (x.token ≡ v.token → x ≡ v)) vs w sole m in
        let same : w ≡ v = only.0 (sym (==→eq v.id w.id e)) in
        let gone : some at ≡ none = sym consumed ∙ ap (λ x. x.consumed_at) (sym same) ∙ unused in
        absurd (ground arith)
  ]

  roll_back-stays :
      (env : Env) (registry : Registry)
      → v.id ≢ env.new_id
      → Memᴰ v registry.challenges
      → Memᴰ v (roll_back env registry).challenges
  unfolding roll_back
  roll_back-stays env registry other m = elim (Bool-cases (env.fails delete_challenge)) [
    | inl e ↦ rw e m
    | inr e ↦ rw e (elim (Bool-cases env.soft_delete) [
      | inl soft ↦ rw soft (
          update-member (λ w. w.id == env.new_id && is_none w.deleted_at)
            (λ w. record w { deleted_at = some env.now }) registry.challenges v (ground arith) m)
      | inr hard ↦
          rw hard (delete-member (λ w. w.id == env.new_id) registry.challenges v (ground arith) m)
    ])
  ]

  module _ (env : Env) (registry : Registry) (m : Memᴰ v registry.challenges) where
    Effect-stays :
        (digest : List ℕ → List ℕ) (user_id : ℕ) (target code token : List ℕ) (after : Registry)
        → IsSole v registry.challenges
        → Effect digest env user_id target code token registry after
        → Memᴰ v after.challenges
    unfolding count_wrong verified_registry
    Effect-stays digest user_id target code token _ sole Effects.nothing = m
    Effect-stays digest user_id target code token _ sole (Effects.wrong w mw f few) =
        elim (Bool-cases (env.fails count_attempt)) [
          | inl e ↦ rw e m
          | inr e ↦ rw e (
              update-member (λ x. x.id == w.id) (λ x. record x { attempts = w.attempts + 1 })
                registry.challenges v (other_row w registry.challenges sole mw f.unused) m)
        ]
    Effect-stays digest user_id target code token _ sole
          (Effects.verified w i mw f live proved known) =
        update-member (λ x. x.id == w.id) (consume_row env.now w) registry.challenges v
          (other_row w registry.challenges sole mw f.unused) m

    StartEffect-stays :
        (digest : List ℕ → List ℕ) (after : Registry)
        → v.id ≢ env.new_id
        → StartEffect digest env registry after
        → Memᴰ v after.challenges
    StartEffect-stays digest _ other Issue.nothing = m
    StartEffect-stays digest _ other (Issue.issued user_id target code salt token free) =
        Memᴰ.append_left _ m
    StartEffect-stays digest _ other (Issue.withdrawn user_id target code salt token free) =
        roll_back-stays env _ other (Memᴰ.append_left _ m)

    confirm-stays :
        (digest : List ℕ → List ℕ) (locals : Locals) (body : Option ConfirmBody)
        → IsSole v registry.challenges
        → Memᴰ v (confirm_email_verification digest env locals body registry).registry.challenges
    unfolding confirm_email_verification
    confirm-stays digest missing body sole = m
    confirm-stays digest malformed body sole = m
    confirm-stays digest (signed_in user) none sole = m
    confirm-stays digest (signed_in user) (some body) sole =
        Effect-stays digest user.id (normalize body.email) (trim_space (codes body.code))
          (trim_space (codes body.token))
          (confirm_email_verification digest env (signed_in user) (some body) registry).registry
          sole (confirm_email_verification-Effect digest env user body registry)

  Reach-stays :
      (digest : List ℕ → List ℕ) (registry after : Registry)
      → IsSafe registry
      → Memᴰ v registry.challenges
      → Reach digest registry after
      → Memᴰ v after.challenges
  Reach-stays digest registry _ sound m here = m
  Reach-stays digest registry _ sound m (step before (starts env draws locals body middle fresh)) =
      let there = Reach-stays digest registry middle sound m before in
      StartEffect-stays env middle there digest
        (start_email_verification digest env draws locals body middle).registry
        (All-member (λ w. w.id ≢ env.new_id) middle.challenges v fresh there)
        (start_email_verification-Effect digest env draws middle locals body)
  Reach-stays digest registry _ sound m (step before (confirms env locals body middle)) =
      let there = Reach-stays digest registry middle sound m before in
      let distinct = (Reach-IsSafe digest registry middle sound before).distinct in
      confirm-stays env middle there digest locals body
        (IsDistinct-IsSole middle.challenges v distinct there)

  not_named :
      (vs : List EmailVerification) (w : EmailVerification) (user_id : ℕ) (target : List ℕ)
      → IsSole v vs
      → is_empty v.token ≡ false
      → Memᴰ w vs
      → IsFound user_id target v.token w
      → ⊥
  not_named vs w user_id target sole given m f = elim f.named [
    | inr (missing_token, _) ↦ ground arith
    | inl (_, token) ↦
        let only =
          All-member (λ x. (x.id ≡ v.id → x ≡ v) × (x.token ≡ v.token → x ≡ v)) vs w sole m in
        let gone : some at ≡ none =
          sym consumed ∙ ap (λ x. x.consumed_at) (sym (only.1 token)) ∙ f.unused in
        ground arith
  ]

  -- A transition that names a row by the token of v is the one that does nothing.
  Effect-nothing :
      (digest : List ℕ → List ℕ) (env : Env) (user_id : ℕ) (target code : List ℕ)
      (registry after : Registry)
      → IsSole v registry.challenges
      → is_empty v.token ≡ false
      → Effect digest env user_id target code v.token registry after
      → after ≡ registry
  Effect-nothing digest env user_id target code registry _ sole given Effects.nothing = refl
  Effect-nothing digest env user_id target code registry _ sole given (Effects.wrong w m f few) =
      absurd (not_named registry.challenges w user_id target sole given m f)
  Effect-nothing digest env user_id target code registry _ sole given
        (Effects.verified w i m f live proved known) =
      absurd (not_named registry.challenges w user_id target sole given m f)

-- A link that verified once never verifies again: for a challenge that is consumed in a table of the
-- history, whatever calls of the two routes come after, a call of confirm whose body carries the
-- challenge's token, by any caller, leaves all tables as they are. The history starts with sound tables,
-- each start draws a new id, and the token is not empty.
pub used_link-refused :
    (digest : List ℕ → List ℕ) (first registry after : Registry) (v : EmailVerification) (at : ℕ)
    (env : Env) (locals : Locals) (body : ConfirmBody)
    → IsSafe first
    → Reach digest first registry
    → Memᴰ v registry.challenges
    → v.consumed_at ≡ some at
    → Reach digest registry after
    → v.token ≡ trim_space (codes body.token)
    → is_empty v.token ≡ false
    → (confirm_email_verification digest env locals (some body) after).registry ≡ after
unfolding confirm_email_verification
used_link-refused digest first registry after v at env missing body sound r m c r' t given = refl
used_link-refused digest first registry after v at env malformed body sound r m c r' t given = refl
used_link-refused digest first registry after v at env (signed_in user) body sound r m c r' t
      given =
    let middle = Reach-IsSafe digest first registry sound r in
    let last = Reach-IsSafe digest registry after middle r' in
    let stays = Reach-stays v at c digest registry after middle m r' in
    Effect-nothing v at c digest env user.id (normalize body.email) (trim_space (codes body.code))
      after (confirm_email_verification digest env (signed_in user) (some body) after).registry
      (IsDistinct-IsSole after.challenges v last.distinct stays) given
      (rw t (confirm_email_verification-Effect digest env user body after))
