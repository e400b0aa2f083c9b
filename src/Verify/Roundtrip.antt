-- ===== src/Verify/Roundtrip.antt =====
-- From the code that StartEmailVerification sends to the verified account.
use uni_pool_new_backend.Base.{
  ℕ, ◌≤◌, ◌+◌, ◌≡◌, refl, ◌∙◌, true, false, ◌&&◌, ◌==◌, none, some, String, List, [], ◌∷◌,
  if◌then◌else◌, arith, All-map, ltb, ==_refl, update_where,
}
use uni_pool_new_backend.Model.{User}
use uni_pool_new_backend.Store.{
  Env, Stmt, signed_in, find_challenge, begin_tx, consume_challenge, mark_verified, commit, visible,
}
use uni_pool_new_backend.Text.{has_more_after_first, codes, is_empty, normalize, trim_space}
use uni_pool_new_backend.Text.Equal.{codes_eq_refl}
use uni_pool_new_backend.Verify.{
  EmailVerification, Registry, Draws, hash_code, resolve_institute_from_email, is_open_for,
  verify_code_ttl,
}
use uni_pool_new_backend.Verify.Start.{is_address, challenge_of, start_email_verification}
use uni_pool_new_backend.Verify.Confirm.{
  ConfirmBody, lookup, found, consume, check_code, confirm_row, confirm_texts,
  confirm_email_verification, verified_registry, mark_profile,
}
use uni_pool_new_backend.Verify.Issue.{with_challenge}
use uni_pool_new_backend.Verify.Newest.{newest-snoc}
use uni_pool_new_backend.Verify.Sent.{IsSpaced, start_target-IsSent}

abbrev pub at_time : ℕ → Env → Env
at_time now env = record env { now = now }

module _ (digest : List ℕ → List ℕ) (env : Env) (works : (s : Stmt) → env.fails s ≡ false)
    (later user_id : ℕ) (target code salt token : List ℕ) (registry : Registry) where
  abbrev fresh : EmailVerification
  fresh = challenge_of digest env user_id target code salt token

  lookup-fresh :
      IsSpaced env user_id target registry.challenges
      → lookup (at_time later env) user_id target [] (with_challenge fresh registry) ≡ found fresh
  unfolding lookup is_empty
  lookup-fresh spaced =
      let fits : is_open_for (at_time later env) user_id target fresh ≡ true =
        rw (==_refl user_id, codes_eq_refl target) open_new in
      let first =
        newest-snoc (is_open_for (at_time later env) user_id target) registry.challenges fresh
          (All-map registry.challenges (λ v gap hit. ground (arith, gap hit)) spaced) fits in
      rw (works find_challenge, first) refl
    where
      open_new : visible env none ≡ true
      open_new = elim env.soft_delete as (λ b. (if b then true else true) ≡ true) [
        | true ↦ refl
        | false ↦ refl
      ]

  resolve-later :
      resolve_institute_from_email (at_time later env) target registry.domains
      ≡ resolve_institute_from_email env target registry.domains
  unfolding resolve_institute_from_email
  resolve-later = refl

  consume-fresh :
      (i : ℕ)
      → resolve_institute_from_email env target registry.domains ≡ some i
      → (consume (at_time later env) user_id fresh (with_challenge fresh registry)) ≡ record {
        registry =
            verified_registry (at_time later env) user_id fresh i (with_challenge fresh registry);
        reply = record { status = 200; message = "verified"; detail = none };
      }
  unfolding consume
  consume-fresh i known =
      rw
        (
          resolve-later ∙ known,
          consume,
          works begin_tx,
          works consume_challenge,
          works mark_verified,
          works commit,
        )
        refl

  confirm-fresh :
      (i : ℕ)
      → is_empty target ≡ false
      → is_empty code ≡ false
      → IsSpaced env user_id target registry.challenges
      → resolve_institute_from_email env target registry.domains ≡ some i
      → later ≤ env.now + verify_code_ttl
      → confirm_texts digest
          (at_time later env)
          user_id
          target
          code
          []
          (with_challenge fresh registry)
        ≡ record {
          registry =
              verified_registry (at_time later env) user_id fresh i (with_challenge fresh registry);
          reply = record { status = 200; message = "verified"; detail = none };
        }
  unfolding confirm_texts confirm_row check_code is_empty
  confirm-fresh i has_target has_code spaced known soon =
      let live : ltb (env.now + verify_code_ttl) later ≡ false = ground arith in
      rw
        (
          has_target,
          has_code,
          lookup-fresh spaced,
          live,
          codes_eq_refl (hash_code digest code salt),
        )
        (consume-fresh i known)

is_address-not_empty : (target : List ℕ) → is_address target ≡ true → is_empty target ≡ false
unfolding is_address is_empty has_more_after_first
is_address-not_empty [] e = absurd (ground arith)
is_address-not_empty (c ∷ cs) e = refl

-- Whoever gets the code and sends it back in time is verified: where a start answers that a code was
-- sent, a confirm by the same user with the same address (up to case and outer spaces), with the code
-- that was drawn and without a token, at most ten minutes after the start, answers 200 and marks the
-- caller's profile with the address and its institute; provided that no statement fails, and that the
-- code is not empty.
pub start-confirm :
    (digest : List ℕ → List ℕ) (env : Env) (draws : Draws) (user : User) (email : String)
    (body : ConfirmBody) (later : ℕ) (registry : Registry)
    → ((s : Stmt) → env.fails s ≡ false)
    → (start_email_verification digest env draws
        (signed_in user)
        (some email)
        registry).reply.status
      ≡ 200
    → normalize body.email ≡ normalize email
    → draws.code ≡ some (trim_space (codes body.code))
    → is_empty (trim_space (codes body.code)) ≡ false
    → trim_space (codes body.token) ≡ []
    → later ≤ env.now + verify_code_ttl
    → let sent = start_email_verification digest env draws (signed_in user) (some email) registry in
      let out =
        confirm_email_verification digest
          (at_time later env)
          (signed_in user)
          (some body)
          sent.registry in
      (out.reply.status ≡ 200)
      × ((i : ℕ) × (resolve_institute_from_email env (normalize email) registry.domains ≡ some i)
          × (out.registry.profiles
              ≡ update_where
                  (λ p. p.id == user.id && visible env p.deleted_at)
                  (mark_profile i (normalize email))
                  registry.profiles))
unfolding start_email_verification confirm_email_verification verified_registry
start-confirm digest env draws user email body later registry works sent same drawn has_code
      no_token soon =
    let target = normalize email in
    let s = start_target-IsSent digest env draws registry user.id target sent in
    let (i, known) = s.institute in
    let (code, salt, token, code_drawn, stored) = s.stored in
    let same_code : trim_space (codes body.code) ≡ code = ground arith in
    rw
      (
        same,
        no_token,
        stored,
        same_code,
        confirm-fresh digest env works later user.id target code salt token registry i
            (is_address-not_empty target s.address) (rw (← same_code) has_code)
            (s.spaced (works find_challenge)) known soon,
      )
      (refl, (i, known, refl))
