-- ===== src/Verify/Start.antt =====
-- StartEmailVerification of routes/users/EmailVerification.go.
use uni_pool_new_backend.Base.{
  ℕ, ◌+◌, ◌-◌, ◌/◌, Bool, false, not, ◌||◌, ◌&&◌, Option, none, some, String, List, [], ◌∷◌, ◌++◌,
  ◌==◌, ltb, is_none, if◌then◌else◌, count_where, update_where, delete_where,
}
use uni_pool_new_backend.Store.{
  Env, Locals, missing, malformed, signed_in, delete_challenge, create_challenge, find_challenge,
}
use uni_pool_new_backend.Text.{codes_eq, normalize, has_more_after_first}
use uni_pool_new_backend.Verify.{
  EmailVerification, Registry, Draws, Verdict, verify_code_ttl, verify_resend_cooldown, answer,
  hash_code, resolve_institute_from_email, is_open_for, newest,
}

abbrev starts_with : ℕ → List ℕ → Bool
starts_with sign [] = false
starts_with sign (c ∷ cs) = c == sign

-- The first @ is neither missing, nor the first, nor the last of the text.
unfoldable pub is_address : List ℕ → Bool
is_address target = has_more_after_first b'@' target && not (starts_with b'@' target)

abbrev pub challenge_of :
    (List ℕ → List ℕ) → Env → ℕ → List ℕ → List ℕ → List ℕ → List ℕ → EmailVerification
challenge_of digest env user_id target code salt token = record {
  id = env.new_id;
  created_at = env.now + env.elapsed;
  deleted_at = none;
  user_id = user_id;
  email = target;
  code_hash = hash_code digest code salt;
  salt = salt;
  token = token;
  expires_at = env.now + verify_code_ttl;
  attempts = 0;
  consumed_at = none;
}

-- The unique index on the token.
abbrev pub token_taken : List ℕ → Registry → Bool
token_taken token registry =
    not (count_where (λ v. codes_eq v.token token) registry.challenges == 0)

-- `Delete(&row)`, after the mail service refused.
unfoldable pub roll_back : Env → Registry → Registry
roll_back env registry =
    if env.fails delete_challenge
    then registry
    else if env.soft_delete
    then record registry {
      challenges =
          update_where (λ v. v.id == env.new_id && is_none v.deleted_at)
            (λ v. record v { deleted_at = some env.now }) registry.challenges;
    }
    else record registry { challenges = delete_where (λ v. v.id == env.new_id) registry.challenges }

unfoldable pub issue :
    (List ℕ → List ℕ) → Env → Draws → ℕ → List ℕ → List ℕ → List ℕ → List ℕ → Registry → Verdict
issue digest env draws user_id target code salt token registry =
    let stored = record registry {
      challenges =
          registry.challenges ++ (challenge_of digest env user_id target code salt token ∷ []);
    } in
    if env.fails create_challenge || token_taken token registry
    then answer registry 500 "could not start verification"
    else if not draws.sends
    then answer (roll_back env stored) 502 "couldn't send the email — try again in a moment"
    else record {
      registry = stored;
      reply = record {
        status = 200;
        message = "code_sent";
        detail = some (verify_code_ttl / 1000000000);
      };
    }

-- The code, the salt and the token, in this order.
unfoldable pub draw : (List ℕ → List ℕ) → Env → Draws → ℕ → List ℕ → Registry → Verdict
draw digest env draws user_id target registry = elim draws.code [
  | none ↦ answer registry 500 "code gen failed"
  | some code ↦ elim draws.salt [
    | none ↦ answer registry 500 "code gen failed"
    | some salt ↦ elim draws.token [
      | none ↦ answer registry 500 "code gen failed"
      | some token ↦ issue digest env draws user_id target code salt token registry
    ]
  ]
]

-- The newest open challenge of the target; a lookup that fails is only logged.
unfoldable pub recent : Env → ℕ → List ℕ → Registry → Option EmailVerification
recent env user_id target registry =
    if env.fails find_challenge
    then none
    else newest (is_open_for env user_id target) registry.challenges

-- `since < verifyResendCooldown`, also for a row from a clock that ran ahead.
abbrev pub is_too_soon : ℕ → EmailVerification → Bool
is_too_soon now v = ltb now (v.created_at + verify_resend_cooldown)

unfoldable pub start_target : (List ℕ → List ℕ) → Env → Draws → ℕ → List ℕ → Registry → Verdict
start_target digest env draws user_id target registry =
    let go = draw digest env draws user_id target registry in
    if not (is_address target)
    then answer registry 400 "please enter a valid email"
    else if is_none (resolve_institute_from_email env target registry.domains)
    then answer registry 400
        "we don't recognise this institute yet — pick a university from the list"
    else elim (recent env user_id target registry) [
      | none ↦ go
      | some v ↦
          if is_too_soon env.now v
          then record {
            registry = registry;
            reply = record {
              status = 429;
              message = "please wait a moment before requesting another code";
              detail = some ((v.created_at + verify_resend_cooldown - env.now) / 1000000000 + 1);
            };
          }
          else go
    ]

unfoldable pub start_email_verification :
    (List ℕ → List ℕ) → Env → Draws → Locals → Option String → Registry → Verdict
start_email_verification digest env draws missing body registry = answer registry 401 "unauthorized"
start_email_verification digest env draws malformed body registry =
    answer registry 401 "unauthorized"
start_email_verification digest env draws (signed_in user) none registry =
    answer registry 400 "invalid body"
start_email_verification digest env draws (signed_in user) (some email) registry =
    start_target digest env draws user.id (normalize email) registry
