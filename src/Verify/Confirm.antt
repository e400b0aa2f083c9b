-- ===== src/Verify/Confirm.antt =====
-- ConfirmEmailVerification of routes/users/EmailVerification.go.
use uni_pool_new_backend.Base.{
  ℕ, ◌+◌, ◌-◌, Bool, true, not, ◌&&◌, ◌||◌, Option, none, some, String, List, ◌==◌, ltb, leb,
  is_none, if◌then◌else◌, find_where, update_where,
}
use uni_pool_new_backend.Store.{
  Env, Locals, missing, malformed, signed_in, find_challenge, begin_tx, consume_challenge,
  mark_verified, commit, count_attempt, visible,
}
use uni_pool_new_backend.Text.{codes, codes_eq, normalize, trim_space, is_empty}
use uni_pool_new_backend.Verify.{
  EmailVerification, Profile, Registry, Verdict, verify_max_attempts, answer, hash_code,
  resolve_institute_from_email, is_open_for, newest,
}

pub record ConfirmBody : Type 0 where
  pub email : String
  pub code : String
  pub token : String

pub data Lookup : Type 0 where
  absent other_account failed : Lookup
  found : EmailVerification → Lookup

abbrev pub has_token : Env → List ℕ → EmailVerification → Bool
has_token env token v =
    codes_eq v.token token && (is_none v.consumed_at && visible env v.deleted_at)

abbrev found_or_absent : Option EmailVerification → Lookup
found_or_absent none = absent
found_or_absent (some v) = found v

unfoldable pub find_by_token : Env → ℕ → List ℕ → Registry → Lookup
find_by_token env user_id token registry =
    elim (find_where (has_token env token) registry.challenges) [
      | none ↦ absent
      | some v ↦ if not (v.user_id == user_id) then other_account else found v
    ]

-- By the token, if the body has one; otherwise the newest one of the user and the address.
unfoldable pub lookup : Env → ℕ → List ℕ → List ℕ → Registry → Lookup
lookup env user_id target token registry =
    if env.fails find_challenge
    then failed
    else if not (is_empty token)
    then find_by_token env user_id token registry
    else found_or_absent (newest (is_open_for env user_id target) registry.challenges)

abbrev pub consume_row : ℕ → EmailVerification → EmailVerification → EmailVerification
consume_row now v w = record w { consumed_at = some now; attempts = v.attempts + 1 }

abbrev pub mark_profile : ℕ → List ℕ → Profile → Profile
mark_profile institute_id email p = record p {
  institute_id = some institute_id;
  is_email_verified = true;
  institute_email = email;
}

-- The two writes of the transaction.
unfoldable pub verified_registry : Env → ℕ → EmailVerification → ℕ → Registry → Registry
verified_registry env user_id v institute_id registry = record registry {
  challenges = update_where (λ w. w.id == v.id) (consume_row env.now v) registry.challenges;
  profiles =
      update_where (λ p. p.id == user_id && visible env p.deleted_at)
        (mark_profile institute_id v.email) registry.profiles;
}

unfoldable pub consume : Env → ℕ → EmailVerification → Registry → Verdict
consume env user_id v registry = elim (resolve_institute_from_email env v.email registry.domains) [
  | none ↦ answer registry 400 "this email's institute is no longer recognised"
  | some institute_id ↦
      if env.fails begin_tx || env.fails consume_challenge
      then answer registry 500 "failed to consume code"
      else if env.fails mark_verified
      then answer registry 500 "failed to mark verified"
      else if env.fails commit
      then answer registry 500 "commit failed"
      else answer (verified_registry env user_id v institute_id registry) 200 "verified"
]

-- A failure of the update is not looked at.
unfoldable pub count_wrong : Env → EmailVerification → Registry → Registry
count_wrong env v registry = if env.fails count_attempt then registry else record registry {
  challenges =
      update_where (λ w. w.id == v.id) (λ w. record w { attempts = v.attempts + 1 })
        registry.challenges;
}

unfoldable pub check_code :
    (List ℕ → List ℕ) → Env → ℕ → List ℕ → EmailVerification → Registry → Verdict
check_code digest env user_id code v registry =
    if leb verify_max_attempts v.attempts
    then answer registry 400 "too many attempts — request a new code"
    else if not (codes_eq (hash_code digest code v.salt) v.code_hash)
    then record {
      registry = count_wrong env v registry;
      reply = record {
        status = 400;
        message = "that code doesn't match";
        detail = some (verify_max_attempts - (v.attempts + 1));
      };
    }
    else consume env user_id v registry

unfoldable pub confirm_row :
    (List ℕ → List ℕ) → Env → ℕ → List ℕ → List ℕ → EmailVerification → Registry → Verdict
confirm_row digest env user_id code token v registry =
    if ltb v.expires_at env.now
    then answer registry 400 "this verification has expired — request a new one"
    else if is_empty token
    then check_code digest env user_id code v registry
    else consume env user_id v registry

unfoldable pub confirm_texts :
    (List ℕ → List ℕ) → Env → ℕ → List ℕ → List ℕ → List ℕ → Registry → Verdict
confirm_texts digest env user_id target code token registry =
    if is_empty token && (is_empty target || is_empty code)
    then answer registry 400 "missing token or email+code"
    else elim (lookup env user_id target token registry) [
      | absent ↦ answer registry 400 "this code or link has already been used — start over"
      | other_account ↦ answer registry 400 "this verification link is for a different account"
      | failed ↦ answer registry 500 "lookup failed"
      | found v ↦ confirm_row digest env user_id code token v registry
    ]

unfoldable pub confirm_email_verification :
    (List ℕ → List ℕ) → Env → Locals → Option ConfirmBody → Registry → Verdict
confirm_email_verification digest env missing body registry = answer registry 401 "unauthorized"
confirm_email_verification digest env malformed body registry = answer registry 401 "unauthorized"
confirm_email_verification digest env (signed_in user) none registry =
    answer registry 400 "invalid body"
confirm_email_verification digest env (signed_in user) (some body) registry =
    confirm_texts digest env user.id (normalize body.email) (trim_space (codes body.code))
      (trim_space (codes body.token)) registry
