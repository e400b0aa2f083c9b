-- ===== src/Verify.antt =====
-- The rows of models/EmailVerificationModel.go and models/InstituteModel.go, the columns of
-- models/UserModel.go that a verification writes, and resolveInstituteFromEmail of
-- routes/users/CreateorUpdateUser.go. Letters beyond ASCII keep their case here, in what is stored and
-- in what is looked up alike; the domains are ASCII.
pub mod Start
pub mod Confirm
mod Newest
pub mod Effects
pub mod Machine
mod Issue
mod Distinct
pub mod History
pub mod Sent
pub mod Roundtrip
use uni_pool_new_backend.Base.{
  ℕ, ◌+◌, Bool, true, false, not, ◌&&◌, ◌||◌, Option, none, some, String, List, [], ◌∷◌, ◌++◌, map,
  ◌==◌, ltb, leb, is_none, if◌then◌else◌, find_where,
}
use uni_pool_new_backend.Store.{Env, Stmt, find_domain, visible}
use uni_pool_new_backend.Text.{codes_eq, to_lower, trim_space, is_empty, after_last}

-- A pending challenge. The hash is the text that hashCode returns.
pub record EmailVerification : Type 0 where
  pub id : ℕ
  pub created_at : ℕ
  pub deleted_at : Option ℕ
  pub user_id : ℕ
  pub email : List ℕ
  pub code_hash : List ℕ
  pub salt : List ℕ
  pub token : List ℕ
  pub expires_at : ℕ
  pub attempts : ℕ
  pub consumed_at : Option ℕ

pub record Profile : Type 0 where
  pub id : ℕ
  pub deleted_at : Option ℕ
  pub institute_id : Option ℕ
  pub is_email_verified : Bool
  pub institute_email : List ℕ

pub record InstituteDomain : Type 0 where
  pub deleted_at : Option ℕ
  pub domain : List ℕ
  pub institute_id : ℕ

-- The tables that the two handlers use.
pub record Registry : Type 0 where
  pub challenges : List EmailVerification
  pub profiles : List Profile
  pub domains : List InstituteDomain

-- What a start draws: the six digits, the salt and the token (`none` where crypto/rand fails), and
-- whether the mail service accepts the mail.
pub record Draws : Type 0 where
  pub code : Option (List ℕ)
  pub salt : Option (List ℕ)
  pub token : Option (List ℕ)
  pub sends : Bool

-- `detail` is retry_after, expires_in or attempts_remaining.
pub record Reply : Type 0 where
  pub status : ℕ
  pub message : String
  pub detail : Option ℕ

pub record Verdict : Type 0 where
  pub registry : Registry
  pub reply : Reply

-- Ten minutes, and 45 seconds, in nanoseconds.
abbrev pub verify_code_ttl : ℕ
verify_code_ttl = 600000000000

abbrev pub verify_max_attempts : ℕ
verify_max_attempts = 5

abbrev pub verify_resend_cooldown : ℕ
verify_resend_cooldown = 45000000000

abbrev pub answer : Registry → ℕ → String → Verdict
answer registry status message = record {
  registry = registry;
  reply = record { status = status; message = message; detail = none };
}

-- hex(sha256(salt + ":" + code)), with `digest` for the two functions of Go's library.
unfoldable pub hash_code : (List ℕ → List ℕ) → List ℕ → List ℕ → List ℕ
hash_code digest code salt = digest (salt ++ (b':' ∷ code))

abbrev pub has_domain : Env → List ℕ → InstituteDomain → Bool
has_domain env domain d = codes_eq (map to_lower d.domain) domain && visible env d.deleted_at

unfoldable pub resolve_institute_from_email : Env → List ℕ → List InstituteDomain → Option ℕ
resolve_institute_from_email env email domains = elim (after_last b'@' email) [
  | none ↦ none
  | some rest ↦
      let domain = map to_lower (trim_space rest) in
      if is_empty rest || (is_empty domain || env.fails find_domain)
      then none
      else elim (find_where (has_domain env domain) domains) [
        | none ↦ none
        | some d ↦ some d.institute_id
      ]
]

-- Not consumed, for this user and address.
abbrev pub is_open_for : Env → ℕ → List ℕ → EmailVerification → Bool
is_open_for env user_id email v =
    v.user_id == user_id
    && (codes_eq v.email email && (is_none v.consumed_at && visible env v.deleted_at))

-- The order of the query: the later one first, then the lower key.
abbrev pub is_newer : EmailVerification → EmailVerification → Bool
is_newer v w = ltb w.created_at v.created_at || (w.created_at == v.created_at && leb v.id w.id)

-- `First` under ORDER BY created_at DESC.
unfoldable pub newest :
    (EmailVerification → Bool) → List EmailVerification → Option EmailVerification
newest p [] = none
newest p (v ∷ vs) =
    let rest = newest p vs in
    if p v
    then elim rest [ none ↦ some v | some w ↦ some (if is_newer v w then v else w) ]
    else rest
