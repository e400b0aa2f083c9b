-- ===== src/Verify/Effects.antt =====
-- A call of ConfirmEmailVerification as a transition of an abstract machine: nothing, a wrong code, or
-- a verification.
use uni_pool_new_backend.Base.{
  ℕ, ◌≤◌, ◌<◌, ◌≡◌, ◌⊎◌, inl, inr, true, false, ◌&&◌, none, some, List, ◌==◌, is_none, arith, Memᴰ,
  Bool-cases, Option-cases, &&_split, ==→eq, find_where, find-member, find_where-hit,
}
use uni_pool_new_backend.Booking.Load.Rows.{is_none→none}
use uni_pool_new_backend.Store.{Env, find_challenge, visible}
use uni_pool_new_backend.Text.{codes_eq, is_empty}
use uni_pool_new_backend.Text.Equal.{codes_eq→eq}
use uni_pool_new_backend.Verify.{
  EmailVerification, Registry, hash_code, verify_max_attempts, is_open_for, newest,
  resolve_institute_from_email,
}
use uni_pool_new_backend.Verify.Confirm.{
  found, has_token, find_by_token, lookup, count_wrong, verified_registry,
}
use uni_pool_new_backend.Verify.Newest.{newest-member}

-- What the lookup guarantees of a row: the caller's own, not consumed, and named by the token, or by
-- the address if there is no token.
pub record IsFound (user_id : ℕ) (target token : List ℕ) (v : EmailVerification) : Type 0 where
  pub owned : v.user_id ≡ user_id
  pub unused : v.consumed_at ≡ none
  pub named :
      ((is_empty token ≡ false) × (v.token ≡ token))
      ⊎ ((is_empty token ≡ true) × (v.email ≡ target))

-- By the token, or by a code under the limit of attempts whose hash is the row's.
abbrev pub IsProved : (List ℕ → List ℕ) → List ℕ → List ℕ → EmailVerification → Type 0
IsProved digest code token v =
    (is_empty token ≡ false)
    ⊎ ((v.attempts < verify_max_attempts) × (hash_code digest code v.salt ≡ v.code_hash))

-- The caller, with the normalised address, code and token of the body.
pub data Effect (digest : List ℕ → List ℕ) (env : Env) (user_id : ℕ) (target code token : List ℕ)
    (registry : Registry) : Registry → Type 0 where
  nothing : Effect digest env user_id target code token registry registry
  wrong :
      (v : EmailVerification)
      → Memᴰ v registry.challenges
      → IsFound user_id target token v
      → v.attempts < verify_max_attempts
      → Effect digest env user_id target code token registry (count_wrong env v registry)
  verified :
      (v : EmailVerification) (institute_id : ℕ)
      → Memᴰ v registry.challenges
      → IsFound user_id target token v
      → env.now ≤ v.expires_at
      → IsProved digest code token v
      → resolve_institute_from_email env v.email registry.domains ≡ some institute_id
      → Effect digest env user_id target code token registry
          (verified_registry env user_id v institute_id registry)

module _ (env : Env) (user_id : ℕ) (target token : List ℕ) (registry : Registry)
    (v : EmailVerification) where
  by_token :
      is_empty token ≡ false
      → find_by_token env user_id token registry ≡ found v
      → Memᴰ v registry.challenges × IsFound user_id target token v
  unfolding find_by_token
  by_token given e = elim (Option-cases (find_where (has_token env token) registry.challenges)) [
    | inl none_there ↦ absurd (ground arith)
    | inr (w, there) ↦ elim (Bool-cases (w.user_id == user_id)) [
      | inr other ↦ absurd (ground arith)
      | inl own ↦
          let same : w ≡ v = ground arith in
          let hit = find_where-hit (has_token env token) registry.challenges v (rw (there, same)) in
          let (text, left) =
            &&_split (codes_eq v.token token) (is_none v.consumed_at && visible env v.deleted_at)
              hit in
          let (unused, _) = &&_split (is_none v.consumed_at) (visible env v.deleted_at) left in
          (
            find-member (has_token env token) registry.challenges v (rw (there, same)),
            record {
              owned = ==→eq v.user_id user_id (rw (← same) own);
              unused = is_none→none v.consumed_at unused;
              named = inl (given, codes_eq→eq v.token token text);
            },
          )
    ]
  ]

  by_address :
      is_empty token ≡ true
      → newest (is_open_for env user_id target) registry.challenges ≡ some v
      → Memᴰ v registry.challenges × IsFound user_id target token v
  by_address no_token e =
      let (member, hit) = newest-member (is_open_for env user_id target) registry.challenges v e in
      let (own, more) =
        &&_split (v.user_id == user_id)
          (codes_eq v.email target && (is_none v.consumed_at && visible env v.deleted_at)) hit in
      let (text, left) =
        &&_split (codes_eq v.email target) (is_none v.consumed_at && visible env v.deleted_at)
          more in
      let (unused, _) = &&_split (is_none v.consumed_at) (visible env v.deleted_at) left in
      (
        member,
        record {
          owned = ==→eq v.user_id user_id own;
          unused = is_none→none v.consumed_at unused;
          named = inr (no_token, codes_eq→eq v.email target text);
        },
      )

  pub lookup-found :
      lookup env user_id target token registry ≡ found v
      → Memᴰ v registry.challenges × IsFound user_id target token v
  unfolding lookup
  lookup-found e = elim (Bool-cases (env.fails find_challenge)) [
    | inl fails ↦ absurd (ground arith)
    | inr works ↦ elim (Bool-cases (is_empty token)) [
      | inr given ↦ by_token given (ground arith)
      | inl no_token ↦
          elim (Option-cases (newest (is_open_for env user_id target) registry.challenges)) [
            | inl none_there ↦ absurd (ground arith)
            | inr (w, there) ↦
                let same : w ≡ v = ground arith in by_address no_token (rw (there, same))
          ]
    ]
  ]
