-- ===== src/Examples/Verification.antt =====
-- Bina proves that she has an address of an institute.
use uni_pool_new_backend.Base.{
  ℕ, ◌≡◌, refl, true, false, none, some, List, [], ◌∷◌, ◌&&◌, ◌==◌, arith, Memᴰ, find_where,
  count_where, update_where,
}
use uni_pool_new_backend.Store.{Env, signed_in, visible}
use uni_pool_new_backend.Text.{
  codes, codes_eq, to_lower, is_space, trim_left, trim_space, normalize, is_empty, after_last,
  has_more_after_first,
}
use uni_pool_new_backend.Verify.{
  EmailVerification, Profile, InstituteDomain, Registry, Draws, hash_code,
  resolve_institute_from_email, newest,
}
use uni_pool_new_backend.Verify.Start.{
  is_address, challenge_of, issue, draw, recent, start_target, start_email_verification,
}
use uni_pool_new_backend.Verify.Confirm.{
  ConfirmBody, lookup, consume, check_code, confirm_row, confirm_texts, confirm_email_verification,
  verified_registry, mark_profile,
}
use uni_pool_new_backend.Verify.History.{Reach, IsSafe, starts, confirms, here, step, Reach-IsSafe}
use uni_pool_new_backend.Verify.History.Spent.{used_link-refused}
use uni_pool_new_backend.Verify.Sent.{IsSpaced, start_email_verification-IsSpaced}
use uni_pool_new_backend.Verify.Roundtrip.{at_time, start-confirm}
use uni_pool_new_backend.Examples.Fixtures.{bina, chitra, calm}

abbrev digest : List ℕ → List ℕ
digest text = text

abbrev draws : Draws
draws = record {
  code = some (codes "123456");
  salt = some (codes "5a17");
  token = some (codes "tok");
  sends = true;
}

abbrev unverified : Profile
unverified = record {
  id = 2;
  deleted_at = none;
  institute_id = none;
  is_email_verified = false;
  institute_email = [];
}

abbrev students : InstituteDomain
students = record { deleted_at = none; domain = codes "vitstudent.ac.in"; institute_id = 7 }

abbrev blank : Registry
blank = record { challenges = []; profiles = unverified ∷ []; domains = students ∷ [] }

abbrev address : List ℕ
address = codes "b@vitstudent.ac.in"

abbrev sent : EmailVerification
sent = challenge_of digest calm 2 address (codes "123456") (codes "5a17") (codes "tok")

abbrev waiting_registry : Registry
waiting_registry = record blank { challenges = sent ∷ [] }

abbrev by_code : ConfirmBody
by_code = record { email = " B@vitstudent.ac.in"; code = "123456 "; token = "" }

abbrev by_wrong_code : ConfirmBody
by_wrong_code = record by_code { code = "654321" }

abbrev by_link : ConfirmBody
by_link = record { email = ""; code = ""; token = "tok" }

start_test :
    (start_email_verification digest calm draws
      (signed_in bina)
      (some "b@vitstudent.ac.in")
      blank).registry
    ≡ waiting_registry
unfolding start_email_verification start_target is_address has_more_after_first
    resolve_institute_from_email after_last recent newest draw issue hash_code codes codes_eq
    to_lower is_space trim_left trim_space normalize is_empty find_where count_where
start_test = refl

cooldown_test :
    (start_email_verification digest calm draws
      (signed_in bina)
      (some "b@vitstudent.ac.in")
      waiting_registry).reply
    ≡ record {
      status = 429;
      message = "please wait a moment before requesting another code";
      detail = some 46;
    }
unfolding start_email_verification start_target is_address has_more_after_first
    resolve_institute_from_email after_last recent newest draw issue hash_code codes codes_eq
    to_lower is_space trim_left trim_space normalize is_empty find_where count_where
cooldown_test = refl

wrong_code_test :
    (confirm_email_verification digest calm
      (signed_in bina)
      (some by_wrong_code)
      waiting_registry).reply
    ≡ record { status = 400; message = "that code doesn't match"; detail = some 4 }
unfolding confirm_email_verification confirm_texts lookup newest confirm_row check_code hash_code
    codes codes_eq to_lower is_space trim_left trim_space normalize is_empty find_where count_where
wrong_code_test = refl

abbrev empty-IsSafe : IsSafe blank
empty-IsSafe = record { distinct = tt; bounded = tt }

abbrev after_start : Registry
after_start =
    (start_email_verification digest calm draws (signed_in bina) (some "b@vitstudent.ac.in")
      blank).registry

abbrev reach_start : Reach digest blank after_start
reach_start = step here (starts calm draws (signed_in bina) (some "b@vitstudent.ac.in") blank tt)

abbrev after_code : Registry
after_code =
    (confirm_email_verification digest calm (signed_in bina) (some by_code) after_start).registry

abbrev reach_code : Reach digest blank after_code
reach_code = step reach_start (confirms calm (signed_in bina) (some by_code) after_start)

Reach-IsSafe_example : IsSafe after_code
Reach-IsSafe_example = Reach-IsSafe digest blank after_code empty-IsSafe reach_code

abbrev used : EmailVerification
used = record sent { consumed_at = some 100; attempts = 1 }

used-member : Memᴰ used after_code.challenges
unfolding start_email_verification start_target is_address has_more_after_first
    resolve_institute_from_email after_last recent newest draw issue hash_code codes codes_eq
    to_lower is_space trim_left trim_space normalize is_empty find_where count_where update_where
    confirm_email_verification confirm_texts lookup confirm_row check_code consume verified_registry
used-member = Memᴰ.head refl

tok_trimmed : codes "tok" ≡ trim_space (codes "tok")
unfolding codes trim_space trim_left is_space
tok_trimmed = refl

tok_given : is_empty (codes "tok") ≡ false
unfolding codes is_empty
tok_given = refl

used_link-refused_example :
    (confirm_email_verification digest
      (at_time 200 calm)
      (signed_in bina)
      (some by_link)
      (confirm_email_verification digest
        (at_time 150 calm)
        (signed_in chitra)
        (some by_code)
        after_code).registry).registry
    ≡ (confirm_email_verification digest
        (at_time 150 calm)
        (signed_in chitra)
        (some by_code)
        after_code).registry
used_link-refused_example =
    used_link-refused digest blank after_code
      (confirm_email_verification digest (at_time 150 calm) (signed_in chitra) (some by_code)
        after_code).registry
      used 100 (at_time 200 calm) (signed_in bina) by_link empty-IsSafe reach_code used-member refl
      (step here (confirms (at_time 150 calm) (signed_in chitra) (some by_code) after_code))
      tok_trimmed tok_given

started :
    (start_email_verification digest calm draws
      (signed_in bina)
      (some "b@vitstudent.ac.in")
      blank).reply.status
    ≡ 200
unfolding start_email_verification start_target is_address has_more_after_first
    resolve_institute_from_email after_last recent newest draw issue codes codes_eq to_lower
    is_space trim_left trim_space normalize is_empty find_where count_where
started = refl

-- A minute after the first challenge.
abbrev minute_later : Env
minute_later = record calm { now = 60000000100; new_id = 51 }

abbrev other_draws : Draws
other_draws = record draws { token = some (codes "tok2") }

restarted :
    (start_email_verification digest minute_later other_draws
      (signed_in bina)
      (some "b@vitstudent.ac.in")
      waiting_registry).reply.status
    ≡ 200
unfolding start_email_verification start_target is_address has_more_after_first
    resolve_institute_from_email after_last recent newest draw issue codes codes_eq to_lower
    is_space trim_left trim_space normalize is_empty find_where count_where
restarted = refl

start_email_verification-IsSpaced_example :
    IsSpaced minute_later 2 (normalize "b@vitstudent.ac.in") (sent ∷ [])
start_email_verification-IsSpaced_example =
    start_email_verification-IsSpaced digest minute_later other_draws bina "b@vitstudent.ac.in"
      waiting_registry restarted refl

same_address : normalize by_code.email ≡ normalize "b@vitstudent.ac.in"
unfolding normalize codes to_lower trim_space trim_left is_space
same_address = refl

same_code : some (codes "123456") ≡ some (trim_space (codes by_code.code))
unfolding codes trim_space trim_left is_space
same_code = refl

code_given : is_empty (trim_space (codes by_code.code)) ≡ false
unfolding codes trim_space trim_left is_space is_empty
code_given = refl

no_token : trim_space (codes by_code.token) ≡ []
unfolding codes trim_space trim_left
no_token = refl

start-confirm_example :
    let out =
      confirm_email_verification digest
        (at_time 600000000100 calm)
        (signed_in bina)
        (some by_code)
        after_start in
    (out.reply.status ≡ 200)
    × ((i : ℕ) × (resolve_institute_from_email calm (normalize "b@vitstudent.ac.in") (students ∷ [])
          ≡ some i)
        × (out.registry.profiles
            ≡ update_where
                (λ p. p.id == 2 && visible calm p.deleted_at)
                (mark_profile i (normalize "b@vitstudent.ac.in"))
                (unverified ∷ [])))
start-confirm_example =
    start-confirm digest calm draws bina "b@vitstudent.ac.in" by_code 600000000100 blank (λ s. refl)
      started same_address same_code code_given no_token (omega arith)
