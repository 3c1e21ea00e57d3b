-- ===== src/Algo/Strings.antt =====
-- crates/elanprint-algo/src/status.rs: chip statuses to the strings that pam_fprintd matches.
use elanprint_rs.Prelude.{
  ℕ, String, ◌≡◌, ◌↔◌, ◌≢◌, ◌<◌, Option, none, some, Result, ok, err, arith, str_eq_iff,
}
use elanprint_rs.Proto.Status.{
  Retry, dirty, area_too_small, Status, classify, VerifyOutcome, match, no_match, verify_outcome,
  ProtoError,
}
use elanprint_rs.Proto.Enroll.{
  EnrollError, max_enrolled, collision, device, unexpected_reply, parse_failed,
}

-- The modules `enroll` and `verify` of constants.
abbrev pub enroll_completed : String
enroll_completed = "enroll-completed"

abbrev pub enroll_failed : String
enroll_failed = "enroll-failed"

abbrev pub enroll_stage_passed : String
enroll_stage_passed = "enroll-stage-passed"

abbrev pub enroll_swipe_too_short : String
enroll_swipe_too_short = "enroll-swipe-too-short"

abbrev pub enroll_not_centered : String
enroll_not_centered = "enroll-finger-not-centered"

abbrev pub enroll_remove_and_retry : String
enroll_remove_and_retry = "enroll-remove-and-retry"

abbrev pub enroll_data_full : String
enroll_data_full = "enroll-data-full"

abbrev pub enroll_duplicate : String
enroll_duplicate = "enroll-duplicate"

abbrev pub enroll_disconnected : String
enroll_disconnected = "enroll-disconnected"

abbrev pub enroll_unknown_error : String
enroll_unknown_error = "enroll-unknown-error"

abbrev pub verify_match : String
verify_match = "verify-match"

abbrev pub verify_no_match : String
verify_no_match = "verify-no-match"

abbrev pub verify_swipe_too_short : String
verify_swipe_too_short = "verify-swipe-too-short"

abbrev pub verify_not_centered : String
verify_not_centered = "verify-finger-not-centered"

abbrev pub verify_remove_and_retry : String
verify_remove_and_retry = "verify-remove-and-retry"

abbrev pub verify_disconnected : String
verify_disconnected = "verify-disconnected"

abbrev pub verify_unknown_error : String
verify_unknown_error = "verify-unknown-error"

unfoldable pub enroll_retry : Retry → String
enroll_retry dirty = enroll_remove_and_retry
enroll_retry area_too_small = enroll_swipe_too_short
enroll_retry _ = enroll_not_centered

unfoldable pub verify_retry : Retry → String
verify_retry dirty = verify_remove_and_retry
verify_retry area_too_small = verify_swipe_too_short
verify_retry _ = verify_not_centered

outcome_string : Result VerifyOutcome ProtoError → Option String
unfolding verify_retry
outcome_string (ok (match id)) = some verify_match
outcome_string (ok no_match) = some verify_no_match
outcome_string (ok (VerifyOutcome.retry r)) = some (verify_retry r)
outcome_string (err e) = some verify_unknown_error

unfoldable pub verify_status : Status → Option String
unfolding outcome_string verify_outcome
verify_status s = outcome_string (verify_outcome s)

unfoldable pub enroll_failure : EnrollError → String
enroll_failure max_enrolled = enroll_data_full
enroll_failure (collision id) = enroll_duplicate
enroll_failure (parse_failed e) = enroll_unknown_error
enroll_failure (device command code) = enroll_failed
enroll_failure unexpected_reply = enroll_failed

-- The string that grants a login stands for the status bytes below 16 and for no other byte, and
-- every byte has some string.
pub verify_status-match :
    (b : ℕ)
    → ((verify_status (classify b) ≡ some verify_match) ↔ (b < 16))
      × (verify_status (classify b) ≢ none)
unfolding verify_status classify
verify_status-match b = (
  (
    λ h. ground (
      arith,
      h,
      str_eq_iff verify_match verify_no_match,
      str_eq_iff verify_match verify_swipe_too_short,
      str_eq_iff verify_match verify_not_centered,
      str_eq_iff verify_match verify_remove_and_retry,
      str_eq_iff verify_match verify_unknown_error,
    ),
    λ h. ground arith,
  ),
  λ h. ground arith,
)
