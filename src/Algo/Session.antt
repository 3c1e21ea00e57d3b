-- ===== src/Algo/Session.antt =====
-- crates/elanprint-algo/src/session.rs: a login attempt. `step` returns the new session beside its
-- result.
pub mod Grant
use Prim.Native.String.{◌++◌ as concat}
use elanprint_rs.Prelude.{
  ℕ, ◌+◌, ◌%◌, String, Bool, true, false, not, Option, none, some, Result, ok, err, str_eq, ◌||◌,
  if◌then◌else◌,
}
use elanprint_rs.Prelude.Text.{decimal}
use elanprint_rs.Algo.Policy.{AttemptPolicy, pam_default, allows, left}
use elanprint_rs.Algo.Strings.{
  verify_match, verify_no_match, verify_swipe_too_short, verify_not_centered,
  verify_remove_and_retry, verify_disconnected, verify_unknown_error,
}

pub data SessionState : Type 0 where
  idle : SessionState
  waiting : ℕ → SessionState
  succeeded denied locked_out failed : SessionState

pub data Signal : Type 0 where
  -- result, done
  status : String → Bool → Signal
  finger_selected : String → Signal
  disconnected cancelled : Signal

pub data Action : Type 0 where
  prompt granted deny : String → Action
  locked : Action
  failed : String → Action
  idle : Action

pub data SessionError : Type 0 where
  unknown_string : String → SessionError
  no_session : SessionError

pub record VerifySession : Type 0 where
  pub user : String
  pub policy : AttemptPolicy
  pub state : SessionState
  pub selected : Option String

unfoldable pub with_policy : String → AttemptPolicy → VerifySession
with_policy user policy = record {
  user = user;
  policy = policy;
  state = SessionState.idle;
  selected = none;
}

-- `VerifySession::new`.
unfoldable pub new : String → VerifySession
unfolding with_policy
new user = with_policy user pam_default

unfoldable pub begin : VerifySession → VerifySession × Action
begin s = (record s { state = waiting 0 }, prompt "touch the sensor")

is_retry : String → Bool
is_retry result =
    str_eq result verify_swipe_too_short
    || str_eq result verify_not_centered
    || str_eq result verify_remove_and_retry

pub hint : String → String
hint result =
    if str_eq result verify_not_centered
    then "center the finger and retry"
    else if str_eq result verify_remove_and_retry
    then "lift the finger and retry"
    else "touch the sensor again"

-- The text of a denial.
pub tries_left : ℕ → String
tries_left n = concat "no match, " (concat (decimal n) " tries left")

abbrev Step : Type 0
Step = VerifySession × Result Action SessionError

-- `failures + 1` on a `u32`.
missed : VerifySession → ℕ → Step
missed s used =
    if allows s.policy used
    then (record s { state = waiting used }, ok (deny (tries_left (left s.policy used))))
    else (record s { state = locked_out }, ok locked)

status_in : SessionState → VerifySession → String → Bool → Step
unfolding missed is_retry
status_in (waiting failures) s result done =
    if str_eq result verify_match
    then (if not done
        then (s, err (unknown_string result))
        else (record s { state = succeeded }, ok (granted s.user)))
    else if str_eq result verify_no_match
    then missed s ((failures + 1) % 4294967296)
    else if is_retry result
    then (s, ok (prompt (hint result)))
    else if str_eq result verify_disconnected
    then (record s { state = SessionState.failed }, ok (Action.failed "reader disconnected"))
    else if str_eq result verify_unknown_error
    then (record s { state = SessionState.failed }, ok (Action.failed "reader error"))
    else (s, err (unknown_string result))
status_in _ s result done = (s, err no_session)

step_status : VerifySession → String → Bool → Step
unfolding status_in
step_status s result done = status_in s.state s result done

unfoldable pub step : VerifySession → Signal → VerifySession × Result Action SessionError
unfolding step_status
step s cancelled = (record s { state = SessionState.idle }, ok Action.idle)
step s disconnected =
    (record s { state = SessionState.failed }, ok (Action.failed "reader disconnected"))
step s (finger_selected finger) =
    (record s { selected = some finger }, ok (prompt "touch the sensor"))
step s (status result done) = step_status s result done
