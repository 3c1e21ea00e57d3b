-- ===== src/Daemon/Worker/Verify.antt =====
-- `Worker::verify`. The loop waits for any number of touches; the fuel is the number of rounds that
-- the sensor is given, and an operation that uses it up is still waiting.
pub mod Allowed
pub mod Grant
pub mod Owned
pub mod Ending
pub mod Kept
use elanprint_rs.Prelude.{
  ℕ, zero, suc, String, Bool, true, false, not, List, [], ◌∷◌, Option, none, some, Result, ok, err,
  str_eq, ◌&&◌, if◌then◌else◌, map_err,
}
use elanprint_rs.Prelude.BTreeMap.{BTreeMap, text_ord, number_ord, get, collect}
use elanprint_rs.Proto.Status.{ProtoError, VerifyOutcome, match, verify_outcome}
use elanprint_rs.Proto.Command.{Command}
use elanprint_rs.Proto.Response.{Response, parse}
use elanprint_rs.Algo.Strings.{verify_status, verify_no_match, verify_unknown_error}
use elanprint_rs.Usb.{EndpointIn}
use elanprint_rs.Store.{Prints, Fingers, is_valid_finger}
use elanprint_rs.Daemon.Machine.{
  OpEvent, verify_finger_selected, WorkerError, proto, bad_finger, no_prints, not_enrolled, Frame,
  Env,
}
use elanprint_rs.Daemon.Exec.{Exec, ◌>>=◌, ◌>>◌, pure, fail, wait_more, lift, skip}
use elanprint_rs.Daemon.Worker.Device.{
  claim_user, emit, read_store, send_arm, arm, round, run_op, frame,
}

-- Slot to finger: the slots that may authenticate the claim.
abbrev pub Allowed : Type 0
Allowed = BTreeMap ℕ String

swapped : Fingers → List (ℕ × String)
swapped [] = []
swapped ((name, slot) ∷ rest) = (slot, name) ∷ swapped rest

allowed_one : String → Option ℕ → Result Allowed WorkerError
allowed_one finger (some slot) = ok ((slot, finger) ∷ [])
allowed_one finger none = err (not_enrolled finger)

allowed_among : String → Fingers → Result Allowed WorkerError
unfolding swapped allowed_one
allowed_among finger mine =
    if str_eq finger "any"
    then ok (collect (swapped mine) [])
    else allowed_one finger (get finger mine)

allowed_of : String → String → Option Fingers → Result Allowed WorkerError
unfolding allowed_among
allowed_of user finger none = err (no_prints user)
allowed_of user finger (some []) = err (no_prints user)
allowed_of user finger (some (f ∷ fs)) = allowed_among finger (f ∷ fs)

-- The slots that this claim owns, for the requested finger.
unfoldable pub allowed_slots : String → String → Prints → Result Allowed WorkerError
unfolding allowed_of
allowed_slots user finger p = allowed_of user finger (get user p)

-- `!matches!(.., Ok(VerifyOutcome::Retry(_)))`.
unfoldable pub is_done : Result VerifyOutcome ProtoError → Bool
is_done (ok (VerifyOutcome.retry r)) = false
is_done _ = true

or_unknown : Option String → String
or_unknown none = verify_unknown_error
or_unknown (some s) = s

-- The events of one touch, but for the closing `verify_status`, and the string that it carries.
judged : Allowed → Result VerifyOutcome ProtoError → String → Exec String
judged allowed (ok (match id)) result = elim (get id allowed) [
  | some name ↦ emit (verify_finger_selected name) >> pure result
  | none ↦ pure verify_no_match
]
judged allowed other result = pure result

-- One touch: the answer is whether the verification is over.
pub touched : Allowed → Response → Exec Bool
unfolding judged or_unknown
touched allowed (Response.verify byte0 status) = do
  result ← judged allowed (verify_outcome status) (or_unknown (verify_status status))
  emit (OpEvent.verify_status result (is_done (verify_outcome status)))
  pure (is_done (verify_outcome status))
touched allowed other = do emit (OpEvent.verify_status verify_unknown_error true); pure true

abbrev pub touch_frame : Frame
touch_frame = frame Command.verify EndpointIn.touch_wait

module _ (env : Env) where
  -- One round of the loop.
  one_touch : Allowed → Exec Bool
  unfolding touched
  one_touch allowed = do
    raw ← round env touch_frame
    reply ← lift (map_err proto (parse Command.verify raw))
    touched allowed reply

  unfoldable pub verify_loop : ℕ → Allowed → Exec (Unit {0})
  unfolding one_touch
  verify_loop zero allowed = wait_more
  verify_loop (suc fuel) allowed = do
    over ← one_touch allowed
    let rest = verify_loop fuel allowed
    elim over [ true ↦ skip | false ↦ rest ]

  ensure_armed : Exec (Unit {0})
  ensure_armed m = if m.worker.armed then skip m else (do count ← send_arm env; arm env) m

  -- The refusal of an unknown finger name.
  check_name : String → Exec (Unit {0})
  check_name finger =
      if not (str_eq finger "any") && not (is_valid_finger finger)
      then fail (bad_finger finger)
      else skip

  -- `Worker::verify_inner`.
  unfoldable pub verify_inner : ℕ → String → Exec (Unit {0})
  unfolding ensure_armed check_name
  verify_inner fuel finger = do
    ensure_armed
    user ← claim_user
    check_name finger
    p ← read_store env
    allowed ← lift (allowed_slots user finger p)
    verify_loop fuel allowed

  -- `Worker::verify`.
  unfoldable pub verify : ℕ → String → Exec (Unit {0})
  verify fuel finger = run_op env (verify_inner fuel finger)
