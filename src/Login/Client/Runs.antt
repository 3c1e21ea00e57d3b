-- ===== src/Login/Client/Runs.antt =====
-- `enroll` and `verify` of crates/elanprint-login/src/client.rs.
use Prim.Native.String.{◌++◌ as concat}
use elanprint_rs.Prelude.{
  ℕ, ◌+◌, String, Bool, true, false, not, List, [], ◌∷◌, Option, none, some, Result, ok, err,
  str_eq, ltb, ◌&&◌, ◌||◌, if◌then◌else◌,
}
use elanprint_rs.Algo.Session.{
  VerifySession, Signal, Action, SessionError, unknown_string, no_session, new, begin, step,
}
use elanprint_rs.Login.Copy.{enroll_failure}
use elanprint_rs.Login.Client.{
  EnrollEvent, stage, completed, AuthEvent, finger, other, dbus, proxy, claim, verify_start,
  enroll_start, subscribe, verify_stop, enroll_stop, Bus, Wire, done, failed_with, waiting, Client,
  ◌>>=◌, ◌>>◌, emit, request, total_stages, operate,
}

-- What one `select!` of `drive_enroll` meets: the token, the end of the stream, a signal whose body
-- does not deserialize, or a status with its flag.
pub data EnrollNext : Type 0 where
  cancelled closed malformed : EnrollNext
  status : String → Bool → EnrollNext

is_enroll_failure : String → Bool
is_enroll_failure r =
    str_eq r "enroll-failed"
    || str_eq r "enroll-data-full"
    || str_eq r "enroll-duplicate"
    || str_eq r "enroll-unknown-error"
    || str_eq r "enroll-disconnected"

-- The event of a status, and whether the loop ends there. The count is that after the status.
unfoldable pub enroll_event : ℕ → ℕ → String → Bool → EnrollEvent × Bool
unfolding is_enroll_failure
enroll_event count total result final =
    if str_eq result "enroll-stage-passed" && not final
    then (stage count total, false)
    else if str_eq result "enroll-completed" && final
    then (completed, true)
    else if is_enroll_failure result && final
    then (EnrollEvent.failed (enroll_failure result), true)
    else if str_eq result "enroll-retry-scan" && not final
    then (EnrollEvent.retry "try again", false)
    else if str_eq result "enroll-swipe-too-short" && not final
    then (EnrollEvent.retry "hold your finger still and retry", false)
    else if str_eq result "enroll-finger-not-centered" && not final
    then (EnrollEvent.retry "centre your finger and retry", false)
    else if str_eq result "enroll-remove-and-retry" && not final
    then (EnrollEvent.retry "lift your finger and retry", false)
    else (EnrollEvent.failed (concat "unexpected enroll status " result), true)

-- `done.saturating_add(1)` on a `u8`, where a stage has passed.
unfoldable pub counted : ℕ → String → Bool → ℕ
counted n result final =
    if str_eq result "enroll-stage-passed" && not final
    then (if ltb n 255 then n + 1 else 255)
    else n

unfoldable pub drive_enroll : ℕ → ℕ → List EnrollNext → Client EnrollEvent (Unit {0})
drive_enroll total n [] w = (waiting, w)
drive_enroll total n (cancelled ∷ rest) w = (done tt, w)
drive_enroll total n (EnrollNext.closed ∷ rest) w = (done tt, w)
drive_enroll total n (malformed ∷ rest) w = (failed_with (dbus other), w)
drive_enroll total n (status result final ∷ rest) w =
    let count = counted n result final in
    let (event, over) = enroll_event count total result final in
    let sent = (emit event w).1 in
    let more = drive_enroll total count rest sent in if over then (done tt, sent) else more

-- `enroll`.
unfoldable pub enroll : Bus → String → String → List EnrollNext → Client EnrollEvent (Unit {0})
enroll bus user name nexts = do
  request bus proxy
  request bus (claim user)
  total ← total_stages bus
  request bus (subscribe "EnrollStatus")
  operate bus (enroll_start name) enroll_stop EnrollEvent.finished (drive_enroll total 0 nexts)

-- What one `select!` of `drive` meets; the second stream is that of the fingers selected.
pub data VerifyNext : Type 0 where
  cancelled closed malformed : VerifyNext
  status : String → Bool → VerifyNext
  selected : String → VerifyNext
  selected_closed selected_malformed : VerifyNext

-- `SessionError::to_string`.
error_text : SessionError → String
error_text (unknown_string s) = concat "unknown status string '" (concat s "', failing closed")
error_text no_session = "signal arrived with no session running"

-- What `apply` emits for a step of the session, and whether the run ends with it.
unfoldable pub shown_as : Result Action SessionError → Option AuthEvent × Bool
unfolding error_text
shown_as (ok (Action.prompt text)) = (
  some (if str_eq text "touch the sensor" then AuthEvent.prompt text else AuthEvent.retry text),
  false,
)
shown_as (ok (Action.granted user)) = (some AuthEvent.granted, true)
shown_as (ok (Action.deny text)) = (some (AuthEvent.denied text), true)
shown_as (ok Action.locked) = (some AuthEvent.locked, true)
shown_as (ok (Action.failed text)) = (some (AuthEvent.failed text), true)
shown_as (ok Action.idle) = (none, true)
shown_as (err e) = (some (AuthEvent.failed (error_text e)), true)

unfoldable pub emit_some : Option AuthEvent → Wire AuthEvent → Wire AuthEvent
emit_some none w = w
emit_some (some event) w = (emit event w).1

unfoldable pub drive : List VerifyNext → VerifySession → Client AuthEvent (Unit {0})
unfolding emit_some
drive [] s w = (waiting, w)
drive (cancelled ∷ rest) s w = (done tt, w)
drive (closed ∷ rest) s w = (done tt, w)
drive (malformed ∷ rest) s w = (failed_with (dbus other), w)
drive (status result final ∷ rest) s w =
    let (s', r) = step s (Signal.status result final) in
    let (event, over) = shown_as r in
    let sent = emit_some event w in
    let more = drive rest s' sent in if over then (done tt, sent) else more
drive (selected name ∷ rest) s w =
    drive rest (step s (Signal.finger_selected name)).0 (emit (finger name) w).1
drive (selected_closed ∷ rest) s w = drive rest s w
drive (selected_malformed ∷ rest) s w = (failed_with (dbus other), w)

-- `FingerprintClient::text`.
action_text : Action → String
action_text (Action.prompt text) = text
action_text (Action.deny text) = text
action_text (Action.failed text) = text
action_text (Action.granted user) = concat "granted for " user
action_text Action.locked = "no tries left"
action_text Action.idle = "idle"

-- `verify`.
unfoldable pub verify : Bus → String → String → List VerifyNext → Client AuthEvent (Unit {0})
unfolding action_text
verify bus user name nexts =
    let (session, first) = begin (new user) in
    do
      emit (AuthEvent.prompt (action_text first))
      request bus proxy
      request bus (claim user)
      request bus (subscribe "VerifyStatus")
      request bus (subscribe "VerifyFingerSelected")
      operate bus (verify_start name) verify_stop AuthEvent.finished (drive nexts session)
