-- ===== src/Login/Client/Verdict.antt =====
-- crates/elanprint-login/src/client.rs: what a run of `verify` tells the window in the end, against a
-- description that knows no session.
use elanprint_rs.Prelude.{
  ℕ, zero, suc, ◌+◌, ◌≡◌, refl, String, Bool, true, false, List, [], ◌∷◌, ◌++◌, Option, none, some,
  str_eq, ◌||◌, if◌then◌else◌, arith,
}
use elanprint_rs.Algo.Policy.{allows, pam_default}
use elanprint_rs.Algo.Strings.{
  verify_match, verify_no_match, verify_swipe_too_short, verify_not_centered,
  verify_remove_and_retry,
}
use elanprint_rs.Algo.Session.{VerifySession, waiting, Signal, new, begin, step}
use elanprint_rs.Login.Client.{
  AuthEvent, BusError, other, dbus, Bus, Wire, Outcome, done, failed_with, operate, request,
  attempt, ◌>>=◌, verify_start, subscribe, claim, proxy, emit,
}
use elanprint_rs.Login.Client.Runs.{
  VerifyNext, cancelled, closed, malformed, status, selected, selected_closed, selected_malformed,
  emit_some, shown_as, drive, verify,
}

pub data Verdict : Type 0 where
  granted denied locked failed : Verdict

-- What an event says of the finger, if anything.
abbrev pub verdict_of : AuthEvent → Option Verdict
verdict_of AuthEvent.granted = some Verdict.granted
verdict_of (AuthEvent.denied text) = some Verdict.denied
verdict_of AuthEvent.locked = some Verdict.locked
verdict_of (AuthEvent.failed text) = some Verdict.failed
verdict_of _ = none

abbrev pub put : Option Verdict → List Verdict → List Verdict
put none vs = vs
put (some v) vs = v ∷ vs

abbrev pub verdicts : List AuthEvent → List Verdict
verdicts [] = []
verdicts (e ∷ es) = put (verdict_of e) (verdicts es)

-- How a run ends: with a verdict, with none, or by an error of the bus.
pub data Ending : Type 0 where
  judged : Verdict → Ending
  silent broken : Ending

-- The statuses that ask for another touch.
abbrev asks_again : String → Bool
asks_again result =
    str_eq result verify_swipe_too_short
    || str_eq result verify_not_centered
    || str_eq result verify_remove_and_retry

-- The first status that asks for no further touch decides; none: the run still waits.
unfoldable pub ending : List VerifyNext → Option Ending
ending [] = none
ending (cancelled ∷ rest) = some silent
ending (closed ∷ rest) = some silent
ending (malformed ∷ rest) = some broken
ending (selected_malformed ∷ rest) = some broken
ending (selected_closed ∷ rest) = ending rest
ending (selected name ∷ rest) = ending rest
ending (status result final ∷ rest) =
    if str_eq result verify_match
    then some (judged (if final then Verdict.granted else Verdict.failed))
    else if str_eq result verify_no_match
    then some (judged Verdict.denied)
    else if asks_again result
    then ending rest
    else some (judged Verdict.failed)

abbrev pub result_of : Option Ending → Outcome (Unit {0})
result_of none = Outcome.waiting
result_of (some broken) = failed_with (dbus other)
result_of (some _) = done tt

abbrev pub told : Option Ending → List Verdict
told (some (judged v)) = v ∷ []
told _ = []

abbrev IsFresh : VerifySession → Type 0
IsFresh s = (s.state ≡ waiting 0) × (s.policy.max_tries ≡ 3)

-- What the run does with one status, by the tests of `ending`.
abbrev Shown : VerifySession → String → Bool → Type 0
Shown s result final =
    let (s', r) = step s (Signal.status result final) in
    let (event, over) = shown_as r in
    (put (elim event [ none ↦ none | some e ↦ verdict_of e ]) [] ≡ (
      if str_eq result verify_match
      then (if final then Verdict.granted else Verdict.failed) ∷ []
      else if str_eq result verify_no_match
      then Verdict.denied ∷ []
      else if asks_again result
      then []
      else Verdict.failed ∷ []))
    × (over ≡ (
        if str_eq result verify_match
        then true
        else if str_eq result verify_no_match
        then true
        else if asks_again result
        then false
        else true))
    × (over ≡ false → IsFresh s')

status-Shown :
    (s : VerifySession) (result : String) (final : Bool) → IsFresh s → Shown s result final
unfolding step shown_as allows
status-Shown s result final h = (ground arith, ground arith, λ o. ground arith)

abbrev Told : Outcome (Unit {0}) × Wire AuthEvent → Option Ending → List AuthEvent → Type 0
Told r e before = (r.0 ≡ result_of e) × (verdicts r.1.events ≡ told e ++ verdicts before)

drive-Told :
    (nexts : List VerifyNext) (s : VerifySession) (w : Wire AuthEvent)
    → IsFresh s
    → Told (drive nexts s w) (ending nexts) w.events
unfolding drive ending emit
drive-Told [] s w h = (refl, refl)
drive-Told (cancelled ∷ rest) s w h = (refl, refl)
drive-Told (closed ∷ rest) s w h = (refl, refl)
drive-Told (malformed ∷ rest) s w h = (refl, refl)
drive-Told (selected_malformed ∷ rest) s w h = (refl, refl)
drive-Told (selected_closed ∷ rest) s w h = drive-Told rest s w h
drive-Told (selected name ∷ rest) s w h = drive-Told rest _ _ (unfold step in h)
drive-Told (status result final ∷ rest) s w h =
    let sig : Signal = Signal.status result final in
    let shown = status-Shown s result final h in
    let more = drive-Told rest (step s sig).0 (emit_some (shown_as (step s sig).1).0 w) in
    (ground (arith, shown, more), ground (arith, shown, more))

-- The first error among the next calls.
unfoldable pub first_error : Bus → ℕ → ℕ → Option BusError
first_error bus zero k = none
first_error bus (suc n) k = elim (bus.fails k) [
  | none ↦ first_error bus n (k + 1)
  | some e ↦ some e
]

abbrev pub unused : {E : Type 0} → Wire E
unused = record { calls = []; events = []; clock = 0 }

-- The wire once every call before `drive` has succeeded.
abbrev armed : String → String → Wire AuthEvent
armed user name = record {
  calls =
      (verify_start name, true)
      ∷ (subscribe "VerifyFingerSelected", true)
      ∷ (subscribe "VerifyStatus", true)
      ∷ (claim user, true)
      ∷ (proxy, true)
      ∷ [];
  events = AuthEvent.prompt "touch the sensor" ∷ [];
  clock = 5;
}

-- What a run tells, by the first error of its first calls and by how its signals end.
abbrev pub Tells : Option BusError → Option Ending → Outcome (Unit {0}) × Wire AuthEvent → Type 0
Tells none e r = (r.0 ≡ result_of e) × (verdicts r.1.events ≡ told e)
Tells (some x) e r = (r.0 ≡ failed_with (dbus x)) × (verdicts r.1.events ≡ [])

-- A run of `verify` in which one of the five calls before the wait for signals fails ends with the
-- first such error and says nothing of the finger. In any other run the first status that asks for no
-- further touch decides: a final "verify-match" grants, "verify-no-match" denies at once, whatever
-- else fails; a stop, the end of the stream or a body that does not deserialize ends the run with no
-- word of the finger. Nothing else is ever said, so no run locks.
pub verify-ending :
    (bus : Bus) (user name : String) (nexts : List VerifyNext)
    → Tells (first_error bus 5 0) (ending nexts) (verify bus user name nexts unused)
unfolding verify first_error operate request attempt emit ◌>>=◌ begin new pam_default
verify-ending bus user name nexts =
    ground (arith, drive-Told nexts (begin (new user)).0 (armed user name) (refl, refl))
