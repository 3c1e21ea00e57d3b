-- ===== src/Login/Client/Release.antt =====
-- crates/elanprint-login/src/client.rs: which runs give the device back.
use elanprint_rs.Prelude.{
  ℕ, ◌+◌, ◌%◌, Result, ok, err, ◌≡◌, ◌≢◌, refl, String, Bool, true, false, List, [], ◌∷◌, Option,
  none, some, arith, ◌||◌,
}
use elanprint_rs.Algo.Session.{VerifySession, Signal, new, begin, step}
use elanprint_rs.Login.Client.{
  AuthEvent, finger, EnrollEvent, Bus, Wire, Call, proxy, claim, subscribe, release, verify_start,
  verify_stop, enroll_stop, enroll_start, Outcome, done, waiting, BusError, ClientError, ◌>>◌, emit,
  total_stages, stages, operate, request, attempt, ◌>>=◌, delete_finger,
}
use elanprint_rs.Login.Client.Runs.{
  VerifyNext, selected, selected_closed, selected_malformed, EnrollNext, enroll_event, counted,
  shown_as, emit_some, drive, drive_enroll, verify, enroll,
}
use elanprint_rs.Login.Client.Verdict.{unused}

-- Whether the device is still claimed after these calls, the newest in front. A release that the bus
-- refuses gives nothing back.
abbrev pub holding : List (Call × Bool) → Bool
holding [] = false
holding ((claim user, true) ∷ calls) = true
holding ((release, true) ∷ calls) = false
holding (_ ∷ calls) = holding calls

-- The last call is a subscription that failed.
abbrev pub is_deaf : List (Call × Bool) → Bool
is_deaf ((subscribe signal, false) ∷ calls) = true
is_deaf _ = false

-- The last call is a release that the bus refused.
abbrev pub is_refused : List (Call × Bool) → Bool
is_refused ((release, false) ∷ calls) = true
is_refused _ = false

-- The last call left the device claimed.
abbrev pub is_stuck : List (Call × Bool) → Bool
is_stuck calls = is_deaf calls || is_refused calls

-- The call that begins a run and the one that stops it, of a verification or of an enrollment.
abbrev start_of : Bool → String → Call
start_of true name = verify_start name
start_of false name = enroll_start name

abbrev stop_of : Bool → Call
stop_of true = verify_stop
stop_of false = enroll_stop

module _ {E : Type 0} (bus : Bus) where
  -- From the start call on, a run that is over has given the device back, or was refused that.
  operate-holding :
      (verifies : Bool) (name : String) (last : E) (drive_it : Wire E → Outcome (Unit {0}) × Wire E)
      (w : Wire E)
      → ((v : Wire E) → (drive_it v).1.calls ≡ v.calls)
      → holding w.calls ≡ true
      → (operate bus (start_of verifies name) (stop_of verifies) last drive_it w).0 ≢ waiting
      → holding (operate bus (start_of verifies name) (stop_of verifies) last drive_it w).1.calls
        ≡ is_stuck (operate bus (start_of verifies name) (stop_of verifies) last drive_it w).1.calls
  unfolding operate request attempt emit
  operate-holding true name last drive_it w quiet held over =
      let sent = (request bus (verify_start name) w).1 in ground (arith, quiet sent)
  operate-holding false name last drive_it w quiet held over =
      let sent = (request bus (enroll_start name) w).1 in ground (arith, quiet sent)

-- The waits for signals make no call.
emit_some-calls :
    (event : Option AuthEvent) (w : Wire AuthEvent) → (emit_some event w).calls ≡ w.calls
unfolding emit_some emit
emit_some-calls none w = refl
emit_some-calls (some event) w = refl

drive-calls :
    (nexts : List VerifyNext) (s : VerifySession) (w : Wire AuthEvent)
    → (drive nexts s w).1.calls ≡ w.calls
unfolding drive emit
drive-calls [] s w = refl
drive-calls (VerifyNext.cancelled ∷ rest) s w = refl
drive-calls (VerifyNext.closed ∷ rest) s w = refl
drive-calls (VerifyNext.malformed ∷ rest) s w = refl
drive-calls (VerifyNext.status result final ∷ rest) s w =
    let r = step s (Signal.status result final) in
    let sent = emit_some (shown_as r.1).0 w in
    ground (arith, drive-calls rest r.0 sent, emit_some-calls (shown_as r.1).0 w)
drive-calls (selected name ∷ rest) s w =
    drive-calls rest (step s (Signal.finger_selected name)).0 (emit (finger name) w).1
drive-calls (selected_closed ∷ rest) s w = drive-calls rest s w
drive-calls (selected_malformed ∷ rest) s w = refl

drive_enroll-calls :
    (total n : ℕ) (nexts : List EnrollNext) (w : Wire EnrollEvent)
    → (drive_enroll total n nexts w).1.calls ≡ w.calls
unfolding drive_enroll emit
drive_enroll-calls total n [] w = refl
drive_enroll-calls total n (EnrollNext.cancelled ∷ rest) w = refl
drive_enroll-calls total n (EnrollNext.closed ∷ rest) w = refl
drive_enroll-calls total n (EnrollNext.malformed ∷ rest) w = refl
drive_enroll-calls total n (EnrollNext.status result final ∷ rest) w =
    let count = counted n result final in
    let sent = (emit (enroll_event count total result final).0 w).1 in
    ground (arith, drive_enroll-calls total count rest sent)

-- The wire of a verification in front of its start call.
abbrev subscribed : String → Wire AuthEvent
subscribed user = record {
  calls =
      (subscribe "VerifyFingerSelected", true)
      ∷ (subscribe "VerifyStatus", true)
      ∷ (claim user, true)
      ∷ (proxy, true)
      ∷ [];
  events = AuthEvent.prompt "touch the sensor" ∷ [];
  clock = 4;
}

verify-holding :
    (bus : Bus) (user name : String) (nexts : List VerifyNext)
    → (verify bus user name nexts unused).0 ≢ waiting
    → holding (verify bus user name nexts unused).1.calls
      ≡ is_stuck (verify bus user name nexts unused).1.calls
unfolding verify request emit ◌>>=◌ begin new
verify-holding bus user name nexts over =
    let s = (begin (new user)).0 in
    ground (
      arith,
      operate-holding bus true name AuthEvent.finished (drive nexts s) (subscribed user)
          (drive-calls nexts s) refl,
    )

total-done :
    (bus : Bus) (w : Wire EnrollEvent)
    → (n : ℕ) × ((total_stages bus w).0 ≡ done n)
      × (holding (total_stages bus w).1.calls ≡ holding w.calls)
unfolding total_stages stages request ◌>>=◌
total-done bus w =
    by_call (bus.fails w.clock) (bus.fails (w.clock + 1)) (bus.stages (w.clock + 2)) refl refl refl
  where
    by_call :
        (p q : Option BusError) (r : Result (Option ℕ) ClientError)
        → bus.fails w.clock ≡ p
        → bus.fails (w.clock + 1) ≡ q
        → bus.stages (w.clock + 2) ≡ r
        → (n : ℕ) × ((total_stages bus w).0 ≡ done n)
          × (holding (total_stages bus w).1.calls ≡ holding w.calls)
    by_call (some e) q r a b c = (0, ground arith, ground arith)
    by_call none (some e) r a b c = (0, ground arith, ground arith)
    by_call none none (err e) a b c = (0, ground arith, ground arith)
    by_call none none (ok none) a b c = (0, ground arith, ground arith)
    by_call none none (ok (some n)) a b c = (n % 256, ground arith, ground arith)

-- The end of an enrollment, from its subscription on.
abbrev watched :
    Bus → String → List EnrollNext → ℕ → Wire EnrollEvent → Outcome (Unit {0}) × Wire EnrollEvent
watched bus name nexts total =
    request bus (subscribe "EnrollStatus")
    >> operate bus (enroll_start name) enroll_stop EnrollEvent.finished (drive_enroll total 0 nexts)

watched-holding :
    (bus : Bus) (name : String) (nexts : List EnrollNext) (total : ℕ) (w : Wire EnrollEvent)
    → holding w.calls ≡ true
    → (watched bus name nexts total w).0 ≢ waiting
    → holding (watched bus name nexts total w).1.calls
      ≡ is_stuck (watched bus name nexts total w).1.calls
unfolding request ◌>>=◌
watched-holding bus name nexts total w held over =
    let run = drive_enroll total 0 nexts in
    ground (
      arith,
      operate-holding bus false name EnrollEvent.finished run
          (request bus (subscribe "EnrollStatus") w).1 (drive_enroll-calls total 0 nexts),
    )

claimed_wire : String → Wire EnrollEvent
claimed_wire user = record {
  calls = (claim user, true) ∷ (proxy, true) ∷ [];
  events = [];
  clock = 2;
}

enroll-holding :
    (bus : Bus) (user name : String) (nexts : List EnrollNext)
    → (enroll bus user name nexts unused).0 ≢ waiting
    → holding (enroll bus user name nexts unused).1.calls
      ≡ is_stuck (enroll bus user name nexts unused).1.calls
unfolding enroll request ◌>>=◌ claimed_wire
enroll-holding bus user name nexts over =
    let (n, total, held) = total-done bus (claimed_wire user) in
    ground (
      arith,
      total,
      held,
      watched-holding bus name nexts n (total_stages bus (claimed_wire user)).1,
    )

-- A verification or an enrollment that is over leaves the device claimed in just two cases: its last
-- call is a subscription that failed, after the claim, or a release that the bus refused, whose error is
-- ignored. A deletion, which never waits for a signal, leaves it claimed just in the latter.
pub run-holding :
    (bus : Bus) (user name : String) (touches : List VerifyNext) (samples : List EnrollNext)
    → (verify bus user name touches unused).0 ≢ waiting
    → (enroll bus user name samples unused).0 ≢ waiting
    → (holding (verify bus user name touches unused).1.calls
        ≡ is_stuck (verify bus user name touches unused).1.calls)
      × (holding (enroll bus user name samples unused).1.calls
          ≡ is_stuck (enroll bus user name samples unused).1.calls)
      × (holding (delete_finger bus user name (unused {E = AuthEvent})).1.calls
          ≡ is_refused (delete_finger bus user name (unused {E = AuthEvent})).1.calls)
unfolding delete_finger request attempt ◌>>=◌
run-holding bus user name touches samples v e =
    (verify-holding bus user name touches v, enroll-holding bus user name samples e, ground arith)
