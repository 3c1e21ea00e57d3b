-- ===== src/Login/Client.antt =====
-- crates/elanprint-login/src/client.rs: the window's client of the daemon. What the bus answers to
-- the n-th call, and what each `select!` of a run meets, are parameters.
pub mod Runs
pub mod Verdict
pub mod Release
use Prim.Native.String.{◌++◌ as concat}
use elanprint_rs.Prelude.{
  ℕ, ◌+◌, ◌%◌, String, Bool, true, false, not, List, [], ◌∷◌, Option, none, some, Result, ok, err,
  str_eq, ltb, ◌&&◌, ◌||◌, if◌then◌else◌,
}
use elanprint_rs.Prelude.Text.{codes}
use elanprint_rs.Prelude.Lines.{starts_with}
use elanprint_rs.Algo.Session.{
  VerifySession, Signal, Action, SessionError, unknown_string, no_session, new, begin, step,
}
use elanprint_rs.Login.Copy.{enroll_failure}
use mathlib.Core.List.{reverse}

pub data EnrollEvent : Type 0 where
  -- done, total
  stage : ℕ → ℕ → EnrollEvent
  retry : String → EnrollEvent
  completed : EnrollEvent
  failed : String → EnrollEvent
  finished : EnrollEvent

pub data AuthEvent : Type 0 where
  prompt retry : String → AuthEvent
  granted : AuthEvent
  denied : String → AuthEvent
  locked : AuthEvent
  failed finger : String → AuthEvent
  finished : AuthEvent

-- `zbus::Error`: the error that a method answers, by its name, or any other.
pub data BusError : Type 0 where
  method_error : String → BusError
  other : BusError

pub data ClientError : Type 0 where
  dbus : BusError → ClientError
  variant no_reader : ClientError

-- `name.ends_with(..)`.
unfoldable pub is_named : BusError → String → Bool
is_named (method_error e) name = starts_with (reverse (codes name)) (reverse (codes e))
is_named other name = false

unfoldable pub friendly : ClientError → String
friendly no_reader = "no fingerprint reader on the bus"
friendly (dbus e) =
    if is_named e "NoEnrolledPrints"
    then "no fingerprints enrolled yet"
    else if is_named e "PermissionDenied"
    then "not allowed, check permissions"
    else "reader error, see log"
friendly variant = "reader error, see log"

unfoldable pub empty_when_no_prints : ClientError → Result (List String) ClientError
empty_when_no_prints (dbus e) = if is_named e "NoEnrolledPrints" then ok [] else err (dbus e)
empty_when_no_prints e = err e

-- The calls of the bus that the client makes; `proxy` and `subscribe` go to the bus itself.
pub data Call : Type 0 where
  proxy get_devices : Call
  list_enrolled_fingers claim delete_enrolled_finger verify_start enroll_start : String → Call
  get_stages : Call
  subscribe : String → Call
  verify_stop enroll_stop release : Call

-- What the bus answers to the n-th call: an error, and what a reply holds. Of the number of stages,
-- none stands for a value that is not above 0, and an error for one of another type.
pub record Bus : Type 0 where
  pub fails : ℕ → Option BusError
  pub devices : ℕ → List String
  pub fingers : ℕ → List String
  pub stages : ℕ → Result (Option ℕ) ClientError

-- The calls made, each with its success, and the events sent, both newest in front.
pub record Wire (E : Type 0) : Type 0 where
  pub calls : List (Call × Bool)
  pub events : List E
  pub clock : ℕ

pub data Outcome (A : Type 0) : Type 0 where
  done : A → Outcome A
  failed_with : ClientError → Outcome A
  waiting : Outcome A

abbrev pub Client : Type 0 → Type 0 → Type 0
Client E A = Wire E → Outcome A × Wire E

module _ {E A B : Type 0} where
  abbrev pub proceed : Outcome A → (A → Client E B) → Client E B
  proceed (done a) f w = f a w
  proceed (failed_with e) f w = (failed_with e, w)
  proceed waiting f w = (waiting, w)

  infixl 10 ◌>>=◌ ◌>>◌
  unfoldable pub ◌>>=◌ : Client E A → (A → Client E B) → Client E B
  ◌>>=◌ x f w = proceed (x w).0 f (x w).1

  abbrev pub ◌>>◌ : Client E A → Client E B → Client E B
  x >> y = x >>= λ _. y

module _ {E : Type 0} where
  -- `tx.send(event).await`, whose failure the code ignores.
  unfoldable pub emit : E → Client E (Unit {0})
  emit event w = (done tt, record w { events = event ∷ w.events })

  answer : Call → Option BusError → Client E (Unit {0})
  answer c none w = (done tt, record w { calls = (c, true) ∷ w.calls; clock = w.clock + 1 })
  answer c (some e) w =
      (failed_with (dbus e), record w { calls = (c, false) ∷ w.calls; clock = w.clock + 1 })

  module _ (bus : Bus) where
    -- A call and its `?`.
    unfoldable pub request : Call → Client E (Unit {0})
    unfolding answer
    request c w = answer c (bus.fails w.clock) w

    -- `let _ = ..` of a call.
    unfoldable pub attempt : Call → Client E (Unit {0})
    attempt c w = (done tt, (request c w).1)

    first_device : List String → Client E String
    first_device [] w = (failed_with no_reader, w)
    first_device (d ∷ ds) w = (done d, w)

    replied : (ℕ → List String) → Client E (List String)
    replied reply w = (done (reply w.clock), w)

    -- `connect`, from the manager's proxy on.
    unfoldable pub connect : Client E String
    unfolding first_device replied
    connect = do
      request proxy
      request get_devices
      devices ← replied bus.devices
      first_device devices

    or_empty : Outcome (List String) × Wire E → Outcome (List String) × Wire E
    or_empty (failed_with e, w) = elim (empty_when_no_prints e) [
      | ok fingers ↦ (done fingers, w)
      | err e ↦ (failed_with e, w)
    ]
    or_empty (r, w) = (r, w)

    named_fingers : String → Client E (List String)
    unfolding replied
    named_fingers user = do request (list_enrolled_fingers user); replied bus.fingers

    unfoldable pub list : String → Client E (List String)
    unfolding or_empty named_fingers
    list user = do request proxy; λ w. or_empty (named_fingers user w)

    stages_reply : Result (Option ℕ) ClientError → Client E (Option ℕ)
    stages_reply (ok n) w = (done n, w)
    stages_reply (err e) w = (failed_with e, w)

    -- `stages`.
    unfoldable pub stages : Client E (Option ℕ)
    unfolding stages_reply
    stages = do request proxy; request get_stages; λ w. stages_reply (bus.stages w.clock) w

    -- The `match self.stages().await` of `enroll`, with `n as u8`.
    total_of : Outcome (Option ℕ) × Wire E → Outcome ℕ × Wire E
    total_of (done (some n), w) = (done (n % 256), w)
    total_of (r, w) = (done 0, w)

    unfoldable pub total_stages : Client E ℕ
    unfolding total_of
    total_stages w = total_of (stages w)

    unfoldable pub delete_finger : String → String → Client E (Unit {0})
    delete_finger user name = do
      request proxy
      request (claim user)
      λ w. let r = request (delete_enrolled_finger name) w in (r.0, (attempt release r.1).1)

    -- What ends a run that was started: the stop, the release and the last event.
    close_run : Call → E → Outcome (Unit {0}) × Wire E → Outcome (Unit {0}) × Wire E
    close_run stop last (waiting, w) = (waiting, w)
    close_run stop last (r, w) = (r, (emit last (attempt release (attempt stop w).1).1).1)

    driven :
        Call → E → Client E (Unit {0}) → Outcome (Unit {0}) × Wire E → Outcome (Unit {0}) × Wire E
    driven stop last drive (done u, w) = close_run stop last (drive w)
    driven stop last drive (failed_with e, w) = (failed_with e, (attempt release w).1)
    driven stop last drive (waiting, w) = (waiting, w)

    -- `enroll` and `verify` from the start call on.
    unfoldable pub operate : Call → Call → E → Client E (Unit {0}) → Client E (Unit {0})
    unfolding close_run driven
    operate start stop last drive w = driven stop last drive (request start w)
