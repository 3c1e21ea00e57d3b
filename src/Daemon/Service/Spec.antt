-- ===== src/Daemon/Service/Spec.antt =====
-- crates/elanprintd/src/main.rs: what the service promises, as an abstract machine of two parts, the
-- user who holds the device and the operation under way.
use elanprint_rs.Prelude.{
  String, ◌≡◌, sym, ap, ◌∙◌, ◌⊎◌, Bool, true, false, List, [], ◌∷◌, Option, none, some, Result, ok,
  err,
}
use elanprint_rs.Daemon.Machine.{OpKind}
use elanprint_rs.Daemon.Service.{FprintError, Caller, guard, Task, Device, start, claim_call}
use elanprint_rs.Daemon.Service.Steps.{Step, started, claims, releases, ends}
use elanprint_rs.Daemon.Service.Invariant.{IsConsistent, SameClaim, same-IsConsistent}

pub record Spec : Type 0 where
  pub owner : Option String
  pub op : Option Task

abbrev pub live : List Task → Option Task → Option Task
live queued (some t) = some t
live (t ∷ ts) none = some t
live [] none = none

abbrev pub abstract : Device → Spec
abstract d = record { owner = d.machine.worker.claimed; op = live d.queued d.running }

-- What a client sees of a step: a claim or a start with its caller, its arguments and whether it was
-- answered with success, a release, the end of an operation, or nothing of these.
pub data Event : Type 0 where
  claim_by : Caller → String → Bool → Event
  start_by : Caller → OpKind → String → Bool → Event
  release quiet : Event
  over : Task → Event

abbrev pub Same : Spec → Spec → Type 0
Same a b = (b.owner ≡ a.owner) × (b.op ≡ a.op)

-- The moves of the abstract machine, by their event. A claim that succeeds comes from a caller whom the
-- guard lets through for its user, while no operation is under way and nobody else holds the device, and
-- gives that user the device. A start that succeeds comes from a caller whom the guard lets through for
-- the user who holds the device, while no operation is under way, and puts one of its kind and finger
-- under way. A refusal changes nothing.
abbrev pub Move : Event → Spec → Spec → Type 0
Move (claim_by c user true) a b =
    (guard c user ≡ ok tt)
    × (a.op ≡ none)
    × ((a.owner ≡ none) ⊎ (a.owner ≡ some user))
    × (b.owner ≡ some user)
    × (b.op ≡ none)
Move (start_by c kind finger true) a b =
    (user : String) × (t : Task) × (guard c user ≡ ok tt)
    × (a.owner ≡ some user)
    × (a.op ≡ none)
    × (b.owner ≡ some user)
    × (b.op ≡ some t)
    × (t.kind ≡ kind)
    × (t.finger ≡ finger)
Move release a b = (b.owner ≡ none) × (b.op ≡ a.op)
Move (over t) a b = (a.op ≡ some t) × (b.owner ≡ a.owner) × (b.op ≡ none)
Move _ a b = Same a b

abbrev pub Sound : Event → Device → Device → Type 0
Sound e d d' = IsConsistent d' × Move e (abstract d) (abstract d')

pub same-Sound :
    (d e : Device)
    → SameClaim d.machine e.machine
    → d.queued ≡ e.queued
    → d.running ≡ e.running
    → IsConsistent d
    → Sound quiet d e
same-Sound d e s q r h = (
  same-IsConsistent d e s q r h,
  (s.0, ap (live e.queued) (sym r) ∙ ap (λ x. live x d.running) (sym q)),
)

-- Whether an answer is a success; a call that still waits has none.
abbrev pub succeeds : Result (Unit {0}) FprintError → Bool
succeeds (ok u) = true
succeeds (err e) = false

abbrev pub granted : Option (Result (Unit {0}) FprintError) → Bool
granted (some r) = succeeds r
granted none = false

-- The event of a step.
unfoldable pub event_of : {d e : Device} → Step d e → Event
event_of {d} (started kind c finger) = start_by c kind finger (succeeds (start kind c finger d).0)
event_of {d} (claims env c user r) = claim_by c user (granted (claim_call env c user d).0)
event_of (releases env r) = release
event_of (ends env fuel t r o) = over t
event_of _ = quiet
