-- ===== src/Daemon/Service.antt =====
-- crates/elanprintd/src/main.rs: the D-Bus service, its errors, its handlers and the tasks that they
-- spawn. A cancellation token is the number of its making; `cancelled` holds those that were
-- cancelled. What the bus and `getent` answer to one call is a parameter of it.
pub mod Steps
pub mod Invariant
pub mod Spec
pub mod Starting
pub mod Refusal
pub mod Refinement
pub mod LostCancel
use elanprint_rs.Prelude.{
  ℕ, ◌+◌, ◌-◌, String, Bool, true, false, List, [], ◌∷◌, ◌++◌, Option, none, some, Result, ok, err,
  if◌then◌else◌, map_err,
}
use elanprint_rs.Prelude.Text.{codes}
use elanprint_rs.Proto.Command.{enroll_stages}
use elanprint_rs.Store.{StoreError}
use elanprint_rs.Daemon.Machine.{
  OpEvent, OpKind, WorkerError, usb, proto, store, busy, unclaimed, bad_finger, no_prints,
  not_enrolled, already_enrolled, enroll, cancelled, try_begin, end_op, new_sink, from_user_request,
  OpState, Env, Machine,
}
use elanprint_rs.Daemon.Exec.{Outcome, done, failed, waiting, Exec, ◌>>=◌, ◌>>◌, skip}
use elanprint_rs.Daemon.Access.{may_act, lookup_uid}
use elanprint_rs.Daemon.Worker.Device.{claim, release, suspend, resume, list}
use elanprint_rs.Daemon.Worker.Verify.{verify}
use elanprint_rs.Daemon.Worker.EnrollOp.{enroll_op}
use elanprint_rs.Daemon.Worker.Erase.{delete_finger}

-- The texts of the refusals.
pub data Denied : Type 0 where
  no_sender no_bus no_uid no_username : Denied
  not_allowed : ℕ → String → Denied

-- `internal` carries the error whose text the code puts there.
pub data FprintError : Type 0 where
  claim_device already_in_use no_enrolled_prints no_action_in_progress : FprintError
  invalid_fingername : FprintError
  internal : WorkerError → FprintError
  permission_denied : Denied → FprintError
  prints_not_deleted : StoreError → FprintError

-- `From<WorkerError> for FprintError`.
unfoldable pub from_worker : WorkerError → FprintError
from_worker busy = already_in_use
from_worker unclaimed = claim_device
from_worker (bad_finger f) = invalid_fingername
from_worker (no_prints u) = no_enrolled_prints
from_worker (not_enrolled f) = no_enrolled_prints
from_worker (already_enrolled f) = internal (already_enrolled f)
from_worker cancelled = no_action_in_progress
from_worker (usb e) = internal (usb e)
from_worker (proto e) = internal (proto e)
from_worker (store e) = prints_not_deleted e
from_worker (enroll e) = internal (enroll e)

abbrev device_path : String
device_path = "/net/reactivated/Fprint/Device/0"

-- `Manager::get_devices`.
get_devices : List String
get_devices = device_path ∷ []

-- `Manager::get_default_device`.
get_default_device : String
get_default_device = device_path

-- One method call: the sender in its header, whether the bus can be reached, whose connection the
-- bus says that is, and what `getent` says of an account.
pub record Caller : Type 0 where
  pub sender : Option String
  pub reachable : Bool
  pub unix_user : String → Option ℕ
  pub getent : List ℕ → Option (List ℕ)

-- `Device::caller_uid`.
unfoldable pub caller_uid : Caller → Result ℕ FprintError
caller_uid c = elim c.sender [
  | none ↦ err (permission_denied no_sender)
  | some name ↦
      if c.reachable
      then elim (c.unix_user name) [ none ↦ err (permission_denied no_uid) | some uid ↦ ok uid ]
      else err (permission_denied no_bus)
]

-- `Device::guard`.
unfoldable pub guard : Caller → String → Result (Unit {0}) FprintError
guard c target = elim (caller_uid c) [
  | err e ↦ err e
  | ok uid ↦
      if may_act uid (lookup_uid c.getent (codes target))
      then ok tt
      else err (permission_denied (not_allowed uid target))
]

-- A spawned operation and its token.
pub record Task : Type 0 where
  pub kind : OpKind
  pub finger : String
  pub token : ℕ

-- `tokens` counts those made; `queued` are the tasks that wait for the worker's lock, `running` is
-- the one that holds it, and `ending` counts those that gave it back and have yet to clear
-- `op_cancel`. The flags of `OpState` stand in the worker, where the code shares them.
pub record Device : Type 0 where
  pub machine : Machine
  pub op_cancel : Option ℕ
  pub cancelled : List ℕ
  pub tokens : ℕ
  pub queued : List Task
  pub running : Option Task
  pub ending : ℕ

abbrev pub flags : Device → OpState
flags d = d.machine.worker.state

abbrev pub with_flags : OpState → Machine → Machine
with_flags s m = record m { worker = record m.worker { state = s } }

-- `Device::claimed_target`.
unfoldable pub claimed_target : Device → Result String FprintError
claimed_target d = elim (flags d).user [ none ↦ err claim_device | some user ↦ ok user ]

-- `Device::start_op`.
unfoldable pub start_op : Device → Result ℕ FprintError × Device
start_op d = elim (try_begin (flags d)) [
  | err e ↦ (err (from_worker e), d)
  | ok s ↦ (
    ok d.tokens,
    record d { machine = with_flags s d.machine; op_cancel = some d.tokens; tokens = d.tokens + 1 },
  )
]

-- `Device::stop_running`.
unfoldable pub stop_running : Device → Device
stop_running d = elim d.op_cancel [
  | none ↦ d
  | some token ↦ record d { op_cancel = none; cancelled = token ∷ d.cancelled }
]

-- `Device::verify_stop`.
verify_stop : Device → Device
verify_stop = stop_running

-- `Device::enroll_stop`.
enroll_stop : Device → Device
enroll_stop = stop_running

spawned : OpKind → String → Result ℕ FprintError × Device → Result (Unit {0}) FprintError × Device
spawned kind finger (err e, d) = (err e, d)
spawned kind finger (ok token, d) = (
  ok tt,
  record d { queued = d.queued ++ (record { kind = kind; finger = finger; token = token } ∷ []) },
)

guarded : Caller → Device → Result String FprintError
guarded c d = elim (claimed_target d) [
  | err e ↦ err e
  | ok user ↦ elim (guard c user) [ err e ↦ err e | ok u ↦ ok user ]
]

-- `verify_start` and `enroll_start`, by the kind.
unfoldable pub start : OpKind → Caller → String → Device → Result (Unit {0}) FprintError × Device
unfolding spawned guarded
start kind c finger d = elim (guarded c d) [
  | err e ↦ (err e, d)
  | ok user ↦ spawned kind finger (start_op d)
]

-- `Device::verify_start`.
abbrev pub verify_start : Caller → String → Device → Result (Unit {0}) FprintError × Device
verify_start = start OpKind.verify

-- `Device::enroll_start`.
abbrev pub enroll_start : Caller → String → Device → Result (Unit {0}) FprintError × Device
enroll_start = start OpKind.enroll

-- What a handler answers; none while the worker still waits.
abbrev pub answer : {A : Type 0} → Outcome A → Option (Result A FprintError)
answer (done a) = some (ok a)
answer (failed e) = some (err (from_worker e))
answer waiting = none

-- `self.worker.lock().await...`: the worker's operation while the lock is held.
abbrev pub locked : {A : Type 0} → Exec A → Device → Option (Result A FprintError) × Device
locked x d = (answer (x d.machine).0, record d { machine = (x d.machine).1 })

-- The spawned task from its lock to the end of its token.
unfoldable pub op_of : Env → ℕ → String → OpKind → Exec (Unit {0})
op_of env fuel finger OpKind.verify m =
    verify env fuel finger (record m { sink = new_sink OpKind.verify })
op_of env fuel finger OpKind.enroll m =
    enroll_op env fuel finger (record m { sink = new_sink OpKind.enroll })

abbrev pub task_op : Env → ℕ → Task → Exec (Unit {0})
task_op env fuel t = op_of env fuel t.finger t.kind

-- `drop(op)` and the end of the lock.
unfoldable pub end_task : Env → ℕ → Task → Device → Device
end_task env fuel t d =
    let m = (task_op env fuel t d.machine).1 in
    record d {
      machine = with_flags (end_op m.worker.state) m;
      running = none;
      ending = d.ending + 1;
    }

-- `*ender.lock().await = None`.
unfoldable pub clear_cancel : Device → Device
clear_cancel d = record d { op_cancel = none; ending = d.ending - 1 }

module _ (env : Env) where
  -- `Device::claim`.
  unfoldable pub claim_call :
      Caller → String → Device → Option (Result (Unit {0}) FprintError) × Device
  claim_call c user d = elim (guard c user) [
    | err e ↦ (some (err e), d)
    | ok u ↦ locked (claim env user) d
  ]

  -- `Device::release` once the running operation is stopped.
  unfoldable pub release_locked : Device → Device
  release_locked d = (locked (release env) d).1

  unfoldable pub release_call : Device → Device
  release_call d = release_locked (stop_running d)

  -- The end of `main`.
  shutdown : Device → Device
  shutdown d = release_locked (stop_running d)

  -- `Device::list_enrolled_fingers`.
  unfoldable pub list_call : String → Device → Option (Result (List String) FprintError) × Device
  list_call user d = locked (list env user) d

  -- The loop of `Device::delete_enrolled_fingers`. The code takes the lock anew for each finger; this
  -- is the run in which nobody else takes it in between.
  delete_each : String → List String → Exec (Unit {0})
  delete_each user [] = skip
  delete_each user (finger ∷ rest) =
      delete_finger env (from_user_request user finger) >> delete_each user rest

  delete_all : String → Exec (Unit {0})
  unfolding delete_each
  delete_all user = do fingers ← list env user; delete_each user fingers

  -- `Device::delete_enrolled_fingers`.
  unfoldable pub delete_all_call :
      Caller → String → Device → Option (Result (Unit {0}) FprintError) × Device
  unfolding delete_all
  delete_all_call c user d = elim (guard c user) [
    | err e ↦ (some (err e), d)
    | ok u ↦ locked (delete_all user) d
  ]

  -- `Device::delete_enrolled_finger`.
  unfoldable pub delete_call :
      Caller → String → Device → Option (Result (Unit {0}) FprintError) × Device
  unfolding guarded
  delete_call c finger d = elim (guarded c d) [
    | err e ↦ (some (err e), d)
    | ok user ↦ locked (delete_finger env (from_user_request user finger)) d
  ]

  -- The two ends of `sleep_listener`'s loop, the first once the running operation is stopped.
  unfoldable pub slept : Bool → Device → Device
  slept suspending d = if suspending then (locked (suspend env) d).1 else (locked (resume env) d).1

-- `Device::delete_enrolled_fingers2`.
delete_enrolled_fingers2 : Result (Unit {0}) FprintError
delete_enrolled_fingers2 = err (permission_denied no_username)

-- `Device::num_enroll_stages`; none stands for -1.
unfoldable pub num_enroll_stages : Option (List ℕ) → Device → Option ℕ
num_enroll_stages stages d = if (flags d).claimed then some (enroll_stages stages) else none

-- `Device::finger_needed`.
finger_needed : Device → Bool
finger_needed d = (flags d).busy

-- `Device::finger_present`.
finger_present : Device → Bool
finger_present d = false

-- `Device::name`.
device_name : String
device_name = "ELAN 04f3:0c90"

-- `Device::scan_type`.
scan_type : String
scan_type = "press"

-- The event that the forwarder of a verification sends on as a signal.
forward_verify : OpEvent → Option OpEvent
forward_verify (OpEvent.verify_status result final) = some (OpEvent.verify_status result final)
forward_verify (OpEvent.verify_finger_selected finger) =
    some (OpEvent.verify_finger_selected finger)
forward_verify (OpEvent.enroll_status result final) = none

-- And that of an enrollment.
forward_enroll : OpEvent → Option OpEvent
forward_enroll (OpEvent.enroll_status result final) = some (OpEvent.enroll_status result final)
forward_enroll (OpEvent.verify_status result final) = none
forward_enroll (OpEvent.verify_finger_selected finger) = none
