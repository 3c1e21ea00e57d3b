-- ===== src/Daemon/Machine.antt =====
-- crates/elanprintd/src/worker.rs: the worker's state, the events that it sends, and its errors.
-- The sensor, the token that cancels an operation, the file system and the JSON library are the
-- environment: what the n-th call of it answers is any function of n.
use elanprint_rs.Prelude.{
  ℕ, String, Bool, true, false, not, List, [], Option, none, Result, ok, err, if◌then◌else◌,
}
use elanprint_rs.Proto.Status.{ProtoError}
use elanprint_rs.Proto.Enroll.{EnrollError}
use elanprint_rs.Algo.Strings.{
  enroll_failure, enroll_disconnected, enroll_duplicate, enroll_failed, verify_disconnected,
  verify_no_match, verify_unknown_error,
}
use elanprint_rs.Usb.{EndpointIn, UsbError, disconnected}
use elanprint_rs.Store.{IoError, StoreError}
use elanprint_rs.Store.File.{Json, Files, Fault}

pub data OpEvent : Type 0 where
  -- result, done
  enroll_status verify_status : String → Bool → OpEvent
  verify_finger_selected : String → OpEvent

unfoldable pub is_terminal : OpEvent → Bool
is_terminal (enroll_status result done) = done
is_terminal (verify_status result done) = done
is_terminal (verify_finger_selected finger) = false

pub data OpKind : Type 0 where
  enroll verify : OpKind

pub data WorkerError : Type 0 where
  usb : UsbError → WorkerError
  proto : ProtoError → WorkerError
  store : StoreError → WorkerError
  busy unclaimed : WorkerError
  bad_finger no_prints not_enrolled already_enrolled : String → WorkerError
  enroll : EnrollError → WorkerError
  cancelled : WorkerError

unfoldable pub enroll_terminal : WorkerError → String
unfolding enroll_failure
enroll_terminal (WorkerError.enroll inner) = enroll_failure inner
enroll_terminal (usb disconnected) = enroll_disconnected
enroll_terminal (already_enrolled f) = enroll_duplicate
enroll_terminal _ = enroll_failed

unfoldable pub verify_terminal : WorkerError → String
verify_terminal (usb disconnected) = verify_disconnected
verify_terminal (no_prints u) = verify_no_match
verify_terminal (not_enrolled f) = verify_no_match
verify_terminal _ = verify_unknown_error

-- The events are those sent so far, the newest in front; a receiver that is gone loses them, which
-- the code ignores.
pub record OpSink : Type 0 where
  pub kind : OpKind
  pub terminal_sent : Bool
  pub events : List OpEvent

-- `OpSink::new`.
unfoldable pub new_sink : OpKind → OpSink
new_sink kind = record { kind = kind; terminal_sent = false; events = [] }

-- The flags that are read without the worker's lock.
pub record OpState : Type 0 where
  pub claimed : Bool
  pub busy : Bool
  pub user : Option String

-- `OpState::default`.
unfoldable pub new_state : OpState
new_state = record { claimed = false; busy = false; user = none }

-- `OpState::try_begin`; the token is the busy flag itself, once it is taken.
unfoldable pub try_begin : OpState → Result OpState WorkerError
try_begin s =
    if not s.claimed
    then err unclaimed
    else if s.busy
    then err WorkerError.busy
    else ok (record s { busy = true })

-- `OpToken::drop`.
unfoldable pub end_op : OpState → OpState
end_op s = record s { busy = false }

pub record DeleteIntent : Type 0 where
  pub user : String
  pub finger : String

-- `DeleteIntent::from_user_request`.
unfoldable pub from_user_request : String → String → DeleteIntent
from_user_request user finger = record { user = user; finger = finger }

-- `usb` says whether the handle is open.
pub record Worker : Type 0 where
  pub usb : Bool
  pub claimed : Option String
  pub armed : Bool
  pub state : OpState
  pub firmware : Option (ℕ × ℕ)

-- `Worker::new`.
unfoldable pub new_worker : Worker
unfolding new_state
new_worker = record {
  usb = false;
  claimed = none;
  armed = false;
  state = new_state;
  firmware = none;
}

-- One call of `usb.cmd`: the bytes sent, and where, how much and how long the reply is read.
pub record Frame : Type 0 where
  pub out : List ℕ
  pub endpoint : EndpointIn
  pub len : ℕ
  pub wait : ℕ

-- What happened on the handle.
pub data Traffic : Type 0 where
  opened : Traffic
  sent : Frame → Result (List ℕ) UsbError → Traffic

-- The environment: what `T::open`, `usb.cmd`, the read of the store and its save answer as the n-th
-- call, whether the operation's token is cancelled by then, and ELANPRINT_ENROLL_STAGES.
pub record Env : Type 0 where
  pub json : Json
  pub opens : ℕ → Result (Unit {0}) UsbError
  pub answers : ℕ → Result (List ℕ) UsbError
  pub cancels : ℕ → Bool
  pub reads : ℕ → Option IoError
  pub saves : ℕ → Option Fault
  pub stages : Option (List ℕ)

-- The worker, the sink of the operation, the number of calls made, the traffic (newest in front)
-- and the files.
pub record Machine : Type 0 where
  pub worker : Worker
  pub sink : OpSink
  pub clock : ℕ
  pub log : List Traffic
  pub files : Files
