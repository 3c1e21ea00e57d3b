-- ===== src/Tests/Service.antt =====
-- crates/elanprintd/src/main.rs with root as the caller.
use elanprint_rs.Prelude.{
  String, ◌≡◌, refl, true, false, List, [], ◌∷◌, none, some, ok, Occurs, contains,
}
use elanprint_rs.Store.{Prints}
use elanprint_rs.Store.File.{Json}
use elanprint_rs.Daemon.Machine.{OpKind, OpState, Env, new_worker, new_sink, try_begin}
use elanprint_rs.Daemon.Access.{may_act, lookup_uid}
use elanprint_rs.Daemon.Service.{
  Caller, caller_uid, guard, Device, flags, claim_call, claimed_target, start, start_op,
  stop_running, clear_cancel,
}
use elanprint_rs.Daemon.Service.Steps.{
  Step, started, stopped, claims, Reachable, initial, next_step,
}
use elanprint_rs.Daemon.Service.Spec.{
  abstract, Event, quiet, start_by, claim_by, event_of, succeeds, granted,
}
use elanprint_rs.Daemon.Service.Invariant.{IsConsistent}
use elanprint_rs.Daemon.Service.Refinement
use elanprint_rs.Daemon.Service.Refinement.{Runs, Traced, Traced-Runs, Reachable-IsConsistent}
use elanprint_rs.Daemon.Service.LostCancel.{stop-lost}

abbrev root : Caller
root = record {
  sender = some ":1.7";
  reachable = true;
  unix_user = λ name. some 0;
  getent = λ user. none;
}

prints_nothing : (p : Prints) (t : String) → none ≡ some t → some [] ≡ some p
prints_nothing p t h = absurd (cc h)

abbrev reader : Json
reader = record {
  to_string_pretty = λ p. none;
  from_str = λ t. some [];
  from_str-to_string_pretty = prints_nothing;
}

-- The sensor answers every command with a count of one.
abbrev calm : Env
calm = record {
  json = reader;
  opens = λ n. ok tt;
  answers = λ n. ok (0x40 ∷ 1 ∷ []);
  cancels = λ n. false;
  reads = λ n. none;
  saves = λ n. none;
  stages = none;
}

abbrev idle : Device
idle = record {
  machine = record {
    worker = new_worker;
    sink = new_sink OpKind.verify;
    clock = 0;
    log = [];
    files = record { file = none; temps = []; salt = 0 };
  };
  op_cancel = none;
  cancelled = [];
  tokens = 0;
  queued = [];
  running = none;
  ending = 0;
}

-- Root claims for alice, starts and stops.
abbrev after_stop : Device
after_stop = stop_running (start OpKind.verify root "any" (claim_call calm root "alice" idle).1).1

reachable : Reachable after_stop
reachable =
    next_step
      (next_step
        (next_step (initial (refl, refl, refl, refl, refl)) (claims calm root "alice" refl))
        (started OpKind.verify root "any"))
      stopped

abbrev trace : List Event
trace =
    quiet
    ∷ start_by root OpKind.verify "any"
        (succeeds (start OpKind.verify root "any" (claim_call calm root "alice" idle).1).0)
    ∷ claim_by root "alice" (granted (claim_call calm root "alice" idle).0)
    ∷ []

traced : Traced trace after_stop
unfolding event_of
traced =
    Refinement.next_step
      (Refinement.next_step
        (Refinement.next_step (Refinement.initial {d = idle} (refl, refl, refl, refl, refl))
          (claims calm root "alice" refl))
        (started OpKind.verify root "any"))
      stopped

Traced-Runs_example : Runs trace (abstract after_stop)
Traced-Runs_example = Traced-Runs traced

Reachable-IsConsistent_example : IsConsistent after_stop
Reachable-IsConsistent_example = Reachable-IsConsistent reachable

abbrev held : OpState
held = record { claimed = true; busy = false; user = some "alice" }

-- Alice's claim, while the task of an earlier operation has yet to clear `op_cancel`.
abbrev clearing : Device
clearing = record idle {
  machine = record idle.machine {
    worker = record new_worker { usb = true; claimed = some "alice"; state = held };
  };
  ending = 1;
}

stop-lost_example :
    let e = (start OpKind.verify root "any" clearing).1 in
    Occurs clearing.tokens (stop_running e).cancelled
    × Step e (clear_cancel e)
    × ((flags (clear_cancel e)).busy ≡ true)
    × (stop_running (clear_cancel e) ≡ clear_cancel e)
    × ((stop_running (clear_cancel e)).cancelled ≡ clearing.cancelled)
unfolding start start_op guard caller_uid may_act try_begin lookup_uid claimed_target contains
stop-lost_example = stop-lost OpKind.verify root "any" clearing 0 refl refl
