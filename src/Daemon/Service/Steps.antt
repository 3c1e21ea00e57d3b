-- ===== src/Daemon/Service/Steps.antt =====
-- crates/elanprintd/src/main.rs: how the handlers, the spawned tasks and the listeners take turns. One
-- step is what happens between two waits: for the worker's lock, or for the clearing of `op_cancel`.
-- The handlers take `&mut self`, so the bus library runs a start as a whole; each part of the others
-- may come at any moment that the lock allows.
use elanprint_rs.Prelude.{ℕ, suc, String, ◌≡◌, ◌≢◌, Bool, List, [], ◌∷◌, ◌++◌, none, some}
use elanprint_rs.Daemon.Machine.{OpKind, DeleteIntent, Env, new_worker}
use elanprint_rs.Daemon.Exec.{waiting}
use elanprint_rs.Daemon.Worker.Erase.{delete_finger}
use elanprint_rs.Daemon.Service.{
  Caller, Task, Device, start, stop_running, locked, task_op, end_task, clear_cancel, claim_call,
  release_locked, list_call, slept,
}

-- The state that `main` sets up, over the files that are there.
abbrev pub IsInitial : Device → Type 0
IsInitial d =
    (d.machine.worker ≡ new_worker)
    × (d.queued ≡ [])
    × (d.running ≡ none)
    × (d.op_cancel ≡ none)
    × (d.ending ≡ 0)

pub data Step (d : Device) : Device → Type 0 where
  started : (kind : OpKind) (c : Caller) (finger : String) → Step d (start kind c finger d).1
  -- `verify_stop`, `enroll_stop`, and what `release`, suspend and the end of `main` begin with.
  stopped : Step d (stop_running d)
  claims :
      (env : Env) (c : Caller) (user : String)
      → d.running ≡ none
      → Step d (claim_call env c user d).1
  releases : (env : Env) → d.running ≡ none → Step d (release_locked env d)
  lists : (env : Env) (user : String) → d.running ≡ none → Step d (list_call env user d).1
  -- One finger of either deletion.
  deletes :
      (env : Env) (intent : DeleteIntent)
      → d.running ≡ none
      → Step d (locked (delete_finger env intent) d).1
  sleeps : (env : Env) (suspending : Bool) → d.running ≡ none → Step d (slept env suspending d)
  -- A spawned task gets the lock.
  enters :
      (t : Task) (before after : List Task)
      → d.running ≡ none
      → d.queued ≡ before ++ (t ∷ after)
      → Step d (record d { queued = before ++ after; running = some t })
  -- The operation is over, and its token is dropped with the lock.
  ends :
      (env : Env) (fuel : ℕ) (t : Task)
      → d.running ≡ some t
      → (task_op env fuel t d.machine).0 ≢ waiting
      → Step d (end_task env fuel t d)
  clears : (n : ℕ) → d.ending ≡ suc n → Step d (clear_cancel d)

pub data Reachable : Device → Type 0 where
  initial : {d : Device} → IsInitial d → Reachable d
  next_step : {d e : Device} → Reachable d → Step d e → Reachable e
