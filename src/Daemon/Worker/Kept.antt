-- ===== src/Daemon/Worker/Kept.antt =====
-- crates/elanprintd/src/worker.rs: the claim and the shared flags, which the operations read and only
-- `claim` and `release` write. One rule for each action that the operations are chained from.
use elanprint_rs.Prelude.{
  ℕ, ◌+◌, String, ◌≡◌, Bool, true, false, List, ◌∷◌, Option, none, some, Result, map_err,
  if◌then◌else◌,
}
use elanprint_rs.Proto.Command.{Command}
use elanprint_rs.Usb.{UsbError}
use elanprint_rs.Store.{Prints}
use elanprint_rs.Store.File.{save}
use elanprint_rs.Daemon.Machine.{OpEvent, OpState, WorkerError, store, Frame, sent, Env, Machine}
use elanprint_rs.Daemon.Exec.{Outcome, done, failed, waiting, Exec, lift, modify, skip}
use elanprint_rs.Daemon.Exec.Triple.{Post, Keeps, Triple-modify}
use elanprint_rs.Daemon.Worker.Terminal.{Any}
use elanprint_rs.Daemon.Worker.Device.{
  command, transact, claim_user, emit, closing_text, closing_event, close, send_arm, arm,
  read_store, write_store, round, abort_session, finish_op, run_op,
}
use elanprint_rs.Daemon.Worker.Device.Quiet.{
  skip-Keeps, lift-Keeps, send_arm-Keeps, arm-Keeps, read_store-Keeps, round-Keeps, command-Keeps,
  abandon-Keeps, abort_session-Keeps,
}

-- The claim is `c` and the flags are `s`.
abbrev pub Held : Option String → OpState → Machine → Type 0
Held c s m = (m.worker.claimed ≡ c) × (m.worker.state ≡ s)

module _ (env : Env) (c : Option String) (s : OpState) where
  sends :
      (m : Machine) (f : Frame) (r : Result (List ℕ) UsbError)
      → Any f
      → Held c s m
      → Held c s (record m { clock = m.clock + 1; log = sent f r ∷ m.log })
  sends m f r t h = h

  ticks : (m : Machine) → Held c s m → Held c s (record m { clock = m.clock + 1 })
  ticks m h = h

  rewires :
      (m : Machine) (handle flag : Bool)
      → Held c s m
      → Held c s (record m { worker = record m.worker { usb = handle; armed = flag } })
  rewires m handle flag h = h

  pub lift-Held : {A : Type 0} (r : Result A WorkerError) → Keeps (Held c s) (lift r)
  lift-Held r = lift-Keeps env (Held c s) Any sends ticks rewires r

  pub skip-Held : Keeps (Held c s) skip
  skip-Held = skip-Keeps env (Held c s) Any sends ticks rewires

  pub send_arm-Held : Keeps (Held c s) (send_arm env)
  send_arm-Held = send_arm-Keeps env (Held c s) Any sends ticks rewires tt

  pub arm-Held : Keeps (Held c s) (arm env)
  arm-Held = arm-Keeps env (Held c s) Any sends ticks rewires

  pub read_store-Held : Keeps (Held c s) (read_store env)
  read_store-Held = read_store-Keeps env (Held c s) Any sends ticks rewires

  pub round-Held : (f : Frame) → Keeps (Held c s) (round env f)
  round-Held f = round-Keeps env (Held c s) Any sends ticks rewires f tt

  pub abort_session-Held : Keeps (Held c s) (abort_session env)
  abort_session-Held = abort_session-Keeps env (Held c s) Any sends ticks rewires tt

  pub write_store-Held : (p : Prints) → Keeps (Held c s) (write_store env p)
  unfolding write_store
  write_store-Held p = record {
    at = λ m h. (lift-Held (map_err store (save env.json (env.saves m.clock) p m.files).1)).at _ h;
  }

  pub command-Held : (k : Command) → Keeps (Held c s) (command env k)
  command-Held k = command-Keeps env (Held c s) Any sends ticks rewires k tt

  pub transact-Held : (f : Frame) → Keeps (Held c s) (transact env f)
  unfolding transact
  transact-Held f = record { at = λ m h. h }

  pub emit-Held : (e : OpEvent) → Keeps (Held c s) (emit e)
  unfolding emit
  emit-Held e = Triple-modify _ (λ m h. h)

  pub claim_user-Held : Keeps (Held c s) claim_user
  unfolding claim_user
  claim_user-Held = record { at = λ m h. by_claim m m.worker.claimed h }
    where
      by_claim :
          (m : Machine) (o : Option String)
          → Held c s m
          → Post
              (λ _. Held c s)
              (Held c s)
              (elim o [ none ↦ failed WorkerError.unclaimed | some u ↦ done u ], m)
      by_claim m none h = h
      by_claim m (some u) h = h

  close-Held : (o : Outcome (Unit {0})) (m : Machine) → Held c s m → Held c s (close o m)
  unfolding close emit modify
  close-Held o m h = by_flag m.sink.terminal_sent
    where
      by_flag :
          (b : Bool)
          → Held c s
              (if b then m else (emit (closing_event m.sink.kind (closing_text m.sink.kind o)) m).1)
      by_flag true = h
      by_flag false = h

  finish_op-Held :
      (x : Outcome (Unit {0}) × Machine)
      → Post (λ _. Held c s) (Held c s) x
      → Held c s (finish_op env x).1
  unfolding finish_op
  finish_op-Held (waiting, m) h = h
  finish_op-Held (done a, m) h = close-Held (done a) m h
  finish_op-Held (failed e, m) h =
      close-Held (failed e) _ (abandon-Keeps env (Held c s) Any sends ticks rewires tt m h)

  -- An operation keeps what its inner part keeps.
  pub run_op-Held :
      (inner : Exec (Unit {0})) (m : Machine)
      → Keeps (Held c s) inner
      → Held c s m
      → Held c s (run_op env inner m).1
  unfolding run_op
  run_op-Held inner m t h = finish_op-Held (inner m) (t.at m h)
