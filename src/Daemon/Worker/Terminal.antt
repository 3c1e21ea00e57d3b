-- ===== src/Daemon/Worker/Terminal.antt =====
-- crates/elanprintd/src/worker.rs: the terminal event of an operation, by `OpSink::emit` and `close`.
use elanprint_rs.Prelude.{
  ℕ, ◌+◌, String, ◌≡◌, refl, Bool, true, false, List, [], ◌∷◌, Option, none, some, Result, All,
  if◌then◌else◌,
}
use elanprint_rs.Usb.{UsbError}
use elanprint_rs.Daemon.Machine.{
  OpEvent, OpKind, is_terminal, WorkerError, Frame, sent, Env, Machine,
}
use elanprint_rs.Daemon.Exec.{Outcome, Exec, done, failed, waiting, lift, modify}
use elanprint_rs.Daemon.Exec.Triple.{Post, Triple, Keeps}
use elanprint_rs.Daemon.Worker.Device.{
  claim_user, emit, close, closing_event, closing_text, finish_op, run_op, arm, send_arm,
  read_store, round,
}
use elanprint_rs.Daemon.Worker.Device.Quiet.{
  lift-Keeps, send_arm-Keeps, arm-Keeps, abandon-Keeps, round-Keeps, read_store-Keeps,
}

-- No terminal event yet.
abbrev pub Fresh : Machine → Type 0
Fresh m = (m.sink.terminal_sent ≡ false) × All (λ e. is_terminal e ≡ false) m.sink.events

-- The newest event is terminal, and no other is.
abbrev pub EndsOnce : List OpEvent → Type 0
EndsOnce [] = ⊥
EndsOnce (e ∷ es) = (is_terminal e ≡ true) × All (λ e. is_terminal e ≡ false) es

abbrev pub Ended : Machine → Type 0
Ended m = (m.sink.terminal_sent ≡ true) × EndsOnce m.sink.events

-- After an operation: it has ended, unless it waits.
abbrev pub Ending : Outcome (Unit {0}) × Machine → Type 0
Ending (waiting, m) = Fresh m
Ending (_, m) = Ended m

abbrev pub Any : Frame → Type 0
Any f = Unit

pub emit-Fresh : (e : OpEvent) → is_terminal e ≡ false → Triple Fresh (emit e) (λ _. Fresh) Fresh
unfolding emit modify
emit-Fresh e q = record { at = λ m h. (rw q h.0, (q, h.1)) }

pub emit-Ended : (e : OpEvent) → is_terminal e ≡ true → Triple Fresh (emit e) (λ _. Ended) Fresh
unfolding emit modify
emit-Ended e q = record { at = λ m h. (rw q refl, (q, h.1)) }

closing-terminal : (k : OpKind) (text : String) → is_terminal (closing_event k text) ≡ true
unfolding is_terminal
closing-terminal OpKind.enroll text = refl
closing-terminal OpKind.verify text = refl

close-Fresh : (o : Outcome (Unit {0})) (m : Machine) → Fresh m → Ended (close o m)
unfolding close
close-Fresh o m h = by_flag m.sink.terminal_sent h.0
  where
    last : OpEvent
    last = closing_event m.sink.kind (closing_text m.sink.kind o)

    by_flag : (b : Bool) → b ≡ false → Ended (if b then m else (emit last m).1)
    by_flag true e = absurd (cc e)
    by_flag false e =
        unfold emit modify in ((emit-Ended last (closing-terminal m.sink.kind _)).at m h)

close-Ended : (o : Outcome (Unit {0})) (m : Machine) → Ended m → Ended (close o m)
unfolding close
close-Ended o m h = by_flag m.sink.terminal_sent h.0
  where
    by_flag :
        (b : Bool)
        → b ≡ true
        → Ended
            (if b then m else (emit (closing_event m.sink.kind (closing_text m.sink.kind o)) m).1)
    by_flag true e = h
    by_flag false e = absurd (cc e)

module _ (env : Env) where
  sends :
      (m : Machine) (f : Frame) (r : Result (List ℕ) UsbError)
      → Any f
      → Fresh m
      → Fresh (record m { clock = m.clock + 1; log = sent f r ∷ m.log })
  sends m f r t h = h

  ticks : (m : Machine) → Fresh m → Fresh (record m { clock = m.clock + 1 })
  ticks m h = h

  rewires :
      (m : Machine) (handle flag : Bool)
      → Fresh m
      → Fresh (record m { worker = record m.worker { usb = handle; armed = flag } })
  rewires m handle flag h = h

  finish_op-Ending :
      (x : Outcome (Unit {0}) × Machine) → Post (λ _. Ended) Fresh x → Ending (finish_op env x)
  unfolding finish_op
  finish_op-Ending (waiting, m) h = h
  finish_op-Ending (done a, m) h = close-Ended (done a) m h
  finish_op-Ending (failed e, m) h =
      close-Fresh (failed e) _ (abandon-Keeps env Fresh Any sends ticks rewires tt m h)

  -- An inner part that ends only with success, and then has sent its terminal event.
  pub run_op-Ending :
      (inner : Exec (Unit {0})) (m : Machine)
      → Triple Fresh inner (λ _. Ended) Fresh
      → Fresh m
      → Ending (run_op env inner m)
  unfolding run_op
  run_op-Ending inner m t h = finish_op-Ending (inner m) (t.at m h)

  pub quiet_round : (f : Frame) → Keeps Fresh (round env f)
  quiet_round f = round-Keeps env Fresh Any sends ticks rewires f tt

  pub quiet_lift : {A : Type 0} (r : Result A WorkerError) → Keeps Fresh (lift r)
  quiet_lift r = lift-Keeps env Fresh Any sends ticks rewires r

  pub quiet_send_arm : Keeps Fresh (send_arm env)
  quiet_send_arm = send_arm-Keeps env Fresh Any sends ticks rewires tt

  pub quiet_arm : Keeps Fresh (arm env)
  quiet_arm = arm-Keeps env Fresh Any sends ticks rewires

  pub quiet_read : Keeps Fresh (read_store env)
  quiet_read = read_store-Keeps env Fresh Any sends ticks rewires

pub quiet_claim : Keeps Fresh claim_user
unfolding claim_user
quiet_claim = record { at = λ m h. by_claim m m.worker.claimed h }
  where
    by_claim :
        (m : Machine) (o : Option String)
        → Fresh m
        → Post
            (λ _. Fresh)
            Fresh
            (elim o [ none ↦ failed WorkerError.unclaimed | some u ↦ done u ], m)
    by_claim m none h = h
    by_claim m (some u) h = h
