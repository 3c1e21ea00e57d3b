-- ===== src/Daemon/Worker/Device.antt =====
-- The calls of the sensor and of the store, the claim, the release, suspend and resume.
pub mod Quiet
pub mod Claim
use elanprint_rs.Prelude.{
  ℕ, ◌+◌, String, true, false, List, [], ◌∷◌, Option, none, some, Result, ok, err, str_eq,
  if◌then◌else◌, map_err,
}
use elanprint_rs.Prelude.BTreeMap.{text_ord, get, keys}
use elanprint_rs.Proto.Command.{
  Command, fw_version, enrolled_num, abort, encode, expected_len, timeout,
}
use elanprint_rs.Proto.Response.{Response, parse}
use elanprint_rs.Proto.Enroll.{unexpected_reply}
use elanprint_rs.Usb.{EndpointIn, UsbError, touch_wait_silent, short_read, disconnected}
use elanprint_rs.Store.{Prints, Fingers}
use elanprint_rs.Store.File.{open_store, save}
use elanprint_rs.Daemon.Machine.{
  OpEvent, is_terminal, OpKind, WorkerError, usb, proto, store, busy, unclaimed, no_prints, enroll,
  cancelled, enroll_terminal, verify_terminal, Worker, Frame, opened, sent, Env, Machine,
}
use elanprint_rs.Daemon.Exec.{
  Outcome, done, failed, waiting, Exec, ◌>>=◌, ◌>>◌, pure, fail, lift, gets, modify, skip,
}

abbrev pub on_worker : (Worker → Worker) → Machine → Machine
on_worker f m = record m { worker = f m.worker }

-- `Worker::usb`.
unfoldable pub require_usb : Exec (Unit {0})
require_usb m = (if m.worker.usb then done tt else failed unclaimed, m)

-- `Worker::claim_user`.
unfoldable pub claim_user : Exec String
claim_user m = (elim m.worker.claimed [ none ↦ failed unclaimed | some u ↦ done u ], m)

abbrev pub frame : Command → EndpointIn → Frame
frame c ep = record { out = encode c; endpoint = ep; len = expected_len c; wait = timeout c }

-- `OpSink::emit`.
unfoldable pub emit : OpEvent → Exec (Unit {0})
unfolding is_terminal
emit e = modify λ m. record m {
  sink = record {
    kind = m.sink.kind;
    terminal_sent = if is_terminal e then true else m.sink.terminal_sent;
    events = e ∷ m.sink.events;
  };
}

abbrev pub closing_text : OpKind → Outcome (Unit {0}) → String
closing_text OpKind.enroll (failed e) = enroll_terminal e
closing_text OpKind.verify (failed e) = verify_terminal e
closing_text OpKind.enroll _ = "enroll-unknown-error"
closing_text OpKind.verify _ = "verify-unknown-error"

abbrev pub closing_event : OpKind → String → OpEvent
closing_event OpKind.enroll text = OpEvent.enroll_status text true
closing_event OpKind.verify text = OpEvent.verify_status text true

-- `OpSink::close`.
unfoldable pub close : Outcome (Unit {0}) → Machine → Machine
unfolding emit
close result m =
    if m.sink.terminal_sent
    then m
    else (emit (closing_event m.sink.kind (closing_text m.sink.kind result)) m).1

module _ (env : Env) where
  -- One call of `usb.cmd`.
  unfoldable pub transact : Frame → Exec (Result (List ℕ) UsbError)
  transact f m = (
    done (env.answers m.clock),
    record m { clock = m.clock + 1; log = sent f (env.answers m.clock) ∷ m.log },
  )

  -- `usb.cmd(..).await?` with a token of its own.
  unfoldable pub command : Command → Exec (List ℕ)
  command c = do require_usb; r ← transact (frame c EndpointIn.status); lift (map_err usb r)

  -- `Store::open(..)?`.
  unfoldable pub read_store : Exec Prints
  read_store m =
      lift (map_err store (open_store env.json (env.reads m.clock) m.files))
        (record m { clock = m.clock + 1 })

  -- `store.save()?`.
  unfoldable pub write_store : Prints → Exec (Unit {0})
  write_store p m =
      let (fs, r) = save env.json (env.saves m.clock) p m.files in
      lift (map_err store r) (record m { clock = m.clock + 1; files = fs })

  count_of : Response → Exec ℕ
  count_of (Response.enrolled_num count) = pure count
  count_of _ = fail (enroll unexpected_reply)

  -- `Worker::send_arm`.
  unfoldable pub send_arm : Exec ℕ
  unfolding count_of
  send_arm = do
    raw ← command enrolled_num
    reply ← lift (map_err proto (parse enrolled_num raw))
    count_of reply

  pub arm : Exec (Unit {0})
  arm = modify (on_worker λ w. record w { armed = true })

  pub disarm : Exec (Unit {0})
  disarm = modify (on_worker λ w. record w { armed = false })

  version_of : Result (List ℕ) UsbError → Option (ℕ × ℕ)
  version_of (err e) = none
  version_of (ok raw) = elim (parse fw_version raw) [
    | ok (Response.fw_version major minor) ↦ some (major, minor)
    | _ ↦ none
  ]

  -- `Worker::read_firmware`.
  unfoldable pub read_firmware : Exec (Option (ℕ × ℕ))
  unfolding version_of
  read_firmware m =
      if m.worker.usb
      then (do r ← transact (frame fw_version EndpointIn.status); pure (version_of r)) m
      else pure none m

  -- `Worker::abort_session`.
  unfoldable pub abort_session : Exec (Unit {0})
  abort_session m =
      if m.worker.usb then (do r ← transact (frame abort EndpointIn.status); skip) m else skip m

  -- The two refusals at the head of `Worker::claim`.
  may_claim : String → Exec (Unit {0})
  may_claim user m = (
    if m.worker.state.busy then failed busy else elim m.worker.claimed [
      | none ↦ done tt
      | some other ↦ if str_eq other user then done tt else failed busy
    ],
    m,
  )

  -- `T::open().await?`, if no handle is open.
  open_usb : Exec (Unit {0})
  open_usb m = if m.worker.usb then skip m else elim (env.opens m.clock) [
    | err e ↦ fail (usb e) (record m { clock = m.clock + 1 })
    | ok h ↦ skip (record m {
      clock = m.clock + 1;
      log = opened ∷ m.log;
      worker = record m.worker { usb = true };
    })
  ]

  learn_firmware : Exec (Unit {0})
  learn_firmware m = elim m.worker.firmware [
    | some v ↦ skip m
    | none ↦ (do v ← read_firmware; modify (on_worker λ w. record w { firmware = v })) m
  ]

  hold_claim : String → Exec (Unit {0})
  hold_claim user = modify (
      on_worker λ w. record w {
        claimed = some user;
        state = record w.state { claimed = true; user = some user };
      })

  -- `Worker::claim`.
  unfoldable pub claim : String → Exec (Unit {0})
  unfolding may_claim open_usb learn_firmware arm hold_claim
  claim user = do may_claim user; open_usb; learn_firmware; count ← send_arm; arm; hold_claim user

  -- `Worker::release`.
  unfoldable pub release : Exec (Unit {0})
  release = do
    abort_session
    modify (
        on_worker λ w. record w {
          armed = false;
          claimed = none;
          state = record w.state { claimed = false; user = none };
        })

  -- `Worker::suspend`.
  unfoldable pub suspend : Exec (Unit {0})
  suspend = do abort_session; modify (on_worker λ w. record w { usb = false; armed = false })

  -- `Worker::resume`.
  unfoldable pub resume : Exec (Unit {0})
  resume = modify (on_worker λ w. record w { usb = false; armed = false })

  listed : String → Option Fingers → Exec (List String)
  listed user none = fail (no_prints user)
  listed user (some []) = fail (no_prints user)
  listed user (some (f ∷ fs)) = pure (keys (f ∷ fs))

  -- `Worker::list`.
  unfoldable pub list : String → Exec (List String)
  unfolding listed
  list user = do p ← read_store; listed user (get user p)

  -- The mapping of the errors of `usb.cmd` in `Worker::round`.
  unfoldable pub round_result : EndpointIn → Result (List ℕ) UsbError → Result (List ℕ) WorkerError
  round_result ep (ok bytes) = ok bytes
  round_result ep (err (short_read wanted got bytes)) = ok bytes
  round_result ep (err UsbError.cancelled) = err cancelled
  round_result EndpointIn.touch_wait (err (UsbError.timeout d)) = err (usb (touch_wait_silent d))
  round_result ep (err e) = err (usb e)

  -- A handle whose device is gone is dropped.
  drop_lost : Result (List ℕ) WorkerError → Machine → Machine
  drop_lost (err (usb disconnected)) m = record m {
    worker = record m.worker { usb = false; armed = false };
  }
  drop_lost r m = m

  unfoldable pub settle : Result (List ℕ) WorkerError → Exec (List ℕ)
  unfolding drop_lost
  settle r m = lift r (drop_lost r m)

  -- `Worker::round`: the token wins over the transfer.
  unfoldable pub round : Frame → Exec (List ℕ)
  unfolding round_result settle
  round f = do
    require_usb
    stop ← gets (λ m. env.cancels m.clock)
    if stop then fail cancelled else do r ← transact f; settle (round_result f.endpoint r)

  -- What `Worker::verify` and `Worker::enroll` do after their inner part: abort and disarm on an
  -- error, then close the sink. While the inner part waits, nothing of it happens.
  unfoldable pub finish_op : Outcome (Unit {0}) × Machine → Outcome (Unit {0}) × Machine
  unfolding disarm
  finish_op (waiting, m) = (waiting, m)
  finish_op (done a, m) = (done a, close (done a) m)
  finish_op (failed e, m) = (failed e, close (failed e) ((do abort_session; disarm) m).1)

  unfoldable pub run_op : Exec (Unit {0}) → Exec (Unit {0})
  unfolding finish_op
  run_op inner m = finish_op (inner m)
