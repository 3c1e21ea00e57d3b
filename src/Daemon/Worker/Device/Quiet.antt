-- ===== src/Daemon/Worker/Device/Quiet.antt =====
-- What the calls of the sensor and of the store leave alone: a condition on the machine that outlasts
-- an exchange, a tick of the clock, and a change of the handle and of the armed flag, outlasts them
-- all, if it outlasts the frames that they send.
use elanprint_rs.Prelude.{ℕ, ◌+◌, Bool, true, false, List, ◌∷◌, Result, err, map_err, if◌then◌else◌}
use elanprint_rs.Proto.Command.{Command, enrolled_num, abort}
use elanprint_rs.Proto.Response.{Response, parse}
use elanprint_rs.Usb.{EndpointIn, UsbError, disconnected}
use elanprint_rs.Store.File.{open_store}
use elanprint_rs.Daemon.Machine.{
  WorkerError, usb, proto, store, unclaimed, cancelled, Frame, sent, Env, Machine,
}
use elanprint_rs.Daemon.Exec.{Outcome, done, failed, waiting, ◌>>=◌, ◌>>◌, lift, gets, skip}
use elanprint_rs.Daemon.Exec.Triple.{
  Post, Triple, Keeps, Triple-pure, Triple-fail, Triple-lift, Triple-gets, Triple-if, Triple-bind,
  Triple-modify,
}
use elanprint_rs.Daemon.Worker.Device.{
  require_usb, frame, transact, command, read_store, send_arm, count_of, arm, disarm, abort_session,
  round, settle, drop_lost,
}

module _ (env : Env) (I : Machine → Type 0) (F : Frame → Type 0)
    (sends : (m : Machine) (f : Frame) (r : Result (List ℕ) UsbError)
      → F f
      → I m
      → I (record m { clock = m.clock + 1; log = sent f r ∷ m.log }))
    (ticks : (m : Machine) → I m → I (record m { clock = m.clock + 1 }))
    (rewires : (m : Machine) (handle flag : Bool)
      → I m
      → I (record m { worker = record m.worker { usb = handle; armed = flag } })) where
  pub lift-Keeps : {A : Type 0} (r : Result A WorkerError) → Keeps I (lift r)
  lift-Keeps r = Triple-lift r (λ a e m h. h) (λ m h. h)

  pub skip-Keeps : Keeps I skip
  unfolding skip
  skip-Keeps = Triple-pure tt (λ m h. h)

  pub require_usb-Keeps : Keeps I require_usb
  unfolding require_usb
  require_usb-Keeps = record { at = λ m h. by_usb m m.worker.usb h }
    where
      by_usb :
          (m : Machine) (b : Bool)
          → I m
          → Post (λ _. I) I (if b then done tt else failed unclaimed, m)
      by_usb m true h = h
      by_usb m false h = h

  transact-Keeps : (f : Frame) → F f → Keeps I (transact env f)
  unfolding transact
  transact-Keeps f allowed = record { at = λ m h. sends m f (env.answers m.clock) allowed h }

  pub command-Keeps : (c : Command) → F (frame c EndpointIn.status) → Keeps I (command env c)
  unfolding command
  command-Keeps c allowed = Triple-bind require_usb _ require_usb-Keeps λ _.
      Triple-bind (transact env (frame c EndpointIn.status)) _ (transact-Keeps _ allowed)
        λ r. lift-Keeps (map_err usb r)

  count_of-Keeps : (r : Response) → Keeps I (count_of env r)
  unfolding count_of
  count_of-Keeps (Response.enrolled_num n) = Triple-pure n (λ m h. h)
  count_of-Keeps _ = Triple-fail _ (λ m h. h)

  pub send_arm-Keeps : F (frame enrolled_num EndpointIn.status) → Keeps I (send_arm env)
  unfolding send_arm
  send_arm-Keeps allowed =
      Triple-bind (command env enrolled_num) _ (command-Keeps enrolled_num allowed) λ raw.
        Triple-bind (lift (map_err proto (parse enrolled_num raw))) _ (lift-Keeps _) count_of-Keeps

  pub arm-Keeps : Keeps I (arm env)
  unfolding arm
  arm-Keeps = Triple-modify _ (λ m h. rewires m m.worker.usb true h)

  pub read_store-Keeps : Keeps I (read_store env)
  unfolding read_store
  read_store-Keeps = record {
    at = λ m h.
        (lift-Keeps (map_err store (open_store env.json (env.reads m.clock) m.files))).at _
          (ticks m h);
  }

  drop_lost-Keeps : (r : Result (List ℕ) WorkerError) (m : Machine) → I m → I (drop_lost env r m)
  unfolding drop_lost
  drop_lost-Keeps (err (usb disconnected)) m h = rewires m false false h
  drop_lost-Keeps _ m h = h

  settle-Keeps : (r : Result (List ℕ) WorkerError) → Keeps I (settle env r)
  unfolding settle
  settle-Keeps r = record { at = λ m h. (lift-Keeps r).at _ (drop_lost-Keeps r m h) }

  -- A round that ends in an error promises nothing of a result.
  pub settle_fails :
      {Q : List ℕ → Machine → Type 0} (e : WorkerError) → Triple I (settle env (err e)) Q I
  unfolding settle lift
  settle_fails e = record { at = λ m h. drop_lost-Keeps (err e) m h }

  pub round-Keeps : (f : Frame) → F f → Keeps I (round env f)
  unfolding round
  round-Keeps f allowed = Triple-bind require_usb _ require_usb-Keeps λ _.
      Triple-bind (gets (λ m. env.cancels m.clock)) _ (Triple-gets _ (λ m h. h)) λ stop.
        Triple-if stop _ _ (λ _. Triple-fail cancelled (λ m h. h))
          λ _. Triple-bind (transact env f) _ (transact-Keeps f allowed) λ r. settle-Keeps _

  aborted-Keeps :
      F (frame abort EndpointIn.status)
      → (m : Machine) (b : Bool) → I m
      → Post
          (λ _. I)
          I
          (if b then (do r ← transact env (frame abort EndpointIn.status); skip) m else skip m)
  aborted-Keeps allowed m true h =
      (Triple-bind (transact env (frame abort EndpointIn.status)) _ (transact-Keeps _ allowed)
          λ r. skip-Keeps).at
        m h
  aborted-Keeps allowed m false h = skip-Keeps.at m h

  pub abort_session-Keeps : F (frame abort EndpointIn.status) → Keeps I (abort_session env)
  unfolding abort_session
  abort_session-Keeps allowed = record { at = λ m h. aborted-Keeps allowed m m.worker.usb h }

  disarm-Keeps : Keeps I (disarm env)
  unfolding disarm
  disarm-Keeps = Triple-modify _ (λ m h. rewires m m.worker.usb false h)

  machine_of : (x : Outcome (Unit {0}) × Machine) → Post (λ _. I) I x → I x.1
  machine_of (done a, m) h = h
  machine_of (failed e, m) h = h
  machine_of (waiting, m) h = h

  -- The cleanup after a failed operation.
  pub abandon-Keeps :
      F (frame abort EndpointIn.status)
      → (m : Machine) → I m
      → I ((do abort_session env; disarm env) m).1
  abandon-Keeps allowed m h =
      machine_of ((do abort_session env; disarm env) m)
        ((Triple-bind (abort_session env) _ (abort_session-Keeps allowed) λ _. disarm-Keeps).at m h)
