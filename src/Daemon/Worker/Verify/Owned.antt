-- ===== src/Daemon/Worker/Verify/Owned.antt =====
-- crates/elanprintd/src/worker.rs: the match events of a whole `Worker::verify`.
use elanprint_rs.Prelude.{
  ℕ, zero, suc, ◌+◌, String, ◌≡◌, refl, sym, subst, inl, Bool, true, false, not, List, [], ◌∷◌,
  Option, none, some, Result, ok, err, arith, All, str_eq, str_eq_iff, ◌&&◌, if◌then◌else◌, map_err,
}
use elanprint_rs.Prelude.BTreeMap.{number_ord, get}
use elanprint_rs.Proto.Command.{Command}
use elanprint_rs.Proto.Response.{parse}
use elanprint_rs.Algo.Strings.{
  verify_match, verify_disconnected, verify_no_match, verify_unknown_error,
}
use elanprint_rs.Usb.{EndpointIn, UsbError, short_read, disconnected}
use elanprint_rs.Store.{Prints, StoreError, is_valid_finger}
use elanprint_rs.Store.File.{Files, open_store}
use elanprint_rs.Daemon.Machine.{
  OpEvent, OpKind, WorkerError, unclaimed, usb, proto, store, bad_finger, no_prints, not_enrolled,
  cancelled, verify_terminal, Frame, Traffic, sent, Env, Machine,
}
use elanprint_rs.Daemon.Exec.{
  Outcome, Exec, done, failed, waiting, ◌>>=◌, ◌>>◌, lift, gets, modify, skip,
}
use elanprint_rs.Daemon.Exec.Triple.{
  Post, Triple, Triple-fail, Triple-wait, Triple-lift, Triple-gets, Triple-if, Triple-bind,
}
use elanprint_rs.Daemon.Worker.Device.{
  claim_user, emit, close, closing_event, closing_text, transact, read_store, round, round_result,
  settle, finish_op, run_op, arm, send_arm,
}
use elanprint_rs.Daemon.Worker.Device.Quiet.{
  require_usb-Keeps, skip-Keeps, send_arm-Keeps, arm-Keeps, settle_fails, abandon-Keeps,
}
use elanprint_rs.Daemon.Worker.Verify.{
  Allowed, allowed_slots, touch_frame, one_touch, verify_loop, ensure_armed, check_name,
  verify_inner, verify,
}
use elanprint_rs.Daemon.Worker.Verify.Allowed.{Owns, allowed_slots-Owns}
use elanprint_rs.Daemon.Worker.Verify.Grant.{
  carried, Answered, Justified, All-later, After, reply-Keeps,
}

-- The store, at some reading, says that the user's finger `name` has the slot, and the finger is the
-- requested one, unless any will do.
abbrev pub Owner : Env → Files → String → String → String → ℕ → Type 0
Owner env fs user finger name id =
    (p : Prints) × (c : ℕ) × (open_store env.json (env.reads c) fs ≡ ok p)
    × Owns user finger p name id

abbrev Any : Frame → Type 0
Any f = Unit

module _ (env : Env) (fs : Files) (user finger : String) where
  abbrev Mine : String → ℕ → Type 0
  Mine = Owner env fs user finger

  abbrev I : Machine → Type 0
  I m = (m.worker.claimed ≡ some user) × (m.files ≡ fs) × All (Justified Mine m.log) m.sink.events

  sends :
      (m : Machine) (f : Frame) (r : Result (List ℕ) UsbError)
      → Any f
      → I m
      → I (record m { clock = m.clock + 1; log = sent f r ∷ m.log })
  sends m f r t h = (h.0, h.1, All-later Mine (sent f r) m.log m.sink.events h.2)

  ticks : (m : Machine) → I m → I (record m { clock = m.clock + 1 })
  ticks m h = h

  rewires :
      (m : Machine) (handle flag : Bool)
      → I m
      → I (record m { worker = record m.worker { usb = handle; armed = flag } })
  rewires m handle flag h = h

  emits : (m : Machine) (e : OpEvent) → Justified Mine m.log e → I m → I (emit e m).1
  unfolding emit modify
  emits m e j h = (h.0, h.1, (j, h.2))

  -- What an exchange for a touch leaves in the log.
  Said : Result (List ℕ) UsbError → Machine → Type 0
  Said r m = I m × Answered (carried r) m.log

  transact-Said : Triple I (transact env touch_frame) Said I
  unfolding transact Said
  transact-Said = record {
    at = λ m h. (sends m touch_frame (env.answers m.clock) tt h, inl (refl, refl));
  }

  forget-Said :
      (r : Result (List ℕ) UsbError) (e : WorkerError)
      → Triple (Said r) (settle env (err e)) (After I) I
  unfolding Said
  forget-Said r e = record { at = λ m h. (settle_fails env I Any sends ticks rewires e).at m h.0 }

  keep-Said :
      (r : Result (List ℕ) UsbError) (raw : List ℕ)
      → carried r ≡ raw
      → Triple (Said r) (settle env (ok raw)) (After I) I
  unfolding Said settle lift
  keep-Said r raw e = record { at = λ m h. (h.0, subst (λ x. Answered x m.log) e h.1) }

  settle-After :
      (r : Result (List ℕ) UsbError)
      → Triple (Said r) (settle env (round_result env EndpointIn.touch_wait r)) (After I) I
  unfolding round_result
  settle-After (ok bytes) = keep-Said (ok bytes) bytes refl
  settle-After (err (short_read wanted got bytes)) =
      keep-Said (err (short_read wanted got bytes)) bytes refl
  settle-After (err e) = forget-Said (err e) _

  round-After : Triple I (round env touch_frame) (After I) I
  unfolding round
  round-After = Triple-bind _ _ (require_usb-Keeps env I Any sends ticks rewires) λ _.
      Triple-bind (gets (λ m. env.cancels m.clock)) _ (Triple-gets _ (λ m h. h)) λ stop.
        Triple-if stop _ _ (λ _. Triple-fail cancelled (λ m h. h))
          λ _. Triple-bind (transact env touch_frame) _ transact-Said settle-After

  module _ (allowed : Allowed)
      (owned : (id : ℕ) (name : String) → get id allowed ≡ some name → Mine name id) where
    one_touch-Keeps : Triple I (one_touch env allowed) (λ _. I) I
    unfolding one_touch
    one_touch-Keeps = Triple-bind (round env touch_frame) _ round-After λ raw.
        Triple-bind
          {Q = λ reply m. After I raw m × (map_err proto (parse Command.verify raw) ≡ ok reply)}
          (lift (map_err proto (parse Command.verify raw))) _
          (Triple-lift _ (λ reply e m h. (h, e)) (λ m h. h.0))
          λ reply. record {
            at = λ m h. (reply-Keeps Mine allowed owned I emits raw reply h.1).at m h.0;
          }

    verify_loop-Keeps : (fuel : ℕ) → Triple I (verify_loop env fuel allowed) (λ _. I) I
    unfolding verify_loop
    verify_loop-Keeps zero = Triple-wait (λ m h. h)
    verify_loop-Keeps (suc fuel) =
        Triple-bind (one_touch env allowed) _ one_touch-Keeps (go (verify_loop-Keeps fuel))
      where
        go :
            {rest : Exec (Unit {0})}
            → Triple I rest (λ _. I) I
            → (over : Bool) → Triple I (elim over [ true ↦ skip | false ↦ rest ]) (λ _. I) I
        go t true = skip-Keeps env I Any sends ticks rewires
        go t false = t

  ensure_armed-Keeps : Triple I (ensure_armed env) (λ _. I) I
  unfolding ensure_armed
  ensure_armed-Keeps = record { at = λ m h. by_flag m m.worker.armed h }
    where
      by_flag :
          (m : Machine) (b : Bool)
          → I m
          → Post (λ _. I) I (if b then skip m else (do count ← send_arm env; arm env) m)
      by_flag m true h = (skip-Keeps env I Any sends ticks rewires).at m h
      by_flag m false h =
          (Triple-bind (send_arm env) _ (send_arm-Keeps env I Any sends ticks rewires tt)
              λ count. arm-Keeps env I Any sends ticks rewires).at
            m h

  claim_user-Is : Triple I claim_user (λ u m. I m × (u ≡ user)) I
  unfolding claim_user
  claim_user-Is = record { at = λ m h. by_claim m m.worker.claimed h.0 h }
    where
      by_claim :
          (m : Machine) (o : Option String)
          → o ≡ some user
          → I m
          → Post
              (λ u n. I n × (u ≡ user))
              I
              (elim o [ none ↦ failed unclaimed | some u ↦ done u ], m)
      by_claim m none e h = h
      by_claim m (some u) e h = (h, ground (arith, e))

  check_name-Keeps : Triple I (check_name env finger) (λ _. I) I
  unfolding check_name
  check_name-Keeps =
      Triple-if (not (str_eq finger "any") && not (is_valid_finger finger)) _ _
        (λ _. Triple-fail (bad_finger finger) (λ m h. h))
        (λ _. skip-Keeps env I Any sends ticks rewires)

  Read : Prints → Machine → Type 0
  Read p m = I m × ((c : ℕ) × (open_store env.json (env.reads c) fs ≡ ok p))

  read_store-Read : Triple I (read_store env) Read I
  unfolding read_store Read lift
  read_store-Read = record {
    at = λ m h. by_read m (open_store env.json (env.reads m.clock) m.files) refl h;
  }
    where
      by_read :
          (m : Machine) (r : Result Prints StoreError)
          → open_store env.json (env.reads m.clock) m.files ≡ r
          → I m
          → Post Read I (lift (map_err store r) (record m { clock = m.clock + 1 }))
      by_read m (ok p) e h =
          (h, (m.clock, subst (λ x. open_store env.json (env.reads m.clock) x ≡ ok p) h.1 e))
      by_read m (err x) e h = h

  rest-Keeps :
      (fuel : ℕ)
      → Triple I
          (do
            check_name env finger
            p ← read_store env
            allowed ← lift (allowed_slots user finger p)
            verify_loop env fuel allowed)
          (λ _. I)
          I
  unfolding Read
  rest-Keeps fuel = Triple-bind (check_name env finger) _ check_name-Keeps λ _.
      Triple-bind (read_store env) _ read_store-Read λ p.
        Triple-bind {Q = λ a m. Read p m × (allowed_slots user finger p ≡ ok a)}
          (lift (allowed_slots user finger p)) _ (Triple-lift _ (λ a e m h. (h, e)) (λ m h. h.0))
          λ a. record {
            at = λ m h.
                (verify_loop-Keeps a
                    (λ id name g.
                      (p, h.0.1.0, h.0.1.1, allowed_slots-Owns user finger name id p a h.1 g))
                    fuel).at
                  m h.0.0;
          }

  inner-Keeps : (fuel : ℕ) → Triple I (verify_inner env fuel finger) (λ _. I) I
  unfolding verify_inner
  inner-Keeps fuel = Triple-bind (ensure_armed env) _ ensure_armed-Keeps λ _.
      Triple-bind claim_user _ claim_user-Is λ u. record {
        at = λ m h.
            subst
              (λ v.
                Post (λ _. I) I
                  ((do
                    check_name env finger
                    p ← read_store env
                    allowed ← lift (allowed_slots v finger p)
                    verify_loop env fuel allowed)
                    m))
              (sym h.1) ((rest-Keeps fuel).at m h.0);
      }

  unknown-ne : verify_unknown_error ≡ verify_match → ⊥
  unknown-ne h = ground (arith, h, str_eq_iff verify_unknown_error verify_match)

  -- No error closes a verification with a match.
  verify_terminal-ne : (e : WorkerError) → verify_terminal e ≡ verify_match → ⊥
  unfolding verify_terminal
  verify_terminal-ne (usb disconnected) h =
      ground (arith, h, str_eq_iff verify_disconnected verify_match)
  verify_terminal-ne (no_prints u) h = ground (arith, h, str_eq_iff verify_no_match verify_match)
  verify_terminal-ne (not_enrolled f) h = ground (arith, h, str_eq_iff verify_no_match verify_match)
  verify_terminal-ne _ h = unknown-ne h

  closing-Justified :
      (k : OpKind) (o : Outcome (Unit {0})) (log : List Traffic)
      → Justified Mine log (closing_event k (closing_text k o))
  closing-Justified OpKind.enroll o log = tt
  closing-Justified OpKind.verify (failed e) log = inl (verify_terminal-ne e)
  closing-Justified OpKind.verify (done a) log = inl unknown-ne
  closing-Justified OpKind.verify waiting log = inl unknown-ne

  close-Keeps : (o : Outcome (Unit {0})) (m : Machine) → I m → I (close o m)
  unfolding close
  close-Keeps o m h = by_flag m.sink.terminal_sent
    where
      last : OpEvent
      last = closing_event m.sink.kind (closing_text m.sink.kind o)

      by_flag : (b : Bool) → I (if b then m else (emit last m).1)
      by_flag true = h
      by_flag false = emits m last (closing-Justified m.sink.kind o m.log) h

  finish_op-Keeps : (x : Outcome (Unit {0}) × Machine) → Post (λ _. I) I x → I (finish_op env x).1
  unfolding finish_op
  finish_op-Keeps (waiting, m) h = h
  finish_op-Keeps (done a, m) h = close-Keeps (done a) m h
  finish_op-Keeps (failed e, m) h =
      close-Keeps (failed e) _ (abandon-Keeps env I Any sends ticks rewires tt m h)

  verify-Keeps : (fuel : ℕ) (m : Machine) → I m → I (verify env fuel finger m).1
  unfolding verify run_op
  verify-Keeps fuel m h =
      finish_op-Keeps (verify_inner env fuel finger m) ((inner-Keeps fuel).at m h)

-- Only the claim's own finger is ever reported as a match: started with an empty sink, each
-- "verify-match" that a verification sends goes back to two bytes that the log holds as the chip's
-- answer to a wait for a touch, and the slot that they name is mapped by the store to a finger of the
-- user who holds the claim, the requested finger unless "any" was asked for. A match of a slot that
-- belongs to another user, or to nobody, is never reported as a match. This holds after any number
-- of rounds, also of a verification that still waits or has failed.
pub verify-Justified :
    (env : Env) (fuel : ℕ) (user finger : String) (m : Machine)
    → m.worker.claimed ≡ some user
    → m.sink.events ≡ []
    → let n = (verify env fuel finger m).1 in
      All (Justified (Owner env m.files user finger) n.log) n.sink.events
verify-Justified env fuel user finger m claimed fresh =
    (verify-Keeps env m.files user finger fuel m (
      claimed,
      refl,
      subst (All (Justified (Owner env m.files user finger) m.log)) (sym fresh) tt,
    )).2
