-- ===== src/Daemon/Worker/Verify/Kept.antt =====
-- crates/elanprintd/src/worker.rs: `Worker::verify` and the claim.
use elanprint_rs.Prelude.{
  ℕ, zero, suc, String, refl, Bool, true, false, not, Option, none, some, Result, ok, err, str_eq,
  ◌&&◌, if◌then◌else◌, map_err,
}
use elanprint_rs.Prelude.BTreeMap.{number_ord, get}
use elanprint_rs.Proto.Status.{ProtoError, VerifyOutcome, match, verify_outcome}
use elanprint_rs.Proto.Command.{Command}
use elanprint_rs.Proto.Response.{Response, parse}
use elanprint_rs.Algo.Strings.{verify_status, verify_no_match, verify_unknown_error}
use elanprint_rs.Store.{is_valid_finger}
use elanprint_rs.Daemon.Machine.{
  OpEvent, verify_finger_selected, OpState, proto, bad_finger, Env, Machine,
}
use elanprint_rs.Daemon.Exec.{Exec, ◌>>=◌, ◌>>◌, pure, lift, skip}
use elanprint_rs.Daemon.Exec.Triple.{
  Post, Keeps, Triple-pure, Triple-fail, Triple-wait, Triple-if, Triple-bind,
}
use elanprint_rs.Daemon.Worker.Device.{claim_user, emit, send_arm, arm, read_store, round}
use elanprint_rs.Daemon.Worker.Verify.{
  Allowed, allowed_slots, is_done, or_unknown, judged, touched, touch_frame, one_touch, verify_loop,
  ensure_armed, check_name, verify_inner, verify,
}
use elanprint_rs.Daemon.Worker.Kept.{
  Held, lift-Held, skip-Held, send_arm-Held, arm-Held, read_store-Held, round-Held, emit-Held,
  claim_user-Held, run_op-Held,
}

module _ (env : Env) (c : Option String) (s : OpState) where
  selected-Held :
      (o : Option String) (result : String)
      → Keeps (Held c s) (elim o [
        | some name ↦ emit (verify_finger_selected name) >> pure result
        | none ↦ pure verify_no_match
      ])
  selected-Held (some name) result =
      Triple-bind (emit (verify_finger_selected name)) _ (emit-Held env c s _)
        λ _. Triple-pure result (λ m h. h)
  selected-Held none result = Triple-pure verify_no_match (λ m h. h)

  judged-Held :
      (allowed : Allowed) (o : Result VerifyOutcome ProtoError) (result : String)
      → Keeps (Held c s) (judged allowed o result)
  unfolding judged
  judged-Held allowed (ok (match id)) result = selected-Held (get id allowed) result
  judged-Held allowed (ok _) result = Triple-pure result (λ m h. h)
  judged-Held allowed (err e) result = Triple-pure result (λ m h. h)

  answer-Held :
      (result : String) (over : Bool)
      → Keeps (Held c s) (do emit (OpEvent.verify_status result over); pure over)
  answer-Held result over =
      Triple-bind (emit (OpEvent.verify_status result over)) _ (emit-Held env c s _)
        λ _. Triple-pure over (λ m h. h)

  touched-Held : (allowed : Allowed) (r : Response) → Keeps (Held c s) (touched allowed r)
  unfolding touched
  touched-Held allowed (Response.verify byte0 status) =
      Triple-bind (judged allowed (verify_outcome status) (or_unknown (verify_status status))) _
        (judged-Held allowed _ _) λ result. answer-Held result (is_done (verify_outcome status))
  touched-Held allowed _ = answer-Held verify_unknown_error true

  verify_loop-Held :
      (fuel : ℕ) (allowed : Allowed) → Keeps (Held c s) (verify_loop env fuel allowed)
  unfolding verify_loop one_touch
  verify_loop-Held zero allowed = Triple-wait (λ m h. h)
  verify_loop-Held (suc fuel) allowed =
      Triple-bind (one_touch env allowed) _
        (Triple-bind (round env touch_frame) _ (round-Held env c s touch_frame) λ raw.
          Triple-bind (lift (map_err proto (parse Command.verify raw))) _ (lift-Held env c s _)
            λ reply. touched-Held allowed reply)
        (go (verify_loop-Held fuel allowed))
    where
      go :
          {rest : Exec (Unit {0})}
          → Keeps (Held c s) rest
          → (over : Bool) → Keeps (Held c s) (elim over [ true ↦ skip | false ↦ rest ])
      go t true = skip-Held env c s
      go t false = t

  ensure_armed-Held : Keeps (Held c s) (ensure_armed env)
  unfolding ensure_armed
  ensure_armed-Held = record { at = λ m h. by_flag m m.worker.armed h }
    where
      by_flag :
          (m : Machine) (b : Bool)
          → Held c s m
          → Post
              (λ _. Held c s)
              (Held c s)
              (if b then skip m else (do count ← send_arm env; arm env) m)
      by_flag m true h = (skip-Held env c s).at m h
      by_flag m false h =
          (Triple-bind (send_arm env) _ (send_arm-Held env c s) λ n. arm-Held env c s).at m h

  inner-Held : (fuel : ℕ) (finger : String) → Keeps (Held c s) (verify_inner env fuel finger)
  unfolding verify_inner check_name
  inner-Held fuel finger = Triple-bind (ensure_armed env) _ ensure_armed-Held λ _.
      Triple-bind claim_user _ (claim_user-Held env c s) λ user.
        Triple-bind (check_name env finger) _
          (Triple-if (not (str_eq finger "any") && not (is_valid_finger finger)) _ _
            (λ _. Triple-fail (bad_finger finger) (λ m h. h)) (λ _. skip-Held env c s))
          λ _. Triple-bind (read_store env) _ (read_store-Held env c s) λ p.
            Triple-bind (lift (allowed_slots user finger p)) _ (lift-Held env c s _)
              λ allowed. verify_loop-Held fuel allowed

pub verify-Held :
    (env : Env) (fuel : ℕ) (finger : String) (m : Machine)
    → Held m.worker.claimed m.worker.state (verify env fuel finger m).1
unfolding verify
verify-Held env fuel finger m =
    run_op-Held env m.worker.claimed m.worker.state (verify_inner env fuel finger) m
      (inner-Held env m.worker.claimed m.worker.state fuel finger) (refl, refl)
