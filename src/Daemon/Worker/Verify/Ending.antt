-- ===== src/Daemon/Worker/Verify/Ending.antt =====
-- crates/elanprintd/src/worker.rs: the terminal event of `Worker::verify`.
use elanprint_rs.Prelude.{
  ℕ, zero, suc, String, refl, Bool, true, false, not, Option, none, some, Result, ok, err, str_eq,
  ◌&&◌, if◌then◌else◌, map_err,
}
use elanprint_rs.Prelude.BTreeMap.{number_ord, get}
use elanprint_rs.Proto.Status.{ProtoError, VerifyOutcome, match, verify_outcome}
use elanprint_rs.Proto.Command.{Command}
use elanprint_rs.Proto.Response.{Response, parse}
use elanprint_rs.Algo.Strings.{verify_status, verify_no_match, verify_unknown_error}
use elanprint_rs.Store.{is_valid_finger}
use elanprint_rs.Daemon.Machine.{
  OpEvent, is_terminal, verify_finger_selected, proto, bad_finger, Env, Machine,
}
use elanprint_rs.Daemon.Exec.{Exec, ◌>>=◌, ◌>>◌, pure, lift, skip}
use elanprint_rs.Daemon.Exec.Triple.{
  Post, Triple, Keeps, Triple-pure, Triple-fail, Triple-wait, Triple-if, Triple-bind,
}
use elanprint_rs.Daemon.Worker.Device.{claim_user, emit, arm, send_arm, read_store, round}
use elanprint_rs.Daemon.Worker.Terminal.{
  Fresh, Ended, Ending, emit-Fresh, emit-Ended, run_op-Ending, quiet_round, quiet_lift,
  quiet_send_arm, quiet_arm, quiet_read, quiet_claim,
}
use elanprint_rs.Daemon.Worker.Verify.{
  Allowed, allowed_slots, is_done, or_unknown, judged, touched, touch_frame, one_touch, verify_loop,
  ensure_armed, check_name, verify_inner, verify,
}

-- Over with the terminal event sent, or not over and none sent.
abbrev Toward : Bool → Machine → Type 0
Toward true m = Ended m
Toward false m = Fresh m

selected-Fresh :
    (o : Option String) (result : String)
    → Keeps Fresh (elim o [
      | some name ↦ emit (verify_finger_selected name) >> pure result
      | none ↦ pure verify_no_match
    ])
unfolding is_terminal
selected-Fresh (some name) result =
    Triple-bind (emit (verify_finger_selected name)) _ (emit-Fresh _ refl)
      λ _. Triple-pure result (λ m h. h)
selected-Fresh none result = Triple-pure verify_no_match (λ m h. h)

judged-Fresh :
    (allowed : Allowed) (o : Result VerifyOutcome ProtoError) (result : String)
    → Keeps Fresh (judged allowed o result)
unfolding judged
judged-Fresh allowed (ok (match id)) result = selected-Fresh (get id allowed) result
judged-Fresh allowed (ok _) result = Triple-pure result (λ m h. h)
judged-Fresh allowed (err e) result = Triple-pure result (λ m h. h)

answer-Toward :
    (result : String) (over : Bool)
    → Triple Fresh (do emit (OpEvent.verify_status result over); pure over) Toward Fresh
unfolding is_terminal
answer-Toward result true =
    Triple-bind (emit _) _ (emit-Ended (OpEvent.verify_status result true) refl)
      λ _. Triple-pure true (λ m h. h)
answer-Toward result false =
    Triple-bind (emit _) _ (emit-Fresh (OpEvent.verify_status result false) refl)
      λ _. Triple-pure false (λ m h. h)

touched-Toward : (allowed : Allowed) (r : Response) → Triple Fresh (touched allowed r) Toward Fresh
unfolding touched
touched-Toward allowed (Response.verify byte0 status) =
    Triple-bind (judged allowed (verify_outcome status) (or_unknown (verify_status status))) _
      (judged-Fresh allowed _ _) λ result. answer-Toward result (is_done (verify_outcome status))
touched-Toward allowed _ = answer-Toward verify_unknown_error true

module _ (env : Env) (allowed : Allowed) where
  one_touch-Toward : Triple Fresh (one_touch env allowed) Toward Fresh
  unfolding one_touch
  one_touch-Toward = Triple-bind (round env touch_frame) _ (quiet_round env touch_frame) λ raw.
      Triple-bind (lift (map_err proto (parse Command.verify raw))) _ (quiet_lift env _)
        λ reply. touched-Toward allowed reply

  verify_loop-Ended : (fuel : ℕ) → Triple Fresh (verify_loop env fuel allowed) (λ _. Ended) Fresh
  unfolding verify_loop skip
  verify_loop-Ended zero = Triple-wait (λ m h. h)
  verify_loop-Ended (suc fuel) =
      Triple-bind (one_touch env allowed) _ one_touch-Toward (go (verify_loop-Ended fuel))
    where
      go :
          {rest : Exec (Unit {0})}
          → Triple Fresh rest (λ _. Ended) Fresh
          → (over : Bool)
          → Triple (Toward over) (elim over [ true ↦ skip | false ↦ rest ]) (λ _. Ended) Fresh
      go t true = Triple-pure tt (λ m h. h)
      go t false = t

skip-Fresh : Keeps Fresh skip
unfolding skip
skip-Fresh = Triple-pure tt (λ m h. h)

ensure_armed-Fresh : (env : Env) → Keeps Fresh (ensure_armed env)
unfolding ensure_armed
ensure_armed-Fresh env = record { at = λ m h. by_flag m m.worker.armed h }
  where
    by_flag :
        (m : Machine) (b : Bool)
        → Fresh m
        → Post (λ _. Fresh) Fresh (if b then skip m else (do count ← send_arm env; arm env) m)
    by_flag m true h = skip-Fresh.at m h
    by_flag m false h =
        (Triple-bind (send_arm env) _ (quiet_send_arm env) λ n. quiet_arm env).at m h

inner-Ended :
    (env : Env) (fuel : ℕ) (finger : String)
    → Triple Fresh (verify_inner env fuel finger) (λ _. Ended) Fresh
unfolding verify_inner check_name
inner-Ended env fuel finger = Triple-bind (ensure_armed env) _ (ensure_armed-Fresh env) λ _.
    Triple-bind claim_user _ quiet_claim λ user.
      Triple-bind (check_name env finger) _
        (Triple-if (not (str_eq finger "any") && not (is_valid_finger finger)) _ _
          (λ _. Triple-fail (bad_finger finger) (λ m h. h)) (λ _. skip-Fresh))
        λ _. Triple-bind (read_store env) _ (quiet_read env) λ p.
          Triple-bind (lift (allowed_slots user finger p)) _ (quiet_lift env _)
            λ allowed. verify_loop-Ended env allowed fuel

-- A verification that is over has sent exactly one terminal event, as its last event, whether it
-- succeeded or failed; one that still waits for a touch has sent none.
pub verify-Ending :
    (env : Env) (fuel : ℕ) (finger : String) (m : Machine)
    → Fresh m
    → Ending (verify env fuel finger m)
unfolding verify
verify-Ending env fuel finger m h =
    run_op-Ending env (verify_inner env fuel finger) m (inner-Ended env fuel finger) h
