-- ===== src/Daemon/Worker/EnrollOp/Ending.antt =====
-- crates/elanprintd/src/worker.rs: the terminal event of `Worker::enroll`.
use elanprint_rs.Prelude.{
  ℕ, zero, suc, String, refl, Bool, true, false, List, [], ◌∷◌, Option, none, some, if◌then◌else◌,
  map_err,
}
use elanprint_rs.Proto.Command.{Command}
use elanprint_rs.Proto.Response.{parse}
use elanprint_rs.Proto.Enroll.{
  Enroll, EnrollAction, send, emit_progress, emit_retry, complete, fail_with, Read, step, take_send,
  pending_read,
}
use elanprint_rs.Algo.Strings.{enroll_completed, enroll_stage_passed, enroll_retry}
use elanprint_rs.Usb.{EndpointIn}
use elanprint_rs.Store.{Prints, is_valid_finger, slot_of}
use elanprint_rs.Store.File.{save}
use elanprint_rs.Store.Slots.{writable_slots, tracked_slots}
use elanprint_rs.Daemon.Machine.{OpEvent, is_terminal, store, bad_finger, Env, Machine}
use elanprint_rs.Daemon.Exec.{Exec, pure, fail, lift, skip}
use elanprint_rs.Daemon.Exec.Triple.{
  Triple, Keeps, Triple-pure, Triple-fail, Triple-wait, Triple-if, Triple-bind,
}
use elanprint_rs.Daemon.Worker.Device.{
  claim_user, emit, frame, arm, send_arm, read_store, write_store, round,
}
use elanprint_rs.Daemon.Worker.Terminal.{
  Fresh, Ended, Ending, emit-Fresh, emit-Ended, run_op-Ending, quiet_round, quiet_lift,
  quiet_send_arm, quiet_arm, quiet_read, quiet_claim,
}
use elanprint_rs.Daemon.Worker.EnrollOp.{
  is_vetoed, enroll_frame, probe, free_slot, record_print, taken_bytes, acted, exchanged,
  enroll_loop, begun, unless_enrolled, enroll_inner, enroll_op,
}

skip-Fresh : Keeps Fresh skip
unfolding skip
skip-Fresh = Triple-pure tt (λ m h. h)

module _ (env : Env) where
  write_store-Fresh : (p : Prints) → Keeps Fresh (write_store env p)
  unfolding write_store
  write_store-Fresh p = record {
    at = λ m h.
        (quiet_lift env (map_err store (save env.json (env.saves m.clock) p m.files).1)).at _ h;
  }

  probe-Fresh : (ids : List ℕ) → Keeps Fresh (probe env ids)
  unfolding probe
  probe-Fresh [] = Triple-fail _ (λ m h. h)
  probe-Fresh (id ∷ ids) =
      Triple-bind (round env _) _
        (quiet_round env (frame (Command.finger_info id) EndpointIn.status))
        λ raw. go (probe-Fresh ids) (is_vetoed (parse (Command.finger_info id) raw))
    where
      go :
          {rest : Exec ℕ}
          → Keeps Fresh rest
          → (b : Bool) → Keeps Fresh (elim b [ true ↦ rest | false ↦ pure id ])
      go t true = t
      go t false = Triple-pure id (λ m h. h)

  free_slot-Fresh : Keeps Fresh (free_slot env)
  unfolding free_slot
  free_slot-Fresh = Triple-bind (send_arm env) _ (quiet_send_arm env) λ count.
      Triple-bind (arm env) _ (quiet_arm env) λ _.
        Triple-bind (read_store env) _ (quiet_read env)
          λ p. probe-Fresh (writable_slots count (tracked_slots p))

  record_print-Ended :
      (finger user : String) (id : ℕ)
      → Triple Fresh (record_print env finger user id) (λ _. Ended) Fresh
  unfolding record_print is_terminal
  record_print-Ended finger user id = Triple-bind (read_store env) _ (quiet_read env) λ p.
      Triple-bind (lift _) _ (quiet_lift env _) λ q.
        Triple-bind (write_store env q) _ (write_store-Fresh q)
          λ _. emit-Ended (OpEvent.enroll_status enroll_completed true) refl

  taken_bytes-Fresh : (a : Option EnrollAction) → Keeps Fresh (taken_bytes env a)
  unfolding taken_bytes
  taken_bytes-Fresh (some (send next)) = Triple-pure next (λ m h. h)
  taken_bytes-Fresh _ = Triple-fail _ (λ m h. h)

  module _ (finger user : String) (again : Enroll → List ℕ → Exec (Unit {0}))
      (ends : (sm : Enroll) (out : List ℕ) → Triple Fresh (again sm out) (λ _. Ended) Fresh) where
    acted-Ended :
        (sm : Enroll) (a : EnrollAction)
        → Triple Fresh (acted env finger user again sm a) (λ _. Ended) Fresh
    unfolding acted is_terminal
    acted-Ended sm (emit_progress k n) =
        Triple-bind (emit _) _ (emit-Fresh (OpEvent.enroll_status enroll_stage_passed false) refl)
          λ _.
            Triple-bind (taken_bytes env (take_send sm).1) _ (taken_bytes-Fresh _)
              λ next. ends (take_send sm).0 next
    acted-Ended sm (emit_retry r) =
        Triple-bind (emit _) _ (emit-Fresh (OpEvent.enroll_status (enroll_retry r) false) refl) λ _.
          Triple-bind (taken_bytes env (take_send sm).1) _ (taken_bytes-Fresh _)
            λ next. ends (take_send sm).0 next
    acted-Ended sm (send next) = ends sm next
    acted-Ended sm (complete id) = record_print-Ended finger user id
    acted-Ended sm (fail_with e) = Triple-fail _ (λ m h. h)

    exchanged-Ended :
        (sm : Enroll) (out : List ℕ) (r : Option Read)
        → Triple Fresh (exchanged env finger user again sm out r) (λ _. Ended) Fresh
    unfolding exchanged
    exchanged-Ended sm out none = Triple-fail _ (λ m h. h)
    exchanged-Ended sm out (some r) =
        Triple-bind (round env _) _ (quiet_round env (enroll_frame out r))
          λ raw. acted-Ended (step sm raw).0 (step sm raw).1

  enroll_loop-Ended :
      (fuel : ℕ) (finger user : String) (sm : Enroll) (out : List ℕ)
      → Triple Fresh (enroll_loop env fuel finger user sm out) (λ _. Ended) Fresh
  unfolding enroll_loop
  enroll_loop-Ended zero finger user sm out = Triple-wait (λ m h. h)
  enroll_loop-Ended (suc fuel) finger user sm out =
      exchanged-Ended finger user _ (enroll_loop-Ended fuel finger user) sm out (pending_read sm)

  begun-Ended :
      (fuel : ℕ) (finger user : String) (sm : Enroll) (a : EnrollAction)
      → Triple Fresh (begun env fuel finger user sm a) (λ _. Ended) Fresh
  unfolding begun
  begun-Ended fuel finger user sm (send out) = enroll_loop-Ended fuel finger user sm out
  begun-Ended fuel finger user sm _ = Triple-fail _ (λ m h. h)

  unless_enrolled-Fresh :
      (finger : String) (o : Option ℕ) → Keeps Fresh (unless_enrolled env finger o)
  unfolding unless_enrolled
  unless_enrolled-Fresh finger none = skip-Fresh
  unless_enrolled-Fresh finger (some slot) = Triple-fail _ (λ m h. h)

  inner-Ended :
      (fuel : ℕ) (finger : String) → Triple Fresh (enroll_inner env fuel finger) (λ _. Ended) Fresh
  unfolding enroll_inner
  inner-Ended fuel finger = Triple-bind claim_user _ quiet_claim λ user.
      Triple-bind (if is_valid_finger finger then skip else fail (bad_finger finger)) _
        (Triple-if (is_valid_finger finger) _ _ (λ _. skip-Fresh) (λ _. Triple-fail _ (λ m h. h)))
        λ _. Triple-bind (read_store env) _ (quiet_read env) λ p.
          Triple-bind (unless_enrolled env finger (slot_of user finger p)) _
            (unless_enrolled-Fresh finger _)
            λ _.
              Triple-bind (free_slot env) _ free_slot-Fresh λ slot. begun-Ended fuel finger user _ _

-- An enrollment that is over has sent exactly one terminal event, as its last event, whether it
-- succeeded or failed; one that still waits for touches has sent none.
pub enroll_op-Ending :
    (env : Env) (fuel : ℕ) (finger : String) (m : Machine)
    → Fresh m
    → Ending (enroll_op env fuel finger m)
unfolding enroll_op
enroll_op-Ending env fuel finger m h =
    run_op-Ending env (enroll_inner env fuel finger) m (inner-Ended env fuel finger) h
