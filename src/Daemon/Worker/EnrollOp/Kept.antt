-- ===== src/Daemon/Worker/EnrollOp/Kept.antt =====
-- crates/elanprintd/src/worker.rs: `Worker::enroll` and the claim.
use elanprint_rs.Prelude.{
  ℕ, zero, suc, String, refl, Bool, true, false, List, [], ◌∷◌, Option, none, some, if◌then◌else◌,
}
use elanprint_rs.Proto.Command.{Command}
use elanprint_rs.Proto.Response.{parse}
use elanprint_rs.Proto.Enroll.{
  Enroll, EnrollAction, send, emit_progress, emit_retry, complete, fail_with, Read, step, take_send,
  pending_read,
}
use elanprint_rs.Usb.{EndpointIn}
use elanprint_rs.Store.{is_valid_finger, slot_of}
use elanprint_rs.Store.Slots.{writable_slots, tracked_slots}
use elanprint_rs.Daemon.Machine.{OpState, bad_finger, Env, Machine}
use elanprint_rs.Daemon.Exec.{Exec, pure, fail, lift, skip}
use elanprint_rs.Daemon.Exec.Triple.{
  Keeps, Triple-pure, Triple-fail, Triple-wait, Triple-if, Triple-bind,
}
use elanprint_rs.Daemon.Worker.Device.{
  claim_user, emit, frame, arm, send_arm, read_store, write_store, round,
}
use elanprint_rs.Daemon.Worker.EnrollOp.{
  is_vetoed, enroll_frame, probe, free_slot, record_print, taken_bytes, acted, exchanged,
  enroll_loop, begun, unless_enrolled, enroll_inner, enroll_op,
}
use elanprint_rs.Daemon.Worker.Kept.{
  Held, lift-Held, skip-Held, send_arm-Held, arm-Held, read_store-Held, write_store-Held,
  round-Held, emit-Held, claim_user-Held, run_op-Held,
}

module _ (env : Env) (c : Option String) (s : OpState) where
  probe-Held : (ids : List ℕ) → Keeps (Held c s) (probe env ids)
  unfolding probe
  probe-Held [] = Triple-fail _ (λ m h. h)
  probe-Held (id ∷ ids) =
      Triple-bind (round env _) _
        (round-Held env c s (frame (Command.finger_info id) EndpointIn.status))
        λ raw. go (probe-Held ids) (is_vetoed (parse (Command.finger_info id) raw))
    where
      go :
          {rest : Exec ℕ}
          → Keeps (Held c s) rest
          → (b : Bool) → Keeps (Held c s) (elim b [ true ↦ rest | false ↦ pure id ])
      go t true = t
      go t false = Triple-pure id (λ m h. h)

  free_slot-Held : Keeps (Held c s) (free_slot env)
  unfolding free_slot
  free_slot-Held = Triple-bind (send_arm env) _ (send_arm-Held env c s) λ count.
      Triple-bind (arm env) _ (arm-Held env c s) λ _.
        Triple-bind (read_store env) _ (read_store-Held env c s)
          λ p. probe-Held (writable_slots count (tracked_slots p))

  record_print-Held :
      (finger user : String) (id : ℕ) → Keeps (Held c s) (record_print env finger user id)
  unfolding record_print
  record_print-Held finger user id = Triple-bind (read_store env) _ (read_store-Held env c s) λ p.
      Triple-bind (lift _) _ (lift-Held env c s _)
        λ q. Triple-bind (write_store env q) _ (write_store-Held env c s q) λ _. emit-Held env c s _

  taken_bytes-Held : (a : Option EnrollAction) → Keeps (Held c s) (taken_bytes env a)
  unfolding taken_bytes
  taken_bytes-Held (some (send next)) = Triple-pure next (λ m h. h)
  taken_bytes-Held _ = Triple-fail _ (λ m h. h)

  module _ (finger user : String) (again : Enroll → List ℕ → Exec (Unit {0}))
      (keeps : (sm : Enroll) (out : List ℕ) → Keeps (Held c s) (again sm out)) where
    acted-Held :
        (sm : Enroll) (a : EnrollAction) → Keeps (Held c s) (acted env finger user again sm a)
    unfolding acted
    acted-Held sm (emit_progress k n) = Triple-bind (emit _) _ (emit-Held env c s _) λ _.
        Triple-bind (taken_bytes env (take_send sm).1) _ (taken_bytes-Held _)
          λ next. keeps (take_send sm).0 next
    acted-Held sm (emit_retry r) = Triple-bind (emit _) _ (emit-Held env c s _) λ _.
        Triple-bind (taken_bytes env (take_send sm).1) _ (taken_bytes-Held _)
          λ next. keeps (take_send sm).0 next
    acted-Held sm (send next) = keeps sm next
    acted-Held sm (complete id) = record_print-Held finger user id
    acted-Held sm (fail_with e) = Triple-fail _ (λ m h. h)

    exchanged-Held :
        (sm : Enroll) (out : List ℕ) (r : Option Read)
        → Keeps (Held c s) (exchanged env finger user again sm out r)
    unfolding exchanged
    exchanged-Held sm out none = Triple-fail _ (λ m h. h)
    exchanged-Held sm out (some r) =
        Triple-bind (round env _) _ (round-Held env c s (enroll_frame out r))
          λ raw. acted-Held (step sm raw).0 (step sm raw).1

  enroll_loop-Held :
      (fuel : ℕ) (finger user : String) (sm : Enroll) (out : List ℕ)
      → Keeps (Held c s) (enroll_loop env fuel finger user sm out)
  unfolding enroll_loop
  enroll_loop-Held zero finger user sm out = Triple-wait (λ m h. h)
  enroll_loop-Held (suc fuel) finger user sm out =
      exchanged-Held finger user _ (enroll_loop-Held fuel finger user) sm out (pending_read sm)

  begun-Held :
      (fuel : ℕ) (finger user : String) (sm : Enroll) (a : EnrollAction)
      → Keeps (Held c s) (begun env fuel finger user sm a)
  unfolding begun
  begun-Held fuel finger user sm (send out) = enroll_loop-Held fuel finger user sm out
  begun-Held fuel finger user sm _ = Triple-fail _ (λ m h. h)

  unless_enrolled-Held :
      (finger : String) (o : Option ℕ) → Keeps (Held c s) (unless_enrolled env finger o)
  unfolding unless_enrolled
  unless_enrolled-Held finger none = skip-Held env c s
  unless_enrolled-Held finger (some slot) = Triple-fail _ (λ m h. h)

  inner-Held : (fuel : ℕ) (finger : String) → Keeps (Held c s) (enroll_inner env fuel finger)
  unfolding enroll_inner
  inner-Held fuel finger = Triple-bind claim_user _ (claim_user-Held env c s) λ user.
      Triple-bind (if is_valid_finger finger then skip else fail (bad_finger finger)) _
        (Triple-if (is_valid_finger finger) _ _ (λ _. skip-Held env c s)
          (λ _. Triple-fail _ (λ m h. h)))
        λ _. Triple-bind (read_store env) _ (read_store-Held env c s) λ p.
          Triple-bind (unless_enrolled env finger (slot_of user finger p)) _
            (unless_enrolled-Held finger _)
            λ _.
              Triple-bind (free_slot env) _ free_slot-Held λ slot. begun-Held fuel finger user _ _

pub enroll_op-Held :
    (env : Env) (fuel : ℕ) (finger : String) (m : Machine)
    → Held m.worker.claimed m.worker.state (enroll_op env fuel finger m).1
unfolding enroll_op
enroll_op-Held env fuel finger m =
    run_op-Held env m.worker.claimed m.worker.state (enroll_inner env fuel finger) m
      (inner-Held env m.worker.claimed m.worker.state fuel finger) (refl, refl)
