-- ===== src/Daemon/Worker/EnrollOp.antt =====
-- `Worker::enroll` and `Worker::free_slot`. The fuel is the number of rounds given to the sensor.
pub mod Ending
pub mod Kept
use elanprint_rs.Prelude.{
  ℕ, zero, suc, String, Bool, true, false, List, [], ◌∷◌, Option, none, some, Result, ok, err,
  if◌then◌else◌,
}
use elanprint_rs.Proto.Status.{ProtoError}
use elanprint_rs.Proto.Command.{Command, ReplyEndpoint, image, status, touch_wait, enroll_stages}
use elanprint_rs.Proto.Response.{Response, enrolled, parse}
use elanprint_rs.Proto.Enroll.{
  Enroll, EnrollAction, send, emit_progress, emit_retry, complete, fail_with, unexpected_reply,
  max_enrolled, Read, with_total, start, step, take_send, pending_read,
}
use elanprint_rs.Algo.Strings.{enroll_completed, enroll_stage_passed, enroll_retry}
use elanprint_rs.Usb.{EndpointIn}
use elanprint_rs.Store.{is_valid_finger, slot_of, insert_print}
use elanprint_rs.Store.Slots.{writable_slots, tracked_slots}
use elanprint_rs.Daemon.Machine.{OpEvent, store, bad_finger, already_enrolled, enroll, Frame, Env}
use elanprint_rs.Daemon.Exec.{Exec, ◌>>=◌, ◌>>◌, pure, fail, wait_more, lift, skip}
use elanprint_rs.Daemon.Worker.Device.{
  claim_user, emit, read_store, write_store, send_arm, arm, round, run_op, frame,
}

-- `endpoint`.
unfoldable pub endpoint : ReplyEndpoint → EndpointIn
endpoint image = EndpointIn.image
endpoint status = EndpointIn.status
endpoint touch_wait = EndpointIn.touch_wait

-- Only a full record that holds a template vetoes a candidate.
is_vetoed : Result Response ProtoError → Bool
is_vetoed (ok (Response.finger_info id (enrolled raw))) = true
is_vetoed _ = false

abbrev pub enroll_frame : List ℕ → Read → Frame
enroll_frame bytes r = record {
  out = bytes;
  endpoint = endpoint r.endpoint;
  len = r.len;
  wait = r.wait;
}

module _ (env : Env) where
  probe : List ℕ → Exec ℕ
  unfolding is_vetoed
  probe [] = fail (enroll max_enrolled)
  probe (id ∷ ids) = do
    raw ← round env (frame (Command.finger_info id) EndpointIn.status)
    let rest = probe ids
    elim (is_vetoed (parse (Command.finger_info id) raw)) [ true ↦ rest | false ↦ pure id ]

  -- `Worker::free_slot`.
  unfoldable pub free_slot : Exec ℕ
  unfolding probe
  free_slot = do
    count ← send_arm env
    arm env
    p ← read_store env
    probe (writable_slots count (tracked_slots p))

  -- `Worker::record`.
  unfoldable pub record_print : String → String → ℕ → Exec (Unit {0})
  record_print finger user id = do
    p ← read_store env
    q ← lift (elim (insert_print user finger id p) [ ok q ↦ ok q | err e ↦ err (store e) ])
    write_store env q
    emit (OpEvent.enroll_status enroll_completed true)

  -- `Worker::take_send`.
  taken_bytes : Option EnrollAction → Exec (List ℕ)
  taken_bytes (some (send next)) = pure next
  taken_bytes _ = fail (enroll unexpected_reply)

  -- The `match` on the machine's action; `again` is the next round of the loop.
  acted :
      String
      → String
      → (Enroll → List ℕ → Exec (Unit {0}))
      → Enroll
      → EnrollAction
      → Exec (Unit {0})
  unfolding taken_bytes
  acted finger user again sm (emit_progress done total) = do
    emit (OpEvent.enroll_status enroll_stage_passed false)
    next ← taken_bytes (take_send sm).1
    again (take_send sm).0 next
  acted finger user again sm (emit_retry r) = do
    emit (OpEvent.enroll_status (enroll_retry r) false)
    next ← taken_bytes (take_send sm).1
    again (take_send sm).0 next
  acted finger user again sm (send next) = again sm next
  acted finger user again sm (complete id) = record_print finger user id
  acted finger user again sm (fail_with e) = fail (enroll e)

  -- One round with the command that is pending.
  exchanged :
      String
      → String
      → (Enroll → List ℕ → Exec (Unit {0}))
      → Enroll
      → List ℕ
      → Option Read
      → Exec (Unit {0})
  unfolding acted
  exchanged finger user again sm out none = fail (enroll unexpected_reply)
  exchanged finger user again sm out (some r) = do
    raw ← round env (enroll_frame out r)
    acted finger user again (step sm raw).0 (step sm raw).1

  unfoldable pub enroll_loop : ℕ → String → String → Enroll → List ℕ → Exec (Unit {0})
  unfolding exchanged
  enroll_loop zero finger user sm out = wait_more
  enroll_loop (suc fuel) finger user sm out =
      exchanged finger user (λ sm' out'. enroll_loop fuel finger user sm' out') sm out
        (pending_read sm)

  -- The first bytes, which `start` always gives.
  begun : ℕ → String → String → Enroll → EnrollAction → Exec (Unit {0})
  begun fuel finger user sm (send out) = enroll_loop fuel finger user sm out
  begun fuel finger user sm _ = fail (enroll unexpected_reply)

  unless_enrolled : String → Option ℕ → Exec (Unit {0})
  unless_enrolled finger none = skip
  unless_enrolled finger (some slot) = fail (already_enrolled finger)

  -- `Worker::enroll_inner`.
  unfoldable pub enroll_inner : ℕ → String → Exec (Unit {0})
  unfolding begun unless_enrolled
  enroll_inner fuel finger = do
    user ← claim_user
    if is_valid_finger finger then skip else fail (bad_finger finger)
    p ← read_store env
    unless_enrolled finger (slot_of user finger p)
    slot ← free_slot
    let sm = start (with_total slot (enroll_stages env.stages))
    begun fuel finger user sm.0 sm.1

  -- `Worker::enroll`.
  unfoldable pub enroll_op : ℕ → String → Exec (Unit {0})
  enroll_op fuel finger = run_op env (enroll_inner fuel finger)
