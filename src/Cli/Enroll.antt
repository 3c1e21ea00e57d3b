-- ===== src/Cli/Enroll.antt =====
-- `enroll` of crates/elanprint-cli/src/main.rs. The fuel is the number of rounds that the sensor is given.
pub mod Findings
pub mod Careful
use elanprint_rs.Prelude.{
  ℕ, zero, suc, ◌+◌, String, Bool, true, false, not, List, [], ◌∷◌, Option, none, some, Result, ok,
  err, ◌==◌, ◌&&◌, length, if◌then◌else◌,
}
use elanprint_rs.Prelude.Text.{same}
use elanprint_rs.Prelude.Lines.{starts_with}
use elanprint_rs.Proto.Status.{Status, not_enrolled}
use elanprint_rs.Proto.Command.{Command, enrolled_num, finger_info, verify}
use elanprint_rs.Proto.Response.{Response, SlotState, enrolled}
use elanprint_rs.Proto.Enroll
use elanprint_rs.Proto.Enroll.{
  EnrollAction, emit_progress, emit_retry, complete, fail_with, Read, new, start, step, take_send,
  pending_read,
}
use elanprint_rs.Usb.{UsbError, short_read}
use elanprint_rs.Store.{is_valid_finger}
use elanprint_rs.Cli.{
  CliError, unknown_finger, unexpected_reply, slot_holds_record, already_enrolled, pre_check,
  no_first_send, no_pending_read, owes_send, enroll_failed, cancelled_in_hold, read_failed, Hold,
  go, cancelled, pause, Desk, Tool, Outcome, Job, ◌>>=◌, ◌>>◌, return, bail, exchange, send,
  enrolled_count, waiting,
}
use elanprint_rs.Cli.Reads.{post}

slot_free : ℕ → Response → Job (Unit {0})
slot_free slot (Response.finger_info id (enrolled raw)) = bail (slot_holds_record slot)
slot_free slot (Response.finger_info id state) = return tt
slot_free slot _ = bail unexpected_reply

unknown_touch : Response → Job (Unit {0}) → Job (Unit {0})
unknown_touch (Response.verify byte0 not_enrolled) again = return tt
unknown_touch (Response.verify byte0 (Status.retry r)) again = again
unknown_touch (Response.verify byte0 (Status.ok id)) again = bail (already_enrolled id)
unknown_touch (Response.verify byte0 status) again = bail (pre_check status)
unknown_touch _ again = bail unexpected_reply

-- The read of a round: a short one is kept.
round_reply : Result (List ℕ) UsbError → Job (List ℕ)
round_reply (ok bytes) = return bytes
round_reply (err (short_read wanted got bytes)) = return bytes
round_reply (err e) = bail (read_failed e)

-- The bytes of a commit.
unfoldable pub is_commit : List ℕ → Bool
is_commit out = length out == 72 && starts_with (0x40 ∷ 0xff ∷ 0x11 ∷ []) out

taken_bytes : Option EnrollAction → Job (List ℕ)
taken_bytes (some (EnrollAction.send next)) = return next
taken_bytes _ = bail owes_send

-- Still waiting for the sensor.
unfoldable pub wait_more : Job (Unit {0})
wait_more t = (waiting, t)

module _ (desk : Desk) where
  -- The pre-check, by the touches that are left.
  pre_checked : ℕ → Job (Unit {0})
  unfolding unknown_touch
  pre_checked zero = wait_more
  pre_checked (suc touches) = do r ← send desk verify; unknown_touch r.1 (pre_checked touches)

  looked : Hold → Outcome (Unit {0}) × Tool → Job (Unit {0})
  looked go again t = (Outcome.done tt, t)
  looked cancelled again t = (Outcome.failed cancelled_in_hold, t)
  looked pause again t = again

  -- The pause of `wait_for_go`.
  hold_for : ℕ → Job (Unit {0})
  unfolding looked
  hold_for zero t = (waiting, t)
  hold_for (suc looks) t =
      let again = hold_for looks (record t { clock = t.clock + 1 }) in
      looked (desk.holds t.clock) again t

  held : ℕ → Bool → Job (Unit {0})
  unfolding hold_for
  held looks true = hold_for looks
  held looks false = return tt

  -- `drain_trailing`, whose answer is printed.
  drained : Bool → Job (Unit {0})
  drained true t = (Outcome.done tt, record t { clock = t.clock + 1 })
  drained false t = (Outcome.done tt, t)

  -- `machine_round`.
  machine_round : List ℕ → Job (List ℕ)
  unfolding round_reply
  machine_round out = do r ← post desk out; round_reply r

  -- The `match` on the machine's action.
  acted : (Enroll.Enroll → List ℕ → Job (Unit {0})) → Enroll.Enroll → EnrollAction → Job (Unit {0})
  unfolding taken_bytes
  acted again sm (emit_progress count total) = do
    next ← taken_bytes (take_send sm).1
    again (take_send sm).0 next
  acted again sm (emit_retry r) = do
    next ← taken_bytes (take_send sm).1
    again (take_send sm).0 next
  acted again sm (EnrollAction.send next) = again sm next
  acted again sm (complete id) = return tt
  acted again sm (fail_with e) = bail (enroll_failed e)

  one_round :
      Bool
      → ℕ
      → (Enroll.Enroll → List ℕ → Job (Unit {0}))
      → Enroll.Enroll
      → List ℕ
      → Option Read
      → Job (Unit {0})
  unfolding held drained machine_round acted
  one_round hold looks again sm out none = bail no_pending_read
  one_round hold looks again sm out (some r) = do
    held looks (is_commit out && hold)
    raw ← machine_round out
    drained (is_commit out)
    acted again (step sm raw).0 (step sm raw).1

  -- The loop over the machine.
  sampled : ℕ → ℕ → Bool → Enroll.Enroll → List ℕ → Job (Unit {0})
  unfolding one_round
  sampled zero looks hold sm out = wait_more
  sampled (suc fuel) looks hold sm out =
      one_round hold looks (λ sm' out'. sampled fuel looks hold sm' out') sm out (pending_read sm)

  begun : ℕ → ℕ → Bool → Enroll.Enroll → EnrollAction → Job (Unit {0})
  unfolding sampled
  begun fuel looks hold sm (EnrollAction.send out) = sampled fuel looks hold sm out
  begun fuel looks hold sm _ = bail no_first_send

  -- What comes in front of the machine.
  unfoldable pub checked : ℕ → String → ℕ → Job (Unit {0})
  unfolding slot_free pre_checked
  checked touches name slot = do
    if is_valid_finger name then return tt else bail (unknown_finger name)
    enrolled_count desk
    r ← send desk (finger_info slot)
    slot_free slot r.1
    pre_checked touches

  -- From the machine's start on; the replies after the loop are printed.
  unfoldable pub committed : ℕ → ℕ → Bool → ℕ → Job (Unit {0})
  unfolding begun
  committed fuel looks hold slot = do
    begun fuel looks hold (start (new slot)).0 (start (new slot)).1
    send desk enrolled_num
    send desk (finger_info slot)
    return tt

  -- `enroll`.
  unfoldable pub enroll : ℕ → ℕ → String → ℕ → Bool → Job (Unit {0})
  enroll fuel looks name slot hold = do checked fuel name slot; committed fuel looks hold slot
