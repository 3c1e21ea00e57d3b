-- ===== src/Daemon/Worker/Erase.antt =====
-- crates/elanprintd/src/worker.rs: `Worker::delete_finger`.
pub mod Own
pub mod Kept
use elanprint_rs.Prelude.{ℕ, String, Option, none, some, ◌==◌, if◌then◌else◌, map_err}
use elanprint_rs.Proto.Status.{Status}
use elanprint_rs.Proto.Status.Codes.{status_code}
use elanprint_rs.Proto.Command.{delete}
use elanprint_rs.Proto.Response.{Response, parse}
use elanprint_rs.Proto.Enroll.{unexpected_reply, device}
use elanprint_rs.Store.{is_valid_finger, slot_of, remove_print}
use elanprint_rs.Daemon.Machine.{proto, enroll, bad_finger, not_enrolled, DeleteIntent, Env}
use elanprint_rs.Daemon.Exec.{Exec, ◌>>=◌, ◌>>◌, pure, fail, lift, skip}
use elanprint_rs.Daemon.Worker.Device.{command, read_store, write_store}

-- `match .. { Some(s) => *s, None => return Err(NotEnrolled) }`.
slot_or_fail : String → Option ℕ → Exec ℕ
slot_or_fail finger (some slot) = pure slot
slot_or_fail finger none = fail (not_enrolled finger)

refused : Status → Exec (Unit {0})
refused s = fail (enroll (device "delete" (status_code s)))

-- `!matches!(status, Status::Ok(0))`.
check_erased : Response → Exec (Unit {0})
unfolding refused
check_erased (Response.delete byte0 (Status.ok n)) = if n == 0 then skip else refused (Status.ok n)
check_erased (Response.delete byte0 s) = refused s
check_erased _ = fail (enroll unexpected_reply)

module _ (env : Env) where
  -- The exchange with the sensor.
  erase_slot : ℕ → Exec (Unit {0})
  unfolding check_erased
  erase_slot slot = do
    raw ← command env (delete slot)
    reply ← lift (map_err proto (parse (delete slot) raw))
    check_erased reply

  -- The entry goes from the store.
  forget : String → String → Exec (Unit {0})
  forget user finger = do p ← read_store env; write_store env (remove_print user finger p)

  unfoldable pub delete_finger : DeleteIntent → Exec (Unit {0})
  unfolding slot_or_fail erase_slot forget
  delete_finger intent = do
    if is_valid_finger intent.finger then skip else fail (bad_finger intent.finger)
    p ← read_store env
    slot ← slot_or_fail intent.finger (slot_of intent.user intent.finger p)
    erase_slot slot
    forget intent.user intent.finger
