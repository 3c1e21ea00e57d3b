-- ===== src/Daemon/Worker/Erase/Kept.antt =====
-- crates/elanprintd/src/worker.rs: `Worker::delete_finger`, `Worker::list` and the claim.
use elanprint_rs.Prelude.{ℕ, String, Option, none, some, ◌==◌, if◌then◌else◌, map_err}
use elanprint_rs.Prelude.BTreeMap.{text_ord}
use elanprint_rs.Proto.Status.{Status}
use elanprint_rs.Proto.Command.{delete}
use elanprint_rs.Proto.Response.{Response, parse}
use elanprint_rs.Store.{is_valid_finger, slot_of, remove_print}
use elanprint_rs.Daemon.Machine.{OpState, proto, bad_finger, DeleteIntent, Env}
use elanprint_rs.Daemon.Exec.{fail, lift, skip}
use elanprint_rs.Daemon.Exec.Triple.{Keeps, Triple-pure, Triple-fail, Triple-if, Triple-bind}
use elanprint_rs.Daemon.Worker.Device.{command, read_store}
use elanprint_rs.Daemon.Worker.Kept.{
  Held, lift-Held, skip-Held, read_store-Held, write_store-Held, command-Held,
}
use elanprint_rs.Daemon.Worker.Erase.{
  slot_or_fail, refused, check_erased, erase_slot, forget, delete_finger,
}

module _ (env : Env) (c : Option String) (s : OpState) where
  slot_or_fail-Held : (finger : String) (o : Option ℕ) → Keeps (Held c s) (slot_or_fail finger o)
  unfolding slot_or_fail
  slot_or_fail-Held finger (some slot) = Triple-pure slot (λ m h. h)
  slot_or_fail-Held finger none = Triple-fail _ (λ m h. h)

  check_erased-Held : (r : Response) → Keeps (Held c s) (check_erased r)
  unfolding check_erased refused
  check_erased-Held (Response.delete byte0 (Status.ok n)) =
      Triple-if (n == 0) _ _ (λ _. skip-Held env c s) (λ _. Triple-fail _ (λ m h. h))
  check_erased-Held (Response.delete byte0 t) = Triple-fail _ (λ m h. h)
  check_erased-Held _ = Triple-fail _ (λ m h. h)

  erase_slot-Held : (slot : ℕ) → Keeps (Held c s) (erase_slot env slot)
  unfolding erase_slot
  erase_slot-Held slot = Triple-bind (command env (delete slot)) _ (command-Held env c s _) λ raw.
      Triple-bind (lift (map_err proto (parse (delete slot) raw))) _ (lift-Held env c s _)
        check_erased-Held

  pub delete_finger-Held : (intent : DeleteIntent) → Keeps (Held c s) (delete_finger env intent)
  unfolding delete_finger forget
  delete_finger-Held intent =
      Triple-bind (if is_valid_finger intent.finger then skip else fail (bad_finger intent.finger))
        _
        (Triple-if (is_valid_finger intent.finger) _ _ (λ _. skip-Held env c s)
          (λ _. Triple-fail _ (λ m h. h)))
        λ _. Triple-bind (read_store env) _ (read_store-Held env c s) λ p.
          Triple-bind (slot_or_fail intent.finger (slot_of intent.user intent.finger p)) _
            (slot_or_fail-Held intent.finger _)
            λ slot. Triple-bind (erase_slot env slot) _ (erase_slot-Held slot) λ _.
              Triple-bind (read_store env) _ (read_store-Held env c s)
                λ p. write_store-Held env c s (remove_print intent.user intent.finger p)
