-- ===== src/Daemon/Worker/Erase/Own.antt =====
-- crates/elanprintd/src/worker.rs: what `Worker::delete_finger` sends.
use elanprint_rs.Prelude.{
  ℕ, ◌+◌, String, ◌≡◌, refl, sym, subst, Bool, List, [], ◌∷◌, Option, none, some, Result, ok, err,
  ◌==◌, if◌then◌else◌, map_err,
}
use elanprint_rs.Proto.Status.{Status}
use elanprint_rs.Proto.Command.{delete}
use elanprint_rs.Proto.Response.{Response, parse}
use elanprint_rs.Usb.{EndpointIn, UsbError}
use elanprint_rs.Store.{Prints, StoreError, is_valid_finger, slot_of, remove_print}
use elanprint_rs.Store.File.{Files, open_store, save}
use elanprint_rs.Daemon.Machine.{
  proto, store, bad_finger, DeleteIntent, Frame, Traffic, opened, sent, Env, Machine,
}
use elanprint_rs.Daemon.Exec.{Outcome, done, failed, waiting, fail, lift, skip}
use elanprint_rs.Daemon.Exec.Triple.{
  Post, Triple, Keeps, Triple-pure, Triple-fail, Triple-if, Triple-bind,
}
use elanprint_rs.Daemon.Worker.Device.{frame, command, read_store, write_store}
use elanprint_rs.Daemon.Worker.Device.Quiet.{
  skip-Keeps, lift-Keeps, command-Keeps, read_store-Keeps,
}
use elanprint_rs.Daemon.Worker.Erase.{
  slot_or_fail, refused, check_erased, erase_slot, forget, delete_finger,
}

-- The frame that erases the slot which the store, at some reading of the files, maps to the finger.
abbrev pub ErasesOwn : Env → Files → DeleteIntent → Frame → Type 0
ErasesOwn env fs intent f =
    (p : Prints) × (c : ℕ) × (slot : ℕ) × (open_store env.json (env.reads c) fs ≡ ok p)
    × (slot_of intent.user intent.finger p ≡ some slot)
    × (f ≡ frame (delete slot) EndpointIn.status)

-- Every frame of the traffic satisfies a condition.
abbrev pub Frames : (Frame → Type 0) → List Traffic → Type 0
Frames F [] = Unit
Frames F (opened ∷ log) = Frames F log
Frames F (sent f r ∷ log) = F f × Frames F log

module _ (env : Env) (fs : Files) (intent : DeleteIntent) where
  abbrev F : Frame → Type 0
  F = ErasesOwn env fs intent

  abbrev I : Machine → Type 0
  I m = Frames F m.log

  sends :
      (m : Machine) (f : Frame) (r : Result (List ℕ) UsbError)
      → F f
      → I m
      → I (record m { clock = m.clock + 1; log = sent f r ∷ m.log })
  sends m f r own h = (own, h)

  ticks : (m : Machine) → I m → I (record m { clock = m.clock + 1 })
  ticks m h = h

  rewires :
      (m : Machine) (handle flag : Bool)
      → I m
      → I (record m { worker = record m.worker { usb = handle; armed = flag } })
  rewires m handle flag h = h

  -- Before the first reading the files are the ones from the start.
  Before : Machine → Type 0
  Before m = (m.files ≡ fs) × I m

  Read : Prints → Machine → Type 0
  Read p m = I m × ((c : ℕ) × (open_store env.json (env.reads c) fs ≡ ok p))

  read_store-Read : Triple Before (read_store env) Read I
  unfolding read_store Read Before lift
  read_store-Read = record {
    at = λ m h. by_read m (open_store env.json (env.reads m.clock) m.files) refl h;
  }
    where
      by_read :
          (m : Machine) (r : Result Prints StoreError)
          → open_store env.json (env.reads m.clock) m.files ≡ r
          → Before m
          → Post Read I (lift (map_err store r) (record m { clock = m.clock + 1 }))
      by_read m (ok p) e h =
          (h.1, (m.clock, subst (λ x. open_store env.json (env.reads m.clock) x ≡ ok p) h.0 e))
      by_read m (err x) e h = h.1

  Mapped : ℕ → Machine → Type 0
  Mapped slot m = I m × F (frame (delete slot) EndpointIn.status)

  slot_or_fail-Mapped :
      (p : Prints) (o : Option ℕ)
      → slot_of intent.user intent.finger p ≡ o
      → Triple (Read p) (slot_or_fail intent.finger o) Mapped I
  unfolding slot_or_fail Read Mapped
  slot_or_fail-Mapped p (some slot) e =
      Triple-pure slot (λ m h. (h.0, (p, h.1.0, slot, h.1.1, e, refl)))
  slot_or_fail-Mapped p none e = Triple-fail _ (λ m h. h.0)

  refused-Keeps : (s : Status) → Keeps I (refused s)
  unfolding refused
  refused-Keeps s = Triple-fail _ (λ m h. h)

  check_erased-Keeps : (r : Response) → Keeps I (check_erased r)
  unfolding check_erased
  check_erased-Keeps (Response.delete byte0 (Status.ok n)) =
      Triple-if (n == 0) _ _ (λ _. skip-Keeps env I F sends ticks rewires)
        (λ _. refused-Keeps (Status.ok n))
  check_erased-Keeps (Response.delete byte0 s) = refused-Keeps s
  check_erased-Keeps _ = Triple-fail _ (λ m h. h)

  erase_slot-Keeps :
      (slot : ℕ) → F (frame (delete slot) EndpointIn.status) → Keeps I (erase_slot env slot)
  unfolding erase_slot
  erase_slot-Keeps slot own =
      Triple-bind (command env (delete slot)) _
        (command-Keeps env I F sends ticks rewires (delete slot) own)
        λ raw.
          Triple-bind (lift (map_err proto (parse (delete slot) raw))) _
            (lift-Keeps env I F sends ticks rewires _) check_erased-Keeps

  forget-Keeps : (user finger : String) → Keeps I (forget env user finger)
  unfolding forget write_store
  forget-Keeps user finger =
      Triple-bind (read_store env) _ (read_store-Keeps env I F sends ticks rewires) λ p. record {
        at = λ m h.
            (lift-Keeps env I F sends ticks rewires (
                map_err store
                  (save env.json (env.saves m.clock) (remove_print user finger p) m.files).1)).at
              _ h;
      }

  skip-Before : Triple Before skip (λ _. Before) I
  unfolding skip
  skip-Before = Triple-pure tt (λ m h. h)

  delete_finger-Frames : Triple Before (delete_finger env intent) (λ _. I) I
  unfolding delete_finger Mapped Before
  delete_finger-Frames =
      Triple-bind (if is_valid_finger intent.finger then skip else fail (bad_finger intent.finger))
        _
        (Triple-if (is_valid_finger intent.finger) _ _ (λ _. skip-Before)
          (λ _. Triple-fail _ (λ m h. h.1)))
        λ _. Triple-bind (read_store env) _ read_store-Read λ p.
          Triple-bind (slot_or_fail intent.finger (slot_of intent.user intent.finger p)) _
            (slot_or_fail-Mapped p _ refl)
            λ slot.
              Triple-bind (erase_slot env slot) _
                (record { at = λ m h. (erase_slot-Keeps slot h.1).at m h.0 })
                λ _. forget-Keeps intent.user intent.finger

machine_of-Post :
    (I : Machine → Type 0) (x : Outcome (Unit {0}) × Machine) → Post (λ _. I) I x → I x.1
machine_of-Post I (done a, m) h = h
machine_of-Post I (failed e, m) h = h
machine_of-Post I (waiting, m) h = h

-- A deletion sends the chip nothing but the command that erases the one slot which the store maps to
-- the finger of the request, under the user of the request, whatever the chip answers and however
-- the deletion ends.
pub delete_finger-ErasesOwn :
    (env : Env) (intent : DeleteIntent) (m : Machine)
    → m.log ≡ []
    → Frames (ErasesOwn env m.files intent) (delete_finger env intent m).1.log
unfolding Before
delete_finger-ErasesOwn env intent m fresh =
    machine_of-Post (λ n. Frames (ErasesOwn env m.files intent) n.log) (delete_finger env intent m)
      ((delete_finger-Frames env m.files intent).at m
        (refl, subst (Frames (ErasesOwn env m.files intent)) (sym fresh) tt))
