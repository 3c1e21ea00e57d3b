-- ===== src/Cli/Sync.antt =====
-- `sync` of crates/elanprint-cli/src/main.rs: the scan, the report on the file and the pruning of it.
use elanprint_rs.Prelude.{
  retain, ℕ, zero, suc, ◌+◌, ◌≡◌, ◌⊎◌, String, Bool, true, false, List, [], ◌∷◌, none, Result, ok,
  err, if◌then◌else◌, ◌&&◌, ◌||◌,
}
use elanprint_rs.Prelude.BTreeMap.{text_ord, number_ord, is_key, collect}
use elanprint_rs.Proto.Command.{Command, finger_info}
use elanprint_rs.Proto.Response.{Response, SlotState}
use elanprint_rs.Store.{Prints, StoreError, max_slot, remove_print, slot_of}
use elanprint_rs.Store.File.{Files, open_store, save}
use elanprint_rs.Store.Reconcile.{EntryStatus, reconcile}
use elanprint_rs.Store.Reconcile.Listed.{Key, map_keys, is_stale}
use elanprint_rs.Cli.{
  CliError, store, unexpected_reply, Desk, Tool, Outcome, done, failed, Job, ◌>>=◌, return, bail,
  send, enrolled_count,
}

state_of : Response → Job SlotState
state_of (Response.finger_info id state) = return state
state_of _ = bail unexpected_reply

-- The loop `for e in &report.stale`.
pruned : List EntryStatus → Prints → Prints
pruned [] p = p
pruned (e ∷ rest) p = pruned rest (remove_print e.user e.finger p)

module _ {A : Type 0} where
  stored : Result A StoreError → Result A CliError
  stored (ok a) = ok a
  stored (err e) = err (store e)

module _ (desk : Desk) where
  -- The loop over the slots, by those that are left.
  scanned : ℕ → ℕ → Job (List (ℕ × SlotState))
  unfolding state_of
  scanned zero id = return []
  scanned (suc left) id = do
    r ← send desk (finger_info id)
    state ← state_of r.1
    rest ← scanned left (id + 1)
    return ((id, state) ∷ rest)

  -- What is read from the sensor.
  unfoldable pub scan : Job (ℕ × List (ℕ × SlotState))
  unfolding scanned
  scan = do count ← enrolled_count desk; records ← scanned (max_slot + 1) 0; return (count, records)

  write_back : Files × Result (Unit {0}) StoreError → Job (Unit {0})
  write_back (fs, ok u) t = (done tt, record t { files = fs })
  write_back (fs, err e) t = (failed (store e), record t { files = fs })

  prune_stale : Bool → List EntryStatus → Prints → Job (Unit {0})
  unfolding pruned write_back
  prune_stale true (e ∷ rest) p t =
      write_back (save desk.json desk.saves (pruned (e ∷ rest) p) t.files) t
  prune_stale _ _ p t = (done tt, t)

  settled : Bool → ℕ × List (ℕ × SlotState) → Result Prints StoreError → Job (Unit {0})
  unfolding prune_stale
  settled prune seen (err e) t = (failed (store e), t)
  settled prune seen (ok p) t = prune_stale prune (reconcile p seen.0 seen.1).stale p t

  opened : Bool → ℕ × List (ℕ × SlotState) → Job (Unit {0})
  unfolding settled
  opened prune seen t = settled prune seen (open_store desk.json desk.reads t.files) t

  -- `sync`.
  unfoldable pub sync : Bool → Job (Unit {0})
  unfolding opened
  sync prune = scan >>= opened prune

-- The list names the finger, whatever its slot.
unfoldable pub names : String → String → List Key → Bool
names u f [] = false
names u f ((user, finger, slot) ∷ rest) = is_key user u && is_key finger f || names u f rest

module _ (desk : Desk) where
  -- The entries that the report on this map calls stale.
  abbrev stale_of : Prints → ℕ × List (ℕ × SlotState) → List EntryStatus
  stale_of p seen = (reconcile p seen.0 seen.1).stale

  -- The fingers of the map whose absence the sensor has shown: all of them where it counts nothing, else
  -- those with a slot whose 70 byte record reads empty.
  abbrev pub gone : Prints → ℕ × List (ℕ × SlotState) → List Key
  gone p seen = retain (is_stale seen.0 (collect seen.1 [])) (map_keys p)

  -- The file reads as the map without these fingers.
  abbrev pub IsPruned : ℕ × List (ℕ × SlotState) → Prints → Files → Type 0
  IsPruned seen p left =
      (q : Prints) × (open_store desk.json none left ≡ ok q)
      × ((u f : String) → slot_of u f q ≡ (if names u f (gone p seen) then none else slot_of u f p))

  -- What a run leaves.
  abbrev pub Ends : Bool → Files → ℕ × List (ℕ × SlotState) → Outcome (Unit {0}) × Tool → Type 0
  Ends prune old seen (done u, t) =
      (p : Prints) × (open_store desk.json desk.reads old ≡ ok p)
      × ((((prune ≡ false) ⊎ (gone p seen ≡ [])) × (t.files.file ≡ old.file))
          ⊎ ((prune ≡ true) × IsPruned seen p t.files))
  Ends prune old seen (_, t) = t.files.file ≡ old.file

  -- Wherever the scan ends.
  abbrev pub Leads :
      Bool → Files → Outcome (ℕ × List (ℕ × SlotState)) → Outcome (Unit {0}) × Tool → Type 0
  Leads prune old (done seen) r = Ends prune old seen r
  Leads prune old _ r = r.1.files.file ≡ old.file
