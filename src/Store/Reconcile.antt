-- ===== src/Store/Reconcile.antt =====
-- `reconcile` of crates/elanprint-store: the map against the device's count and a scan of its slots.
pub mod Report
pub mod Listed
use Prim.Native.String.{◌++◌ as concat}
use elanprint_rs.Prelude.{
  ℕ, ◌+◌, String, Bool, true, false, not, List, [], ◌∷◌, ◌++◌, Option, none, some, ◌==◌, ltb, ◌&&◌,
  if◌then◌else◌, length, contains,
}
use elanprint_rs.Prelude.Text.{decimal}
use elanprint_rs.Prelude.BTreeMap.{BTreeMap, text_ord, number_ord, get, collect}
use elanprint_rs.Proto.Response.{SlotState, empty, stuck, enrolled, error}
use elanprint_rs.Store.{Fingers, Prints}
use elanprint_rs.Store.Slots.{all_slots}

pub record EntryStatus : Type 0 where
  pub user : String
  pub finger : String
  pub slot : ℕ
  pub stale : Bool
  pub reason : String

pub record SyncReport : Type 0 where
  pub confirmed : List EntryStatus
  pub unconfirmed : List EntryStatus
  pub stale : List EntryStatus
  pub warnings : List String

-- `SyncReport::default`.
abbrev pub empty_report : SyncReport
empty_report = record { confirmed = []; unconfirmed = []; stale = []; warnings = [] }

-- The loops `for (user, fingers) in store { for (finger, slot) in fingers { .. } }`, with the body
-- as an argument.
module _ (body : String → String → ℕ → SyncReport → SyncReport) where
  each_finger : String → Fingers → SyncReport → SyncReport
  each_finger u [] r = r
  each_finger u ((f, s) ∷ rest) r = each_finger u rest (body u f s r)

  each_entry : Prints → SyncReport → SyncReport
  unfolding each_finger
  each_entry [] r = r
  each_entry ((u, fs) ∷ rest) r = each_entry rest (each_finger u fs r)

entry : String → String → ℕ → Bool → String → EntryStatus
entry u f s is_stale why = record { user = u; finger = f; slot = s; stale = is_stale; reason = why }

-- The loop's body where `enrolled_num` is 0.
mark_empty : String → String → ℕ → SyncReport → SyncReport
unfolding entry
mark_empty u f s r = record r {
  stale = r.stale ++ entry u f s true "device holds nothing, enrolled_num is 0" ∷ [];
}

-- The `match` on the scanned state of the entry's slot.
judge : Option SlotState → String → String → ℕ → SyncReport → SyncReport
unfolding entry
judge (some (enrolled raw)) u f s r = record r {
  confirmed = r.confirmed ++ entry u f s false "70 byte record present" ∷ [];
}
judge (some empty) u f s r = record r {
  stale = r.stale ++ entry u f s true "70 byte record reads empty" ∷ [];
}
judge (some stuck) u f s r = record r {
  unconfirmed = r.unconfirmed ++ entry u f s false "sensor reports stuck, run verify to clear" ∷ [];
}
judge (some (error code)) u f s r = record r {
  unconfirmed = r.unconfirmed ++ entry u f s false "2 byte form, empty and invalid read alike" ∷ [];
}
judge none u f s r = record r {
  unconfirmed = r.unconfirmed ++ entry u f s false "slot outside the scanned range" ∷ [];
}

mark_scanned : BTreeMap ℕ SlotState → String → String → ℕ → SyncReport → SyncReport
unfolding judge
mark_scanned by_slot u f s r = judge (get s by_slot) u f s r

warn : String → SyncReport → SyncReport
warn text r = record r { warnings = r.warnings ++ text ∷ [] }

-- The number of fingers, `store.values().map(|f| f.len()).sum()`.
unfoldable pub fingers_count : Prints → ℕ
fingers_count [] = 0
fingers_count ((u, fs) ∷ rest) = length fs + fingers_count rest

pub warn_count : ℕ → Prints → SyncReport → SyncReport
unfolding warn
warn_count count store r =
    if ltb count (fingers_count store)
    then warn
        (concat "store claims " (
          concat (decimal (fingers_count store)) (
            concat " fingers but the device counts " (
              concat (decimal count)
                (concat ", " (concat (decimal (length r.stale)) " proven stale"))))))
        r
    else r

abbrev is_enrolled : SlotState → Bool
is_enrolled (enrolled raw) = true
is_enrolled _ = false

warn_slot : Prints → ℕ → SlotState → SyncReport → SyncReport
unfolding warn
warn_slot store id state r =
    if is_enrolled state && not (contains (all_slots store) id)
    then warn (concat "slot " (concat (decimal id) " holds a template the store does not track")) r
    else r

pub warn_untracked : Prints → List (ℕ × SlotState) → SyncReport → SyncReport
unfolding warn_slot
warn_untracked store [] r = r
warn_untracked store ((id, state) ∷ rest) r = warn_untracked store rest (warn_slot store id state r)

unfoldable pub reconcile : Prints → ℕ → List (ℕ × SlotState) → SyncReport
unfolding each_entry mark_empty mark_scanned warn_count warn_untracked
reconcile store count records =
    if count == 0
    then each_entry mark_empty store empty_report
    else warn_untracked store records
        (warn_count count store (each_entry (mark_scanned (collect records [])) store empty_report))
