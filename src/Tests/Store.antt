-- ===== src/Tests/Store.antt =====
-- crates/elanprint-store on a small map.
use elanprint_rs.Prelude.{
  ℕ, String, ◌≡◌, ◌≢◌, refl, ◌≤◌, List, [], ◌∷◌, Option, none, some, contains,
}
use elanprint_rs.Prelude.BTreeMap.{text_ord, number_ord, get, insert, collect}
use elanprint_rs.Proto.Response.{SlotState, empty, error}
use elanprint_rs.Store.{Prints, max_slot, taken, is_valid_finger, insert_print, slot_of, other}
use elanprint_rs.Store.Mapping.{IsUnique, insert_print-IsUnique}
use elanprint_rs.Store.Slots.{writable_slots, tracked_slots, all_slots, offered-IsFree}
use elanprint_rs.Store.File.{Json, Files, rename, save, Leaves, save-Leaves}
use elanprint_rs.Store.Reconcile.{reconcile}
use elanprint_rs.Store.Reconcile.Report.{Founded}
use elanprint_rs.Store.Reconcile.Listed.{Listed, reconcile-Listed}

-- Slot 2 holds one finger of alice.
abbrev alice : Prints
alice = ("alice", ("left-thumb", 2) ∷ []) ∷ []

nothing-IsUnique : IsUnique []
unfolding slot_of get
nothing-IsUnique u f v g s hu hv = absurd (cc hu)

insert_print-IsUnique_example : IsUnique alice
unfolding insert_print taken is_valid_finger get insert
insert_print-IsUnique_example =
    insert_print-IsUnique "alice" "left-thumb" 2 [] alice nothing-IsUnique refl

offered-IsFree_example : (1 ≤ 3) × (3 ≤ max_slot) × ((u f : String) → slot_of u f alice ≢ some 3)
unfolding writable_slots tracked_slots contains all_slots
offered-IsFree_example = offered-IsFree 1 3 alice refl

-- A library that prints every map as "{}" when it is empty, and gives up on others.
abbrev print_nothing : Prints → Option String
print_nothing [] = some "{}"
print_nothing (x ∷ p) = none

abbrev read_nothing : String → Option Prints
read_nothing t = some []

nothing-round_trip : (p : Prints) (t : String) → print_nothing p ≡ some t → read_nothing t ≡ some p
nothing-round_trip [] t h = refl
nothing-round_trip (x ∷ p) t h = absurd (cc h)

abbrev tiny_json : Json
tiny_json = record {
  to_string_pretty = print_nothing;
  from_str = read_nothing;
  from_str-to_string_pretty = nothing-round_trip;
}

abbrev no_files : Files
no_files = record { file = none; temps = []; salt = 0 }

save-Leaves_example :
    Leaves tiny_json [] no_files (save tiny_json (some (rename other)) [] no_files)
save-Leaves_example = save-Leaves tiny_json (some (rename other)) [] no_files

abbrev scan : List (ℕ × SlotState)
scan = (2, error 0xfd) ∷ (3, empty) ∷ []

reconcile-Listed_example :
    Listed 1 (collect scan []) alice (reconcile alice 1 scan)
    × Founded 1 (collect scan []) (reconcile alice 1 scan)
reconcile-Listed_example = reconcile-Listed alice 1 scan
