-- ===== src/Store.antt =====
-- crates/elanprint-store: which finger of which user lies in which slot of the chip.
pub mod Slots
pub mod File
pub mod Reconcile
pub mod Mapping
use elanprint_rs.Prelude.{
  ℕ, String, Bool, true, false, not, List, [], ◌∷◌, Option, none, some, Result, ok, err, str_eq,
  ◌==◌, ◌&&◌, ◌||◌, if◌then◌else◌,
}
use elanprint_rs.Prelude.BTreeMap.{BTreeMap, text_ord, get, insert, remove}

abbrev pub max_slot : ℕ
max_slot = 15

abbrev pub finger_names : List String
finger_names =
    "left-thumb" ∷ "left-index-finger" ∷ "left-middle-finger" ∷ "left-ring-finger"
    ∷ "left-little-finger" ∷ "right-thumb" ∷ "right-index-finger" ∷ "right-middle-finger"
    ∷ "right-ring-finger" ∷ "right-little-finger" ∷ []

names_contain : List String → String → Bool
names_contain [] name = false
names_contain (x ∷ xs) name = str_eq x name || names_contain xs name

unfoldable pub is_valid_finger : String → Bool
unfolding names_contain
is_valid_finger name = names_contain finger_names name

abbrev pub Fingers : Type 0
Fingers = BTreeMap String ℕ

-- User to finger to slot.
abbrev pub Prints : Type 0
Prints = BTreeMap String Fingers

-- The kinds of `io::Error` that the store tells apart.
pub data IoError : Type 0 where
  not_found other : IoError

pub data StoreError : Type 0 where
  io : IoError → StoreError
  parse : StoreError
  bad_finger : String → StoreError
  slot_taken : ℕ → String → String → StoreError

-- The inner loop of `Store::insert`: the first other finger of `u` at this slot.
taken_by : String → String → ℕ → String → Fingers → Option String
taken_by user finger slot u [] = none
taken_by user finger slot u ((f, s) ∷ rest) =
    if s == slot && (not (str_eq u user) || not (str_eq f finger))
    then some f
    else taken_by user finger slot u rest

-- The outer loop.
unfoldable pub taken : String → String → ℕ → Prints → Option (String × String)
unfolding taken_by
taken user finger slot [] = none
taken user finger slot ((u, fingers) ∷ rest) = elim (taken_by user finger slot u fingers) [
  | some f ↦ some (u, f)
  | none ↦ taken user finger slot rest
]

-- `entry(user).or_default()`.
abbrev pub fingers_of : String → Prints → Fingers
fingers_of user p = elim (get user p) [ none ↦ [] | some fs ↦ fs ]

-- `Store::insert`, on the map alone.
unfoldable pub insert_print : String → String → ℕ → Prints → Result Prints StoreError
insert_print user finger slot p =
    if not (is_valid_finger finger)
    then err (bad_finger finger)
    else elim (taken user finger slot p) [
      | some (u, f) ↦ err (slot_taken slot u f)
      | none ↦ ok (insert user (insert finger slot (fingers_of user p)) p)
    ]

drop_finger : String → Fingers → Prints → Prints
drop_finger user [] p = remove user p
drop_finger user (f ∷ fs) p = insert user (f ∷ fs) p

-- `Store::remove`.
unfoldable pub remove_print : String → String → Prints → Prints
unfolding drop_finger
remove_print user finger p = elim (get user p) [
  | none ↦ p
  | some fingers ↦ drop_finger user (remove finger fingers) p
]

-- `prints.get(user).and_then(|f| f.get(finger))`.
unfoldable pub slot_of : String → String → Prints → Option ℕ
slot_of user finger p = elim (get user p) [ none ↦ none | some fs ↦ get finger fs ]
