-- ===== src/Store/Slots.antt =====
-- Which slots an enrollment may write.
use elanprint_rs.Prelude.{
  ℕ, zero, suc, ◌+◌, ◌-◌, String, ◌≡◌, refl, ◌≤◌, Bool, true, not, List, [], ◌∷◌, ◌++◌, some, arith,
  ◌==◌, ltb, leb, ◌&&◌, ◌||◌, if◌then◌else◌, contains, retain, inl, inr, ap, ◌∙◌, ◌≢◌, ==_iff,
  Bool-cases,
}
use elanprint_rs.Prelude.BTreeMap.{text_ord, get, values}
use elanprint_rs.Store.{Fingers, Prints, max_slot, slot_of}

-- `lo, lo + 1, ..` with `n` members.
count_up : ℕ → ℕ → List ℕ
count_up zero lo = []
count_up (suc n) lo = lo ∷ count_up n (lo + 1)

-- `lo..=hi`.
unfoldable pub inclusive : ℕ → ℕ → List ℕ
unfolding count_up
inclusive lo hi = count_up (hi + 1 - lo) lo

unfoldable pub writable_slots : ℕ → List ℕ → List ℕ
unfolding inclusive
writable_slots count tracked = retain (λ id. not (contains tracked id)) (inclusive count max_slot)

-- `sort_unstable`, on numbers, where equal ones are the same.
insert_sorted : ℕ → List ℕ → List ℕ
insert_sorted x [] = x ∷ []
insert_sorted x (y ∷ ys) = if leb x y then x ∷ y ∷ ys else y ∷ insert_sorted x ys

sort : List ℕ → List ℕ
unfolding insert_sorted
sort [] = []
sort (x ∷ xs) = insert_sorted x (sort xs)

-- `dedup`: `x` stands in front, its equals behind it go.
dedup_after : ℕ → List ℕ → List ℕ
dedup_after x [] = []
dedup_after x (y ∷ ys) = if x == y then dedup_after x ys else y ∷ dedup_after y ys

dedup : List ℕ → List ℕ
unfolding dedup_after
dedup [] = []
dedup (x ∷ xs) = x ∷ dedup_after x xs

-- `prints.values().flat_map(|fingers| fingers.values().copied())`.
unfoldable pub all_slots : Prints → List ℕ
all_slots [] = []
all_slots ((u, fs) ∷ rest) = values fs ++ all_slots rest

unfoldable pub tracked_slots : Prints → List ℕ
unfolding sort dedup
tracked_slots p = dedup (sort (all_slots p))

contains-count_up : (n lo id : ℕ) → contains (count_up n lo) id ≡ (leb lo id && ltb id (lo + n))
unfolding count_up contains
contains-count_up zero lo id = ground arith
contains-count_up (suc n) lo id = ground (arith, contains-count_up n (lo + 1) id)

contains-retain :
    (p : ℕ → Bool) (xs : List ℕ) (id : ℕ) → contains (retain p xs) id ≡ (p id && contains xs id)
unfolding contains
contains-retain p [] id = ground arith
contains-retain p (x ∷ xs) id = elim (Bool-cases (x == id)) [
  | inl same ↦ rw ((==_iff x id).0 same) (ground (arith, contains-retain p xs id))
  | inr other ↦ ground (arith, contains-retain p xs id)
]

-- An enrollment is offered exactly the slots from the device's own count up to 15 that no user's
-- finger is mapped to.
pub contains-writable_slots :
    (count id : ℕ) (tracked : List ℕ)
    → contains (writable_slots count tracked) id
      ≡ (leb count id && leb id max_slot && not (contains tracked id))
unfolding writable_slots
contains-writable_slots count id tracked = ground (
  arith,
  contains-retain (λ i. not (contains tracked i)) (inclusive count max_slot) id,
  contains-count_up (max_slot + 1 - count) count id,
)

-- Ascending, from the bound on.
abbrev pub Ascends : ℕ → List ℕ → Type 0
Ascends lo [] = Unit
Ascends lo (x ∷ xs) = (lo ≤ x) × Ascends (x + 1) xs

Ascends-below : (lo hi : ℕ) (xs : List ℕ) → lo ≤ hi → Ascends hi xs → Ascends lo xs
Ascends-below lo hi [] h a = tt
Ascends-below lo hi (x ∷ xs) h a = (omega arith, a.1)

count_up-Ascends : (n lo : ℕ) → Ascends lo (count_up n lo)
unfolding count_up
count_up-Ascends zero lo = tt
count_up-Ascends (suc n) lo = (omega arith, count_up-Ascends n (lo + 1))

retain-Ascends : (p : ℕ → Bool) (lo : ℕ) (xs : List ℕ) → Ascends lo xs → Ascends lo (retain p xs)
retain-Ascends p lo [] a = tt
retain-Ascends p lo (x ∷ xs) a = elim (Bool-cases (p x)) [
  | inl h ↦ rw h (a.0, retain-Ascends p (x + 1) xs a.1)
  | inr h ↦ rw h (
      Ascends-below lo (x + 1) (retain p xs) (omega (arith, a.0)) (retain-Ascends p (x + 1) xs a.1))
]

-- The lowest slot is offered first, and none twice.
writable_slots-Ascends :
    (count : ℕ) (tracked : List ℕ) → Ascends count (writable_slots count tracked)
unfolding writable_slots
writable_slots-Ascends count tracked =
    retain-Ascends (λ id. not (contains tracked id)) count (inclusive count max_slot)
      (count_up-Ascends (max_slot + 1 - count) count)

contains-insert_sorted :
    (x : ℕ) (ys : List ℕ) (id : ℕ) → contains (insert_sorted x ys) id ≡ (x == id || contains ys id)
unfolding insert_sorted contains
contains-insert_sorted x [] id = refl
contains-insert_sorted x (y ∷ ys) id = ground (arith, contains-insert_sorted x ys id)

contains-sort : (xs : List ℕ) (id : ℕ) → contains (sort xs) id ≡ contains xs id
unfolding sort contains
contains-sort [] id = refl
contains-sort (x ∷ xs) id =
    contains-insert_sorted x (sort xs) id ∙ ap (λ b. x == id || b) (contains-sort xs id)

contains-dedup_after :
    (x : ℕ) (ys : List ℕ) (id : ℕ)
    → (x == id || contains (dedup_after x ys) id) ≡ (x == id || contains ys id)
unfolding dedup_after contains
contains-dedup_after x [] id = refl
contains-dedup_after x (y ∷ ys) id =
    ground (arith, contains-dedup_after x ys id, contains-dedup_after y ys id)

contains-dedup : (xs : List ℕ) (id : ℕ) → contains (dedup xs) id ≡ contains xs id
unfolding dedup contains
contains-dedup [] id = refl
contains-dedup (x ∷ xs) id = contains-dedup_after x xs id

contains-append :
    (xs ys : List ℕ) (id : ℕ) → contains (xs ++ ys) id ≡ (contains xs id || contains ys id)
unfolding contains
contains-append [] ys id = refl
contains-append (x ∷ xs) ys id = ground (arith, contains-append xs ys id)

contains-values :
    (f : String) (fs : Fingers) (s : ℕ) → get f fs ≡ some s → contains (values fs) s ≡ true
unfolding contains get
contains-values f [] s h = ground arith
contains-values f ((g, t) ∷ fs) s h = ground (arith, contains-values f fs s)

contains-all_slots :
    (u f : String) (p : Prints) (s : ℕ) → slot_of u f p ≡ some s → contains (all_slots p) s ≡ true
unfolding all_slots slot_of get
contains-all_slots u f [] s h = unfold contains in ground arith
contains-all_slots u f ((v, fs) ∷ p) s h =
    rw (contains-append (values fs) (all_slots p) s)
      (ground (arith, contains-values f fs s, contains-all_slots u f p s))

-- Sorting and removing repetitions loses no slot: every mapped slot is tracked.
pub contains-tracked_slots :
    (u f : String) (p : Prints) (s : ℕ)
    → slot_of u f p ≡ some s
    → contains (tracked_slots p) s ≡ true
unfolding tracked_slots
contains-tracked_slots u f p s h =
    contains-dedup (sort (all_slots p)) s
    ∙ contains-sort (all_slots p) s
    ∙ contains-all_slots u f p s h

-- So enrollment is never offered a slot that some finger of some user is mapped to, nor one below
-- the device's count, nor one above 15.
pub offered-IsFree :
    (count id : ℕ) (p : Prints)
    → contains (writable_slots count (tracked_slots p)) id ≡ true
    → (count ≤ id) × (id ≤ max_slot) × ((u f : String) → slot_of u f p ≢ some id)
offered-IsFree count id p h =
    let e = contains-writable_slots count id (tracked_slots p) in
    (
      ground (arith, e),
      ground (arith, e),
      λ u f m. ground (arith, e, contains-tracked_slots u f p id m),
    )
