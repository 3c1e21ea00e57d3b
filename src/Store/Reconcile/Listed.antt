-- ===== src/Store/Reconcile/Listed.antt =====
-- crates/elanprint-store/src/lib.rs: which fingers a report of `reconcile` lists, and where.
use elanprint_rs.Prelude.{
  ℕ, String, ◌≡◌, refl, sym, ap, ◌∙◌, Bool, true, false, not, List, [], ◌∷◌, ◌++◌, Option, none,
  some, ◌==◌, ◌&&◌, ◌||◌, retain, Bool-cases, inl, inr,
}
use elanprint_rs.Prelude.BTreeMap.{BTreeMap, number_ord, get, collect}
use elanprint_rs.Proto.Response.{SlotState, empty, stuck, enrolled, error}
use elanprint_rs.Store.{Fingers, Prints}
use elanprint_rs.Store.Reconcile.{
  EntryStatus, SyncReport, empty_report, entry, each_finger, each_entry, mark_empty, judge,
  mark_scanned, warn_count, warn_untracked, reconcile,
}
use elanprint_rs.Store.Reconcile.Report.{Founded, SameLists, warned-SameLists, reconcile-Founded}

-- A finger as the map holds it: its user, its name and its slot.
abbrev pub Key : Type 0
Key = String × String × ℕ

abbrev pub keys : List EntryStatus → List Key
keys [] = []
keys (e ∷ es) = (e.user, e.finger, e.slot) ∷ keys es

-- The fingers of the map, in its order.
unfoldable pub fingers_keys : String → Fingers → List Key
fingers_keys u [] = []
fingers_keys u ((f, s) ∷ rest) = (u, f, s) ∷ fingers_keys u rest

unfoldable pub map_keys : Prints → List Key
unfolding fingers_keys
map_keys [] = []
map_keys ((u, fs) ∷ rest) = fingers_keys u fs ++ map_keys rest

-- What the scan says of a slot.
abbrev pub holds_record : Option SlotState → Bool
holds_record (some (enrolled raw)) = true
holds_record _ = false

abbrev pub reads_empty : Option SlotState → Bool
reads_empty (some empty) = true
reads_empty _ = false

-- Of a count and a scan: which fingers are confirmed, which are stale, and which are neither.
module _ (count : ℕ) (scan : BTreeMap ℕ SlotState) where
  abbrev pub is_confirmed : Key → Bool
  is_confirmed (u, f, s) = not (count == 0) && holds_record (get s scan)

  abbrev pub is_stale : Key → Bool
  is_stale (u, f, s) = count == 0 || reads_empty (get s scan)

  abbrev pub is_unproven : Key → Bool
  is_unproven k = not (is_confirmed k) && not (is_stale k)

keys-append : (xs ys : List EntryStatus) → keys (xs ++ ys) ≡ keys xs ++ keys ys
keys-append [] ys = refl
keys-append (x ∷ xs) ys = ap (λ l. (x.user, x.finger, x.slot) ∷ l) (keys-append xs ys)

module _ {A : Type 0} where
  append_assoc : (xs ys zs : List A) → (xs ++ ys) ++ zs ≡ xs ++ (ys ++ zs)
  append_assoc [] ys zs = refl
  append_assoc (x ∷ xs) ys zs = ap (λ l. x ∷ l) (append_assoc xs ys zs)

  append-nil : (xs : List A) → xs ++ [] ≡ xs
  append-nil [] = refl
  append-nil (x ∷ xs) = ap (λ l. x ∷ l) (append-nil xs)

  retain-append : (p : A → Bool) (xs ys : List A) → retain p (xs ++ ys) ≡ retain p xs ++ retain p ys
  retain-append p [] ys = refl
  retain-append p (x ∷ xs) ys = elim (Bool-cases (p x)) [
    | inl e ↦ rw e (ap (λ l. x ∷ l) (retain-append p xs ys))
    | inr e ↦ rw e (retain-append p xs ys)
  ]

-- A loop whose body lists a finger under a test lists those of the map that pass it, in its order.
module _ (list_of : SyncReport → List EntryStatus) (p : Key → Bool)
    (body : String → String → ℕ → SyncReport → SyncReport)
    (one : (u f : String) (s : ℕ) (r : SyncReport)
      → keys (list_of (body u f s r)) ≡ keys (list_of r) ++ retain p ((u, f, s) ∷ [])) where
  fingers-Listed :
      (u : String) (fs : Fingers) (r : SyncReport)
      → keys (list_of (each_finger body u fs r)) ≡ keys (list_of r) ++ retain p (fingers_keys u fs)
  unfolding each_finger fingers_keys
  fingers-Listed u [] r = sym (append-nil (keys (list_of r)))
  fingers-Listed u ((f, s) ∷ rest) r =
      fingers-Listed u rest (body u f s r)
      ∙ ap (λ l. l ++ retain p (fingers_keys u rest)) (one u f s r)
      ∙ append_assoc (keys (list_of r)) (retain p ((u, f, s) ∷ [])) (retain p (fingers_keys u rest))
      ∙ ap (λ l. keys (list_of r) ++ l)
          (sym (retain-append p ((u, f, s) ∷ []) (fingers_keys u rest)))

  entries-Listed :
      (ps : Prints) (r : SyncReport)
      → keys (list_of (each_entry body ps r)) ≡ keys (list_of r) ++ retain p (map_keys ps)
  unfolding each_entry map_keys
  entries-Listed [] r = sym (append-nil (keys (list_of r)))
  entries-Listed ((u, fs) ∷ rest) r =
      entries-Listed rest (each_finger body u fs r)
      ∙ ap (λ l. l ++ retain p (map_keys rest)) (fingers-Listed u fs r)
      ∙ append_assoc (keys (list_of r)) (retain p (fingers_keys u fs)) (retain p (map_keys rest))
      ∙ ap (λ l. keys (list_of r) ++ l) (sym (retain-append p (fingers_keys u fs) (map_keys rest)))

-- The three lists of a report, by the tests above.
abbrev pub Listed : ℕ → BTreeMap ℕ SlotState → Prints → SyncReport → Type 0
Listed count scan p r =
    (keys r.confirmed ≡ retain (is_confirmed count scan) (map_keys p))
    × (keys r.unconfirmed ≡ retain (is_unproven count scan) (map_keys p))
    × (keys r.stale ≡ retain (is_stale count scan) (map_keys p))

-- One finger, by the same tests.
abbrev Adds : ℕ → BTreeMap ℕ SlotState → Key → SyncReport → SyncReport → Type 0
Adds count scan k r q =
    (keys q.confirmed ≡ keys r.confirmed ++ retain (is_confirmed count scan) (k ∷ []))
    × (keys q.unconfirmed ≡ keys r.unconfirmed ++ retain (is_unproven count scan) (k ∷ []))
    × (keys q.stale ≡ keys r.stale ++ retain (is_stale count scan) (k ∷ []))

mark_empty-Adds :
    (count : ℕ) (scan : BTreeMap ℕ SlotState) (u f : String) (s : ℕ) (r : SyncReport)
    → count == 0 ≡ true
    → Adds count scan (u, f, s) r (mark_empty u f s r)
unfolding mark_empty entry
mark_empty-Adds count scan u f s r z = (
  rw z (sym (append-nil (keys r.confirmed))),
  rw z (sym (append-nil (keys r.unconfirmed))),
  rw z (keys-append r.stale _),
)

judge-Adds :
    (count : ℕ) (scan : BTreeMap ℕ SlotState) (o : Option SlotState) (u f : String) (s : ℕ)
    (r : SyncReport)
    → count == 0 ≡ false
    → get s scan ≡ o
    → Adds count scan (u, f, s) r (judge o u f s r)
unfolding judge entry
judge-Adds count scan (some (enrolled raw)) u f s r n e = (
  rw (n, e) (keys-append r.confirmed _),
  rw (n, e) (sym (append-nil (keys r.unconfirmed))),
  rw (n, e) (sym (append-nil (keys r.stale))),
)
judge-Adds count scan (some empty) u f s r n e = (
  rw (n, e) (sym (append-nil (keys r.confirmed))),
  rw (n, e) (sym (append-nil (keys r.unconfirmed))),
  rw (n, e) (keys-append r.stale _),
)
judge-Adds count scan (some stuck) u f s r n e = (
  rw (n, e) (sym (append-nil (keys r.confirmed))),
  rw (n, e) (keys-append r.unconfirmed _),
  rw (n, e) (sym (append-nil (keys r.stale))),
)
judge-Adds count scan (some (error code)) u f s r n e = (
  rw (n, e) (sym (append-nil (keys r.confirmed))),
  rw (n, e) (keys-append r.unconfirmed _),
  rw (n, e) (sym (append-nil (keys r.stale))),
)
judge-Adds count scan none u f s r n e = (
  rw (n, e) (sym (append-nil (keys r.confirmed))),
  rw (n, e) (keys-append r.unconfirmed _),
  rw (n, e) (sym (append-nil (keys r.stale))),
)

-- A loop over the map that adds so lists so.
loop-Listed :
    (count : ℕ) (scan : BTreeMap ℕ SlotState) (body : String → String → ℕ → SyncReport → SyncReport)
    (adds : (u f : String) (s : ℕ) (r : SyncReport) → Adds count scan (u, f, s) r (body u f s r))
    (p : Prints)
    → Listed count scan p (each_entry body p empty_report)
loop-Listed count scan body adds p = (
  entries-Listed (λ r. r.confirmed) (is_confirmed count scan) body (λ u f s r. (adds u f s r).0) p
      empty_report,
  entries-Listed (λ r. r.unconfirmed) (is_unproven count scan) body (λ u f s r. (adds u f s r).1) p
      empty_report,
  entries-Listed (λ r. r.stale) (is_stale count scan) body (λ u f s r. (adds u f s r).2) p
      empty_report,
)

same-Listed :
    (count : ℕ) (scan : BTreeMap ℕ SlotState) (p : Prints) (q r : SyncReport)
    → SameLists q r
    → Listed count scan p r
    → Listed count scan p q
same-Listed count scan p q r e l = (ap keys e.0 ∙ l.0, ap keys e.1 ∙ l.1, ap keys e.2 ∙ l.2)

-- The report where the device counts something.
abbrev scanned_report : ℕ → Prints → List (ℕ × SlotState) → SyncReport
unfolding mark_scanned
scanned_report count p records =
    warn_untracked p records
      (warn_count count p (each_entry (mark_scanned (collect records [])) p empty_report))

scanned-Listed :
    (count : ℕ)
    → count == 0 ≡ false
    → (p : Prints) (records : List (ℕ × SlotState))
    → Listed count (collect records []) p (scanned_report count p records)
unfolding mark_scanned
scanned-Listed count n p records =
    let scan = collect records [] in
    let marked = each_entry (mark_scanned scan) p empty_report in
    same-Listed count scan p (scanned_report count p records) marked
      (warned-SameLists p records count marked)
      (loop-Listed count scan (mark_scanned scan)
        (λ u f s r. judge-Adds count scan (get s scan) u f s r n refl) p)

-- A report lists the fingers of the map, each with its user, its name and its slot, in the order of the
-- map: as stale all of them where the device counts nothing, and else those with a slot whose 70 byte
-- record reads empty; as confirmed those with a slot that holds a record; as unconfirmed the rest. The
-- flag of an entry says whether it is stale. The 2 byte form alone never makes an entry stale.
pub reconcile-Listed :
    (p : Prints) (count : ℕ) (records : List (ℕ × SlotState))
    → Listed count (collect records []) p (reconcile p count records)
      × Founded count (collect records []) (reconcile p count records)
unfolding reconcile mark_scanned
reconcile-Listed p count records = (
  elim (Bool-cases (count == 0)) [
    | inl z ↦
        rw (z, reconcile)
          (loop-Listed count (collect records []) mark_empty
            (λ u f s r. mark_empty-Adds count (collect records []) u f s r z) p)
    | inr n ↦ rw (n, reconcile) (scanned-Listed count n p records)
  ],
  (reconcile-Founded p count records).1,
)
