-- ===== src/Store/Reconcile/Report.antt =====
-- crates/elanprint-store/src/lib.rs: what a report of `reconcile` says.
use native.Mathlib.Nat.{zero-add}
use elanprint_rs.Prelude.{
  ℕ, sym, ap, subst, ◌+◌, String, ◌≡◌, ◌≢◌, refl, ◌⊎◌, inl, inr, true, false, List, [], ◌∷◌, Option,
  none, some, arith, ◌==◌, ◌∙◌, length, length-append, All, All-append, Bool-cases, ==_iff,
}
use elanprint_rs.Prelude.BTreeMap.{BTreeMap, number_ord, get, collect}
use elanprint_rs.Proto.Response.{SlotState, empty, stuck, enrolled, error}
use elanprint_rs.Store.{Fingers, Prints}
use elanprint_rs.Store.Reconcile.{
  EntryStatus, SyncReport, empty_report, each_finger, each_entry, mark_empty, judge, mark_scanned,
  warn_slot, warn_count, warn_untracked, fingers_count, reconcile,
}

abbrev pub reported : SyncReport → ℕ
reported r = length r.confirmed + length r.unconfirmed + length r.stale

-- A loop whose body reports one entry reports them all.
module _ (body : String → String → ℕ → SyncReport → SyncReport)
    (one : (u f : String) (s : ℕ) (r : SyncReport) → reported (body u f s r) ≡ reported r + 1) where
  reported-each_finger :
      (u : String) (fs : Fingers) (r : SyncReport)
      → reported (each_finger body u fs r) ≡ reported r + length fs
  unfolding each_finger
  reported-each_finger u [] r = omega arith
  reported-each_finger u ((f, s) ∷ rest) r =
      omega (arith, reported-each_finger u rest (body u f s r), one u f s r)

  reported-each_entry :
      (p : Prints) (r : SyncReport) → reported (each_entry body p r) ≡ reported r + fingers_count p
  unfolding each_entry fingers_count
  reported-each_entry [] r = omega arith
  reported-each_entry ((u, fs) ∷ rest) r =
      omega (arith, reported-each_entry rest (each_finger body u fs r), reported-each_finger u fs r)

-- What the body keeps the loop keeps.
module _ (P : SyncReport → Type 0) (body : String → String → ℕ → SyncReport → SyncReport)
    (keep : (u f : String) (s : ℕ) (r : SyncReport) → P r → P (body u f s r)) where
  each_finger-keeps :
      (u : String) (fs : Fingers) (r : SyncReport) → P r → P (each_finger body u fs r)
  unfolding each_finger
  each_finger-keeps u [] r h = h
  each_finger-keeps u ((f, s) ∷ rest) r h = each_finger-keeps u rest (body u f s r) (keep u f s r h)

  each_entry-keeps : (p : Prints) (r : SyncReport) → P r → P (each_entry body p r)
  unfolding each_entry
  each_entry-keeps [] r h = h
  each_entry-keeps ((u, fs) ∷ rest) r h =
      each_entry-keeps rest (each_finger body u fs r) (each_finger-keeps u fs r h)

mark_empty-one :
    (u f : String) (s : ℕ) (r : SyncReport) → reported (mark_empty u f s r) ≡ reported r + 1
unfolding mark_empty
mark_empty-one u f s r = omega (arith, length-append {0})

judge-one :
    (o : Option SlotState) (u f : String) (s : ℕ) (r : SyncReport)
    → reported (judge o u f s r) ≡ reported r + 1
unfolding judge
judge-one (some (enrolled raw)) u f s r = omega (arith, length-append {0})
judge-one (some empty) u f s r = omega (arith, length-append {0})
judge-one _ u f s r = omega (arith, length-append {0})

-- The warnings change no list of entries.
abbrev pub SameLists : SyncReport → SyncReport → Type 0
SameLists q r = (q.confirmed ≡ r.confirmed) × (q.unconfirmed ≡ r.unconfirmed) × (q.stale ≡ r.stale)

warn_count-SameLists : (n : ℕ) (p : Prints) (r : SyncReport) → SameLists (warn_count n p r) r
unfolding warn_count
warn_count-SameLists n p r = (ground arith, ground arith, ground arith)

warn_slot-SameLists :
    (p : Prints) (id : ℕ) (state : SlotState) (r : SyncReport)
    → SameLists (warn_slot p id state r) r
unfolding warn_slot
warn_slot-SameLists p id state r = (ground arith, ground arith, ground arith)

warn_untracked-SameLists :
    (p : Prints) (records : List (ℕ × SlotState)) (r : SyncReport)
    → SameLists (warn_untracked p records r) r
unfolding warn_untracked
warn_untracked-SameLists p [] r = (refl, refl, refl)
warn_untracked-SameLists p ((id, state) ∷ rest) r =
    let ih = warn_untracked-SameLists p rest (warn_slot p id state r) in
    let one = warn_slot-SameLists p id state r in (ih.0 ∙ one.0, ih.1 ∙ one.1, ih.2 ∙ one.2)

-- The warnings that follow the loop over a scan.
pub warned-SameLists :
    (p : Prints) (records : List (ℕ × SlotState)) (count : ℕ) (r : SyncReport)
    → SameLists (warn_untracked p records (warn_count count p r)) r
warned-SameLists p records count r =
    let a = warn_untracked-SameLists p records (warn_count count p r) in
    let b = warn_count-SameLists count p r in (a.0 ∙ b.0, a.1 ∙ b.1, a.2 ∙ b.2)

-- What the device must have said of an entry's slot, for each list of the report.
abbrev pub Confirmed : Option SlotState → Type 0
Confirmed o = (raw : List ℕ) × (o ≡ some (enrolled raw))

abbrev pub Open : Option SlotState → Type 0
Open o = (o ≡ none) ⊎ ((o ≡ some stuck) ⊎ ((code : ℕ) × (o ≡ some (error code))))

-- The scan behind a report: a full record for what is confirmed, a full record that reads empty, or
-- a device that holds nothing, for what is stale, and no full record for the rest.
abbrev pub Founded : ℕ → BTreeMap ℕ SlotState → SyncReport → Type 0
Founded count scan r =
    All (λ e. (e.stale ≡ false) × (count ≢ 0) × Confirmed (get e.slot scan)) r.confirmed
    × All (λ e. (e.stale ≡ false) × (count ≢ 0) × Open (get e.slot scan)) r.unconfirmed
    × All (λ e. (e.stale ≡ true) × ((count ≡ 0) ⊎ (get e.slot scan ≡ some empty))) r.stale

judge-Founded :
    (count : ℕ) (scan : BTreeMap ℕ SlotState) (o : Option SlotState) (u f : String) (s : ℕ)
    (r : SyncReport)
    → count ≢ 0
    → get s scan ≡ o
    → Founded count scan r
    → Founded count scan (judge o u f s r)
unfolding judge
judge-Founded count scan (some (enrolled raw)) u f s r n e h =
    (All-append _ r.confirmed _ h.0 ((refl, n, (raw, e)), tt), h.1, h.2)
judge-Founded count scan (some empty) u f s r n e h =
    (h.0, h.1, All-append _ r.stale _ h.2 ((refl, inr e), tt))
judge-Founded count scan (some stuck) u f s r n e h =
    (h.0, All-append _ r.unconfirmed _ h.1 ((refl, n, inr (inl e)), tt), h.2)
judge-Founded count scan (some (error code)) u f s r n e h =
    (h.0, All-append _ r.unconfirmed _ h.1 ((refl, n, inr (inr (code, e))), tt), h.2)
judge-Founded count scan none u f s r n e h =
    (h.0, All-append _ r.unconfirmed _ h.1 ((refl, n, inl e), tt), h.2)

mark_empty-Founded :
    (count : ℕ) (scan : BTreeMap ℕ SlotState) (u f : String) (s : ℕ) (r : SyncReport)
    → count ≡ 0
    → Founded count scan r
    → Founded count scan (mark_empty u f s r)
unfolding mark_empty
mark_empty-Founded count scan u f s r z h =
    (h.0, h.1, All-append _ r.stale _ h.2 ((refl, inl z), tt))

Founded-SameLists :
    (count : ℕ) (scan : BTreeMap ℕ SlotState) (q r : SyncReport)
    → SameLists q r
    → Founded count scan r
    → Founded count scan q
Founded-SameLists count scan q r e h =
    (subst (All _) (sym e.0) h.0, subst (All _) (sym e.1) h.1, subst (All _) (sym e.2) h.2)

reported-SameLists : (q r : SyncReport) → SameLists q r → reported q ≡ reported r
reported-SameLists q r e = omega (
  arith,
  ap (length {A = EntryStatus}) e.0,
  ap (length {A = EntryStatus}) e.1,
  ap (length {A = EntryStatus}) e.2,
)

-- A report has as many entries as the map has fingers, and each list is founded in what is said of the
-- slots that its entries name.
pub reconcile-Founded :
    (p : Prints) (count : ℕ) (records : List (ℕ × SlotState))
    → (reported (reconcile p count records) ≡ fingers_count p)
      × Founded count (collect records []) (reconcile p count records)
unfolding reconcile
reconcile-Founded p count records = elim (Bool-cases (count == 0)) [
  | inl z ↦
      rw (z, reconcile)
        (
          reported-each_entry mark_empty mark_empty-one p empty_report ∙ zero-add (fingers_count p),
          each_entry-keeps (Founded count scan) mark_empty
              (λ u f s r. mark_empty-Founded count scan u f s r ((==_iff count 0).0 z)) p
              empty_report (tt, tt, tt),
        )
  | inr n ↦
      rw (n, reconcile)
        (
          reported-SameLists final marked lists
              ∙ reported-each_entry (mark_scanned scan) scanned-one p empty_report
              ∙ zero-add (fingers_count p),
          Founded-SameLists count scan final marked lists (
              each_entry-keeps (Founded count scan) (mark_scanned scan) (scanned-keep n) p
                empty_report (tt, tt, tt)),
        )
]
  where
    scan : BTreeMap ℕ SlotState
    scan = collect records []

    marked : SyncReport
    marked = each_entry (mark_scanned scan) p empty_report

    final : SyncReport
    final = warn_untracked p records (warn_count count p marked)

    lists : SameLists final marked
    lists = warned-SameLists p records count marked

    scanned-one :
        (u f : String) (s : ℕ) (r : SyncReport)
        → reported (mark_scanned scan u f s r) ≡ reported r + 1
    scanned-one u f s r = judge-one (get s scan) u f s r

    scanned-keep :
        count == 0 ≡ false
        → (u f : String) (s : ℕ) (r : SyncReport) → Founded count scan r
        → Founded count scan (mark_scanned scan u f s r)
    scanned-keep n u f s r h =
        judge-Founded count scan (get s scan) u f s r (λ z. ground arith) refl h
