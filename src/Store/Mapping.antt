-- ===== src/Store/Mapping.antt =====
-- crates/elanprint-store/src/lib.rs: what the two writers of the map do to a lookup and to the slots.
use elanprint_rs.Prelude.{
  ℕ, String, ◌≡◌, refl, true, [], ◌∷◌, none, some, ok, arith, str_eq_iff, ◌&&◌, ◌∙◌, if◌then◌else◌,
  Option-cases, inl, inr,
}
use elanprint_rs.Prelude.BTreeMap.{
  text_ord, get, insert, remove, get-insert, get-remove, is_key, is_key_iff,
}
use elanprint_rs.Store.{
  Fingers, Prints, is_valid_finger, taken_by, taken, fingers_of, insert_print, drop_finger,
  remove_print, slot_of,
}

nil-get : (k : String) → get {V = ℕ} k [] ≡ none
unfolding get
nil-get k = refl

put-slot_of :
    (user finger u f : String) (slot : ℕ) (p : Prints)
    → slot_of u f (insert user (insert finger slot (fingers_of user p)) p)
      ≡ (if is_key user u && is_key finger f then some slot else slot_of u f p)
unfolding slot_of
put-slot_of user finger u f slot p = ground (
  arith,
  get-insert user u (insert finger slot (fingers_of user p)) p,
  get-insert finger f slot (fingers_of user p),
  is_key_iff user u,
  nil-get f,
)

-- A lookup after a successful insertion finds the new slot under the new finger, and every other
-- finger of every user where it was.
slot_of-insert_print :
    (user finger u f : String) (slot : ℕ) (p q : Prints)
    → insert_print user finger slot p ≡ ok q
    → slot_of u f q ≡ (if is_key user u && is_key finger f then some slot else slot_of u f p)
unfolding insert_print
slot_of-insert_print user finger u f slot p q h = ground (arith, put-slot_of user finger u f slot p)

drop-slot_of :
    (user finger u f : String) (fs : Fingers) (p : Prints)
    → slot_of u f (drop_finger user fs p) ≡ (if is_key user u then get f fs else slot_of u f p)
unfolding slot_of drop_finger
drop-slot_of user finger u f [] p = ground (arith, get-remove user u p, nil-get f)
drop-slot_of user finger u f (x ∷ fs) p = ground (arith, get-insert user u (x ∷ fs) p)

-- A lookup after a removal misses the removed finger, and finds every other finger of every user
-- where it was.
pub slot_of-remove_print :
    (user finger u f : String) (p : Prints)
    → slot_of u f (remove_print user finger p)
      ≡ (if is_key user u && is_key finger f then none else slot_of u f p)
unfolding remove_print
slot_of-remove_print user finger u f p = elim (Option-cases (get user p)) [
  | inl e ↦ rw (e, remove_print) (unfold slot_of in ground (arith, e, is_key_iff user u))
  | inr (fs, e) ↦
      rw (e, remove_print)
        (drop-slot_of user finger u f (remove finger fs) p
          ∙ unfold slot_of in ground (arith, e, get-remove finger f fs, is_key_iff user u))
]

-- No two fingers share a slot.
abbrev pub IsUnique : Prints → Type 0
IsUnique p =
    (u f v g : String) (s : ℕ) → slot_of u f p ≡ some s → slot_of v g p ≡ some s → (u ≡ v) × (f ≡ g)

taken_by-none :
    (user finger u g : String) (slot : ℕ) (fs : Fingers)
    → taken_by user finger slot u fs ≡ none
    → get g fs ≡ some slot
    → (u ≡ user) × (g ≡ finger)
unfolding taken_by get
taken_by-none user finger u g slot [] t h = (ground arith, ground arith)
taken_by-none user finger u g slot ((f, s) ∷ rest) t h = ground (
  arith,
  str_eq_iff u user,
  str_eq_iff f finger,
  is_key_iff f g,
  taken_by-none user finger u g slot rest,
)

taken-none :
    (user finger v g : String) (slot : ℕ) (p : Prints)
    → taken user finger slot p ≡ none
    → slot_of v g p ≡ some slot
    → (v ≡ user) × (g ≡ finger)
unfolding taken get slot_of
taken-none user finger v g slot [] t h = (ground arith, ground arith)
taken-none user finger v g slot ((u, fs) ∷ rest) t h = ground (
  arith,
  is_key_iff u v,
  taken_by-none user finger u g slot fs,
  taken-none user finger v g slot rest,
)

pub insert_print-free :
    (user finger : String) (slot : ℕ) (p q : Prints)
    → insert_print user finger slot p ≡ ok q
    → (taken user finger slot p ≡ none) × (is_valid_finger finger ≡ true)
unfolding insert_print
insert_print-free user finger slot p q h = (ground arith, ground arith)

-- A successful insertion keeps the slots unique: it is refused as soon as any other finger of any
-- user has the slot.
pub insert_print-IsUnique :
    (user finger : String) (slot : ℕ) (p q : Prints)
    → IsUnique p
    → insert_print user finger slot p ≡ ok q
    → IsUnique q
insert_print-IsUnique user finger slot p q unique h u f v g s hu hv = ground (
  arith,
  slot_of-insert_print user finger u f slot p q h,
  slot_of-insert_print user finger v g slot p q h,
  is_key_iff user u,
  is_key_iff finger f,
  is_key_iff user v,
  is_key_iff finger g,
  taken-none user finger u f slot p (insert_print-free user finger slot p q h).0,
  taken-none user finger v g slot p (insert_print-free user finger slot p q h).0,
  unique u f v g s,
)

remove_print-IsUnique :
    (user finger : String) (p : Prints) → IsUnique p → IsUnique (remove_print user finger p)
remove_print-IsUnique user finger p unique u f v g s hu hv = ground (
  arith,
  slot_of-remove_print user finger u f p,
  slot_of-remove_print user finger v g p,
  unique u f v g s,
)
