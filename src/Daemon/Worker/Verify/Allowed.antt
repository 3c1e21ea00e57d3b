-- ===== src/Daemon/Worker/Verify/Allowed.antt =====
-- crates/elanprintd/src/worker.rs: which slots may authenticate a claim in `Worker::verify`.
use elanprint_rs.Prelude.{
  ℕ, String, ◌≡◌, refl, subst, sym, ◌⊎◌, inl, inr, [], ◌∷◌, Option, none, some, Result, ok, arith,
  str_eq, str_eq_iff, Bool-cases,
}
use elanprint_rs.Prelude.BTreeMap.{
  text_ord, number_ord, get, insert, get-insert, is_key, is_key_iff, collect,
}
use elanprint_rs.Store.{Fingers, Prints}
use elanprint_rs.Daemon.Machine.{WorkerError}
use elanprint_rs.Daemon.Worker.Verify.{
  Allowed, swapped, allowed_one, allowed_among, allowed_of, allowed_slots,
}

-- The finger `name` has the slot `id` among a user's fingers.
abbrev pub Holds : String → ℕ → Fingers → Type 0
Holds name id [] = ⊥
Holds name id ((f, s) ∷ fs) = ((f ≡ name) × (s ≡ id)) ⊎ Holds name id fs

-- The user's finger `name` has the slot `id`, and it is the requested one, unless any will do.
abbrev pub Owns : String → String → Prints → String → ℕ → Type 0
Owns user finger p name id =
    ((fs : Fingers) × (get user p ≡ some fs) × Holds name id fs)
    × ((finger ≡ "any") ⊎ (name ≡ finger))

get-Holds : (name : String) (id : ℕ) (fs : Fingers) → get name fs ≡ some id → Holds name id fs
unfolding get
get-Holds name id [] h = absurd (cc h)
get-Holds name id ((f, s) ∷ fs) h = elim (Bool-cases (is_key f name)) [
  | inl here ↦ inl (ground (arith, here, is_key_iff f name), ground (arith, here))
  | inr later ↦ inr (get-Holds name id fs (ground (arith, later)))
]

get-collect :
    (id : ℕ) (name : String) (fs : Fingers) (m : Allowed)
    → get id (collect (swapped fs) m) ≡ some name
    → Holds name id fs ⊎ (get id m ≡ some name)
unfolding swapped collect
get-collect id name [] m h = inr h
get-collect id name ((f, s) ∷ fs) m h = elim (get-collect id name fs (insert s f m) h) [
  | inl later ↦ inl (inr later)
  | inr before ↦ elim (Bool-cases (is_key s id)) [
    | inl here ↦ inl (
        inl (
          ground (arith, here, before, get-insert s id f m),
          ground (arith, here, is_key_iff s id),
        ))
    | inr other ↦ inr (ground (arith, other, before, get-insert s id f m))
  ]
]

get-single :
    (id s : ℕ) (name f : String)
    → get {V = String} id ((s, f) ∷ []) ≡ some name
    → (s ≡ id) × (f ≡ name)
unfolding get
get-single id s name f h = (ground (arith, is_key_iff s id), ground arith)

nothing-get : (id : ℕ) (name : String) → get {V = String} id [] ≡ some name → ⊥
unfolding get
nothing-get id name h = cc h

ok_eq : (a b : Allowed) (r : Result Allowed WorkerError) → ok a ≡ r → r ≡ ok b → a ≡ b
ok_eq a b r g h = cc (g, h)

allowed_one-Holds :
    (finger name : String) (id : ℕ) (o : Option ℕ) (fs : Fingers) (a : Allowed)
    → get finger fs ≡ o
    → allowed_one finger o ≡ ok a
    → get id a ≡ some name
    → Holds name id fs × (name ≡ finger)
unfolding allowed_one
allowed_one-Holds finger name id none fs a e h g = absurd (cc h)
allowed_one-Holds finger name id (some s) fs a e h g =
    let k =
      get-single id s name finger
        (subst (λ m. get id m ≡ some name) (sym (ok_eq _ _ _ refl h)) g) in
    (get-Holds name id fs (ground (arith, e, k)), sym k.1)

allowed_among-Holds :
    (finger name : String) (id : ℕ) (fs : Fingers) (a : Allowed)
    → allowed_among finger fs ≡ ok a
    → get id a ≡ some name
    → Holds name id fs × ((finger ≡ "any") ⊎ (name ≡ finger))
unfolding allowed_among
allowed_among-Holds finger name id fs a h g = elim (Bool-cases (str_eq finger "any")) [
  | inl any ↦
      elim (get-collect id name fs []
        (subst (λ m. get id m ≡ some name) (sym (ok_eq _ _ _ refl (rw any at h))) g)) [
          | inl entry ↦ (entry, inl ((str_eq_iff finger "any").0 any))
          | inr missing ↦ absurd (nothing-get id name missing)
        ]
  | inr named ↦
      let got = allowed_one-Holds finger name id (get finger fs) fs a refl (rw named at h) g in
      (got.0, inr got.1)
]

allowed_of-Holds :
    (user finger name : String) (id : ℕ) (o : Option Fingers) (a : Allowed)
    → allowed_of user finger o ≡ ok a
    → get id a ≡ some name
    → ((fs : Fingers) × (o ≡ some fs) × Holds name id fs) × ((finger ≡ "any") ⊎ (name ≡ finger))
unfolding allowed_of
allowed_of-Holds user finger name id none a h g = absurd (cc h)
allowed_of-Holds user finger name id (some []) a h g = absurd (cc h)
allowed_of-Holds user finger name id (some (f ∷ fs)) a h g =
    let got = allowed_among-Holds finger name id (f ∷ fs) a h g in ((f ∷ fs, refl, got.0), got.1)

-- A slot may authenticate a claim only for a finger of the claim's own user that has this slot, and
-- that was asked for by its name, or "any" was asked for.
pub allowed_slots-Owns :
    (user finger name : String) (id : ℕ) (p : Prints) (a : Allowed)
    → allowed_slots user finger p ≡ ok a
    → get id a ≡ some name
    → Owns user finger p name id
unfolding allowed_slots
allowed_slots-Owns user finger name id p a h g =
    allowed_of-Holds user finger name id (get user p) a h g
