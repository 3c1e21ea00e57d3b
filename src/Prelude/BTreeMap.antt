-- ===== src/Prelude/BTreeMap.antt =====
-- `BTreeMap` of Rust's standard library: a list of entries in the order of their keys.
use Prim.Native.Nat.{ℕ, compare, Ordering}
use Prim.Native.String.{String, compare as compare_text}
use text.Mathlib.TextEquality.{path_by_compare}
use text.Mathlib.TextPositions.{compare_refl}
use mathlib.Core.Path.{◌≡◌, refl, subst}
use mathlib.Core.Logic.{◌↔◌}
use mathlib.Core.Bool.{Bool, true, false}
use mathlib.Core.Option.{Option, none, some}
use mathlib.Core.List.{List, [], ◌∷◌, map}
use native.Mathlib.Omega.{arith}
use elanprint_rs.Prelude.Tests.{if◌then◌else◌}

-- What a key offers: a comparison that says "equal" of equal keys only.
pub record Ord {ℓ} (K : Type ℓ) : Type ℓ where
  pub cmp : K → K → Ordering
  pub cmp_iff : (a b : K) → (cmp a b ≡ Ordering.eq) ↔ (a ≡ b)

pub number_cmp_iff : (a b : ℕ) → (compare a b ≡ Ordering.eq) ↔ (a ≡ b)
number_cmp_iff a b = ground arith

pub text_cmp_iff : (a b : String) → (compare_text a b ≡ Ordering.eq) ↔ (a ≡ b)
text_cmp_iff a b =
    (path_by_compare a b, λ e. subst (λ x. compare_text a x ≡ Ordering.eq) e (compare_refl a))

instance abbrev pub number_ord : Ord ℕ
number_ord = record { cmp = compare; cmp_iff = number_cmp_iff }

instance abbrev pub text_ord : Ord String
text_ord = record { cmp = compare_text; cmp_iff = text_cmp_iff }

abbrev pub BTreeMap {ℓ κ} : Type ℓ → Type κ → Type (ℓ ⊔ κ)
BTreeMap K V = List (K × V)

module _ {ℓ} {K : Type ℓ} ⦃o : Ord K⦄ where
  abbrev pub is_key : K → K → Bool
  is_key a b = elim (o.cmp a b) [ Ordering.eq ↦ true | _ ↦ false ]

  pub is_key_iff : (a b : K) → (is_key a b ≡ true) ↔ (a ≡ b)
  is_key_iff a b = ground (arith, o.cmp_iff a b)

module _ {ℓ κ} {K : Type ℓ} {V : Type κ} ⦃o : Ord K⦄ where
  unfoldable pub get : K → BTreeMap K V → Option V
  get k [] = none
  get k ((j, v) ∷ m) = if is_key j k then some v else get k m

  unfoldable pub insert : K → V → BTreeMap K V → BTreeMap K V
  insert k v [] = (k, v) ∷ []
  insert k v ((j, w) ∷ m) = elim (o.cmp k j) [
    | Ordering.lt ↦ (k, v) ∷ (j, w) ∷ m
    | Ordering.eq ↦ (k, v) ∷ m
    | Ordering.gt ↦ (j, w) ∷ insert k v m
  ]

  unfoldable pub remove : K → BTreeMap K V → BTreeMap K V
  remove k [] = []
  remove k ((j, w) ∷ m) = if is_key j k then remove k m else (j, w) ∷ remove k m

  -- `collect()` from an iterator of pairs: a later pair replaces an earlier one.
  unfoldable pub collect : List (K × V) → BTreeMap K V → BTreeMap K V
  collect [] m = m
  collect ((k, v) ∷ rest) m = collect rest (insert k v m)

  pub get-insert :
      (k j : K) (v : V) (m : BTreeMap K V)
      → get j (insert k v m) ≡ (if is_key k j then some v else get j m)
  unfolding get insert
  get-insert k j v [] = refl
  get-insert k j v ((i, w) ∷ m) =
      ground (arith, o.cmp_iff k i, o.cmp_iff k j, o.cmp_iff i j, get-insert k j v m)

  pub get-remove :
      (k j : K) (m : BTreeMap K V) → get j (remove k m) ≡ (if is_key k j then none else get j m)
  unfolding get remove
  get-remove k j [] = ground arith
  get-remove k j ((i, w) ∷ m) =
      ground (arith, o.cmp_iff i k, o.cmp_iff k j, o.cmp_iff i j, get-remove k j m)

abbrev pub keys {ℓ κ} : {K : Type ℓ} {V : Type κ} → BTreeMap K V → List K
keys = map (λ e. e.0)

abbrev pub values {ℓ κ} : {K : Type ℓ} {V : Type κ} → BTreeMap K V → List V
values = map (λ e. e.1)
