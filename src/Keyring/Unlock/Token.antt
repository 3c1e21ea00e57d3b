-- ===== src/Keyring/Unlock/Token.antt =====
-- crates/pam-elanprint-keyring/src/lib.rs: when the module sets a token, and which.
use elanprint_rs.Prelude.{
  ℕ, ◌/◌, ◌%◌, ◌<◌, ◌≤◌, ◌≡◌, ◌≢◌, refl, sym, ap, ◌∙◌, ◌⊎◌, inl, inr, Bool, true, false, not, List,
  [], ◌∷◌, ◌++◌, Option, none, some, contains, All, if◌then◌else◌, arith,
}
use elanprint_rs.Keyring.Seal.{hex_digit, to_hex}
use elanprint_rs.Keyring.Unlock.{
  pam_ignore, Captured, bytes, read_failed, timed_out, Child, reap, is_clean, captured_bytes, run,
  pop_eol, trim_eol, unless_empty, decrypt, to_token, Item, offer, token_of, supply_authtok,
  pam_sm_authenticate,
}

-- The child started, printed `out` in time, and was seen to exit with success.
abbrev pub Printed : Child → List ℕ → Type 0
Printed c out =
    (c.starts ≡ true) × (c.pipes ≡ true) × (c.captured ≡ bytes out) × (reap c.polls ≡ some true)

run-Printed : (c : Child) (out : List ℕ) → run c ≡ some out → Printed c out
unfolding run captured_bytes is_clean
run-Printed c out e = by_all c.starts c.pipes c.captured (reap c.polls) refl refl refl refl e
  where
    by_all :
        (s p : Bool) (k : Captured) (r : Option Bool)
        → c.starts ≡ s
        → c.pipes ≡ p
        → c.captured ≡ k
        → reap c.polls ≡ r
        → (if not s then none else if not p then none else captured_bytes (is_clean r) k) ≡ some out
        → Printed c out
    by_all true true (bytes b) (some true) x y z w h = (x, y, z ∙ ap bytes (cc h), w)
    by_all true true (bytes b) (some false) x y z w h = absurd (cc h)
    by_all true true (bytes b) none x y z w h = absurd (cc h)
    by_all true true read_failed r x y z w h = absurd (cc h)
    by_all true true timed_out r x y z w h = absurd (cc h)
    by_all true false k r x y z w h = absurd (cc h)
    by_all false p k r x y z w h = absurd (cc h)

Printed-run : (c : Child) (out : List ℕ) → Printed c out → run c ≡ some out
unfolding run captured_bytes is_clean
Printed-run c out (s, p, k, r) = simp (run, s, p, k, r, captured_bytes, is_clean)

-- What the item is after an offer.
pub Offered : (List ℕ → Item → ℕ × Item) → Child → Item → ℕ × Item → Type 0
Offered set_item c item (rc, after) =
    (rc ≡ pam_ignore)
    × ((after ≡ item)
        ⊎ ((out : List ℕ) × Printed c out
            × (trim_eol out ≢ [])
            × (contains (trim_eol out) 0 ≡ false)
            × (after ≡ (set_item (trim_eol out) item).1)))

module _ (set_item : List ℕ → Item → ℕ × Item) (c : Child) (item : Item) where
  token-Offered :
      (out secret : List ℕ)
      → Printed c out
      → trim_eol out ≡ secret
      → secret ≢ []
      → Offered set_item c item (offer set_item (to_token secret) item)
  unfolding to_token offer Offered
  token-Offered out secret p e full = by_nul (contains secret 0) refl
    where
      by_nul :
          (b : Bool)
          → contains secret 0 ≡ b
          → Offered set_item c item (offer set_item (if b then none else some secret) item)
      by_nul true q = (refl, inl refl)
      by_nul false q = (
        refl,
        inr (
          out,
          p,
          (λ z. full (sym e ∙ z)),
          ap (λ s. contains s 0) e ∙ q,
          ap (λ s. (set_item s item).1) (sym e),
        ),
      )

  out-Offered :
      (o : Option (List ℕ))
      → run c ≡ o
      → Offered set_item c item (
          offer set_item
            (token_of set_item (elim o [ none ↦ none | some out ↦ unless_empty (trim_eol out) ]))
            item)
  unfolding offer token_of unless_empty Offered
  out-Offered none e = (refl, inl refl)
  out-Offered (some out) e = by_text (trim_eol out) refl
    where
      by_text :
          (s : List ℕ)
          → trim_eol out ≡ s
          → Offered set_item c item (offer set_item (token_of set_item (unless_empty s)) item)
      by_text [] q = (refl, inl refl)
      by_text (x ∷ s) q = token-Offered out (x ∷ s) (run-Printed c out e) q (λ z. cc z)

  supply-Offered : Offered set_item c item (supply_authtok set_item c item)
  unfolding supply_authtok decrypt
  supply-Offered = out-Offered (run c) refl

-- `pam_sm_authenticate` answers `PAM_IGNORE` on every path, a panic included. It leaves the token alone,
-- or offers what a child printed that exited with success in time, without its line ends; and that is
-- not empty and holds no NUL byte.
pub authenticate-Offered :
    (set_item : List ℕ → Item → ℕ × Item) (panics : Bool) (c : Child) (item : Item)
    → Offered set_item c item (pam_sm_authenticate set_item panics c item)
unfolding pam_sm_authenticate Offered
authenticate-Offered set_item true c item = (refl, inl refl)
authenticate-Offered set_item false c item = supply-Offered set_item c item

-- A character that is no line end and no NUL.
abbrev IsPlain : ℕ → Type 0
IsPlain n = (48 ≤ n) × (n ≤ 102)

hex_digit-IsPlain : (n : ℕ) → n < 16 → IsPlain (hex_digit n)
hex_digit-IsPlain n h = (ground arith, ground arith)

to_hex-IsPlain : (raw : List ℕ) → All IsPlain (to_hex raw)
unfolding to_hex
to_hex-IsPlain [] = tt
to_hex-IsPlain (b ∷ raw) = (
  hex_digit-IsPlain (b / 16 % 16) (omega arith),
  (hex_digit-IsPlain (b % 16) (omega arith), to_hex-IsPlain raw),
)

plain-contains : (s : List ℕ) → All IsPlain s → contains s 0 ≡ false
unfolding contains
plain-contains [] h = refl
plain-contains (c ∷ s) h = ground (arith, plain-contains s h.1)

plain-trim : (s : List ℕ) → All IsPlain s → trim_eol (s ++ (10 ∷ [])) ≡ s
unfolding trim_eol pop_eol
plain-trim [] h = refl
plain-trim (c ∷ []) h = ground arith
plain-trim (c ∷ d ∷ s) h = ap (pop_eol c) (plain-trim (d ∷ s) h.1)

to_hex-empty : (raw : List ℕ) → to_hex raw ≡ [] → raw ≡ []
unfolding to_hex
to_hex-empty [] e = refl
to_hex-empty (b ∷ raw) e = absurd (cc e)

-- The secret that `generate` makes is one that the module hands over as it is: where the child
-- prints it with a line end, exits with success in time and nothing panics, the token that the
-- module offers is the secret.
to_hex-authenticate :
    (set_item : List ℕ → Item → ℕ × Item) (raw : List ℕ) (c : Child) (item : Item)
    → raw ≢ []
    → Printed c (to_hex raw ++ (10 ∷ []))
    → pam_sm_authenticate set_item false c item ≡ (pam_ignore, (set_item (to_hex raw) item).1)
unfolding pam_sm_authenticate supply_authtok decrypt offer token_of unless_empty to_token
to_hex-authenticate set_item raw c item full p =
    by_hex (to_hex raw) (to_hex-IsPlain raw) (λ e. full (to_hex-empty raw e)) (Printed-run c _ p)
  where
    by_hex :
        (s : List ℕ)
        → All IsPlain s
        → s ≢ []
        → run c ≡ some (s ++ (10 ∷ []))
        → supply_authtok set_item c item ≡ (pam_ignore, (set_item s item).1)
    by_hex [] h some_digit e = absurd (some_digit refl)
    by_hex (x ∷ s) h some_digit e = simp (
      supply_authtok,
      decrypt,
      e,
      plain-trim (x ∷ s) h,
      unless_empty,
      token_of,
      to_token,
      plain-contains (x ∷ s) h,
      offer,
    )
