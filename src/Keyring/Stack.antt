-- ===== src/Keyring/Stack.antt =====
-- crates/elanprint-keyring-setup/src/pam.rs and preflight.rs: the edits of a PAM configuration file.
-- Texts are lists of code points.
pub mod Edits
use elanprint_rs.Prelude.{
  ℕ, zero, suc, Bool, true, false, not, List, [], ◌∷◌, ◌++◌, Option, none, some, Result, ok, err,
  ◌==◌, ltb, length, any, retain, ◌&&◌, if◌then◌else◌,
}
use elanprint_rs.Prelude.Text.{codes, same, is_whitespace, trim_start}
use elanprint_rs.Prelude.Lines.{lines, starts_with, contains_text, join}

-- `MODULE`.
abbrev pub module_file : List ℕ
module_file = codes "pam_elanprint_keyring.so"

-- `LINE`, with tabs between its words.
abbrev pub module_line : List ℕ
module_line = codes "auth\toptional\tpam_elanprint_keyring.so"

unfoldable pub is_our_line : List ℕ → Bool
is_our_line line =
    not (starts_with (codes "#") (trim_start line)) && contains_text module_file (trim_start line)

-- The characters up to a white space.
until_space : List ℕ → List ℕ
until_space [] = []
until_space (c ∷ cs) = if is_whitespace c then [] else c ∷ until_space cs

unfoldable pub is_keyring_auth : List ℕ → Bool
unfolding until_space
is_keyring_auth line =
    not (starts_with (codes "#") (trim_start line))
    && same (until_space (trim_start line)) (codes "auth")
    && contains_text (codes "pam_gnome_keyring.so") (trim_start line)

pub data Change : Type 0 where
  added : List ℕ → Change
  already_present : Change

-- The texts of `bail!`.
pub data StackError : Type 0 where
  no_keyring_line outside_file : StackError

module _ {ℓ} {A : Type ℓ} where
  -- `iter().position(p)`.
  unfoldable pub position : (A → Bool) → List A → Option ℕ
  position p [] = none
  position p (x ∷ xs) =
      if p x then some 0 else elim (position p xs) [ none ↦ none | some n ↦ some (suc n) ]

  -- `Vec::insert`, within the vector.
  unfoldable pub insert_at : ℕ → A → List A → List A
  insert_at zero a xs = a ∷ xs
  insert_at (suc n) a [] = a ∷ []
  insert_at (suc n) a (x ∷ xs) = x ∷ insert_at n a xs

-- A joined text and its last line end.
unfoldable pub written : List (List ℕ) → List ℕ
written ls = join ls ++ (10 ∷ [])

inserted : List (List ℕ) → Option ℕ → Result Change StackError
inserted ls none = err no_keyring_line
inserted ls (some at) =
    if ltb (length ls) at
    then err outside_file
    else ok (added (written (insert_at at module_line ls)))

-- `pam::insert`.
unfoldable pub insert : List ℕ → Result Change StackError
unfolding inserted
insert text =
    if any is_our_line (lines text)
    then ok already_present
    else inserted (lines text) (position is_keyring_auth (lines text))

-- `pam::remove`.
unfoldable pub remove : List ℕ → Option (List ℕ)
remove text =
    if not (any is_our_line (lines text))
    then none
    else some (written (retain (λ l. not (is_our_line l)) (lines text)))
