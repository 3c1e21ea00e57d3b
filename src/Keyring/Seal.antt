-- ===== src/Keyring/Seal.antt =====
-- crates/elanprint-keyring-setup/src/seal.rs: the secret, its sealed copy, and the chain of fallible
-- steps that the setup consists of. Texts and files are lists of bytes. What systemd-creds, the
-- random device and the file system do at the n-th call of the run is a parameter.
pub mod Hoare
pub mod Steps
pub mod Setup
use elanprint_rs.Prelude.{
  ℕ, ◌+◌, ◌/◌, ◌%◌, ◌≡◌, Bool, true, false, List, [], ◌∷◌, ◌++◌, Option, none, some, Result, ok,
  err, ◌==◌, ltb, ◌||◌, if◌then◌else◌,
}
use elanprint_rs.Prelude.Text.{same}
use elanprint_rs.Keyring.Stack.{StackError}
use mathlib.Core.List.{reverse}

-- The errors, without their texts.
pub data SetupError : Type 0 where
  -- A call of the system or of systemd-creds failed.
  call_failed : SetupError
  already_sealed mismatch empty_secret no_previous : SetupError
  stack : StackError → SetupError

-- The files: the sealed secret, its previous copy, the plaintext copy, the two PAM stacks; the
-- password that opens the login keyring; and the number of calls made.
pub record Host : Type 0 where
  pub cred : Option (List ℕ)
  pub previous : Option (List ℕ)
  pub recovery : Option (List ℕ)
  pub fingerprint : Option (List ℕ)
  pub password : Option (List ℕ)
  pub keyring : List ℕ
  pub clock : ℕ

-- `faults` says which calls fail, and `leaves` what a failed write leaves of the old file. A blob
-- unseals to one secret, whenever it unseals. `lossy` is `String::from_utf8_lossy`; `rekeys` says
-- whether the keyring daemon, whose password is the first text, takes a change from the second to the
-- third.
pub record Tools : Type 0 where
  pub random : ℕ → Option (List ℕ)
  pub seals : ℕ → List ℕ → Option (List ℕ)
  pub unseals : ℕ → List ℕ → Option (List ℕ)
  pub unseals_agree :
      (n m : ℕ) (blob s t : List ℕ) → unseals n blob ≡ some s → unseals m blob ≡ some t → s ≡ t
  pub faults : ℕ → Bool
  pub leaves : ℕ → Option (List ℕ) → Option (List ℕ)
  pub lossy : List ℕ → List ℕ
  pub rekeys : ℕ → List ℕ → List ℕ → List ℕ → Bool

abbrev pub Setup : Type 0 → Type 0
Setup A = Host → Result A SetupError × Host

module _ {A B : Type 0} where
  abbrev pub proceed : Result A SetupError → (A → Setup B) → Setup B
  proceed (ok a) f h = f a h
  proceed (err e) f h = (err e, h)

  infixl 10 ◌>>=◌ ◌>>◌
  unfoldable pub ◌>>=◌ : Setup A → (A → Setup B) → Setup B
  ◌>>=◌ x f h = proceed (x h).0 f (x h).1

  abbrev pub ◌>>◌ : Setup A → Setup B → Setup B
  x >> y = x >>= λ _. y

module _ {A : Type 0} where
  unfoldable pub return : A → Setup A
  return a h = (ok a, h)

  unfoldable pub bail : SetupError → Setup A
  bail e h = (err e, h)

  -- `ok_or` on what the host answers.
  unfoldable pub answered : Option A → Setup A
  answered none h = (err call_failed, h)
  answered (some a) h = (ok a, h)

abbrev pub tick : Host → Host
tick h = record h { clock = h.clock + 1 }

-- `byte:02x` of `b'0'..=b'9'`, `b'a'..=b'f'`.
abbrev pub hex_digit : ℕ → ℕ
hex_digit d = if ltb d 10 then 48 + d else 87 + d

unfoldable pub to_hex : List ℕ → List ℕ
to_hex [] = []
to_hex (b ∷ bs) = hex_digit (b / 16 % 16) ∷ hex_digit (b % 16) ∷ to_hex bs

-- Line ends in front.
drop_eol : List ℕ → List ℕ
drop_eol [] = []
drop_eol (c ∷ cs) = if c == 10 || c == 13 then drop_eol cs else c ∷ cs

-- `trim_end_matches(['\n', '\r'])`.
unfoldable pub trim_line_ends : List ℕ → List ℕ
unfolding drop_eol
trim_line_ends s = reverse (drop_eol (reverse s))

is_empty : List ℕ → Bool
is_empty [] = true
is_empty (c ∷ cs) = false

module _ (t : Tools) where
  -- A call of the system that only succeeds or fails.
  unfoldable pub call : Setup (Unit {0})
  call h = (if t.faults h.clock then err call_failed else ok tt, tick h)

  -- `generate`.
  unfoldable pub generate : Setup (List ℕ)
  generate h =
      (elim (t.random h.clock) [ none ↦ err call_failed | some raw ↦ ok (to_hex raw) ], tick h)

  spoiled : Host → Result (Unit {0}) SetupError × Host
  spoiled h = (err call_failed, tick (record h { cred = t.leaves h.clock h.cred }))

  -- `systemd-creds encrypt`, with the secret on its input.
  encrypt : List ℕ → Setup (Unit {0})
  unfolding spoiled
  encrypt secret h = elim (t.seals h.clock secret) [
    | none ↦ spoiled h
    | some blob ↦ (ok tt, tick (record h { cred = some blob }))
  ]

  -- `seal_as_root`: the directory and its mode, the process, the mode of the file.
  unfoldable pub seal_as_root : List ℕ → Setup (Unit {0})
  unfolding encrypt
  seal_as_root secret = do call; call; call; encrypt secret; call

  -- `systemd-creds decrypt`.
  unfoldable pub decrypt : Setup (List ℕ)
  decrypt h = elim h.cred [
    | none ↦ (err call_failed, tick h)
    | some blob ↦ answered (t.unseals h.clock blob) (tick h)
  ]

  -- `verify_as_root`.
  unfoldable pub verify_as_root : List ℕ → Setup (Unit {0})
  verify_as_root secret = do
    out ← decrypt
    if same (trim_line_ends (t.lossy out)) secret then return tt else bail mismatch

  -- `unseal_as_root`.
  unfoldable pub unseal_as_root : Setup (List ℕ)
  unfolding is_empty
  unseal_as_root = do
    out ← decrypt
    if is_empty (trim_line_ends (t.lossy out))
        then bail empty_secret
        else return (trim_line_ends (t.lossy out))

  -- `std::fs::write` of the recovery file.
  put_recovery : List ℕ → Setup (Unit {0})
  put_recovery secret h =
      if t.faults h.clock
      then (err call_failed, tick (record h { recovery = t.leaves h.clock h.recovery }))
      else (ok tt, tick (record h { recovery = some (secret ++ (10 ∷ [])) }))

  -- `write_recovery_as_root`.
  unfoldable pub write_recovery_as_root : List ℕ → Setup (Unit {0})
  unfolding put_recovery
  write_recovery_as_root secret = do put_recovery secret; call
