-- ===== src/Keyring/Seal/Setup.antt =====
-- crates/elanprint-keyring-setup/src/lib.rs, and `enable` and `rotate` of src/main.rs. The root half
-- that elevate.rs runs through pkexec is called directly.
pub mod Provision
pub mod Rotate
pub mod Outcome
use elanprint_rs.Prelude.{
  ℕ, ◌+◌, Bool, true, false, List, [], ◌∷◌, ◌++◌, Option, none, some, Result, ok, err, ◌==◌,
  if◌then◌else◌,
}
use elanprint_rs.Prelude.Text.{same, codes, trim}
use elanprint_rs.Keyring.Stack.{Change, added, already_present, StackError, insert, remove}
use elanprint_rs.Keyring.Seal.{
  SetupError, call_failed, already_sealed, no_previous, stack, Host, Tools, Setup, ◌>>=◌, ◌>>◌,
  return, bail, tick, call, generate, seal_as_root, verify_as_root, unseal_as_root,
  write_recovery_as_root,
}

-- `FINGERPRINT_STACK`, `PASSWORD_STACK`.
pub data StackFile : Type 0 where
  fingerprint_stack password_stack : StackFile

unfoldable pub text_of : StackFile → Host → Option (List ℕ)
text_of fingerprint_stack h = h.fingerprint
text_of password_stack h = h.password

unfoldable pub with_text : StackFile → Option (List ℕ) → Host → Host
with_text fingerprint_stack text h = record h { fingerprint = text }
with_text password_stack text h = record h { password = text }

-- A stack, and whether a backup of it was made.
pub record Wired : Type 0 where
  pub file : StackFile
  pub backup : Bool

-- What `rotate` reports: the new key, or that the old one was restored.
pub data Report : Type 0 where
  rotated : List ℕ → Report
  old_restored : Report

module _ (t : Tools) where
  -- `cred_exists`.
  cred_absent : Setup (Unit {0})
  cred_absent h = elim h.cred [ none ↦ (ok tt, h) | some blob ↦ (err already_sealed, h) ]

  -- `read_to_string`.
  read_stack : StackFile → Setup (Option (List ℕ))
  read_stack file h = (ok (if t.faults h.clock then none else text_of file h), tick h)

  -- `write_as_root`.
  write_as_root : StackFile → List ℕ → Setup (Unit {0})
  write_as_root file text h =
      if t.faults h.clock
      then (err call_failed, tick (with_text file (t.leaves h.clock (text_of file h)) h))
      else (ok tt, tick (with_text file (some text) h))

  -- `backup_as_root`, whose copy is not modelled, and `write_as_root`.
  rewrite : StackFile → List ℕ → Setup (Unit {0})
  unfolding write_as_root
  rewrite file text = do call t; write_as_root file text

  wire_change : StackFile → Result Change StackError → Setup Wired
  unfolding rewrite
  wire_change file (err e) = bail (stack e)
  wire_change file (ok already_present) = return (record { file = file; backup = false })
  wire_change file (ok (added updated)) = do
    rewrite file updated
    return (record { file = file; backup = true })

  wire_text : StackFile → List Wired → Option (List ℕ) → Setup (List Wired)
  unfolding wire_change
  wire_text file wired none = return wired
  wire_text file wired (some text) = do
    w ← wire_change file (insert text)
    return (wired ++ (w ∷ []))

  wire_all : List StackFile → List Wired → Setup (List Wired)
  unfolding read_stack wire_text
  wire_all [] wired = return wired
  wire_all (file ∷ files) wired = do
    text ← read_stack file
    more ← wire_text file wired text
    wire_all files more

  -- The sealing, with its round trip and the recovery file.
  sealed_secret : Setup (List ℕ)
  sealed_secret = do
    secret ← generate t
    seal_as_root t secret
    verify_as_root t secret
    write_recovery_as_root t secret
    return secret

  stacks_for : Bool → List StackFile
  stacks_for fingerprint_only =
      if fingerprint_only then fingerprint_stack ∷ [] else fingerprint_stack ∷ password_stack ∷ []

  unfoldable pub provision : Bool → Setup (List ℕ × List Wired)
  unfolding cred_absent sealed_secret wire_all stacks_for
  provision fingerprint_only = do
    cred_absent
    secret ← sealed_secret
    wired ← wire_all (stacks_for fingerprint_only) []
    return (secret, wired)

  unwire_change : StackFile → List Wired → Option (List ℕ) → Setup (List Wired)
  unfolding rewrite
  unwire_change file undone none = return undone
  unwire_change file undone (some updated) = do
    rewrite file updated
    return (undone ++ (record { file = file; backup = true } ∷ []))

  unwire_text : StackFile → List Wired → Option (List ℕ) → Setup (List Wired)
  unfolding unwire_change
  unwire_text file undone none = return undone
  unwire_text file undone (some text) = unwire_change file undone (remove text)

  unfoldable pub deprovision : Setup (List Wired)
  unfolding read_stack unwire_text
  deprovision = do
    first ← read_stack fingerprint_stack
    undone ← unwire_text fingerprint_stack [] first
    second ← read_stack password_stack
    unwire_text password_stack undone second

  -- `reveal`.
  unfoldable pub reveal : Setup (List ℕ)
  reveal = unseal_as_root t

  -- `std::fs::copy(CRED, CRED_PREVIOUS)`.
  keep_previous : Setup (Unit {0})
  keep_previous h = elim h.cred [
    | none ↦ (err call_failed, tick h)
    | some blob ↦
        if t.faults h.clock
        then (err call_failed, tick (record h { previous = t.leaves h.clock h.previous }))
        else (ok tt, tick (record h { previous = some blob }))
  ]

  unfoldable pub rotate_seal : Setup (List ℕ × List ℕ)
  unfolding keep_previous
  rotate_seal = do
    old ← unseal_as_root t
    new ← generate t
    keep_previous
    seal_as_root t new
    verify_as_root t new
    write_recovery_as_root t new
    return (old, new)

  -- The test for the previous copy, and `std::fs::copy(CRED_PREVIOUS, CRED)`.
  restore_previous : Setup (Unit {0})
  restore_previous h = elim h.previous [
    | none ↦ (err no_previous, h)
    | some blob ↦
        if t.faults h.clock
        then (err call_failed, tick (record h { cred = t.leaves h.clock h.cred }))
        else (ok tt, tick (record h { cred = some blob }))
  ]

  unfoldable pub rollback : Setup (Unit {0})
  unfolding restore_previous
  rollback = do restore_previous; secret ← unseal_as_root t; write_recovery_as_root t secret

  text_or_fail : Option (List ℕ) → Setup (List ℕ)
  text_or_fail none = bail call_failed
  text_or_fail (some text) = return text

  unfoldable pub wire_password : Setup Wired
  unfolding read_stack text_or_fail wire_change
  wire_password = do
    found ← read_stack password_stack
    text ← text_or_fail found
    wire_change password_stack (insert text)

  -- A file that is not there counts as removed.
  unfoldable pub forget_recovery_file : Setup (Unit {0})
  forget_recovery_file h = elim h.recovery [
    | none ↦ (ok tt, tick h)
    | some text ↦
        if t.faults h.clock
        then (err call_failed, tick h)
        else (ok tt, tick (record h { recovery = none }))
  ]

  -- `keyring::change_password`.
  unfoldable pub change_password : List ℕ → List ℕ → Setup (Unit {0})
  change_password old new h =
      if t.rekeys h.clock h.keyring old new
      then (ok tt, tick (record h { keyring = new }))
      else (err call_failed, tick h)

  after_change : List ℕ → Result (Unit {0}) SetupError × Host → Result Report SetupError × Host
  after_change new (ok u, h) = (ok (rotated new), h)
  after_change new (err e, h) = (ok old_restored, (rollback h).1)

  change_key : List ℕ × List ℕ → Setup Report
  unfolding after_change
  change_key (old, new) h = after_change new (change_password old new h)

  -- `rotate` of main.rs, by a normal user.
  unfoldable pub rotate : Setup Report
  unfolding change_key
  rotate = rotate_seal >>= change_key
