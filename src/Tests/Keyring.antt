-- ===== src/Tests/Keyring.antt =====
-- The keyring programs on one machine.
use elanprint_rs.Prelude.{
  ℕ, ◌≡◌, ◌≢◌, refl, ◌⊎◌, ◌==◌, true, false, List, [], ◌∷◌, ◌++◌, none, some, ok, err, any,
  contains,
}
use elanprint_rs.Prelude.Text.{codes, same, trim_start}
use elanprint_rs.Prelude.Lines.{lines, starts_with, contains_text, join}
use elanprint_rs.Keyring.Stack.{
  insert, remove, already_present, written, module_line, is_our_line, is_keyring_auth, position,
  insert_at,
}
use elanprint_rs.Keyring.Stack.Edits.{insert-remove}
use elanprint_rs.Keyring.Seal.{
  Host, Tools, to_hex, call, generate, seal_as_root, decrypt, verify_as_root, unseal_as_root,
  write_recovery_as_root, trim_line_ends, return, bail, answered, ◌>>=◌, already_sealed,
}
use elanprint_rs.Keyring.Seal.Hoare.{After}
use elanprint_rs.Keyring.Seal.Steps.{Opens, Sealed}
use elanprint_rs.Keyring.Seal.Setup.{provision, rotate_seal, rollback, rotate, old_restored}
use elanprint_rs.Keyring.Seal.Setup.Provision.{SameStacks, provision-Sealed}
use elanprint_rs.Keyring.Seal.Setup.Rotate.{BlobOpens, rollback-rotate_seal}
use elanprint_rs.Keyring.Seal.Setup.Outcome.{Ends, rotate-Ends, rotate-unrestored}
use elanprint_rs.Keyring.Unlock.{Child, bytes, exited, Item, pam_sm_authenticate}
use elanprint_rs.Keyring.Unlock.Token.{Offered, authenticate-Offered}

abbrev keyring_line : List ℕ
keyring_line = codes "auth optional pam_gnome_keyring.so"

abbrev stack_text : List ℕ
stack_text = written (codes "auth include x" ∷ keyring_line ∷ [])

abbrev stack_after : List ℕ
stack_after = written (codes "auth include x" ∷ module_line ∷ keyring_line ∷ [])

insert-remove_example :
    ((before : List (List ℕ)) × (after : List (List ℕ)) × (keyring : List ℕ) × (lines stack_text
        ≡ before ++ (keyring ∷ after))
      × (is_keyring_auth keyring ≡ true)
      × (any is_keyring_auth before ≡ false)
      × (lines stack_after ≡ before ++ (module_line ∷ keyring ∷ after)))
    × (insert stack_after ≡ ok already_present)
    × (remove stack_after ≡ some (written (lines stack_text)))
unfolding insert written join lines is_our_line is_keyring_auth starts_with contains_text same
    contains trim_start position insert_at
insert-remove_example = insert-remove stack_text stack_after refl ((refl, refl), ((refl, refl), tt))

-- Sealing keeps the text, and only the call of number `n` fails.
same_text : (n m : ℕ) (blob s t : List ℕ) → some blob ≡ some s → some blob ≡ some t → s ≡ t
same_text n m blob s t p q = cc (p, q)

abbrev tools : ℕ → Tools
tools fault = record {
  random = λ n. some (0x5a ∷ []);
  seals = λ n s. some s;
  unseals = λ n blob. some blob;
  unseals_agree = same_text;
  faults = λ n. n == fault;
  leaves = λ n old. old;
  lossy = λ s. s;
  rekeys = λ n keyring old new. false;
}

abbrev fresh : Host
fresh = record {
  cred = none;
  previous = none;
  recovery = none;
  fingerprint = some stack_text;
  password = some stack_text;
  keyring = codes "login";
  clock = 0;
}

abbrev sealed : Host
sealed = record fresh { cred = some (codes "old") }

provision-Sealed_example :
    After
      (λ r k. Sealed (tools 99) r.0 k)
      (λ k. SameStacks fresh k ⊎ ((s : List ℕ) × Sealed (tools 99) s k))
      (provision (tools 99) false fresh)
    × ((blob : List ℕ)
        → fresh.cred ≡ some blob
        → provision (tools 99) false fresh ≡ (err already_sealed, fresh))
provision-Sealed_example = provision-Sealed (tools 99) false fresh

-- What a rotation of that secret leaves.
abbrev swapped : Host
swapped = record sealed {
  cred = some (codes "5a");
  previous = some (codes "old");
  recovery = some (codes "5a" ++ (10 ∷ []));
  clock = 11;
}

rollback-rotate_seal_example :
    ((blob : List ℕ) × (sealed.cred ≡ some blob) × BlobOpens (tools 99) (codes "old") blob)
    × Sealed (tools 99) (codes "5a") swapped
    × (swapped.keyring ≡ sealed.keyring)
    × ((k : Host)
        → rollback (tools 99) swapped ≡ (ok tt, k)
        → (k.cred ≡ sealed.cred)
          × (k.keyring ≡ sealed.keyring)
          × (k.recovery ≡ some (codes "old" ++ (10 ∷ []))))
unfolding rotate_seal unseal_as_root decrypt answered generate call seal_as_root verify_as_root
    write_recovery_as_root return bail ◌>>=◌ to_hex trim_line_ends same
rollback-rotate_seal_example =
    rollback-rotate_seal (tools 99) sealed swapped (codes "old") (codes "5a") refl

rotate-Ends_example : Ends (tools 99) sealed (rotate (tools 99) sealed)
rotate-Ends_example = rotate-Ends (tools 99) sealed

rotate-unrestored_example :
    ((rotate (tools 12) sealed).0 ≡ ok old_restored)
    × Opens (tools 12) (codes "5a") (rotate (tools 12) sealed).1
    × ((rotate (tools 12) sealed).1.keyring ≡ sealed.keyring)
unfolding rotate_seal unseal_as_root decrypt answered generate call seal_as_root verify_as_root
    write_recovery_as_root return bail ◌>>=◌ to_hex trim_line_ends same
rotate-unrestored_example =
    rotate-unrestored (tools 12) sealed swapped (codes "old") (codes "5a") refl refl refl refl

-- A child that prints the secret and exits at once.
abbrev child : Child
child = record {
  starts = true;
  pipes = true;
  captured = bytes (codes "5a" ++ (10 ∷ []));
  polls = λ n. exited true;
}

abbrev set_authtok : List ℕ → Item → ℕ × Item
set_authtok token item = (0, some token)

authenticate-Offered_example :
    Offered set_authtok child none (pam_sm_authenticate set_authtok false child none)
authenticate-Offered_example = authenticate-Offered set_authtok false child none

raw-ne-nil : ◌≢◌ {A = List ℕ} (0x5a ∷ []) []
raw-ne-nil e = cc e
