-- ===== src/Keyring/Seal/Setup/Provision.antt =====
-- crates/elanprint-keyring-setup/src/lib.rs: the order in which `provision` seals and wires.
use elanprint_rs.Prelude.{
  ℕ, ◌≡◌, refl, ◌⊎◌, inl, inr, Bool, true, false, List, [], ◌∷◌, Option, none, some, Result, ok,
  err, if◌then◌else◌,
}
use elanprint_rs.Keyring.Stack.{Change, added, already_present, StackError, insert}
use elanprint_rs.Keyring.Seal.{
  SetupError, call_failed, already_sealed, Host, Tools, Setup, ◌>>=◌, tick, call, generate,
  seal_as_root, verify_as_root, write_recovery_as_root,
}
use elanprint_rs.Keyring.Seal.Hoare.{After, Hoare, Hoare-return, Hoare-bail, Hoare-bind, Hoare-mono}
use elanprint_rs.Keyring.Seal.Steps.{
  Opens, Sealed, call-Hoare, generate-Hoare, seal-Hoare, verify-Hoare, recovery-Hoare,
}
use elanprint_rs.Keyring.Seal.Setup.{
  StackFile, fingerprint_stack, password_stack, text_of, with_text, Wired, cred_absent, read_stack,
  write_as_root, rewrite, wire_change, wire_text, wire_all, sealed_secret, stacks_for, provision,
}

-- The PAM stacks hold what they held on `h`.
abbrev pub SameStacks : Host → Host → Type 0
SameStacks h k = (k.fingerprint ≡ h.fingerprint) × (k.password ≡ h.password)

module _ (t : Tools) (start : Host) where
  cred_absent-Same :
      Hoare (SameStacks start) (cred_absent t) (λ _. SameStacks start) (SameStacks start)
  unfolding cred_absent
  cred_absent-Same = record { from = λ h k. by_cred h k h.cred }
    where
      by_cred :
          (h : Host)
          → SameStacks start h
          → (o : Option (List ℕ))
          → After {A = Unit {0}}
              (λ _. SameStacks start)
              (SameStacks start)
              (elim o as (λ _. Result (Unit {0}) SetupError × Host) [
                | none ↦ (ok tt, h)
                | some blob ↦ (err already_sealed, h)
              ])
      by_cred h k none = k
      by_cred h k (some blob) = k

  sealed_secret-Sealed :
      Hoare (SameStacks start) (sealed_secret t) (λ s h. Sealed t s h) (SameStacks start)
  unfolding sealed_secret
  sealed_secret-Sealed =
      Hoare-bind (generate t) _ (generate-Hoare t (SameStacks start) (λ h k. k)) λ secret.
        Hoare-bind (seal_as_root t secret) _
          (seal-Hoare t (SameStacks start) (λ h k. k) (λ h c k. k) secret)
          λ _.
            Hoare-bind (verify_as_root t secret) _
              (verify-Hoare t (SameStacks start) (λ h k. k) secret)
              λ _.
                Hoare-bind (write_recovery_as_root t secret) _
                  (Hoare-mono
                    (recovery-Hoare t (λ h. SameStacks start h × Opens t secret h) (λ h k. k)
                      (λ h r k. k) secret)
                    (λ h k. k) (λ a h k. k) (λ h k. k.0))
                  λ _. Hoare-return secret (λ h k. (k.0.1, k.1))

module _ (t : Tools) (secret : List ℕ) where
  with_text-Sealed :
      (file : StackFile) (text : Option (List ℕ)) (h : Host)
      → Sealed t secret h
      → Sealed t secret (with_text file text h)
  unfolding with_text
  with_text-Sealed fingerprint_stack text h k = k
  with_text-Sealed password_stack text h k = k

  write-Sealed :
      (file : StackFile) (text : List ℕ)
      → Hoare (Sealed t secret) (write_as_root t file text) (λ _. Sealed t secret) (Sealed t secret)
  unfolding write_as_root
  write-Sealed file text = record { from = λ h k. by_fault h k (t.faults h.clock) }
    where
      by_fault :
          (h : Host)
          → Sealed t secret h
          → (b : Bool)
          → After {A = Unit {0}}
              (λ _. Sealed t secret)
              (Sealed t secret)
              (if b
                then (err call_failed, tick (with_text file (t.leaves h.clock (text_of file h)) h))
                else (ok tt, tick (with_text file (some text) h)))
      by_fault h k true = with_text-Sealed file _ h k
      by_fault h k false = with_text-Sealed file _ h k

  wire_change-Sealed :
      (file : StackFile) (r : Result Change StackError)
      → Hoare (Sealed t secret) (wire_change t file r) (λ _. Sealed t secret) (Sealed t secret)
  unfolding wire_change rewrite
  wire_change-Sealed file (err e) = Hoare-bail _ (λ h k. k)
  wire_change-Sealed file (ok already_present) = Hoare-return _ (λ h k. k)
  wire_change-Sealed file (ok (added text)) =
      Hoare-bind (rewrite t file text) _
        (Hoare-bind (call t) _ (call-Hoare t (Sealed t secret) (λ h k. k))
          λ _. write-Sealed file text)
        λ _. Hoare-return _ (λ h k. k)

  wire_text-Sealed :
      (file : StackFile) (wired : List Wired) (o : Option (List ℕ))
      → Hoare (Sealed t secret) (wire_text t file wired o) (λ _. Sealed t secret) (Sealed t secret)
  unfolding wire_text
  wire_text-Sealed file wired none = Hoare-return _ (λ h k. k)
  wire_text-Sealed file wired (some text) =
      Hoare-bind (wire_change t file (insert text)) _ (wire_change-Sealed file (insert text))
        λ w. Hoare-return _ (λ h k. k)

  wire_all-Sealed :
      (files : List StackFile) (wired : List Wired)
      → Hoare (Sealed t secret) (wire_all t files wired) (λ _. Sealed t secret) (Sealed t secret)
  unfolding wire_all read_stack
  wire_all-Sealed [] wired = Hoare-return _ (λ h k. k)
  wire_all-Sealed (file ∷ files) wired =
      Hoare-bind (read_stack t file) _ (record { from = λ h k. k })
        λ text.
          Hoare-bind (wire_text t file wired text) _ (wire_text-Sealed file wired text)
            λ more. wire_all-Sealed files more

cred_present :
    (t : Tools) {B : Type 0} (f : Unit {0} → Setup B) (h : Host) (blob : List ℕ)
    → h.cred ≡ some blob
    → (cred_absent t >>= f) h ≡ (err already_sealed, h)
unfolding ◌>>=◌ cred_absent
cred_present t f h blob c = simp (cred_absent, c)

-- Before anything is wired the secret is sealed, read back and noted: a run of `provision` that
-- succeeds leaves a sealed file that opens to the secret which it returns, and a recovery file with
-- that secret; one that fails leaves both PAM stacks as they were, or such a sealed secret. Over a
-- secret that is sealed already it fails and changes nothing.
pub provision-Sealed :
    (t : Tools) (fingerprint_only : Bool) (h : Host)
    → After
        (λ r k. Sealed t r.0 k)
        (λ k. SameStacks h k ⊎ ((s : List ℕ) × Sealed t s k))
        (provision t fingerprint_only h)
      × ((blob : List ℕ)
          → h.cred ≡ some blob
          → provision t fingerprint_only h ≡ (err already_sealed, h))
unfolding provision
provision-Sealed t b h = (run.from h (refl, refl), λ blob c. cred_present t _ h blob c)
  where
    run :
        Hoare
          (SameStacks h)
          (provision t b)
          (λ r k. Sealed t r.0 k)
          (λ k. SameStacks h k ⊎ ((s : List ℕ) × Sealed t s k))
    run =
        Hoare-bind (cred_absent t) _
          (Hoare-mono (cred_absent-Same t h) (λ h k. k) (λ a h k. k) (λ h k. inl k))
          λ _.
            Hoare-bind (sealed_secret t) _
              (Hoare-mono (sealed_secret-Sealed t h) (λ h k. k) (λ a h k. k) (λ h k. inl k))
              λ secret.
                Hoare-bind (wire_all t (stacks_for t b) []) _
                  (Hoare-mono (wire_all-Sealed t secret (stacks_for t b) []) (λ h k. k) (λ a h k. k)
                    (λ h k. inr (secret, k)))
                  λ wired. Hoare-return (secret, wired) (λ h k. k)
