-- ===== src/Keyring/Seal/Setup/Rotate.antt =====
-- crates/elanprint-keyring-setup/src/lib.rs and main.rs: a rotation of the secret and its undoing.
use elanprint_rs.Prelude.{
  ℕ, ◌≡◌, refl, sym, ap, ◌∙◌, subst, Bool, true, false, List, [], ◌∷◌, ◌++◌, Option, none, some,
  Result, ok, err, if◌then◌else◌,
}
use elanprint_rs.Keyring.Seal.{
  SetupError, call_failed, no_previous, Host, Tools, tick, generate, seal_as_root, verify_as_root,
  unseal_as_root, write_recovery_as_root, trim_line_ends,
}
use elanprint_rs.Keyring.Seal.Hoare.{After, Hoare, Hoare-return, Hoare-bind, Hoare-mono}
use elanprint_rs.Keyring.Seal.Steps.{
  Opens, Sealed, generate-Hoare, seal-Hoare, verify-Hoare, recovery-Hoare, unseal-Hoare,
}
use elanprint_rs.Keyring.Seal.Setup.{keep_previous, rotate_seal, restore_previous, rollback}

-- The blob unseals to the secret.
abbrev pub BlobOpens : Tools → List ℕ → List ℕ → Type 0
BlobOpens t secret blob =
    (n : ℕ) × (out : List ℕ) × (t.unseals n blob ≡ some out)
    × (trim_line_ends (t.lossy out) ≡ secret)

BlobOpens-agree : (t : Tools) (blob s u : List ℕ) → BlobOpens t s blob → BlobOpens t u blob → s ≡ u
BlobOpens-agree t blob s u (n, out, e, f) (m, other, g, k) =
    sym f ∙ ap (λ x. trim_line_ends (t.lossy x)) (t.unseals_agree n m blob out other e g) ∙ k

-- A rotation that succeeded, from `start`: the new secret is sealed and noted, the old blob is kept,
-- and the keyring is as it was.
pub record Swapped (t : Tools) (start : Host) (old new : List ℕ) (h : Host) : Type 0 where
  pub blob : List ℕ
  pub had : start.cred ≡ some blob
  pub opened : BlobOpens t old blob
  pub kept : h.previous ≡ some blob
  pub same_keyring : h.keyring ≡ start.keyring
  pub sealed : Sealed t new h

module _ (t : Tools) (start : Host) where
  abbrev SameKeyring : Host → Type 0
  SameKeyring h = h.keyring ≡ start.keyring

  -- Until the copy is made, the sealed file is the one from the start.
  abbrev Before : Host → Type 0
  Before h = (h.cred ≡ start.cred) × (h.keyring ≡ start.keyring)

  abbrev Kept : List ℕ → Host → Type 0
  Kept old h =
      (blob : List ℕ) × (start.cred ≡ some blob)
      × BlobOpens t old blob
      × (h.previous ≡ some blob)
      × (h.keyring ≡ start.keyring)

  abbrev OldRead : List ℕ → Host → Type 0
  OldRead old h = Before h × Opens t old h

  unseal-OldRead : Hoare Before (unseal_as_root t) OldRead SameKeyring
  unseal-OldRead =
      Hoare-mono (unseal-Hoare t Before (λ h k. k)) (λ h k. k) (λ a h k. k) (λ h k. k.1)

  keep_previous-Kept :
      (old : List ℕ) → Hoare (OldRead old) (keep_previous t) (λ _. Kept old) SameKeyring
  unfolding keep_previous
  keep_previous-Kept old = record {
    from =
        λ h ((c, k), (n, blob, out, e, u, s)). by_cred h blob (sym c ∙ e) k (n, out, u, s) h.cred e;
  }
    where
      by_fault :
          (h : Host) (blob : List ℕ)
          → start.cred ≡ some blob
          → h.keyring ≡ start.keyring
          → BlobOpens t old blob
          → (b : Bool)
          → After {A = Unit {0}}
              (λ _. Kept old)
              SameKeyring
              (if b
                then (err call_failed, tick (record h { previous = t.leaves h.clock h.previous }))
                else (ok tt, tick (record h { previous = some blob })))
      by_fault h blob c k o true = k
      by_fault h blob c k o false = (blob, c, o, refl, k)

      by_cred :
          (h : Host) (blob : List ℕ)
          → start.cred ≡ some blob
          → h.keyring ≡ start.keyring
          → BlobOpens t old blob
          → (o : Option (List ℕ)) → o ≡ some blob
          → After {A = Unit {0}}
              (λ _. Kept old)
              SameKeyring
              (elim o as (λ _. Result (Unit {0}) SetupError × Host) [
                | none ↦ (err call_failed, tick h)
                | some b ↦
                    if t.faults h.clock
                    then (
                      err call_failed,
                      tick (record h { previous = t.leaves h.clock h.previous }),
                    )
                    else (ok tt, tick (record h { previous = some b }))
              ])
      by_cred h blob c k o none e = k
      by_cred h blob c k o (some b) e =
          let same : b ≡ blob = cc e in
          by_fault h b (c ∙ ap some (sym same)) k (subst (BlobOpens t old) (sym same) o)
            (t.faults h.clock)

  pub rotate_seal-Swapped :
      Hoare Before (rotate_seal t) (λ r h. Swapped t start r.0 r.1 h) SameKeyring
  unfolding rotate_seal
  rotate_seal-Swapped = Hoare-bind (unseal_as_root t) _ unseal-OldRead λ old.
      Hoare-bind (generate t) _
        (Hoare-mono (generate-Hoare t (OldRead old) (λ h k. k)) (λ h k. k) (λ a h k. k)
          (λ h k. k.0.1))
        λ new. Hoare-bind (keep_previous t) _ (keep_previous-Kept old) λ _.
          Hoare-bind (seal_as_root t new) _
            (Hoare-mono (seal-Hoare t (Kept old) (λ h k. k) (λ h c k. k) new) (λ h k. k)
              (λ a h k. k) (λ h (blob, c, o, p, k). k))
            λ _.
              Hoare-bind (verify_as_root t new) _
                (Hoare-mono (verify-Hoare t (Kept old) (λ h k. k) new) (λ h k. k) (λ a h k. k)
                  (λ h (blob, c, o, p, k). k))
                λ _.
                  Hoare-bind (write_recovery_as_root t new) _
                    (Hoare-mono
                      (recovery-Hoare t (λ h. Kept old h × Opens t new h) (λ h k. k) (λ h r k. k)
                        new)
                      (λ h k. k) (λ a h k. k) (λ h ((blob, c, o, p, k), q). k))
                    λ _.
                      Hoare-return (old, new)
                        (λ h (((blob, c, o, p, k), q), r). record {
                          blob = blob;
                          had = c;
                          opened = o;
                          kept = p;
                          same_keyring = k;
                          sealed = (q, r);
                        })

module _ (t : Tools) (blob : List ℕ) (password : List ℕ) where
  abbrev Saved : Host → Type 0
  Saved h = (h.previous ≡ some blob) × (h.keyring ≡ password)

  abbrev Restored : Host → Type 0
  Restored h = (h.cred ≡ some blob) × (h.keyring ≡ password)

  abbrev Same : Host → Type 0
  Same h = h.keyring ≡ password

  restore_previous-Restored : Hoare Saved (restore_previous t) (λ _. Restored) Same
  unfolding restore_previous
  restore_previous-Restored = record { from = λ h k. by_previous h k.1 h.previous k.0 }
    where
      by_fault :
          (h : Host) (b : List ℕ)
          → b ≡ blob
          → h.keyring ≡ password
          → (f : Bool)
          → After {A = Unit {0}}
              (λ _. Restored)
              Same
              (if f
                then (err call_failed, tick (record h { cred = t.leaves h.clock h.cred }))
                else (ok tt, tick (record h { cred = some b })))
      by_fault h b e k true = k
      by_fault h b e k false = (ap some e, k)

      by_previous :
          (h : Host)
          → h.keyring ≡ password
          → (o : Option (List ℕ)) → o ≡ some blob
          → After {A = Unit {0}}
              (λ _. Restored)
              Same
              (elim o as (λ _. Result (Unit {0}) SetupError × Host) [
                | none ↦ (err no_previous, h)
                | some b ↦
                    if t.faults h.clock
                    then (err call_failed, tick (record h { cred = t.leaves h.clock h.cred }))
                    else (ok tt, tick (record h { cred = some b }))
              ])
      by_previous h k none e = k
      by_previous h k (some b) e = by_fault h b (cc e) k (t.faults h.clock)

  pub rollback-Restored :
      Hoare Saved
        (rollback t)
        (λ _ h.
          Restored h × ((s : List ℕ) × BlobOpens t s blob × (h.recovery ≡ some (s ++ (10 ∷ [])))))
        Same
  unfolding rollback
  rollback-Restored = Hoare-bind (restore_previous t) _ restore_previous-Restored λ _.
      Hoare-bind (unseal_as_root t) _
        (Hoare-mono (unseal-Hoare t Restored (λ h k. k)) (λ h k. k)
          (λ s h ((c, k), (n, b, out, e, u, f)).
            ((c, k), (n, out, subst (λ x. t.unseals n x ≡ some out) (cc (c, e)) u, f)))
          (λ h k. k.1))
        λ s.
          Hoare-mono
            (recovery-Hoare t (λ h. Restored h × BlobOpens t s blob) (λ h k. k) (λ h r k. k) s)
            (λ h k. k) (λ a h ((k, o), r). (k, (s, o, r))) (λ h k. k.0.1)

module _ (t : Tools) where
  pub rotated-Swapped :
      (start h : Host) (old new : List ℕ)
      → rotate_seal t start ≡ (ok (old, new), h)
      → Swapped t start old new h
  rotated-Swapped start h old new e =
      subst (After (λ r k. Swapped t start r.0 r.1 k) (λ k. k.keyring ≡ start.keyring)) e
        ((rotate_seal-Swapped t start).from start (refl, refl))

  rolled-Restored :
      (h k : Host) (blob password : List ℕ)
      → rollback t h ≡ (ok tt, k)
      → h.previous ≡ some blob
      → h.keyring ≡ password
      → (k.cred ≡ some blob)
        × (k.keyring ≡ password)
        × ((s : List ℕ) × BlobOpens t s blob × (k.recovery ≡ some (s ++ (10 ∷ []))))
  rolled-Restored h k blob password e p q =
      let ((c, w), r) =
        subst
          (After
            (λ _ h.
              ((h.cred ≡ some blob) × (h.keyring ≡ password))
              × ((s : List ℕ) × BlobOpens t s blob × (h.recovery ≡ some (s ++ (10 ∷ [])))))
            (λ h. h.keyring ≡ password))
          e ((rollback-Restored t blob password).from h (p, q)) in
      (c, w, r)

-- A rotation of the sealed secret that succeeds returns the secret that was sealed before and the
-- one that is sealed and noted now, and leaves the keyring alone. A rollback that succeeds after it
-- brings back the very file that was there before, with its secret in the recovery file.
pub rollback-rotate_seal :
    (t : Tools) (start h : Host) (old new : List ℕ)
    → rotate_seal t start ≡ (ok (old, new), h)
    → ((blob : List ℕ) × (start.cred ≡ some blob) × BlobOpens t old blob)
      × Sealed t new h
      × (h.keyring ≡ start.keyring)
      × ((k : Host)
          → rollback t h ≡ (ok tt, k)
          → (k.cred ≡ start.cred)
            × (k.keyring ≡ start.keyring)
            × (k.recovery ≡ some (old ++ (10 ∷ []))))
rollback-rotate_seal t start h old new e =
    let w = rotated-Swapped t start h old new e in
    (
      (w.blob, w.had, w.opened),
      w.sealed,
      w.same_keyring,
      λ k f.
          let (c, q, (s, o, r)) =
            rolled-Restored t h k w.blob start.keyring f w.kept w.same_keyring in
          (
            c ∙ sym w.had,
            q,
            subst (λ x. k.recovery ≡ some (x ++ (10 ∷ [])))
                (BlobOpens-agree t w.blob s old o w.opened) r,
          ),
    )
