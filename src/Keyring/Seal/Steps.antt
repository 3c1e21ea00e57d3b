-- ===== src/Keyring/Seal/Steps.antt =====
-- crates/elanprint-keyring-setup/src/seal.rs: what sealing, reading back and the recovery file do to
-- the host. `I` is a condition that they leave alone.
use elanprint_rs.Prelude.{
  ℕ, ◌≡◌, refl, Bool, true, false, List, [], ◌∷◌, ◌++◌, Option, none, some, Result, ok, err,
  if◌then◌else◌,
}
use elanprint_rs.Prelude.Text.{same, same→eq}
use elanprint_rs.Keyring.Seal.{
  SetupError, call_failed, mismatch, empty_secret, Host, Tools, Setup, answered, tick, call,
  generate, to_hex, encrypt, spoiled, seal_as_root, decrypt, verify_as_root, unseal_as_root,
  is_empty, trim_line_ends, put_recovery, write_recovery_as_root,
}
use elanprint_rs.Keyring.Seal.Hoare.{After, Hoare, Hoare-return, Hoare-bail, Hoare-if, Hoare-bind}

-- The sealed file opens to the secret.
abbrev pub Opens : Tools → List ℕ → Host → Type 0
Opens t secret h =
    (n : ℕ) × (blob : List ℕ) × (out : List ℕ) × (h.cred ≡ some blob)
    × (t.unseals n blob ≡ some out)
    × (trim_line_ends (t.lossy out) ≡ secret)

-- So it does, and the recovery file holds the secret in a line.
abbrev pub Sealed : Tools → List ℕ → Host → Type 0
Sealed t secret h = Opens t secret h × (h.recovery ≡ some (secret ++ (10 ∷ [])))

module _ (t : Tools) (I : Host → Type 0) (ticks : (h : Host) → I h → I (tick h)) where
  pub call-Hoare : Hoare I (call t) (λ _. I) I
  unfolding call
  call-Hoare = record { from = λ h k. by_fault h k (t.faults h.clock) }
    where
      by_fault :
          (h : Host)
          → I h
          → (b : Bool)
          → After {A = Unit {0}} (λ _. I) I (if b then err call_failed else ok tt, tick h)
      by_fault h k true = ticks h k
      by_fault h k false = ticks h k

  pub generate-Hoare : Hoare I (generate t) (λ _. I) I
  unfolding generate
  generate-Hoare = record { from = λ h k. by_random h k (t.random h.clock) }
    where
      by_random :
          (h : Host)
          → I h
          → (o : Option (List ℕ))
          → After {A = List ℕ}
              (λ _. I)
              I
              (elim o [ none ↦ err call_failed | some raw ↦ ok (to_hex raw) ], tick h)
      by_random h k none = ticks h k
      by_random h k (some raw) = ticks h k

  abbrev Read : List ℕ → Host → Type 0
  Read out h =
      I h × ((n : ℕ) × (blob : List ℕ) × (h.cred ≡ some blob) × (t.unseals n blob ≡ some out))

  decrypt-Hoare : Hoare I (decrypt t) Read I
  unfolding decrypt answered
  decrypt-Hoare = record { from = λ h k. by_cred h k h.cred refl }
    where
      by_blob :
          (h : Host)
          → I h
          → (blob : List ℕ) → h.cred ≡ some blob
          → (o : Option (List ℕ)) → t.unseals h.clock blob ≡ o
          → After Read I (answered o (tick h))
      by_blob h k blob c none u = ticks h k
      by_blob h k blob c (some out) u = (ticks h k, (h.clock, blob, c, u))

      by_cred :
          (h : Host)
          → I h
          → (o : Option (List ℕ)) → h.cred ≡ o
          → After {A = List ℕ} Read I (elim o as (λ _. Result (List ℕ) SetupError × Host) [
            | none ↦ (err call_failed, tick h)
            | some blob ↦ answered (t.unseals h.clock blob) (tick h)
          ])
      by_cred h k none c = ticks h k
      by_cred h k (some blob) c = by_blob h k blob c (t.unseals h.clock blob) refl

  pub verify-Hoare :
      (secret : List ℕ) → Hoare I (verify_as_root t secret) (λ _ h. I h × Opens t secret h) I
  unfolding verify_as_root
  verify-Hoare secret = Hoare-bind (decrypt t) _ decrypt-Hoare λ out.
      Hoare-if (same (trim_line_ends (t.lossy out)) secret) _ _
        (λ e. Hoare-return tt λ h (k, (n, blob, c, u)).
          (k, (n, blob, out, c, u, same→eq (trim_line_ends (t.lossy out)) secret e)))
        (λ _. Hoare-bail mismatch (λ h r. r.0))

  pub unseal-Hoare : Hoare I (unseal_as_root t) (λ secret h. I h × Opens t secret h) I
  unfolding unseal_as_root
  unseal-Hoare = Hoare-bind (decrypt t) _ decrypt-Hoare λ out.
      Hoare-if (is_empty (trim_line_ends (t.lossy out))) _ _
        (λ _. Hoare-bail empty_secret (λ h r. r.0))
        (λ _.
          Hoare-return (trim_line_ends (t.lossy out))
            λ h (k, (n, blob, c, u)). (k, (n, blob, out, c, u, refl)))

  module _ (creds : (h : Host) (c : Option (List ℕ)) → I h → I (record h { cred = c })) where
    encrypt-Hoare : (secret : List ℕ) → Hoare I (encrypt t secret) (λ _. I) I
    unfolding encrypt spoiled
    encrypt-Hoare secret = record { from = λ h k. by_blob h k (t.seals h.clock secret) }
      where
        by_blob :
            (h : Host)
            → I h
            → (o : Option (List ℕ))
            → After {A = Unit {0}}
                (λ _. I)
                I
                (elim o as (λ _. Result (Unit {0}) SetupError × Host) [
                  | none ↦ spoiled t h
                  | some blob ↦ (ok tt, tick (record h { cred = some blob }))
                ])
        by_blob h k none = ticks _ (creds h _ k)
        by_blob h k (some blob) = ticks _ (creds h _ k)

    pub seal-Hoare : (secret : List ℕ) → Hoare I (seal_as_root t secret) (λ _. I) I
    unfolding seal_as_root
    seal-Hoare secret = Hoare-bind (call t) _ call-Hoare λ _. Hoare-bind (call t) _ call-Hoare λ _.
        Hoare-bind (call t) _ call-Hoare
          λ _. Hoare-bind (encrypt t secret) _ (encrypt-Hoare secret) λ _. call-Hoare

module _ (t : Tools) (I : Host → Type 0) (ticks : (h : Host) → I h → I (tick h))
    (recoveries : (h : Host) (r : Option (List ℕ)) → I h → I (record h { recovery = r })) where
  abbrev Noted : List ℕ → Host → Type 0
  Noted secret h = I h × (h.recovery ≡ some (secret ++ (10 ∷ [])))

  put_recovery-Hoare : (secret : List ℕ) → Hoare I (put_recovery t secret) (λ _. Noted secret) I
  unfolding put_recovery
  put_recovery-Hoare secret = record { from = λ h k. by_fault h k (t.faults h.clock) }
    where
      by_fault :
          (h : Host)
          → I h
          → (b : Bool)
          → After {A = Unit {0}}
              (λ _. Noted secret)
              I
              (if b
                then (err call_failed, tick (record h { recovery = t.leaves h.clock h.recovery }))
                else (ok tt, tick (record h { recovery = some (secret ++ (10 ∷ [])) })))
      by_fault h k true = ticks _ (recoveries h _ k)
      by_fault h k false = (ticks _ (recoveries h _ k), refl)

  weaken :
      (secret : List ℕ) {x : Setup (Unit {0})}
      → Hoare (Noted secret) x (λ _. Noted secret) (Noted secret)
      → Hoare (Noted secret) x (λ _. Noted secret) I
  weaken secret {x} k = record { from = λ h p. drop (x h) (k.from h p) }
    where
      drop :
          (r : Result (Unit {0}) SetupError × Host)
          → After (λ _. Noted secret) (Noted secret) r
          → After (λ _. Noted secret) I r
      drop (ok a, h) p = p
      drop (err e, h) p = p.0

  pub recovery-Hoare :
      (secret : List ℕ)
      → Hoare I
          (write_recovery_as_root t secret)
          (λ _ h. I h × (h.recovery ≡ some (secret ++ (10 ∷ []))))
          I
  unfolding write_recovery_as_root
  recovery-Hoare secret =
      Hoare-bind (put_recovery t secret) _ (put_recovery-Hoare secret)
        λ _. weaken secret (call-Hoare t (Noted secret) λ h k. (ticks h k.0, k.1))
