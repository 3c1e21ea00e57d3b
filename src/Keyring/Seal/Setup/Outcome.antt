-- ===== src/Keyring/Seal/Setup/Outcome.antt =====
-- crates/elanprint-keyring-setup/src/main.rs: how `rotate` ends.
use elanprint_rs.Prelude.{
  ℕ, ◌+◌, ◌≡◌, refl, ap, ◌∙◌, subst, Bool, true, false, List, some, Result, ok, err, if◌then◌else◌,
}
use elanprint_rs.Keyring.Seal.{
  SetupError, call_failed, Host, Tools, proceed, ◌>>=◌, tick, unseal_as_root,
  write_recovery_as_root,
}
use elanprint_rs.Keyring.Seal.Hoare.{After}
use elanprint_rs.Keyring.Seal.Steps.{Opens, Sealed}
use elanprint_rs.Keyring.Seal.Setup.{
  rotate_seal, restore_previous, rollback, change_password, Report, rotated, old_restored,
  after_change, change_key, rotate,
}
use elanprint_rs.Keyring.Seal.Setup.Rotate.{
  Swapped, rotate_seal-Swapped, rotated-Swapped, rollback-Restored,
}

-- How a rotation from `start` may end, by its report.
abbrev pub Ends : Tools → Host → Result Report SetupError × Host → Type 0
Ends t start (ok (rotated new), h) = Sealed t new h × (h.keyring ≡ new)
Ends t start (ok old_restored, h) = h.keyring ≡ start.keyring
Ends t start (err e, h) = h.keyring ≡ start.keyring

host_of :
    (I : Host → Type 0) (Q : Host → Type 0)
    → ((h : Host) → Q h → I h)
    → (x : Result (Unit {0}) SetupError × Host) → After (λ _. Q) I x
    → I x.1
host_of I Q f (ok a, h) k = f h k
host_of I Q f (err e, h) k = k

change-Ends :
    (t : Tools) (start h : Host) (old new : List ℕ)
    → Swapped t start old new h
    → Ends t start (after_change t new (change_password t old new h))
unfolding change_password after_change
change-Ends t start h old new w = by_answer (t.rekeys h.clock h.keyring old new)
  where
    by_answer :
        (b : Bool)
        → Ends t start (
            after_change t new
              (if b then (ok tt, tick (record h { keyring = new })) else (err call_failed, tick h)))
    by_answer true = (w.sealed, refl)
    by_answer false =
        host_of (λ k. k.keyring ≡ start.keyring) _ (λ k r. r.0.1) (rollback t (tick h))
          ((rollback-Restored t w.blob start.keyring).from (tick h) (w.kept, w.same_keyring))

-- A rotation that reports a new key has sealed and noted it, and it is the keyring's password; one
-- that reports that the old key was restored, or that fails, has left the keyring's password alone.
pub rotate-Ends : (t : Tools) (start : Host) → Ends t start (rotate t start)
unfolding rotate ◌>>=◌ change_key
rotate-Ends t start =
    by_seal (rotate_seal t start) ((rotate_seal-Swapped t start).from start (refl, refl))
  where
    by_seal :
        (x : Result (List ℕ × List ℕ) SetupError × Host)
        → After (λ r h. Swapped t start r.0 r.1 h) (λ h. h.keyring ≡ start.keyring) x
        → Ends t start (proceed x.0 (change_key t) x.1)
    by_seal (ok (old, new), h) w = change-Ends t start h old new w
    by_seal (err e, h) k = k

rotate-refused :
    (t : Tools) (start h : Host) (old new : List ℕ)
    → rotate_seal t start ≡ (ok (old, new), h)
    → t.rekeys h.clock h.keyring old new ≡ false
    → rotate t start ≡ (ok old_restored, (rollback t (tick h)).1)
unfolding rotate ◌>>=◌ after_change change_password change_key
rotate-refused t start h old new e r =
    ap (λ x. proceed x.0 (change_key t) x.1) e
    ∙ ap
        (λ b.
          after_change t new
            (if b then (ok tt, tick (record h { keyring = new })) else (err call_failed, tick h)))
        r

copy_fails :
    (t : Tools) (h : Host) (blob : List ℕ)
    → t.faults h.clock ≡ true
    → h.previous ≡ some blob
    → restore_previous t h ≡ (err call_failed, tick (record h { cred = t.leaves h.clock h.cred }))
unfolding restore_previous
copy_fails t h blob f p = simp (restore_previous, p, f)

unrestored :
    (t : Tools) (h : Host) (blob : List ℕ)
    → t.faults h.clock ≡ true
    → h.previous ≡ some blob
    → (rollback t h).1.cred ≡ t.leaves h.clock h.cred
unfolding rollback ◌>>=◌
unrestored t h blob f p =
    ap
      (λ x.
        (proceed {B = Unit {0}} x.0
          (λ _ k.
            proceed {B = Unit {0}} (unseal_as_root t k).0 (write_recovery_as_root t)
              (unseal_as_root t k).1)
          x.1).1.cred)
      (copy_fails t h blob f p)

-- Where the keyring refuses the new key and the copy of the old blob back over the new one fails
-- and leaves the file as it is, `rotate` reports that the old key was restored all the same, while
-- the sealed file opens to the new key and the keyring still has its old password.
pub rotate-unrestored :
    (t : Tools) (start h : Host) (old new : List ℕ)
    → rotate_seal t start ≡ (ok (old, new), h)
    → t.rekeys h.clock h.keyring old new ≡ false
    → t.faults (h.clock + 1) ≡ true
    → t.leaves (h.clock + 1) h.cred ≡ h.cred
    → ((rotate t start).0 ≡ ok old_restored)
      × Opens t new (rotate t start).1
      × ((rotate t start).1.keyring ≡ start.keyring)
rotate-unrestored t start h old new e r f l =
    let w = rotated-Swapped t start h old new e in
    let end = rotate-refused t start h old new e r in
    let same = unrestored t (tick h) w.blob f w.kept ∙ l in
    let (n, blob, out, c, u, s) = w.sealed.0 in
    (
      ap (λ x. x.0) end,
      (n, blob, out, ap (λ (x : Result Report SetupError × Host). x.1.cred) end ∙ same ∙ c, u, s),
      ap (λ (x : Result Report SetupError × Host). x.1.keyring) end
          ∙ subst (Ends t start) end (rotate-Ends t start),
    )
