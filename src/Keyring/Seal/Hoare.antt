-- ===== src/Keyring/Seal/Hoare.antt =====
-- Preconditions and postconditions of the steps of the keyring setup.
use elanprint_rs.Prelude.{◌≡◌, refl, Bool, true, false, Result, ok, err, if◌then◌else◌}
use elanprint_rs.Keyring.Seal.{SetupError, Host, Setup, proceed, ◌>>=◌, return, bail}

-- `Q` of a result, `F` where there is none.
abbrev pub After :
    {A : Type 0} → (A → Host → Type 0) → (Host → Type 0) → Result A SetupError × Host → Type 0
After Q F (ok a, h) = Q a h
After Q F (err e, h) = F h

pub record Hoare {A : Type 0} (P : Host → Type 0) (x : Setup A) (Q : A → Host → Type 0)
    (F : Host → Type 0) : Type 0 where
  pub from : (h : Host) → P h → After Q F (x h)

module _ {A : Type 0} {P : Host → Type 0} {Q : A → Host → Type 0} {F : Host → Type 0} where
  pub Hoare-return : (a : A) → ((h : Host) → P h → Q a h) → Hoare P (return a) Q F
  unfolding return
  Hoare-return a k = record { from = k }

  pub Hoare-bail : (e : SetupError) → ((h : Host) → P h → F h) → Hoare P (bail e) Q F
  unfolding bail
  Hoare-bail e k = record { from = k }

  pub Hoare-if :
      (b : Bool) (x y : Setup A)
      → (b ≡ true → Hoare P x Q F)
      → (b ≡ false → Hoare P y Q F)
      → Hoare P (if b then x else y) Q F
  Hoare-if true x y s t = s refl
  Hoare-if false x y s t = t refl

module _ {A B : Type 0} {Q : A → Host → Type 0} {R : B → Host → Type 0} {F : Host → Type 0} where
  proceed-After :
      (r : Result A SetupError × Host) (f : A → Setup B)
      → After Q F r
      → ((a : A) → Hoare (Q a) (f a) R F)
      → After R F (proceed r.0 f r.1)
  proceed-After (ok a, h) f q t = (t a).from h q
  proceed-After (err e, h) f q t = q

  pub Hoare-bind :
      {P : Host → Type 0} (x : Setup A) (f : A → Setup B)
      → Hoare P x Q F
      → ((a : A) → Hoare (Q a) (f a) R F)
      → Hoare P (x >>= f) R F
  unfolding ◌>>=◌
  Hoare-bind x f t u = record { from = λ h p. proceed-After (x h) f (t.from h p) u }

module _ {A : Type 0} {P R : Host → Type 0} {Q S : A → Host → Type 0} {F G : Host → Type 0} where
  pub Hoare-mono :
      {x : Setup A}
      → Hoare P x Q F
      → ((h : Host) → R h → P h)
      → ((a : A) (h : Host) → Q a h → S a h)
      → ((h : Host) → F h → G h)
      → Hoare R x S G
  Hoare-mono {x} t p q f = record { from = λ h r. shift (x h) (t.from h (p h r)) }
    where
      shift : (r : Result A SetupError × Host) → After Q F r → After S G r
      shift (ok a, h) k = q a h k
      shift (err e, h) k = f h k
