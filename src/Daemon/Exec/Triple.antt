-- ===== src/Daemon/Exec/Triple.antt =====
-- Preconditions and postconditions of actions, one rule for each way to build one.
use elanprint_rs.Prelude.{◌≡◌, refl, Bool, true, false, Result, ok, err, if◌then◌else◌}
use elanprint_rs.Daemon.Machine.{Machine, WorkerError}
use elanprint_rs.Daemon.Exec.{
  Outcome, done, failed, waiting, Exec, continue, ◌>>=◌, pure, fail, wait_more, lift, gets, modify,
}

-- `Q` holds of a result and the machine that goes with it, `F` of the machine where there is none.
abbrev pub Post :
    {A : Type 0} → (A → Machine → Type 0) → (Machine → Type 0) → Outcome A × Machine → Type 0
Post Q F (done a, m) = Q a m
Post Q F (failed e, m) = F m
Post Q F (waiting, m) = F m

pub record Triple {A : Type 0} (P : Machine → Type 0) (x : Exec A) (Q : A → Machine → Type 0)
    (F : Machine → Type 0) : Type 0 where
  pub at : (m : Machine) → P m → Post Q F (x m)

-- The special case of an invariant.
abbrev pub Keeps : {A : Type 0} → (Machine → Type 0) → Exec A → Type 0
Keeps P x = Triple P x (λ _. P) P

module _ {A : Type 0} {P : Machine → Type 0} {Q : A → Machine → Type 0} {F : Machine → Type 0} where
  pub Triple-pure : (a : A) → ((m : Machine) → P m → Q a m) → Triple P (pure a) Q F
  unfolding pure
  Triple-pure a h = record { at = h }

  pub Triple-fail : (e : WorkerError) → ((m : Machine) → P m → F m) → Triple P (fail e) Q F
  unfolding fail
  Triple-fail e h = record { at = h }

  pub Triple-wait : ((m : Machine) → P m → F m) → Triple P wait_more Q F
  unfolding wait_more
  Triple-wait h = record { at = h }

  pub Triple-lift :
      (r : Result A WorkerError)
      → ((a : A) → r ≡ ok a → (m : Machine) → P m → Q a m)
      → ((m : Machine) → P m → F m)
      → Triple P (lift r) Q F
  unfolding lift
  Triple-lift (ok a) q f = record { at = q a refl }
  Triple-lift (err e) q f = record { at = f }

  pub Triple-gets : (f : Machine → A) → ((m : Machine) → P m → Q (f m) m) → Triple P (gets f) Q F
  unfolding gets
  Triple-gets f h = record { at = h }

  pub Triple-if :
      (b : Bool) (x y : Exec A)
      → (b ≡ true → Triple P x Q F)
      → (b ≡ false → Triple P y Q F)
      → Triple P (if b then x else y) Q F
  Triple-if true x y s t = s refl
  Triple-if false x y s t = t refl

module _ {A B : Type 0} {Q : A → Machine → Type 0} {R : B → Machine → Type 0}
    {F : Machine → Type 0} where
  continue-Post :
      (r : Outcome A × Machine) (f : A → Exec B)
      → Post Q F r
      → ((a : A) → Triple (Q a) (f a) R F)
      → Post R F (continue r.0 f r.1)
  continue-Post (done a, m) f q t = (t a).at m q
  continue-Post (failed e, m) f q t = q
  continue-Post (waiting, m) f q t = q

  pub Triple-bind :
      {P : Machine → Type 0} (x : Exec A) (f : A → Exec B)
      → Triple P x Q F
      → ((a : A) → Triple (Q a) (f a) R F)
      → Triple P (x >>= f) R F
  unfolding ◌>>=◌
  Triple-bind x f t u = record { at = λ m p. continue-Post (x m) f (t.at m p) u }

module _ {P : Machine → Type 0} {Q : Unit {0} → Machine → Type 0} {F : Machine → Type 0} where
  pub Triple-modify :
      (f : Machine → Machine) → ((m : Machine) → P m → Q tt (f m)) → Triple P (modify f) Q F
  unfolding modify
  Triple-modify f h = record { at = h }
