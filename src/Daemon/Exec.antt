-- ===== src/Daemon/Exec.antt =====
-- The chain of fallible steps: an action changes the machine and succeeds, fails, or still waits for
-- a finger when the touches allowed to it run out.
pub mod Triple
use elanprint_rs.Prelude.{Result, ok, err}
use elanprint_rs.Daemon.Machine.{Machine, WorkerError}

pub data Outcome (A : Type 0) : Type 0 where
  done : A → Outcome A
  failed : WorkerError → Outcome A
  waiting : Outcome A

abbrev pub Exec : Type 0 → Type 0
Exec A = Machine → Outcome A × Machine

module _ {A B : Type 0} where
  abbrev pub continue : Outcome A → (A → Exec B) → Exec B
  continue (done a) f m = f a m
  continue (failed e) f m = (failed e, m)
  continue waiting f m = (waiting, m)

  infixl 10 ◌>>=◌ ◌>>◌
  unfoldable pub ◌>>=◌ : Exec A → (A → Exec B) → Exec B
  ◌>>=◌ x f m = let (r, n) = x m in continue r f n

  abbrev pub ◌>>◌ : Exec A → Exec B → Exec B
  x >> y = x >>= λ _. y

module _ {A : Type 0} where
  unfoldable pub pure : A → Exec A
  pure a m = (done a, m)

  unfoldable pub fail : WorkerError → Exec A
  fail e m = (failed e, m)

  unfoldable pub lift : Result A WorkerError → Exec A
  lift (ok a) m = (done a, m)
  lift (err e) m = (failed e, m)

  -- Still waiting for the sensor.
  unfoldable pub wait_more : Exec A
  wait_more m = (waiting, m)

  -- What depends on the machine alone.
  unfoldable pub gets : (Machine → A) → Exec A
  gets f m = (done (f m), m)

-- A change of the machine that cannot fail.
unfoldable pub modify : (Machine → Machine) → Exec (Unit {0})
modify f m = (done tt, f m)

unfoldable pub skip : Exec (Unit {0})
unfolding pure
skip = pure tt
