-- ===== src/Cli/Triple.antt =====
-- Preconditions and postconditions of the tool's steps, for any end of a run.
use elanprint_rs.Prelude.{◌≡◌, refl, Result, ok, err}
use elanprint_rs.Cli.{
  CliError, Tool, Outcome, done, failed, waiting, Job, proceed, ◌>>=◌, return, bail, lift,
}

-- `Q` of a result, `F` of an error and of a run that still waits.
abbrev pub After : {A : Type 0} → (A → Tool → Type 0) → (Tool → Type 0) → Outcome A × Tool → Type 0
After Q F (done a, t) = Q a t
After Q F (_, t) = F t

pub record Triple {A : Type 0} (P : Tool → Type 0) (x : Job A) (Q : A → Tool → Type 0)
    (F : Tool → Type 0) : Type 0 where
  pub from : (t : Tool) → P t → After Q F (x t)

module _ {A : Type 0} {P : Tool → Type 0} {Q : A → Tool → Type 0} {F : Tool → Type 0} where
  pub Triple-return : (a : A) → ((t : Tool) → P t → Q a t) → Triple P (return a) Q F
  unfolding return
  Triple-return a k = record { from = k }

  pub Triple-bail : (e : CliError) → ((t : Tool) → P t → F t) → Triple P (bail e) Q F
  unfolding bail
  Triple-bail e k = record { from = k }

  pub Triple-lift :
      (r : Result A CliError)
      → ((t : Tool) (a : A) → r ≡ ok a → P t → Q a t)
      → ((t : Tool) → P t → F t)
      → Triple P (lift r) Q F
  unfolding lift
  Triple-lift (ok a) k f = record { from = λ t p. k t a refl p }
  Triple-lift (err e) k f = record { from = f }

module _ {A B : Type 0} {Q : A → Tool → Type 0} {R : B → Tool → Type 0} {F : Tool → Type 0} where
  proceed-After :
      (r : Outcome A) (t : Tool) (f : A → Job B)
      → After Q F (r, t)
      → ((a : A) → Triple (Q a) (f a) R F)
      → After R F (proceed r f t)
  proceed-After (done a) t f q k = (k a).from t q
  proceed-After (failed e) t f q k = q
  proceed-After waiting t f q k = q

  pub Triple-bind :
      {P : Tool → Type 0} (x : Job A) (f : A → Job B)
      → Triple P x Q F
      → ((a : A) → Triple (Q a) (f a) R F)
      → Triple P (x >>= f) R F
  unfolding ◌>>=◌
  Triple-bind x f k l = record { from = λ t p. proceed-After (x t).0 (x t).1 f (k.from t p) l }
