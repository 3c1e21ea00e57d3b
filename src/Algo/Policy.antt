-- ===== src/Algo/Policy.antt =====
-- crates/elanprint-algo/src/policy.rs: how many failed attempts a login survives.
use elanprint_rs.Prelude.{ℕ, ◌-◌, Bool, ltb, if◌then◌else◌}

pub record AttemptPolicy : Type 0 where
  pub max_tries : ℕ

-- `u8::max(1)`.
at_least_one : ℕ → ℕ
at_least_one n = if ltb n 1 then 1 else n

unfoldable pub new : ℕ → AttemptPolicy
unfolding at_least_one
new max_tries = record { max_tries = at_least_one max_tries }

unfoldable pub pam_default : AttemptPolicy
unfolding new
pam_default = new 3

unfoldable pub allows : AttemptPolicy → ℕ → Bool
allows p used = ltb used p.max_tries

-- `saturating_sub`, which is the subtraction of ℕ.
unfoldable pub left : AttemptPolicy → ℕ → ℕ
left p used = p.max_tries - used
