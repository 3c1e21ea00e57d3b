-- ===== src/Daemon/Service/Invariant.antt =====
-- crates/elanprintd/src/main.rs: the busy flag, the spawned operations and the claim.
use elanprint_rs.Prelude.{
  ℕ, String, ◌≡◌, refl, sym, subst, Bool, true, false, List, [], ◌∷◌, Option, none, some,
}
use elanprint_rs.Daemon.Machine.{OpKind, OpState, new_sink, Env, Machine}
use elanprint_rs.Daemon.Exec.{Outcome, done, failed, waiting, Exec}
use elanprint_rs.Daemon.Exec.Triple.{Post, Keeps}
use elanprint_rs.Daemon.Worker.Kept.{Held}
use elanprint_rs.Daemon.Worker.Verify.Kept.{verify-Held}
use elanprint_rs.Daemon.Worker.EnrollOp.Kept.{enroll_op-Held}
use elanprint_rs.Daemon.Service.{Task, Device, flags, op_of}

-- The busy flag, the queue and the holder of the lock: one operation where the flag is set, which
-- waits for the lock or holds it, and none where it is not.
abbrev pub IsLive : Bool → List Task → Option Task → Type 0
IsLive false [] none = Unit
IsLive true (t ∷ []) none = Unit
IsLive true [] (some t) = Unit
IsLive _ _ _ = ⊥

-- The shared flags say the same of the claim as the worker.
abbrev pub Agrees : Option String → OpState → Type 0
Agrees none s = (s.claimed ≡ false) × (s.user ≡ none)
Agrees (some u) s = (s.claimed ≡ true) × (s.user ≡ some u)

abbrev pub IsConsistent : Device → Type 0
IsConsistent d =
    IsLive (flags d).busy d.queued d.running × Agrees d.machine.worker.claimed (flags d)

-- What the operations leave as it was.
abbrev pub SameClaim : Machine → Machine → Type 0
SameClaim m n = Held m.worker.claimed m.worker.state n

machine_of :
    {A : Type 0} (I : Machine → Type 0) (x : Outcome A × Machine)
    → Post {A = A} (λ _. I) I x
    → I x.1
machine_of I (done a, m) h = h
machine_of I (failed e, m) h = h
machine_of I (waiting, m) h = h

pub locked-SameClaim :
    {A : Type 0} (x : Exec A) (m : Machine)
    → Keeps (Held m.worker.claimed m.worker.state) x
    → SameClaim m (x m).1
locked-SameClaim x m t =
    machine_of (Held m.worker.claimed m.worker.state) (x m) (t.at m (refl, refl))

pub op_of-SameClaim :
    (env : Env) (fuel : ℕ) (finger : String) (k : OpKind) (m : Machine)
    → SameClaim m (op_of env fuel finger k m).1
unfolding op_of
op_of-SameClaim env fuel finger OpKind.verify m =
    verify-Held env fuel finger (record m { sink = new_sink OpKind.verify })
op_of-SameClaim env fuel finger OpKind.enroll m =
    enroll_op-Held env fuel finger (record m { sink = new_sink OpKind.enroll })

-- Consistency speaks of four values.
pub same-IsConsistent :
    (d e : Device)
    → SameClaim d.machine e.machine
    → d.queued ≡ e.queued
    → d.running ≡ e.running
    → IsConsistent d
    → IsConsistent e
same-IsConsistent d e (c, f) q r h = (
  subst (λ s. IsLive s.busy e.queued e.running) (sym f)
      (subst (λ x. IsLive (flags d).busy e.queued x) r
        (subst (λ x. IsLive (flags d).busy x d.running) q h.0)),
  subst (λ x. Agrees x (flags e)) (sym c) (subst (Agrees d.machine.worker.claimed) (sym f) h.1),
)
