-- ===== src/Daemon/Service/Starting.antt =====
-- crates/elanprintd/src/main.rs: `verify_start` and `enroll_start` as moves of the abstract machine.
use elanprint_rs.Prelude.{
  ◌+◌, String, ◌≡◌, refl, sym, ap, ◌∙◌, subst, Bool, true, false, List, [], ◌∷◌, ◌++◌, Option, none,
  some, Result, ok, err, arith,
}
use elanprint_rs.Daemon.Machine.{OpKind, OpState, try_begin, WorkerError}
use elanprint_rs.Daemon.Service.{
  FprintError, Caller, guard, guarded, claimed_target, Task, Device, flags, with_flags, start_op,
  spawned, start, from_worker,
}
use elanprint_rs.Daemon.Service.Invariant.{IsLive, Agrees, IsConsistent}
use elanprint_rs.Daemon.Service.Spec.{live, start_by, Sound, same-Sound, succeeds}

begin-IsLive :
    (b : Bool) (q : List Task) (r : Option Task) (t : Task)
    → IsLive b q r
    → b ≡ false
    → IsLive true (q ++ (t ∷ [])) r × (live q r ≡ none) × (live (q ++ (t ∷ [])) r ≡ some t)
begin-IsLive false [] none t h e = (tt, refl, refl)
begin-IsLive false [] (some x) t h e = absurd h
begin-IsLive false (x ∷ q) r t h e = absurd h
begin-IsLive true q r t h e = absurd (cc e)

Agrees-owner :
    (o : Option String) (s : OpState) (user : String)
    → Agrees o s
    → s.user ≡ some user
    → o ≡ some user
Agrees-owner none s user h e = absurd (cc (h.1, e))
Agrees-owner (some u) s user h e = sym h.1 ∙ e

pub Agrees-busy :
    (o : Option String) (s t : OpState)
    → Agrees o s
    → t.claimed ≡ s.claimed
    → t.user ≡ s.user
    → Agrees o t
Agrees-busy none s t h c u = (c ∙ h.0, u ∙ h.1)
Agrees-busy (some x) s t h c u = (c ∙ h.0, u ∙ h.1)

try_begin-ok :
    (s t : OpState)
    → try_begin s ≡ ok t
    → (s.busy ≡ false) × (t.busy ≡ true) × (t.claimed ≡ s.claimed) × (t.user ≡ s.user)
unfolding try_begin
try_begin-ok s t e = ground arith

-- A guard that lets a caller start says whose claim it is.
guarded-ok :
    (c : Caller) (d : Device) (user : String)
    → guarded c d ≡ ok user
    → ((flags d).user ≡ some user) × (guard c user ≡ ok tt)
unfolding guarded claimed_target
guarded-ok c d user e = by_user (flags d).user e
  where
    by_guard :
        (u : String) (r : Result (Unit {0}) FprintError)
        → guard c u ≡ r
        → ◌≡◌ {A = Result String FprintError} (elim r [ err e ↦ err e | ok x ↦ ok u ]) (ok user)
        → (some u ≡ some user) × (guard c user ≡ ok tt)
    by_guard u (ok x) g h =
        let e : u ≡ user = cc h in (ap some e, subst (λ v. guard c v ≡ ok tt) e g)
    by_guard u (err x) g h = absurd (cc h)

    by_user :
        (o : Option String)
        → ◌≡◌ {A = Result String FprintError}
            (elim (elim o as (λ _. Result String FprintError) [
              | none ↦ err FprintError.claim_device
              | some u ↦ ok u
            ]) [ err e ↦ err e | ok u ↦ elim (guard c u) [ err e ↦ err e | ok x ↦ ok u ] ])
            (ok user)
        → (o ≡ some user) × (guard c user ≡ ok tt)
    by_user none h = absurd (cc h)
    by_user (some u) h = by_guard u (guard c u) refl h

-- What a start may answer and do.
abbrev pub Starts :
    OpKind → Caller → String → Device → Result (Unit {0}) FprintError × Device → Type 0
Starts kind c finger d (answer, e) = Sound (start_by c kind finger (succeeds answer)) d e

begin-Sound :
    (kind : OpKind) (c : Caller) (finger user : String) (d : Device)
    → IsConsistent d
    → (flags d).user ≡ some user
    → guard c user ≡ ok tt
    → (r : Result OpState WorkerError) → try_begin (flags d) ≡ r
    → Starts kind c finger d (
        spawned kind finger (elim r [
          | err e ↦ (err (from_worker e), d)
          | ok s ↦ (
            ok d.tokens,
            record d {
              machine = with_flags s d.machine;
              op_cancel = some d.tokens;
              tokens = d.tokens + 1;
            },
          )
        ]))
unfolding spawned
begin-Sound kind c finger user d h u g (err e) b = same-Sound d d (refl, refl) refl refl h
begin-Sound kind c finger user d h u g (ok s) b =
    let (free, set, same, whose) = try_begin-ok (flags d) s b in
    let t : Task = record { kind = kind; finger = finger; token = d.tokens } in
    let (one, none_before, one_after) = begin-IsLive (flags d).busy d.queued d.running t h.0 free in
    let own = Agrees-owner d.machine.worker.claimed (flags d) user h.1 u in
    (
      (
        subst (λ x. IsLive x (d.queued ++ (t ∷ [])) d.running) (sym set) one,
        Agrees-busy d.machine.worker.claimed (flags d) s h.1 same whose,
      ),
      (user, t, g, own, none_before, own, one_after, refl, refl),
    )

pub started-Sound :
    (kind : OpKind) (c : Caller) (finger : String) (d : Device)
    → IsConsistent d
    → Starts kind c finger d (start kind c finger d)
unfolding start start_op
started-Sound kind c finger d h = by_guard (guarded c d) refl
  where
    by_guard :
        (r : Result String FprintError)
        → guarded c d ≡ r
        → Starts kind c finger d (elim r as (λ _. Result (Unit {0}) FprintError × Device) [
          | err e ↦ (err e, d)
          | ok user ↦ spawned kind finger (start_op d)
        ])
    by_guard (err e) q = same-Sound d d (refl, refl) refl refl h
    by_guard (ok user) q =
        let (u, g) = guarded-ok c d user q in
        begin-Sound kind c finger user d h u g (try_begin (flags d)) refl
