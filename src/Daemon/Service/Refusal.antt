-- ===== src/Daemon/Service/Refusal.antt =====
-- crates/elanprintd/src/main.rs: `Device::guard`, and the calls that it and the busy flag refuse.
use elanprint_rs.Prelude.{
  ℕ, String, ◌≡◌, refl, ◌⊎◌, Bool, true, false, List, some, Result, ok, err, if◌then◌else◌,
}
use elanprint_rs.Prelude.Text.{codes}
use elanprint_rs.Prelude.Lines.{lines}
use elanprint_rs.Daemon.Machine.{OpKind, Env, try_begin}
use elanprint_rs.Daemon.Access.{may_act, lookup_uid}
use elanprint_rs.Daemon.Access.Entries.{HasEntry, may_act-HasEntry}
use elanprint_rs.Daemon.Service.{
  FprintError, already_in_use, permission_denied, not_allowed, Caller, caller_uid, guard, guarded,
  claimed_target, Device, flags, start_op, from_worker, spawned, start, claim_call, delete_all_call,
  delete_call,
}

guard-uid :
    (c : Caller) (target : String)
    → guard c target ≡ ok tt
    → (uid : ℕ) × (caller_uid c ≡ ok uid)
      × (may_act uid (lookup_uid c.getent (codes target)) ≡ true)
unfolding guard
guard-uid c target e = by_uid (caller_uid c) refl e
  where
    by_flag :
        (uid : ℕ) (b : Bool)
        → ◌≡◌ {A = Result (Unit {0}) FprintError}
            (if b then ok tt else err (permission_denied (not_allowed uid target)))
            (ok tt)
        → b ≡ true
    by_flag uid true h = refl
    by_flag uid false h = absurd (cc h)

    by_uid :
        (r : Result ℕ FprintError)
        → caller_uid c ≡ r
        → (elim r as (λ _. Result (Unit {0}) FprintError) [
          | err x ↦ err x
          | ok uid ↦
              if may_act uid (lookup_uid c.getent (codes target))
              then ok tt
              else err (permission_denied (not_allowed uid target))
        ])
          ≡ ok tt
        → (uid : ℕ) × (caller_uid c ≡ ok uid)
          × (may_act uid (lookup_uid c.getent (codes target)) ≡ true)
    by_uid (err x) q h = absurd (cc h)
    by_uid (ok uid) q h = (uid, q, by_flag uid (may_act uid (lookup_uid c.getent (codes target))) h)

-- The guard lets a call through only if the bus gives the user id of its connection, and that is
-- root's, or the one on a line with the target's name in what `getent` answers.
guard-HasEntry :
    (c : Caller) (target : String)
    → guard c target ≡ ok tt
    → (uid : ℕ) × (caller_uid c ≡ ok uid)
      × ((uid ≡ 0)
          ⊎ ((passwd : List ℕ) × (c.getent (codes target) ≡ some passwd)
              × HasEntry (codes target) uid (lines passwd)))
guard-HasEntry c target e =
    let (uid, known, may) = guard-uid c target e in
    (uid, known, may_act-HasEntry uid c.getent (codes target) may)

guarded-err :
    (c : Caller) (d : Device) (user : String) (x : FprintError)
    → (flags d).user ≡ some user
    → guard c user ≡ err x
    → guarded c d ≡ err x
unfolding guarded claimed_target
guarded-err c d user x u g = simp (guarded, claimed_target, u, g)

guarded-ok :
    (c : Caller) (d : Device) (user : String)
    → (flags d).user ≡ some user
    → guard c user ≡ ok tt
    → guarded c d ≡ ok user
unfolding guarded claimed_target
guarded-ok c d user u g = simp (guarded, claimed_target, u, g)

start_op-busy :
    (d : Device)
    → (flags d).claimed ≡ true
    → (flags d).busy ≡ true
    → start_op d ≡ (err already_in_use, d)
unfolding start_op try_begin from_worker
start_op-busy d c b = simp (start_op, try_begin, from_worker, c, b)

-- A call that the guard refuses answers with the refusal and changes nothing, for a claim and for
-- the deletion of all fingers by the user named, for a start and for the deletion of one finger by
-- the user who holds the device. A start that the guard lets through while an operation is under way
-- answers "already in use" and changes nothing.
refused-unchanged :
    (c : Caller) (d : Device) (user : String)
    → ((x : FprintError)
        → guard c user ≡ err x
        → (env : Env)
        → (claim_call env c user d ≡ (some (err x), d))
          × (delete_all_call env c user d ≡ (some (err x), d))
          × ((flags d).user ≡ some user
              → (kind : OpKind) (finger : String)
              → (start kind c finger d ≡ (err x, d))
                × (delete_call env c finger d ≡ (some (err x), d))))
      × ((flags d).user ≡ some user
          → guard c user ≡ ok tt
          → (flags d).claimed ≡ true
          → (flags d).busy ≡ true
          → (kind : OpKind) (finger : String) → start kind c finger d ≡ (err already_in_use, d))
unfolding claim_call delete_all_call start delete_call spawned
refused-unchanged c d user = (
  λ x g env. (
    simp (claim_call, g),
    simp (delete_all_call, g),
    λ u kind finger. let e = guarded-err c d user x u g in (simp (start, e), simp (delete_call, e)),
  ),
  λ u g s b kind finger. simp (start, guarded-ok c d user u g, start_op-busy d s b, spawned),
)
