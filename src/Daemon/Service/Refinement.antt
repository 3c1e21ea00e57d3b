-- ===== src/Daemon/Service/Refinement.antt =====
-- crates/elanprintd/src/main.rs: the steps of the service as moves of the abstract machine.
use elanprint_rs.Prelude.{
  ℕ, String, ◌≡◌, refl, sym, ap, ◌∙◌, subst, Bool, true, false, List, [], ◌∷◌, ◌++◌, Option, none,
  some, Result, ok, err,
}
use elanprint_rs.Daemon.Machine.{OpState, end_op, Env, Machine, Worker, new_worker, new_state}
use elanprint_rs.Daemon.Exec.{Outcome, done, failed, waiting, Exec}
use elanprint_rs.Daemon.Exec.Triple.{Post, Keeps}
use elanprint_rs.Daemon.Worker.Kept.{Held}
use elanprint_rs.Daemon.Worker.Device.Claim.{
  claimed_by, unclaimed, CanClaim, claim-Triple, release-Triple, suspend-Held, resume-Held,
  list-Held,
}
use elanprint_rs.Daemon.Worker.Erase.Kept.{delete_finger-Held}
use elanprint_rs.Daemon.Worker.Device.{claim, release, suspend, resume, list}
use elanprint_rs.Daemon.Worker.Erase.{delete_finger}
use elanprint_rs.Daemon.Service.{
  FprintError, Caller, answer, guard, Task, Device, flags, stop_running, locked, end_task,
  clear_cancel, claim_call, release_locked, list_call, slept,
}
use elanprint_rs.Daemon.Service.Steps.{
  IsInitial, Step, started, stopped, claims, releases, lists, deletes, sleeps, enters, ends, clears,
  Reachable,
}
use elanprint_rs.Daemon.Service.Invariant.{
  IsLive, Agrees, IsConsistent, locked-SameClaim, op_of-SameClaim,
}
use elanprint_rs.Daemon.Service.Spec.{
  Spec, live, abstract, Event, claim_by, quiet, over, Move, Sound, same-Sound, granted, event_of,
}
use elanprint_rs.Daemon.Service.Starting.{Agrees-busy, started-Sound}

idle-live :
    (b : Bool) (q : List Task) (r : Option Task) → IsLive b q r → b ≡ false → live q r ≡ none
idle-live false [] none h e = refl
idle-live false [] (some x) h e = absurd h
idle-live false (x ∷ q) r h e = absurd h
idle-live true q r h e = absurd (cc e)

enter-IsLive :
    (b : Bool) (before after : List Task) (t : Task)
    → IsLive b (before ++ (t ∷ after)) none
    → IsLive b (before ++ after) (some t) × (live (before ++ (t ∷ after)) none ≡ some t)
enter-IsLive true [] [] t h = (tt, refl)
enter-IsLive true (x ∷ []) after t h = absurd h
enter-IsLive true (x ∷ y ∷ before) after t h = absurd h
enter-IsLive true [] (x ∷ after) t h = absurd h
enter-IsLive false [] after t h = absurd h
enter-IsLive false (x ∷ before) after t h = absurd h

end-IsLive :
    (b : Bool) (q : List Task) (t : Task)
    → IsLive b q (some t)
    → IsLive false q none × (live q none ≡ none)
end-IsLive true [] t h = (tt, refl)
end-IsLive true (x ∷ []) t h = absurd h
end-IsLive true (x ∷ y ∷ q) t h = absurd h
end-IsLive false [] t h = absurd h
end-IsLive false (x ∷ q) t h = absurd h

stopped-Sound : (d : Device) → IsConsistent d → Sound quiet d (stop_running d)
unfolding stop_running
stopped-Sound d h = by_token d.op_cancel
  where
    by_token :
        (o : Option ℕ)
        → Sound quiet d (elim o [
          | none ↦ d
          | some token ↦ record d { op_cancel = none; cancelled = token ∷ d.cancelled }
        ])
    by_token none = same-Sound d d (refl, refl) refl refl h
    by_token (some token) =
        same-Sound d (record d { op_cancel = none; cancelled = token ∷ d.cancelled }) (refl, refl)
          refl refl h

-- What a claim may answer and do.
abbrev Claims : Caller → String → Device → Option (Result (Unit {0}) FprintError) × Device → Type 0
Claims c user d (answer, e) = Sound (claim_by c user (granted answer)) d e

claim-Sound :
    (env : Env) (c : Caller) (user : String) (d : Device)
    → IsConsistent d
    → guard c user ≡ ok tt
    → Claims c user d (locked (claim env user) d)
claim-Sound env c user d h g =
    by_result (claim env user d.machine)
      ((claim-Triple env d.machine.worker.claimed (flags d) user).at d.machine (refl, refl))
  where
    by_result :
        (x : Outcome (Unit {0}) × Machine)
        → Post
            (λ _ m.
              Held (some user) (claimed_by (flags d) user) m
              × CanClaim d.machine.worker.claimed (flags d) user)
            (Held d.machine.worker.claimed (flags d))
            x
        → Claims c user d (answer x.0, record d { machine = x.1 })
    by_result (done a, m) ((own, set), (free, nobody)) =
        let one = idle-live (flags d).busy d.queued d.running h.0 free in
        (
          (
            subst (λ s. IsLive s.busy d.queued d.running) (sym set) h.0,
            subst (λ o. Agrees o m.worker.state) (sym own)
                (ap (λ (s : OpState). s.claimed) set, ap (λ (s : OpState). s.user) set),
          ),
          (g, one, nobody, own, one),
        )
    by_result (failed e, m) t = same-Sound d (record d { machine = m }) t refl refl h
    by_result (waiting, m) t = same-Sound d (record d { machine = m }) t refl refl h

Claims-Sound :
    (env : Env) (c : Caller) (user : String) (d : Device)
    → IsConsistent d
    → Claims c user d (claim_call env c user d)
unfolding claim_call
Claims-Sound env c user d h = by_guard (guard c user) refl
  where
    by_guard :
        (r : Result (Unit {0}) FprintError)
        → guard c user ≡ r
        → Claims c user d (elim r as (λ _. Option (Result (Unit {0}) FprintError) × Device) [
          | err e ↦ (some (err e), d)
          | ok u ↦ locked (claim env user) d
        ])
    by_guard (err e) g = same-Sound d d (refl, refl) refl refl h
    by_guard (ok u) g = claim-Sound env c user d h g

releases-Sound :
    (env : Env) (d : Device) → IsConsistent d → Sound Event.release d (release_locked env d)
unfolding release_locked
releases-Sound env d h =
    by_result (release env d.machine)
      ((release-Triple env d.machine.worker.claimed (flags d)).at d.machine (refl, refl))
  where
    by_result :
        (x : Outcome (Unit {0}) × Machine)
        → Post (λ _. Held none (unclaimed (flags d))) (λ _. ⊥) x
        → Sound Event.release d (record d { machine = x.1 })
    by_result (done a, m) (own, set) = (
      (
        subst (λ s. IsLive s.busy d.queued d.running) (sym set) h.0,
        subst (λ o. Agrees o m.worker.state) (sym own)
            (ap (λ (s : OpState). s.claimed) set, ap (λ (s : OpState). s.user) set),
      ),
      (own, refl),
    )
    by_result (failed e, m) t = absurd t
    by_result (waiting, m) t = absurd t

-- An operation that leaves the claim and the flags alone.
locked-Sound :
    {A : Type 0} (x : Exec A) (d : Device)
    → Keeps (Held d.machine.worker.claimed (flags d)) x
    → IsConsistent d
    → Sound quiet d (locked x d).1
locked-Sound x d t h = same-Sound d (locked x d).1 (locked-SameClaim x d.machine t) refl refl h

sleeps-Sound : (env : Env) (b : Bool) (d : Device) → IsConsistent d → Sound quiet d (slept env b d)
unfolding slept
sleeps-Sound env true d h =
    locked-Sound (suspend env) d (suspend-Held env d.machine.worker.claimed (flags d)) h
sleeps-Sound env false d h =
    locked-Sound (resume env) d (resume-Held env d.machine.worker.claimed (flags d)) h

lists-Sound :
    (env : Env) (user : String) (d : Device)
    → IsConsistent d
    → Sound quiet d (list_call env user d).1
unfolding list_call
lists-Sound env user d h =
    locked-Sound (list env user) d (list-Held env d.machine.worker.claimed (flags d) user) h

clears-Sound : (d : Device) → IsConsistent d → Sound quiet d (clear_cancel d)
unfolding clear_cancel
clears-Sound d h = same-Sound d (clear_cancel d) (refl, refl) refl refl h

enters-Sound :
    (t : Task) (before after : List Task) (d : Device)
    → d.running ≡ none
    → d.queued ≡ before ++ (t ∷ after)
    → IsConsistent d
    → Sound quiet d (record d { queued = before ++ after; running = some t })
enters-Sound t before after d r q h =
    let (one, was) = enter-IsLive (flags d).busy before after t (
      subst (λ x. IsLive (flags d).busy (before ++ (t ∷ after)) x) r
        (subst (λ x. IsLive (flags d).busy x d.running) q h.0)) in
    (
      (one, h.1),
      (
        refl,
        sym was ∙ ap (live (before ++ (t ∷ after))) (sym r) ∙ ap (λ x. live x d.running) (sym q),
      ),
    )

ends-Sound :
    (env : Env) (fuel : ℕ) (t : Task) (d : Device)
    → d.running ≡ some t
    → IsConsistent d
    → Sound (over t) d (end_task env fuel t d)
unfolding end_task end_op
ends-Sound env fuel t d r h =
    let same = op_of-SameClaim env fuel t.finger t.kind d.machine in
    let (one, idle) =
      end-IsLive (flags d).busy d.queued t (subst (λ x. IsLive (flags d).busy d.queued x) r h.0) in
    (
      (
        one,
        subst (λ o. Agrees o (flags (end_task env fuel t d))) (sym same.0)
            (Agrees-busy d.machine.worker.claimed (flags d) (flags (end_task env fuel t d)) h.1
              (ap (λ (s : OpState). s.claimed) same.1) (ap (λ (s : OpState). s.user) same.1)),
      ),
      (ap (live d.queued) r, same.0, idle),
    )

Step-Sound : {d e : Device} → (s : Step d e) → IsConsistent d → Sound (event_of s) d e
unfolding event_of
Step-Sound {d} (started kind c finger) h = started-Sound kind c finger d h
Step-Sound {d} stopped h = stopped-Sound d h
Step-Sound {d} (claims env c user r) h = Claims-Sound env c user d h
Step-Sound {d} (releases env r) h = releases-Sound env d h
Step-Sound {d} (lists env user r) h = lists-Sound env user d h
Step-Sound {d} (deletes env intent r) h =
    locked-Sound (delete_finger env intent) d
      (delete_finger-Held env d.machine.worker.claimed (flags d) intent) h
Step-Sound {d} (sleeps env b r) h = sleeps-Sound env b d h
Step-Sound {d} (enters t before after r q) h = enters-Sound t before after d r q h
Step-Sound {d} (ends env fuel t r o) h = ends-Sound env fuel t d r h
Step-Sound {d} (clears n e) h = clears-Sound d h

-- The runs of the abstract machine by their events, the newest in front, from a device that nobody
-- holds.
pub data Runs : List Event → Spec → Type 0 where
  free : {a : Spec} → a.owner ≡ none → a.op ≡ none → Runs [] a
  moved : {es : List Event} {a b : Spec} → Runs es a → (e : Event) → Move e a b → Runs (e ∷ es) b

-- The devices that steps lead to, with the events of the steps.
pub data Traced : List Event → Device → Type 0 where
  initial : {d : Device} → IsInitial d → Traced [] d
  next_step :
      {es : List Event} {d e : Device} → Traced es d → (s : Step d e) → Traced (event_of s ∷ es) e

initial-IsConsistent : (d : Device) → IsInitial d → IsConsistent d
unfolding new_worker new_state
initial-IsConsistent d (w, q, r, c, e) = (
  subst (λ x. IsLive x.state.busy d.queued d.running) (sym w)
      (subst (λ x. IsLive false x d.running) (sym q) (subst (IsLive false []) (sym r) tt)),
  subst (λ x. Agrees x.claimed x.state) (sym w) (refl, refl),
)

initial-Runs : (d : Device) → IsInitial d → Runs [] (abstract d)
unfolding new_worker
initial-Runs d (w, q, r, c, e) =
    free (ap (λ (x : Worker). x.claimed) w) (ap (λ x. live x d.running) q ∙ ap (live []) r)

pub Reachable-IsConsistent : {d : Device} → Reachable d → IsConsistent d
Reachable-IsConsistent {d} (Reachable.initial i) = initial-IsConsistent d i
Reachable-IsConsistent (Reachable.next_step r s) = (Step-Sound s (Reachable-IsConsistent r)).0

Traced-Reachable : {es : List Event} {d : Device} → Traced es d → Reachable d
Traced-Reachable (Traced.initial i) = Reachable.initial i
Traced-Reachable (Traced.next_step t s) = Reachable.next_step (Traced-Reachable t) s

-- Whatever order the calls, the spawned tasks and the sleep signals take, the service implements the
-- abstract machine of an owner and at most one operation: the events that its steps show are those of a
-- run of that machine, which ends in the owner and the operation of the device. So a claim answers with
-- success only to a caller whom the guard lets through for the user, while no operation is under way
-- and nobody else holds the device, and makes that user the owner; a start answers with success only to
-- a caller whom the guard lets through for the owner, while no operation is under way, and puts one of
-- its kind and finger under way; only a release takes the device away, and only its end an operation.
pub Traced-Runs : {es : List Event} {d : Device} → Traced es d → Runs es (abstract d)
Traced-Runs {d = d} (Traced.initial i) = initial-Runs d i
Traced-Runs (Traced.next_step t s) =
    moved (Traced-Runs t) (event_of s)
      (Step-Sound s (Reachable-IsConsistent (Traced-Reachable t))).1
