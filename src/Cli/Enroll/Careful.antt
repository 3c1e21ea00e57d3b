-- ===== src/Cli/Enroll/Careful.antt =====
-- `enroll` of crates/elanprint-cli/src/main.rs: nothing that changes the chip is sent before the slot and
-- the finger have been looked at.
use elanprint_rs.Prelude.{
  ℕ, zero, suc, ◌+◌, ◌≡◌, sym, subst, inr, String, Bool, true, false, List, [], Option, none, some,
  Result, ok, err,
}
use elanprint_rs.Proto.Command.{Command, enrolled_num, finger_info, encode}
use elanprint_rs.Proto.Enroll
use elanprint_rs.Proto.Enroll.{
  EnrollAction, emit_progress, emit_retry, complete, fail_with, Read, new, start, step, take_send,
  pending_read,
}
use elanprint_rs.Usb.{UsbError, short_read}
use elanprint_rs.Cli.{
  CliError, Desk, Tool, Outcome, done, failed, waiting, Job, return, bail, lift, Hold, go,
  cancelled, pause, exchange, kept, parsed, send,
}
use elanprint_rs.Cli.Reads.{posted, post}
use elanprint_rs.Cli.Triple.{After, Triple, Triple-return, Triple-bail, Triple-lift, Triple-bind}
use elanprint_rs.Cli.Enroll.{
  looked, round_reply, is_commit, taken_bytes, wait_more, hold_for, held, drained, machine_round,
  acted, one_round, sampled, begun, committed, enroll,
}
use elanprint_rs.Cli.Enroll.Findings.{OnlyReads, Fair, Reads, Seen, checked-Triple}

module _ (desk : Desk) where
  module _ (slot : ℕ) where
    -- From the machine's start on the findings stay.
    abbrev Keeps : {A : Type 0} → Job A → Type 0
    Keeps x = Triple (Seen slot) x (λ _. Seen slot) (Fair slot)

    exchange-Keeps : (out : List ℕ) → Keeps (exchange desk out)
    unfolding exchange
    exchange-Keeps out = record {
      from = λ t q.
          let ((id, state, seen, free), (b, new)) = q in
          ((id, state, inr seen, free), (b, inr new));
    }

    lift-Keeps : {A : Type 0} → (r : Result A CliError) → Keeps (lift r)
    lift-Keeps r = Triple-lift r (λ t a e q. q) λ t q. inr q

    bail-Keeps : {A : Type 0} → (e : CliError) → Keeps {A = A} (bail e)
    bail-Keeps e = Triple-bail e λ t q. inr q

    return-Keeps : {A : Type 0} → (a : A) → Keeps (return a)
    return-Keeps a = Triple-return a λ t q. q

    send-Keeps : (c : Command) → Keeps (send desk c)
    unfolding send
    send-Keeps c = Triple-bind _ _ (exchange-Keeps (encode c)) λ r.
        Triple-bind _ _ (lift-Keeps (kept c r))
          λ raw. Triple-bind _ _ (lift-Keeps (parsed c raw)) λ p. return-Keeps (raw, p)

    posted-Keeps : (r : Result (Unit {0}) UsbError) (out : List ℕ) → Keeps (posted desk r out)
    unfolding posted
    posted-Keeps (err e) out = record { from = λ t q. inr q }
    posted-Keeps (ok u) out = exchange-Keeps out

    post-Keeps : (out : List ℕ) → Keeps (post desk out)
    unfolding post
    post-Keeps out = record { from = λ t q. (posted-Keeps (desk.writes t.clock) out).from t q }

    round_reply-Keeps : (r : Result (List ℕ) UsbError) → Keeps (round_reply r)
    unfolding round_reply
    round_reply-Keeps (ok bytes) = return-Keeps bytes
    round_reply-Keeps (err (short_read wanted got bytes)) = return-Keeps bytes
    round_reply-Keeps (err e) = bail-Keeps _

    looked-Keeps :
        (h : Hold) (again : Outcome (Unit {0}) × Tool) (t : Tool)
        → Seen slot t
        → After (λ _. Seen slot) (Fair slot) again
        → After (λ _. Seen slot) (Fair slot) (looked desk h again t)
    unfolding looked
    looked-Keeps go again t q k = q
    looked-Keeps cancelled again t q k = inr q
    looked-Keeps pause again t q k = k

    hold_for-Keeps : (looks : ℕ) → Keeps (hold_for desk looks)
    unfolding hold_for
    hold_for-Keeps zero = record { from = λ t q. inr q }
    hold_for-Keeps (suc looks) = record {
      from = λ t q.
          looked-Keeps (desk.holds t.clock) _ t q
            ((hold_for-Keeps looks).from (record t { clock = t.clock + 1 }) q);
    }

    held-Keeps : (looks : ℕ) (b : Bool) → Keeps (held desk looks b)
    unfolding held
    held-Keeps looks true = hold_for-Keeps looks
    held-Keeps looks false = return-Keeps tt

    drained-Keeps : (b : Bool) → Keeps (drained desk b)
    unfolding drained
    drained-Keeps true = record { from = λ t q. q }
    drained-Keeps false = record { from = λ t q. q }

    machine_round-Keeps : (out : List ℕ) → Keeps (machine_round desk out)
    unfolding machine_round
    machine_round-Keeps out = Triple-bind _ _ (post-Keeps out) round_reply-Keeps

    taken_bytes-Keeps : (a : Option EnrollAction) → Keeps (taken_bytes a)
    unfolding taken_bytes
    taken_bytes-Keeps (some (EnrollAction.send next)) = return-Keeps next
    taken_bytes-Keeps _ = bail-Keeps _

    module _ (again : Enroll.Enroll → List ℕ → Job (Unit {0}))
        (again-Keeps : (sm : Enroll.Enroll) (out : List ℕ) → Keeps (again sm out)) where
      acted-Keeps : (sm : Enroll.Enroll) (a : EnrollAction) → Keeps (acted desk again sm a)
      unfolding acted
      acted-Keeps sm (emit_progress count total) =
          Triple-bind _ _ (taken_bytes-Keeps _) λ next. again-Keeps (take_send sm).0 next
      acted-Keeps sm (emit_retry r) =
          Triple-bind _ _ (taken_bytes-Keeps _) λ next. again-Keeps (take_send sm).0 next
      acted-Keeps sm (EnrollAction.send next) = again-Keeps sm next
      acted-Keeps sm (complete id) = return-Keeps tt
      acted-Keeps sm (fail_with e) = bail-Keeps _

      one_round-Keeps :
          (hold : Bool) (looks : ℕ) (sm : Enroll.Enroll) (out : List ℕ) (r : Option Read)
          → Keeps (one_round desk hold looks again sm out r)
      unfolding one_round
      one_round-Keeps hold looks sm out none = bail-Keeps _
      one_round-Keeps hold looks sm out (some r) = Triple-bind _ _ (held-Keeps looks _) λ _.
          Triple-bind _ _ (machine_round-Keeps out) λ raw.
            Triple-bind _ _ (drained-Keeps (is_commit out))
              λ _. acted-Keeps (step sm raw).0 (step sm raw).1

    sampled-Keeps :
        (fuel looks : ℕ) (hold : Bool) (sm : Enroll.Enroll) (out : List ℕ)
        → Keeps (sampled desk fuel looks hold sm out)
    unfolding sampled wait_more
    sampled-Keeps zero looks hold sm out = record { from = λ t q. inr q }
    sampled-Keeps (suc fuel) looks hold sm out =
        one_round-Keeps _ (sampled-Keeps fuel looks hold) hold looks sm out (pending_read sm)

    begun-Keeps :
        (fuel looks : ℕ) (hold : Bool) (sm : Enroll.Enroll) (a : EnrollAction)
        → Keeps (begun desk fuel looks hold sm a)
    unfolding begun
    begun-Keeps fuel looks hold sm (EnrollAction.send out) = sampled-Keeps fuel looks hold sm out
    begun-Keeps fuel looks hold sm _ = bail-Keeps _

    committed-Keeps : (fuel looks : ℕ) (hold : Bool) → Keeps (committed desk fuel looks hold slot)
    unfolding committed
    committed-Keeps fuel looks hold = Triple-bind _ _ (begun-Keeps fuel looks hold _ _) λ _.
        Triple-bind _ _ (send-Keeps enrolled_num)
          λ _. Triple-bind _ _ (send-Keeps (finger_info slot)) λ _. return-Keeps tt

    enroll-Triple :
        (fuel looks : ℕ) (name : String) (hold : Bool)
        → Triple (Reads slot) (enroll desk fuel looks name slot hold) (λ _. Seen slot) (Fair slot)
    unfolding enroll
    enroll-Triple fuel looks name hold =
        Triple-bind _ _ (checked-Triple desk slot fuel name) λ _. committed-Keeps fuel looks hold

    After-Fair :
        (r : Outcome (Unit {0}) × Tool) → After (λ _. Seen slot) (Fair slot) r → Fair slot r.1
    After-Fair (done u, t) q = inr q
    After-Fair (failed e, t) q = q
    After-Fair (waiting, t) q = q

    -- In a run of `enroll` that starts with nothing exchanged, wherever it stops, either all that was
    -- sent are reads (the count, this slot's record and the touches that verify), or the
    -- sensor answered the read of the slot with something other than the record of a template, and a
    -- touch by "not enrolled". The 2 byte form is such an answer, although it alone does not prove that
    -- the slot is free.
    pub enroll-Fair :
        (fuel looks : ℕ) (name : String) (hold : Bool) (t : Tool)
        → t.log ≡ []
        → Fair slot (enroll desk fuel looks name slot hold t).1
    enroll-Fair fuel looks name hold t fresh =
        After-Fair (enroll desk fuel looks name slot hold t)
          ((enroll-Triple fuel looks name hold).from t (subst (OnlyReads slot) (sym fresh) tt))
