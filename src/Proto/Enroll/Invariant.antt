-- ===== src/Proto/Enroll/Invariant.antt =====
-- What holds of the enrollment machine between two replies.
use mathlib.Core.Option
use elanprint_rs.Prelude.{
  ℕ, ◌+◌, ◌≡◌, ◌≢◌, refl, ◌⊎◌, inl, ◌≤◌, ◌<◌, ◌%◌, List, Option, none, some, Result, ok, arith, leb,
  Bool-cases, inr, ◌==◌,
}
use elanprint_rs.Proto.Status.{Status, ProtoError}
use elanprint_rs.Proto.Command.{encode, commit_blank, sub_id, Command}
use elanprint_rs.Proto.Response.{Response, parse}
use elanprint_rs.Proto.Enroll.{
  Enroll, done, failed, EnrollAction, send, emit_progress, emit_retry, complete, fail_with, Pending,
  with_total, start, step, pending_command, next_sample, dispatch, sample_reply, collision_reply,
  commit_reply, sample_status, commit_status, accept_sample,
}

-- The counter fits its byte, each stage has its samples, and the state says what is pending.
pub record Inv (e : Enroll) : Type 0 where
  pub needed_byte : e.needed < 256
  pub slot_byte : e.slot < 256
  pub collected_byte : e.collected < 256
  pub sampling : e.pending ≡ some Pending.sample → (e.collected ≡ 0) ⊎ (e.collected < e.needed)
  pub checking : e.pending ≡ some Pending.collision → e.needed ≤ e.collected
  pub storing : e.pending ≡ some Pending.commit → e.needed ≤ e.collected
  pub stored : (id : ℕ) → e.state ≡ done id → (e.needed ≤ e.collected) × (id ≡ e.slot)

-- The bytes of the pending command.
unfoldable pub queued : Enroll → Option (List ℕ)
unfolding pending_command
queued e = Option.map encode (pending_command e)

-- What the caller must do next, given the action that a step returned: after `send` the bytes in
-- hand, and after progress or a retry the bytes in the buffer, are those of the pending command;
-- after an end nothing is pending.
abbrev pub Follows : Enroll → EnrollAction → Type 0
Follows e (send out) = queued e ≡ some out
Follows e (emit_progress k n) = (e.send_buf ≡ queued e) × (queued e ≢ none)
Follows e (emit_retry r) = (e.send_buf ≡ queued e) × (queued e ≢ none)
Follows e (complete id) =
    (queued e ≡ none) × (e.send_buf ≡ none) × (e.state ≡ done id) × (id ≡ e.slot)
Follows e (fail_with x) = (queued e ≡ none) × (e.send_buf ≡ none) × (e.state ≡ failed)

pub start-Inv : (slot total : ℕ) → slot < 256 → total < 256 → Inv (start (with_total slot total)).0
unfolding start with_total
start-Inv slot total hs ht = record {
  needed_byte = ht;
  slot_byte = hs;
  collected_byte = omega arith;
  sampling = λ h. inl refl;
  checking = λ h. cc;
  storing = λ h. cc;
  stored = λ id h. cc;
}

dispatch-Inv :
    (p : Option Pending) (e : Enroll) (input : List ℕ)
    → e.pending ≡ p
    → Inv e
    → Inv (dispatch p e input).0
unfolding dispatch parse
dispatch-Inv (some Pending.sample) e input h v = record {
  needed_byte = ground arith;
  slot_byte = ground arith;
  collected_byte = ground arith;
  sampling = ground arith;
  checking = ground arith;
  storing = ground arith;
  stored = λ id k. ground (arith, v.stored id);
}
dispatch-Inv _ e input h v = record {
  needed_byte = ground arith;
  slot_byte = ground arith;
  collected_byte = ground arith;
  sampling = ground arith;
  checking = ground arith;
  storing = ground arith;
  stored = λ id k. ground (arith, v.stored id);
}

-- Every reply keeps the invariant: the sample counter stays a byte and never wraps, the collision
-- check and the commit are queued only once all samples are in, and a machine that is done has
-- them all and names its own slot.
pub step-Inv : (e : Enroll) (input : List ℕ) → Inv e → Inv (step e input).0
unfolding step
step-Inv e input v = dispatch-Inv e.pending e input refl v

abbrev Told : Enroll × EnrollAction → Type 0
Told r = Follows r.0 r.1

accept_sample-Told : (e : Enroll) → Told (accept_sample e)
unfolding accept_sample queued
accept_sample-Told e = elim (Bool-cases (leb e.needed ((e.collected + 1) % 256))) [
  | inl h ↦ rw (h, accept_sample) (ground arith, λ k. cc)
  | inr h ↦ rw (h, accept_sample) (ground arith, λ k. cc)
]

sample_status-Told : (e : Enroll) (s : Status) → Told (sample_status e s)
unfolding sample_status queued
sample_status-Told e (Status.ok n) = elim (Bool-cases (n == 0)) [
  | inl h ↦ rw (h, sample_status) (accept_sample-Told e)
  | inr h ↦ rw (h, sample_status) (refl, refl, refl)
]
sample_status-Told e (Status.retry r) = (refl, λ k. cc)
sample_status-Told e _ = (refl, refl, refl)

commit_status-Told : (e : Enroll) (s : Status) → Told (commit_status e s)
unfolding commit_status queued
commit_status-Told e (Status.ok n) = elim (Bool-cases (n == 0)) [
  | inl h ↦ rw (h, commit_status) (refl, refl, refl, refl)
  | inr h ↦ rw (h, commit_status) (refl, refl, refl)
]
commit_status-Told e _ = (refl, refl, refl)

sample_reply-Told : (e : Enroll) (r : Result Response ProtoError) → Told (sample_reply e r)
unfolding sample_reply queued
sample_reply-Told e (ok (Response.enroll byte0 s)) = sample_status-Told e s
sample_reply-Told e _ = (refl, refl, refl)

collision_reply-Told : (e : Enroll) (r : Result Response ProtoError) → Told (collision_reply e r)
unfolding collision_reply queued
collision_reply-Told e (ok (Response.check_collision byte0 none)) = refl
collision_reply-Told e (ok (Response.check_collision byte0 (some id))) = (refl, refl, refl)
collision_reply-Told e _ = (refl, refl, refl)

commit_reply-Told : (e : Enroll) (r : Result Response ProtoError) → Told (commit_reply e r)
unfolding commit_reply queued
commit_reply-Told e (ok (Response.commit byte0 s)) = commit_status-Told e s
commit_reply-Told e _ = (refl, refl, refl)

dispatch-Told : (p : Option Pending) (e : Enroll) (input : List ℕ) → Told (dispatch p e input)
unfolding dispatch queued
dispatch-Told (some Pending.sample) e input = sample_reply-Told e (parse (next_sample e) input)
dispatch-Told (some Pending.collision) e input =
    collision_reply-Told e (parse Command.check_collision input)
dispatch-Told (some Pending.commit) e input =
    commit_reply-Told e (parse (commit_blank (sub_id e.slot)) input)
dispatch-Told none e input = (refl, refl, refl)

-- Whatever the reply, the action returned tells the caller the truth: bytes to send are those of
-- the command whose reply is awaited next, in hand or in the buffer, and after completion or
-- failure nothing is queued.
pub step-Follows : (e : Enroll) (input : List ℕ) → Follows (step e input).0 (step e input).1
unfolding step
step-Follows e input = dispatch-Told e.pending e input
