-- ===== src/Proto/Enroll.antt =====
-- crates/elanprint-proto/src/enroll.rs: the enrollment state machine. A method that takes
-- `&mut self` returns the new machine beside its result.
pub mod Invariant
pub mod Runs
use elanprint_rs.Prelude.{
  ℕ, ◌+◌, ◌%◌, String, List, Option, none, some, Result, ok, err, ◌==◌, leb, if◌then◌else◌,
}
use elanprint_rs.Proto.Status.{Retry, Status, not_enrolled, unknown, ProtoError}
use elanprint_rs.Proto.Status.Codes.{retry_code}
use elanprint_rs.Proto.Command.{
  Command, ReplyEndpoint, encode, reply_endpoint, expected_len, timeout, sub_id, commit_blank,
  total_enroll_attempts,
}
use elanprint_rs.Proto.Response.{Response, parse}

pub data EnrollError : Type 0 where
  max_enrolled : EnrollError
  collision : ℕ → EnrollError
  device : String → ℕ → EnrollError
  unexpected_reply : EnrollError
  parse_failed : ProtoError → EnrollError

pub data EnrollState : Type 0 where
  idle : EnrollState
  started : ℕ → EnrollState
  -- collected, needed
  awaiting_touch : ℕ → ℕ → EnrollState
  committing : EnrollState
  done : ℕ → EnrollState
  failed : EnrollState

pub data EnrollAction : Type 0 where
  send : List ℕ → EnrollAction
  -- done, total
  emit_progress : ℕ → ℕ → EnrollAction
  emit_retry : Retry → EnrollAction
  complete : ℕ → EnrollAction
  fail_with : EnrollError → EnrollAction

pub data Pending : Type 0 where
  sample collision commit : Pending

pub record Enroll : Type 0 where
  pub slot : ℕ
  pub needed : ℕ
  pub collected : ℕ
  pub pending : Option Pending
  pub send_buf : Option (List ℕ)
  pub state : EnrollState

unfoldable pub with_total : ℕ → ℕ → Enroll
with_total slot total = record {
  slot = slot;
  needed = total;
  collected = 0;
  pending = none;
  send_buf = none;
  state = idle;
}

-- `Enroll::new`.
unfoldable pub new : ℕ → Enroll
unfolding with_total
new slot = with_total slot total_enroll_attempts

abbrev pub next_sample : Enroll → Command
next_sample e = Command.enroll e.slot e.needed e.collected

pending_command_of : Enroll → Option Pending → Option Command
pending_command_of e (some Pending.sample) = some (next_sample e)
pending_command_of e (some Pending.collision) = some Command.check_collision
pending_command_of e (some Pending.commit) = some (commit_blank (sub_id e.slot))
pending_command_of e none = none

unfoldable pub pending_command : Enroll → Option Command
unfolding pending_command_of
pending_command e = pending_command_of e e.pending

pub record Read : Type 0 where
  pub endpoint : ReplyEndpoint
  pub len : ℕ
  pub wait : ℕ

read_of : Option Command → Option Read
read_of none = none
read_of (some c) =
    some (record { endpoint = reply_endpoint c; len = expected_len c; wait = timeout c })

-- Where and how long to read the reply of the queued command.
unfoldable pub pending_read : Enroll → Option Read
unfolding pending_command read_of
pending_read e = read_of (pending_command e)

timeout_of : Option Command → Option ℕ
timeout_of none = none
timeout_of (some c) = some (timeout c)

unfoldable pub pending_timeout : Enroll → Option ℕ
unfolding pending_command timeout_of
pending_timeout e = timeout_of (pending_command e)

queue : Enroll → Command → Enroll × EnrollAction
queue e cmd = (record e { send_buf = some (encode cmd) }, send (encode cmd))

unfoldable pub start : Enroll → Enroll × EnrollAction
unfolding queue
start e =
    queue (record e { pending = some Pending.sample; state = started e.slot })
      (Command.enroll e.slot e.needed 0)

-- The resend that follows `emit_progress` and `emit_retry`.
unfoldable pub take_send : Enroll → Enroll × Option EnrollAction
take_send e =
    (record e { send_buf = none }, elim e.send_buf [ none ↦ none | some out ↦ some (send out) ])

fail : Enroll → EnrollError → Enroll × EnrollAction
fail e x = (record e { pending = none; send_buf = none; state = failed }, fail_with x)

-- `self.collected += 1` on a `u8`, and what follows it.
accept_sample : Enroll → Enroll × EnrollAction
accept_sample e = finish (record e { collected = n; state = awaiting_touch n e.needed })
  where
    n : ℕ
    n = (e.collected + 1) % 256

    finish : Enroll → Enroll × EnrollAction
    finish f =
        if leb f.needed f.collected
        then (
          record f {
            pending = some Pending.collision;
            send_buf = some (encode Command.check_collision);
          },
          emit_progress f.collected f.needed,
        )
        else (
          record f { pending = some Pending.sample; send_buf = some (encode (next_sample f)) },
          emit_progress f.collected f.needed,
        )

retry_sample : Enroll → Retry → Enroll × EnrollAction
retry_sample e r = (
  record e { pending = some Pending.sample; send_buf = some (encode (next_sample e)) },
  emit_retry r,
)

sample_status : Enroll → Status → Enroll × EnrollAction
unfolding fail accept_sample retry_sample
sample_status e (Status.ok n) =
    if n == 0 then accept_sample e else fail e (EnrollError.device "enroll" n)
sample_status e (Status.retry r) = retry_sample e r
sample_status e Status.max_enrolled = fail e EnrollError.max_enrolled
sample_status e not_enrolled = fail e (EnrollError.device "enroll" 0xfd)
sample_status e (unknown b) = fail e (EnrollError.device "enroll" b)

sample_reply : Enroll → Result Response ProtoError → Enroll × EnrollAction
unfolding fail sample_status
sample_reply e (ok (Response.enroll byte0 status)) = sample_status e status
sample_reply e (ok other) = fail e unexpected_reply
sample_reply e (err x) = fail e (parse_failed x)

step_sample : Enroll → List ℕ → Enroll × EnrollAction
unfolding sample_reply
step_sample e input = sample_reply e (parse (next_sample e) input)

collision_reply : Enroll → Result Response ProtoError → Enroll × EnrollAction
unfolding fail queue
collision_reply e (ok (Response.check_collision byte0 (some id))) =
    fail e (EnrollError.collision id)
collision_reply e (ok (Response.check_collision byte0 none)) =
    queue (record e { pending = some Pending.commit; state = committing })
      (commit_blank (sub_id e.slot))
collision_reply e (ok other) = fail e unexpected_reply
collision_reply e (err x) = fail e (parse_failed x)

step_collision : Enroll → List ℕ → Enroll × EnrollAction
unfolding collision_reply
step_collision e input = collision_reply e (parse Command.check_collision input)

commit_status : Enroll → Status → Enroll × EnrollAction
unfolding fail
commit_status e (Status.ok n) =
    if n == 0
    then (record e { pending = none; send_buf = none; state = done e.slot }, complete e.slot)
    else fail e (EnrollError.device "commit" n)
commit_status e (Status.retry r) = fail e (EnrollError.device "commit" (retry_code r))
commit_status e Status.max_enrolled = fail e EnrollError.max_enrolled
commit_status e not_enrolled = fail e (EnrollError.device "commit" 0xfd)
commit_status e (unknown b) = fail e (EnrollError.device "commit" b)

commit_reply : Enroll → Result Response ProtoError → Enroll × EnrollAction
unfolding fail commit_status
commit_reply e (ok (Response.commit byte0 status)) = commit_status e status
commit_reply e (ok other) = fail e unexpected_reply
commit_reply e (err x) = fail e (parse_failed x)

step_commit : Enroll → List ℕ → Enroll × EnrollAction
unfolding commit_reply
step_commit e input = commit_reply e (parse (commit_blank (sub_id e.slot)) input)

dispatch : Option Pending → Enroll → List ℕ → Enroll × EnrollAction
unfolding fail step_sample step_collision step_commit
dispatch (some Pending.sample) e input = step_sample e input
dispatch (some Pending.collision) e input = step_collision e input
dispatch (some Pending.commit) e input = step_commit e input
dispatch none e input = fail e unexpected_reply

-- One reply to the queued command.
unfoldable pub step : Enroll → List ℕ → Enroll × EnrollAction
unfolding dispatch
step e input = dispatch e.pending e input
