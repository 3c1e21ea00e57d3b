-- ===== src/Daemon/Service/LostCancel.antt =====
-- crates/elanprintd/src/main.rs: `start_op`, `stop_running`, and the clearing of `op_cancel` after an
-- operation.
use elanprint_rs.Prelude.{
  ℕ, suc, String, ◌≡◌, ◌∙◌, refl, inl, true, some, Result, ok, err, Occurs, arith, ◌+◌,
}
use elanprint_rs.Daemon.Machine.{OpKind, OpState, WorkerError, try_begin}
use elanprint_rs.Daemon.Service.{
  FprintError, Caller, Device, flags, with_flags, start, start_op, spawned, guarded, stop_running,
  clear_cancel, from_worker,
}
use elanprint_rs.Daemon.Service.Steps.{Step, clears}

-- What a start that succeeded on `d` leaves.
abbrev IsStarted : Device → Device → Type 0
IsStarted d e =
    ((flags e).busy ≡ true)
    × (e.op_cancel ≡ some d.tokens)
    × (e.cancelled ≡ d.cancelled)
    × (e.ending ≡ d.ending)

try_begin-busy : (s t : OpState) → try_begin s ≡ ok t → t.busy ≡ true
unfolding try_begin
try_begin-busy s t e = ground arith

start_op-IsStarted :
    (kind : OpKind) (finger : String) (d : Device)
    → (spawned kind finger (start_op d)).0 ≡ ok tt
    → IsStarted d (spawned kind finger (start_op d)).1
unfolding spawned start_op
start_op-IsStarted kind finger d e = by_flags (try_begin (flags d)) refl e
  where
    by_flags :
        (r : Result OpState WorkerError)
        → try_begin (flags d) ≡ r
        → (spawned kind finger (elim r as (λ _. Result ℕ FprintError × Device) [
          | err e ↦ (err (from_worker e), d)
          | ok s ↦ (
            ok d.tokens,
            record d {
              machine = with_flags s d.machine;
              op_cancel = some d.tokens;
              tokens = d.tokens + 1;
            },
          )
        ])).0
          ≡ ok tt
        → IsStarted d
            (spawned kind finger (elim r as (λ _. Result ℕ FprintError × Device) [
              | err e ↦ (err (from_worker e), d)
              | ok s ↦ (
                ok d.tokens,
                record d {
                  machine = with_flags s d.machine;
                  op_cancel = some d.tokens;
                  tokens = d.tokens + 1;
                },
              )
            ])).1
    by_flags (err x) b h = absurd (cc h)
    by_flags (ok s) b h = (try_begin-busy (flags d) s b, refl, refl, refl)

start-IsStarted :
    (kind : OpKind) (c : Caller) (finger : String) (d : Device)
    → (start kind c finger d).0 ≡ ok tt
    → IsStarted d (start kind c finger d).1
unfolding start
start-IsStarted kind c finger d e = by_guard (guarded c d) e
  where
    by_guard :
        (r : Result String FprintError)
        → (elim r as (λ _. Result (Unit {0}) FprintError × Device) [
          | err e ↦ (err e, d)
          | ok user ↦ spawned kind finger (start_op d)
        ]).0
          ≡ ok tt
        → IsStarted d
            (elim r as (λ _. Result (Unit {0}) FprintError × Device) [
              | err e ↦ (err e, d)
              | ok user ↦ spawned kind finger (start_op d)
            ]).1
    by_guard (err x) h = absurd (cc h)
    by_guard (ok user) h = start_op-IsStarted kind finger d h

stop-Occurs :
    (e : Device) (token : ℕ) → e.op_cancel ≡ some token → Occurs token (stop_running e).cancelled
unfolding stop_running
stop-Occurs e token h = rw h (inl refl)

cleared-stop : (e : Device) → stop_running (clear_cancel e) ≡ clear_cancel e
unfolding stop_running clear_cancel
cleared-stop e = refl

-- A stop that directly follows a successful start cancels the token of the new operation. But where
-- the task of an earlier operation, which has given back the busy flag and the lock, has yet to clear
-- `op_cancel`, it may do so after the start; then the new operation is busy, and a stop, which
-- `release` and suspend begin with as well, changes nothing and cancels nothing.
pub stop-lost :
    (kind : OpKind) (c : Caller) (finger : String) (d : Device) (n : ℕ)
    → (start kind c finger d).0 ≡ ok tt
    → d.ending ≡ suc n
    → let e = (start kind c finger d).1 in
      Occurs d.tokens (stop_running e).cancelled
      × Step e (clear_cancel e)
      × ((flags (clear_cancel e)).busy ≡ true)
      × (stop_running (clear_cancel e) ≡ clear_cancel e)
      × ((stop_running (clear_cancel e)).cancelled ≡ d.cancelled)
unfolding clear_cancel stop_running
stop-lost kind c finger d n ok_start late =
    let (set, token, same, ending) = start-IsStarted kind c finger d ok_start in
    (
      stop-Occurs (start kind c finger d).1 d.tokens token,
      clears n (ending ∙ late),
      set,
      refl,
      same,
    )
