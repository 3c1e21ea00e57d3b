-- ===== src/Proto/Status.antt =====
-- crates/elanprint-proto/src/status.rs and error.rs: what a status byte of the chip means.
pub mod Codes
use elanprint_rs.Prelude.{ℕ, ◌/◌, ◌^◌, String, Bool, true, false, Result, ◌==◌, if◌then◌else◌}

-- A rejected sample.
pub data Retry : Type 0 where
  move_down move_right move_up move_left dirty area_too_small : Retry

-- `Ok(u8)` and `Unknown(u8)` keep the byte.
pub data Status : Type 0 where
  ok : ℕ → Status
  retry : Retry → Status
  max_enrolled not_enrolled : Status
  unknown : ℕ → Status

pub data ProtoError : Type 0 where
  unexpected_length : String → ℕ → ℕ → ProtoError
  device : String → ℕ → ProtoError

unfoldable pub classify : ℕ → Status
classify byte =
    if byte == 0x41
    then Status.retry move_down
    else if byte == 0x42
    then Status.retry move_right
    else if byte == 0x43
    then Status.retry move_up
    else if byte == 0x44
    then Status.retry move_left
    else if byte == 0xfb
    then Status.retry dirty
    else if byte == 0xfe
    then Status.retry area_too_small
    else if byte == 0xdd
    then max_enrolled
    else if byte == 0xfd
    then not_enrolled
    else if byte / 2 ^ 4 == 0
    then Status.ok byte
    else unknown byte

unfoldable pub is_retry : Status → Bool
is_retry (Status.retry r) = true
is_retry _ = false

pub data VerifyOutcome : Type 0 where
  match : ℕ → VerifyOutcome
  no_match : VerifyOutcome
  retry : Retry → VerifyOutcome

-- `VerifyOutcome::classify`.
unfoldable pub verify_outcome : Status → Result VerifyOutcome ProtoError
verify_outcome (Status.ok id) = Result.ok (match id)
verify_outcome not_enrolled = Result.ok no_match
verify_outcome (Status.retry r) = Result.ok (VerifyOutcome.retry r)
verify_outcome max_enrolled = Result.err (device "verify" 0xdd)
verify_outcome (unknown b) = Result.err (device "verify" b)
