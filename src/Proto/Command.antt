-- ===== src/Proto/Command.antt =====
-- crates/elanprint-proto/src/lib.rs: the commands, their bytes and what each expects in reply.
-- A `u8` is a number below 256, a `[u8; 68]` a list of 68 of them, a `Duration` its milliseconds.
pub mod Wire
pub mod SubId
use elanprint_rs.Prelude.{
  ℕ, ◌+◌, ◌*◌, ◌%◌, bit_and, bit_or, String, Bool, true, false, not, List, [], ◌∷◌, ◌++◌, Option,
  none, some, Result, ok, err, ◌==◌, leb, ◌&&◌, if◌then◌else◌, length, take, drop, replicate,
}
use elanprint_rs.Prelude.Text.{trim, parse_uint}
use elanprint_rs.Proto.Status.{ProtoError, unexpected_length}

pub data ReplyEndpoint : Type 0 where
  image status touch_wait : ReplyEndpoint

-- `ReplyEndpoint::address`.
unfoldable pub reply_address : ReplyEndpoint → ℕ
reply_address image = 0x82
reply_address status = 0x83
reply_address touch_wait = 0x84

abbrev pub default_enroll_stages : ℕ
default_enroll_stages = 8

abbrev pub total_enroll_attempts : ℕ
total_enroll_attempts = default_enroll_stages

stages_in_range : Option ℕ → ℕ
stages_in_range none = default_enroll_stages
stages_in_range (some n) = if leb 1 n && leb n 32 then n else default_enroll_stages

-- `enroll_stages`; the argument is the variable ELANPRINT_ENROLL_STAGES of the environment.
unfoldable pub enroll_stages : Option (List ℕ) → ℕ
unfolding stages_in_range
enroll_stages none = default_enroll_stages
enroll_stages (some raw) = stages_in_range (parse_uint 255 (trim raw))

unfoldable pub sub_id : ℕ → ℕ
sub_id finger_id = bit_or 0xf0 ((finger_id + 5) % 256)

pub data Command : Type 0 where
  fw_version sensor_size enrolled_num : Command
  finger_info : ℕ → Command
  verify abort : Command
  -- finger_id, total_attempts, attempts_done
  enroll : ℕ → ℕ → ℕ → Command
  check_collision : Command
  -- sub_id, user
  commit : ℕ → List ℕ → Command
  delete : ℕ → Command
  -- sub_id, tail
  delete_subsid : ℕ → List ℕ → Command
  wipe_all reset_device : Command
  -- width, height
  capture_start : ℕ → ℕ → Command
  read_register : ℕ → Command

-- `Command::commit`.
unfoldable pub commit_blank : ℕ → Command
commit_blank sub = commit sub (replicate 68 0)

-- `Command::delete_subsid`.
unfoldable pub delete_record : ℕ → List ℕ → Result Command ProtoError
delete_record sub record_bytes =
    if not (length record_bytes == 70)
    then err (unexpected_length "delete_subsid" 70 (length record_bytes))
    else ok (delete_subsid sub (take 68 (drop 2 record_bytes)))

unfoldable pub encode : Command → List ℕ
encode fw_version = 0x40 ∷ 0x19 ∷ []
encode sensor_size = 0x00 ∷ 0x0c ∷ []
encode enrolled_num = 0x40 ∷ 0xff ∷ 0x04 ∷ []
encode (finger_info id) = 0x40 ∷ 0xff ∷ 0x12 ∷ id ∷ []
encode verify = 0x40 ∷ 0xff ∷ 0x03 ∷ []
encode abort = 0x40 ∷ 0xff ∷ 0x02 ∷ []
encode (enroll finger_id total_attempts attempts_done) =
    0x40 ∷ 0xff ∷ 0x01 ∷ finger_id ∷ total_attempts ∷ attempts_done ∷ 0x00 ∷ []
encode check_collision = 0x40 ∷ 0xff ∷ 0x10 ∷ []
encode (commit sub user) = (0x40 ∷ 0xff ∷ 0x11 ∷ []) ++ sub ∷ user
encode (delete id) = 0x40 ∷ 0xff ∷ 0x05 ∷ id ∷ 0x00 ∷ []
encode (delete_subsid sub tail) = (0x40 ∷ 0xff ∷ 0x13 ∷ []) ++ sub ∷ tail
encode wipe_all = 0x40 ∷ 0xff ∷ 0x99 ∷ []
encode reset_device = 0x40 ∷ 0x27 ∷ 0x57 ∷ 0x44 ∷ 0x54 ∷ 0x52 ∷ 0x53 ∷ 0x54 ∷ []
encode (capture_start width height) = 0x00 ∷ 0x09 ∷ []
encode (read_register reg) = 0x40 ∷ (0x40 + bit_and reg 0x3f) ∷ []

unfoldable pub expected_len : Command → ℕ
expected_len fw_version = 2
expected_len enrolled_num = 2
expected_len verify = 2
expected_len abort = 0
expected_len wipe_all = 0
expected_len reset_device = 0
expected_len sensor_size = 4
expected_len (read_register reg) = 2
expected_len (finger_info id) = 70
expected_len (enroll finger_id total done) = 2
expected_len (commit sub user) = 2
expected_len (delete id) = 2
expected_len (delete_subsid sub tail) = 2
expected_len check_collision = 3
expected_len (capture_start width height) = 2 * width * height

unfoldable pub reply_endpoint : Command → ReplyEndpoint
reply_endpoint verify = touch_wait
reply_endpoint (enroll finger_id total done) = touch_wait
reply_endpoint (capture_start width height) = image
reply_endpoint _ = status

abbrev from_secs : ℕ → ℕ
from_secs n = n * 1000

unfoldable pub timeout : Command → ℕ
timeout fw_version = from_secs 1
timeout sensor_size = from_secs 1
timeout enrolled_num = from_secs 1
timeout abort = from_secs 1
timeout (finger_info id) = from_secs 2
timeout (read_register reg) = from_secs 2
timeout verify = from_secs 30
timeout (enroll finger_id total done) = from_secs 30
timeout check_collision = from_secs 5
timeout (commit sub user) = from_secs 5
timeout (delete id) = from_secs 5
timeout (delete_subsid sub tail) = from_secs 5
timeout wipe_all = from_secs 10
timeout reset_device = from_secs 1
timeout (capture_start width height) = from_secs 5

unfoldable pub name : Command → String
name fw_version = "fw_ver"
name sensor_size = "sensor_size"
name enrolled_num = "enrolled_num"
name (finger_info id) = "finger_info"
name verify = "verify"
name abort = "abort"
name (enroll finger_id total done) = "enroll"
name check_collision = "check_enrolled_collision"
name (commit sub user) = "commit"
name (delete id) = "delete"
name (delete_subsid sub tail) = "delete_subsid"
name wipe_all = "wipe_all"
name reset_device = "reset_device"
name (capture_start width height) = "capture_start"
name (read_register reg) = "read_register"

unfoldable pub is_destructive : Command → Bool
is_destructive (enroll finger_id total done) = true
is_destructive (commit sub user) = true
is_destructive (delete id) = true
is_destructive (delete_subsid sub tail) = true
is_destructive wipe_all = true
is_destructive _ = false
