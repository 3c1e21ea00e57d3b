-- ===== src/Proto/Response.antt =====
-- crates/elanprint-proto/src/lib.rs: the replies and their parser.
pub mod Parse
use elanprint_rs.Prelude.{
  ℕ, ◌+◌, Bool, not, List, [], ◌∷◌, Option, none, some, Result, ok, err, ◌==◌, if◌then◌else◌,
  length, get_or, map_ok,
}
use elanprint_rs.Proto.Status.{Status, classify, ProtoError, unexpected_length}
use elanprint_rs.Proto.Command.{Command, name}

pub data SlotState : Type 0 where
  empty stuck : SlotState
  enrolled : List ℕ → SlotState
  error : ℕ → SlotState

pub data Response : Type 0 where
  fw_version : ℕ → ℕ → Response
  sensor_size : ℕ → ℕ → Response
  enrolled_num : ℕ → Response
  verify : ℕ → Status → Response
  abort : Option Status → Response
  finger_info : ℕ → SlotState → Response
  enroll : ℕ → Status → Response
  check_collision : ℕ → Option ℕ → Response
  commit : ℕ → Status → Response
  delete : ℕ → Status → Response
  delete_subsid : ℕ → Status → Response
  wipe_all reset_device : Response
  capture_start : List ℕ → Response
  read_register : ℕ → Status → Response

-- `raw[i]`. Each use below stands behind a test of the length, so the default is never read.
abbrev pub byte : List ℕ → ℕ → ℕ
byte raw i = get_or raw i 0

-- `Err(UnexpectedLength { .. })` at this reply.
abbrev wrong_length {ℓ} : {A : Type ℓ} → Command → ℕ → List ℕ → Result A ProtoError
wrong_length cmd wanted raw = err (unexpected_length (name cmd) wanted (length raw))

abbrev exact : Command → List ℕ → ℕ → Result (List ℕ) ProtoError
exact cmd raw want = if length raw == want then ok raw else wrong_length cmd want raw

unfoldable pub parse_slot : Command → List ℕ → Result SlotState ProtoError
parse_slot cmd raw =
    if length raw == 2
    then ok (error (byte raw 1))
    else if length raw == 70
    then (if byte raw 1 == 0xff
        then ok stuck
        else if byte raw 69 == 0xff
        then ok empty
        else ok (enrolled raw))
    else wrong_length cmd 70 raw

-- `Response::parse`.
unfoldable pub parse : Command → List ℕ → Result Response ProtoError
unfolding parse_slot
parse Command.fw_version raw =
    map_ok (λ b. fw_version (byte b 0) (byte b 1)) (exact Command.fw_version raw 2)
parse Command.sensor_size raw =
    map_ok (λ b. sensor_size (byte b 0 + 1) (byte b 2 + 1)) (exact Command.sensor_size raw 4)
parse Command.enrolled_num raw =
    map_ok (λ b. enrolled_num (byte b 1)) (exact Command.enrolled_num raw 2)
parse Command.verify raw =
    map_ok (λ b. verify (byte b 0) (classify (byte b 1))) (exact Command.verify raw 2)
parse Command.abort raw =
    if length raw == 0
    then ok (abort none)
    else if length raw == 2
    then ok (abort (some (classify (byte raw 1))))
    else wrong_length Command.abort 0 raw
parse (Command.finger_info id) raw =
    map_ok (finger_info id) (parse_slot (Command.finger_info id) raw)
parse (Command.enroll finger_id total done) raw =
    map_ok (λ b. enroll (byte b 0) (classify (byte b 1)))
      (exact (Command.enroll finger_id total done) raw 2)
parse Command.check_collision raw =
    map_ok (λ b. check_collision (byte b 0) (if not (byte b 1 == 0) then some (byte b 2) else none))
      (exact Command.check_collision raw 3)
parse (Command.commit sub user) raw =
    map_ok (λ b. commit (byte b 0) (classify (byte b 1))) (exact (Command.commit sub user) raw 2)
parse (Command.delete id) raw =
    map_ok (λ b. delete (byte b 0) (classify (byte b 1))) (exact (Command.delete id) raw 2)
parse (Command.delete_subsid sub tail) raw =
    map_ok (λ b. delete_subsid (byte b 0) (classify (byte b 1)))
      (exact (Command.delete_subsid sub tail) raw 2)
parse Command.wipe_all raw = map_ok (λ b. wipe_all) (exact Command.wipe_all raw 0)
parse Command.reset_device raw = map_ok (λ b. reset_device) (exact Command.reset_device raw 0)
parse (Command.capture_start width height) raw = ok (capture_start raw)
parse (Command.read_register reg) raw =
    map_ok (λ b. read_register (byte b 0) (classify (byte b 1)))
      (exact (Command.read_register reg) raw 2)
