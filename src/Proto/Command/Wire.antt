-- ===== src/Proto/Command/Wire.antt =====
-- crates/elanprint-proto/src/lib.rs: `Command::encode` against a decoder written from the table of
-- the protocol.
use elanprint_rs.Prelude.{
  ℕ, ◌-◌, ◌≡◌, refl, ap, bit_and, Bool, false, List, [], ◌∷◌, Option, none, some, arith, ◌==◌, ◌&&◌,
  ◌||◌, if◌then◌else◌,
}
use elanprint_rs.Proto.Command.{
  Command, fw_version, sensor_size, enrolled_num, finger_info, verify, abort, enroll,
  check_collision, commit, delete, delete_subsid, wipe_all, reset_device, capture_start,
  read_register, encode,
}

-- The commands of one fixed byte behind 0x40 0xff.
bare : ℕ → Option Command
bare g =
    if g == 0x04
    then some enrolled_num
    else if g == 0x03
    then some verify
    else if g == 0x02
    then some abort
    else if g == 0x10
    then some check_collision
    else if g == 0x99
    then some wipe_all
    else none

-- Those with arguments.
with_arguments : ℕ → List ℕ → Option Command
with_arguments g (a ∷ rest) =
    if g == 0x11
    then some (commit a rest)
    else if g == 0x13
    then some (delete_subsid a rest)
    else short a rest
  where
    short : ℕ → List ℕ → Option Command
    short a [] = if g == 0x12 then some (finger_info a) else none
    short a (b ∷ []) = if g == 0x05 then some (delete a) else none
    short a (b ∷ c ∷ r) = if g == 0x01 then some (enroll a b c) else none
with_arguments g [] = bare g

-- A decoder of the protocol's table.
pub decode : List ℕ → Option Command
unfolding with_arguments bare
decode (x ∷ y ∷ []) =
    if x == 0x00
    then (if y == 0x0c then some sensor_size else some (capture_start 0 0))
    else if y == 0x19
    then some fw_version
    else some (read_register (y - 0x40))
decode (x ∷ y ∷ g ∷ rest) = if y == 0xff then with_arguments g rest else some reset_device
decode _ = none

-- What the wire does not carry: the size of a capture, and all but the low six bits of a register.
abbrev pub on_wire : Command → Command
on_wire (capture_start width height) = capture_start 0 0
on_wire (read_register reg) = read_register (bit_and reg 0x3f)
on_wire c = c

pub decode-encode : (c : Command) → decode (encode c) ≡ some (on_wire c)
unfolding decode encode
decode-encode (read_register reg) = ground arith
decode-encode _ = refl

-- No two commands of different meaning share their bytes: equal encodings come from equal
-- commands, up to what the wire does not carry (the size of a capture, and all but the low six
-- bits of a register number).
pub encode-injective : (c d : Command) → encode c ≡ encode d → on_wire c ≡ on_wire d
encode-injective c d e = cc (decode-encode c, decode-encode d, ap decode e)

-- The frames that erase a template: 40 ff 05, 40 ff 13 and 40 ff 99.
abbrev pub erases_group : List ℕ → Bool
erases_group (x ∷ y ∷ g ∷ rest) = y == 0xff && (g == 0x05 || g == 0x13 || g == 0x99)
erases_group _ = false
