-- ===== src/Proto/Response/Parse.antt =====
-- Which replies the parser takes, and what it makes of them.
use elanprint_rs.Prelude.{
  ℕ, ◌≡◌, ◌⊎◌, ◌↔◌, ◌≢◌, Bool, true, false, List, Result, ok, err, arith, ◌==◌, ◌||◌, length,
}
use elanprint_rs.Proto.Status.{unexpected_length, ProtoError}
use elanprint_rs.Proto.Command.{Command, expected_len, name}
use elanprint_rs.Proto.Response.{Response, enrolled, byte, parse}

-- The lengths that a reply to `c` may have: the expected one, and the two documented other forms,
-- the 2 byte answer to `abort` and to `finger_info`. A capture may have any.
abbrev pub admits : Command → ℕ → Bool
unfolding expected_len
admits (Command.capture_start width height) n = true
admits Command.abort n = n == 0 || n == 2
admits (Command.finger_info id) n = n == 2 || n == 70
admits c n = n == expected_len c

-- The replies of a command's own kind.
abbrev pub answers : Command → Response → Bool
answers Command.fw_version (Response.fw_version a b) = true
answers Command.sensor_size (Response.sensor_size a b) = true
answers Command.enrolled_num (Response.enrolled_num n) = true
answers Command.verify (Response.verify b s) = true
answers Command.abort (Response.abort s) = true
answers (Command.finger_info id) (Response.finger_info j s) = id == j
answers (Command.enroll i t d) (Response.enroll b s) = true
answers Command.check_collision (Response.check_collision b c) = true
answers (Command.commit i u) (Response.commit b s) = true
answers (Command.delete i) (Response.delete b s) = true
answers (Command.delete_subsid i t) (Response.delete_subsid b s) = true
answers Command.wipe_all Response.wipe_all = true
answers Command.reset_device Response.reset_device = true
answers (Command.capture_start w h) (Response.capture_start raw) = true
answers (Command.read_register r) (Response.read_register v s) = true
answers _ _ = false

abbrev pub answered : Command → Result Response ProtoError → Bool
answered c (ok r) = answers c r
answered c (err e) = false

-- For every command and every reply the parser either finds an admitted length and gives a
-- response of that command's own kind, or finds another length and reports it, with the command's
-- name and the length that was expected. It fails in no other way.
pub parse-answered :
    (c : Command) (raw : List ℕ)
    → ((admits c (length raw) ≡ true) × (answered c (parse c raw) ≡ true))
      ⊎ ((admits c (length raw) ≡ false)
          × (parse c raw ≡ err (unexpected_length (name c) (expected_len c) (length raw))))
unfolding parse expected_len
parse-answered Command.fw_version raw = ground arith
parse-answered _ raw = ground arith

-- A slot reads as enrolled just when the reply has all 70 bytes and neither byte 1 nor byte 69 is
-- 0xff, and then the whole reply is kept. So the 2 byte form never proves a template.
parse-enrolled :
    (id : ℕ) (raw kept : List ℕ)
    → (parse (Command.finger_info id) raw ≡ ok (Response.finger_info id (enrolled kept)))
      ↔ ((kept ≡ raw) × (length raw ≡ 70) × (byte raw 1 ≢ 0xff) × (byte raw 69 ≢ 0xff))
unfolding parse
parse-enrolled id raw kept = (λ h. ground arith, λ h. ground arith)
