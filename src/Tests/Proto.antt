-- ===== src/Tests/Proto.antt =====
-- crates/elanprint-proto on concrete bytes.
use elanprint_rs.Prelude.{
  ℕ, ◌≡◌, refl, ◌≤◌, ◌⊎◌, true, false, List, [], ◌∷◌, ◌++◌, some, err, arith, length,
}
use elanprint_rs.Proto.Status.{unexpected_length, classify, is_retry}
use elanprint_rs.Proto.Command.{Command, enroll_stages, encode, expected_len, name, commit_blank}
use elanprint_rs.Proto.Command.SubId.{enroll_stages_bounds}
use elanprint_rs.Proto.Command.Wire.{on_wire, encode-injective}
use elanprint_rs.Proto.Response.{parse}
use elanprint_rs.Proto.Response.Parse.{admits, answered, parse-answered}
use elanprint_rs.Proto.Enroll.{Enroll, done, with_total, start, step, take_send}
use elanprint_rs.Proto.Enroll.Invariant.{Inv, Follows, start-Inv, step-Inv, step-Follows}
use elanprint_rs.Proto.Enroll.Runs.{run, touches, done_needs_samples, enroll_completes}

-- "40" asks for more stages than there are.
enroll_stages_bounds_example :
    (1 ≤ enroll_stages (some (b'4' ∷ b'0' ∷ []))) × (enroll_stages (some (b'4' ∷ b'0' ∷ [])) ≤ 32)
enroll_stages_bounds_example = enroll_stages_bounds (some (b'4' ∷ b'0' ∷ []))

-- Two captures of different sizes have the same bytes.
encode-injective_example :
    on_wire (Command.capture_start 80 80) ≡ on_wire (Command.capture_start 64 48)
unfolding encode
encode-injective_example =
    encode-injective (Command.capture_start 80 80) (Command.capture_start 64 48) refl

abbrev version_reply : List ℕ
version_reply = 1 ∷ 4 ∷ []

parse-answered_example :
    ((admits Command.fw_version (length version_reply) ≡ true)
      × (answered Command.fw_version (parse Command.fw_version version_reply) ≡ true))
    ⊎ ((admits Command.fw_version (length version_reply) ≡ false)
        × (parse Command.fw_version version_reply
            ≡ err (
                unexpected_length
                  (name Command.fw_version)
                  (expected_len Command.fw_version)
                  (length version_reply))))
parse-answered_example = parse-answered Command.fw_version version_reply

-- Two stages on slot 3: an accepted touch, and one that asks for another.
abbrev first : Enroll
first = (start (with_total 3 2)).0

abbrev good : List ℕ
good = 0x40 ∷ 0 ∷ []

abbrev low : List ℕ
low = 0x40 ∷ 0x41 ∷ []

abbrev no_collision : List ℕ
no_collision = 0x40 ∷ 0 ∷ 0 ∷ []

step-Inv_example : Inv (step first good).0
step-Inv_example = step-Inv first good (start-Inv 3 2 (omega arith) (omega arith))

step-Follows_example : Follows (step first low).0 (step first low).1
step-Follows_example = step-Follows first low

abbrev replies : List (List ℕ)
replies = good ∷ low ∷ good ∷ no_collision ∷ good ∷ []

done_needs_samples_example : ◌≡◌ {A = ℕ} 3 3 × (2 ≤ touches (start (with_total 3 2)).0 replies)
unfolding run step start with_total parse classify is_retry take_send commit_blank
done_needs_samples_example = done_needs_samples 3 2 3 replies (omega arith) (omega arith) refl

enroll_completes_example :
    (run (start (with_total 3 2)).0 ((good ∷ low ∷ []) ++ good ∷ no_collision ∷ good ∷ [])).state
    ≡ done 3
unfolding classify is_retry
enroll_completes_example =
    enroll_completes 3 2 (good ∷ low ∷ []) good no_collision good (omega arith) (omega arith)
      (refl, (refl, tt)) refl refl refl refl refl
