-- ===== src/Cli/Reads.antt =====
-- The commands of crates/elanprint-cli/src/main.rs that read: fw_ver, info, verify, abort_alone and the
-- plan of an enrollment, whose bytes are listed in order and sent nowhere.
use elanprint_rs.Prelude.{
  ℕ, zero, suc, ◌+◌, Bool, List, [], ◌∷◌, ◌++◌, Result, ok, err, if◌then◌else◌,
}
use elanprint_rs.Proto.Command.{
  Command, fw_version, sensor_size, enrolled_num, verify, abort, check_collision, commit_blank,
  sub_id, total_enroll_attempts, encode,
}
use elanprint_rs.Usb.{UsbError}
use elanprint_rs.Cli.{
  send_failed, read_failed, Desk, done, failed, Job, ◌>>=◌, ◌>>◌, return, bail, lift, parsed,
  exchange, send, primed,
}

module _ (desk : Desk) where
  unfoldable pub fw_ver : Job (Unit {0})
  fw_ver = do send desk fw_version; return tt

  unfoldable pub info : Job (Unit {0})
  info = do fw_ver; send desk sensor_size; send desk enrolled_num; return tt

  unfoldable pub posted : Result (Unit {0}) UsbError → List ℕ → Job (Result (List ℕ) UsbError)
  posted (err e) out t = (failed (send_failed e), t)
  posted (ok u) out t = exchange desk out t

  -- `device.send`, logged with the answer of the read that follows it.
  unfoldable pub post : List ℕ → Job (Result (List ℕ) UsbError)
  unfolding posted
  post out t = posted (desk.writes t.clock) out t

  first_of_two : Result (List ℕ) UsbError → Job (List ℕ)
  first_of_two (err e) = bail (read_failed e)
  first_of_two (ok bytes) = return bytes

  -- The branch of `one_verify` that reads on both endpoints.
  dual_verify : Job (Unit {0})
  unfolding first_of_two
  dual_verify = do
    r ← post (encode verify)
    bytes ← first_of_two r
    lift (parsed verify bytes)
    return tt

  single_verify : Job (Unit {0})
  single_verify = do send desk verify; return tt

  -- `one_verify`; what the answer says is printed.
  unfoldable pub one_verify : Bool → Job (Unit {0})
  unfolding dual_verify single_verify
  one_verify dual = if dual then dual_verify else single_verify

  rounds : ℕ → Bool → Job (Unit {0})
  rounds zero dual = return tt
  rounds (suc left) dual = do one_verify dual; rounds left dual

  -- `verify`.
  unfoldable pub verify_rounds : Bool → Bool → ℕ → Job (Unit {0})
  unfolding rounds
  verify_rounds dual prime repeat = do primed desk prime; rounds repeat dual

  -- `abort_alone`, which succeeds whatever comes.
  unfoldable pub abort_alone : Job (Unit {0})
  abort_alone t = (done tt, (send desk abort t).1)

-- The samples of `enroll_plan`, by those that are left.
planned_samples : ℕ → ℕ → ℕ → List (List ℕ)
planned_samples zero slot n = []
planned_samples (suc left) slot n =
    encode (Command.enroll slot total_enroll_attempts n) ∷ planned_samples left slot (n + 1)

-- `enroll_plan`.
unfoldable pub enroll_plan : ℕ → List (List ℕ)
unfolding planned_samples
enroll_plan slot =
    encode enrolled_num
    ∷ encode verify
    ∷ (planned_samples total_enroll_attempts slot 0
        ++ encode check_collision ∷ encode (commit_blank (sub_id slot)) ∷ [])
