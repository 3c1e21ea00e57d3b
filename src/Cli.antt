-- ===== src/Cli.antt =====
-- crates/elanprint-cli/src/main.rs: the command line tool. Its prints are left out. What the sensor
-- answers to the n-th call, what the user types and what the files hold are parameters.
pub mod Triple
pub mod Session
pub mod Reads
pub mod Enroll
pub mod Sync
use elanprint_rs.Prelude.{
  ℕ, zero, suc, ◌+◌, String, Bool, true, false, not, List, [], ◌∷◌, Option, none, some, Result, ok,
  err, ◌==◌, leb, if◌then◌else◌,
}
use elanprint_rs.Prelude.Text.{codes, same, trim}
use elanprint_rs.Proto.Status.{Status, ProtoError}
use elanprint_rs.Proto.Command.{
  Command, enrolled_num, abort, wipe_all, finger_info, verify, encode, name,
}
use elanprint_rs.Proto.Response.{Response, SlotState, parse}
use elanprint_rs.Proto.Enroll.{EnrollError}
use elanprint_rs.Usb.{UsbError, short_read}
use elanprint_rs.Store.{IoError, StoreError}
use elanprint_rs.Store.File.{Json, Files, Fault}

-- The errors, without their texts.
pub data CliError : Type 0 where
  open_failed read_failed : UsbError → CliError
  -- The name of the command.
  usb : String → UsbError → CliError
  send_failed : UsbError → CliError
  proto : ProtoError → CliError
  store : StoreError → CliError
  unknown_finger : String → CliError
  unexpected_reply : CliError
  slot_holds_record already_enrolled : ℕ → CliError
  pre_check : Status → CliError
  no_first_send no_pending_read owes_send : CliError
  enroll_failed : EnrollError → CliError
  cancelled_in_hold no_terminal no_line not_confirmed : CliError
  still_holds scan_failed : ℕ → CliError

-- What one look of `wait_for_go` meets: the file is there, the token, or the end of the pause.
pub data Hold : Type 0 where
  go cancelled pause : Hold

-- `answers` is what `cmd`, `recv` and `recv_first` give as the n-th call, `writes` what `send` gives.
pub record Desk : Type 0 where
  pub opens : Result (Unit {0}) UsbError
  pub answers : ℕ → Result (List ℕ) UsbError
  pub writes : ℕ → Result (Unit {0}) UsbError
  pub is_terminal : Bool
  pub typed : Option (List ℕ)
  pub holds : ℕ → Hold
  pub json : Json
  pub reads : Option IoError
  pub saves : Option Fault

-- Bytes that were sent, and what came in answer.
pub record Exchange : Type 0 where
  pub out : List ℕ
  pub reply : Result (List ℕ) UsbError

-- The exchanges, the newest in front, the number of calls made, and the files of the store.
pub record Tool : Type 0 where
  pub log : List Exchange
  pub clock : ℕ
  pub files : Files

pub data Outcome (A : Type 0) : Type 0 where
  done : A → Outcome A
  failed : CliError → Outcome A
  waiting : Outcome A

abbrev pub Job : Type 0 → Type 0
Job A = Tool → Outcome A × Tool

module _ {A B : Type 0} where
  abbrev pub proceed : Outcome A → (A → Job B) → Job B
  proceed (done a) f t = f a t
  proceed (failed e) f t = (failed e, t)
  proceed waiting f t = (waiting, t)

  infixl 10 ◌>>=◌ ◌>>◌
  unfoldable pub ◌>>=◌ : Job A → (A → Job B) → Job B
  ◌>>=◌ x f t = proceed (x t).0 f (x t).1

  abbrev pub ◌>>◌ : Job A → Job B → Job B
  x >> y = x >>= λ _. y

module _ {A : Type 0} where
  unfoldable pub return : A → Job A
  return a t = (done a, t)

  unfoldable pub bail : CliError → Job A
  bail e t = (failed e, t)

  unfoldable pub lift : Result A CliError → Job A
  lift (ok a) t = (done a, t)
  lift (err e) t = (failed e, t)

-- A short read is left to the parser.
unfoldable pub kept : Command → Result (List ℕ) UsbError → Result (List ℕ) CliError
kept c (ok bytes) = ok bytes
kept c (err (short_read wanted got bytes)) = ok bytes
kept c (err e) = err (usb (name c) e)

unfoldable pub parsed : Command → List ℕ → Result Response CliError
parsed c raw = elim (parse c raw) [ ok r ↦ ok r | err e ↦ err (proto e) ]

count_of : Response → Job ℕ
count_of (Response.enrolled_num count) = return count
count_of _ = bail unexpected_reply

module _ (desk : Desk) where
  -- One call of the sensor.
  unfoldable pub exchange : List ℕ → Job (Result (List ℕ) UsbError)
  exchange out t = (
    done (desk.answers t.clock),
    record t {
      log = record { out = out; reply = desk.answers t.clock } ∷ t.log;
      clock = t.clock + 1;
    },
  )

  -- `send` and `send_waiting`, which differ in the time that they wait.
  unfoldable pub send : Command → Job (List ℕ × Response)
  unfolding parsed
  send c = do
    r ← exchange (encode c)
    raw ← lift (kept c r)
    response ← lift (parsed c raw)
    return (raw, response)

  -- `send(device, Cmd::EnrolledNum, cancel)` and the `match` on its count.
  unfoldable pub enrolled_count : Job ℕ
  unfolding count_of
  enrolled_count = do r ← send enrolled_num; count_of r.1

  aborted : Outcome (Unit {0}) × Tool → Outcome (Unit {0}) × Tool
  aborted (failed e, t) = (failed e, (send abort t).1)
  aborted r = r

  -- `session`.
  unfoldable pub session : Job (Unit {0}) → Job (Unit {0})
  unfolding aborted
  session job t = elim desk.opens [ err e ↦ (failed (open_failed e), t) | ok u ↦ aborted (job t) ]

  confirmed : Option (List ℕ) → Job (Unit {0})
  confirmed none = bail no_line
  confirmed (some line) = if same (trim line) (codes "ERASE") then return tt else bail not_confirmed

  -- From the confirmation on.
  erase : Job (Unit {0})
  unfolding confirmed
  erase = do
    confirmed desk.typed
    send wipe_all
    after ← enrolled_count
    if after == 0 then return tt else bail (still_holds after)

  -- `wipe_device`.
  unfoldable pub wipe_device : Job (Unit {0})
  unfolding erase
  wipe_device =
      if not desk.is_terminal
      then bail no_terminal
      else do before ← enrolled_count; if before == 0 then return tt else erase

  unfoldable pub primed : Bool → Job (Unit {0})
  primed false = return tt
  primed true = do send enrolled_num; return tt

  -- `finger_info`.
  unfoldable pub finger_info_of : ℕ → Bool → Job (Unit {0})
  unfolding primed
  finger_info_of id prime = do primed prime; send (finger_info id); return tt

  -- The loop of `slots`, by the ids that are left; a reply of another kind is printed.
  slots_from : ℕ → ℕ → Job (Unit {0})
  slots_from zero id = return tt
  slots_from (suc left) id = do send (finger_info id); slots_from left (id + 1)

  -- `slots`.
  unfoldable pub slots : ℕ → Bool → Job (Unit {0})
  unfolding slots_from primed
  slots upto prime = do primed prime; slots_from (upto + 1) 0
