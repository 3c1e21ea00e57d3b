-- ===== src/Login/KeyringTab.antt =====
-- crates/elanprint-login/src/keyring_tab.rs, and the handlers of its buttons in src/app.rs: the steps in
-- which the window sets the keyring up. Texts are lists of code points.
pub mod Clicks
pub mod Runs
pub mod Consent
use elanprint_rs.Prelude.{
  ℕ, Bool, true, false, not, String, List, [], ◌∷◌, ◌++◌, Option, none, some, Result, ok, err, ◌&&◌,
  ◌||◌, if◌then◌else◌,
}
use elanprint_rs.Prelude.Text.{codes, same, trim}
use elanprint_rs.Keyring.Preflight.{
  Cred, present, absent, unreadable, Report, Site, NotReady, report, require_ready,
}

abbrev pub Text : Type 0
Text = List ℕ

pub data Stage : Type 0 where
  idle confirm : Stage
  working : String → Stage
  -- secret, typed
  saved : Text → Text → Stage
  -- secret, password
  rekey : Text → Text → Stage
  show_key : Text → Stage
  confirm_rotate : Stage
  rotated : Text → Stage
  done : Stage
  failed : Text → Stage

pub data Job : Type 0 where
  provisioned revealed rotated : Text → Job
  wired disabled forgot : Job

-- A receiver: nothing has come, a message, or the sender is gone.
pub data Inbox (A : Type 0) : Type 0 where
  empty : Inbox A
  message : A → Inbox A
  disconnected : Inbox A

-- The work that a thread is spawned for; `rotate_key` changes the keyring's password too.
pub data Work : Type 0 where
  provision : Bool → Work
  reveal rotate_key wire_password disable forget_file : Work
  -- secret, password
  change_password : Text → Text → Work

-- `spawned` is the work of every thread so far, the newest in front.
pub record KeyringTab : Type 0 where
  pub stage : Stage
  pub report : Report
  pub fingerprint_only : Bool
  pub recovery_file : Bool
  pub job : Option (Inbox (Result Job Text))
  pub rekey_reply : Option (Inbox (Result (Unit {0}) Text))
  pub spawned : List Work

-- What a look at the machine finds: the report, and whether the recovery file is there.
pub record Look : Type 0 where
  pub site : Site
  pub recovery : Bool

-- `KeyringTab::new`.
unfoldable pub new_tab : Look → KeyringTab
new_tab look = record {
  stage = idle;
  report = report look.site;
  fingerprint_only = false;
  recovery_file = look.recovery;
  job = none;
  rekey_reply = none;
  spawned = [];
}

unfoldable pub refresh : Look → KeyringTab → KeyringTab
refresh look t = record t { report = report look.site; recovery_file = look.recovery }

unfoldable pub is_some {ℓ} : {A : Type ℓ} → Option A → Bool
is_some none = false
is_some (some a) = true

unfoldable pub busy : KeyringTab → Bool
unfolding is_some
busy t = is_some t.job || is_some t.rekey_reply

stage_of : Job → Stage
stage_of (provisioned secret) = saved secret []
stage_of (revealed secret) = show_key secret
stage_of (Job.rotated secret) = Stage.rotated secret
stage_of wired = idle
stage_of disabled = idle
stage_of forgot = idle

poll_job : Look → Option (Inbox (Result Job Text)) → KeyringTab → KeyringTab
unfolding refresh stage_of
poll_job look (some (message (ok job))) t = record (refresh look t) {
  job = none;
  stage = stage_of job;
}
poll_job look (some (message (err e))) t = record (refresh look t) { job = none; stage = failed e }
poll_job look (some disconnected) t = record t {
  job = none;
  stage = failed (codes "the setup helper stopped");
}
poll_job look _ t = t

poll_rekey : Look → Option (Inbox (Result (Unit {0}) Text)) → KeyringTab → KeyringTab
unfolding refresh
poll_rekey look (some (message (ok u))) t = record (refresh look t) {
  rekey_reply = none;
  stage = done;
}
poll_rekey look (some (message (err e))) t = record t { rekey_reply = none; stage = failed e }
poll_rekey look (some disconnected) t = record t {
  rekey_reply = none;
  stage = failed (codes "the re-key stopped");
}
poll_rekey look _ t = t

-- `poll`.
unfoldable pub poll : Look → KeyringTab → KeyringTab
unfolding poll_job poll_rekey
poll look t = let s = poll_job look t.job t in poll_rekey look s.rekey_reply s

unfoldable pub spawn : String → Work → KeyringTab → KeyringTab
spawn label work t = record t {
  job = some empty;
  stage = working label;
  spawned = work ∷ t.spawned;
}

unfoldable pub start_provision : KeyringTab → KeyringTab
unfolding spawn
start_provision t = spawn "Approve the request to continue." (provision t.fingerprint_only) t

unfoldable pub start_reveal : KeyringTab → KeyringTab
unfolding spawn
start_reveal = spawn "Approve the request to read the key." reveal

-- What the thread of `start_rotate` answers, by what `rotate_seal` gives (the old secret and the new one),
-- what the change of the keyring's password from the one to the other gives, and whether the rollback
-- that follows a refusal succeeds.
unfoldable pub rotate_answer :
    Result (Text × Text) Text → Result (Unit {0}) Text → Bool → Result Job Text
rotate_answer (err e) changed restored = err e
rotate_answer (ok (old, new)) (ok u) restored = ok (rotated new)
rotate_answer (ok (old, new)) (err e) true =
    err (codes "the keyring refused the new key, the old one is back: " ++ e)
rotate_answer (ok (old, new)) (err e) false =
    err (codes "the keyring refused the new key and the old one could not be restored: " ++ e)

unfoldable pub start_rotate : KeyringTab → KeyringTab
unfolding spawn
start_rotate = spawn "Replacing the key." rotate_key

unfoldable pub start_wire_password : KeyringTab → KeyringTab
unfolding spawn
start_wire_password = spawn "Approve the request to change PAM." wire_password

unfoldable pub start_disable : KeyringTab → KeyringTab
unfolding spawn
start_disable = spawn "Approve the request to change PAM." disable

unfoldable pub start_forget_file : KeyringTab → KeyringTab
unfolding spawn
start_forget_file = spawn "Approve the request to delete the file." forget_file

unfoldable pub start_rekey : Text → Text → KeyringTab → KeyringTab
start_rekey secret password t = record t {
  rekey_reply = some empty;
  stage = working "One moment.";
  spawned = change_password secret password ∷ t.spawned;
}

is_absent : Cred → Bool
is_absent absent = true
is_absent _ = false

unfoldable pub looks_enabled : KeyringTab → Bool
unfolding is_absent
looks_enabled t = t.report.fingerprint_wired && not (is_absent t.report.cred)
