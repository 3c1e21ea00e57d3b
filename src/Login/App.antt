-- ===== src/Login/App.antt =====
-- crates/elanprint-login/src/app.rs: the state of the window and its operations. Drawing, colours and
-- animations are left out. A receiver is the list of what has come and is unread.
pub mod Mark
pub mod Polling
pub mod Controls
pub mod Shown
pub mod Modes
use Prim.Native.String.{◌++◌ as concat}
use elanprint_rs.Prelude.{
  ℕ, ◌+◌, ltb, leb, str_eq, Bool, true, false, not, String, List, [], ◌∷◌, Option, none, some,
  Result, ok, err, ◌&&◌, ◌||◌, if◌then◌else◌, retain,
}
use elanprint_rs.Login.Copy.{touch, touch_first, pick_enroll, touch_again}
use elanprint_rs.Login.Client.{
  EnrollEvent, stage, completed, AuthEvent, ClientError, friendly, Outcome, failed_with, Wire,
}
use elanprint_rs.Login.KeyringTab.{
  KeyringTab, Look, Stage, Text, is_some, busy, looks_enabled, new_tab,
}

pub data Screen : Type 0 where
  disconnected ready waiting granted denied locked failed : Screen

pub data Mode : Type 0 where
  verify enroll keyring : Mode

pub data Tone : Type 0 where
  dim neutral retry good bad : Tone

pub data EnrollTone : Type 0 where
  idle hint done error : EnrollTone

-- The fingers listed and the number of stages, none where it is not above 0.
pub record Connected : Type 0 where
  pub fingers : List String
  pub stages : Option ℕ

-- The work that a task or a thread is spawned for, a run with the number of its token.
pub data Task : Type 0 where
  connects lists : Task
  verifies enrolls : String → ℕ → Task
  deletes : String → Task

-- `client` says whether the client is there. `tokens` counts the tokens made, `cancelled` holds those
-- cancelled, `spawned` the work spawned, both newest in front.
pub record LoginApp : Type 0 where
  pub finger : String
  pub fingers : List String
  pub status : String
  pub screen : Screen
  pub pending : Option (Option (Result Connected String))
  pub events : Option (List AuthEvent)
  pub cancel : Option ℕ
  pub client : Bool
  pub mode : Mode
  pub enroll_finger : String
  pub enroll_events : Option (List EnrollEvent)
  pub enroll_cancel : Option ℕ
  pub enroll_status : String
  pub enroll_tone : EnrollTone
  pub enroll_done : ℕ
  pub enroll_total : ℕ
  pub delete_armed : Option String
  pub delete_pending : Bool
  pub list_pending : Option (Option (Result (List String) String))
  pub keyring : KeyringTab
  pub tokens : ℕ
  pub cancelled : List ℕ
  pub spawned : List Task

-- `LoginApp::new`.
unfoldable pub new_app : Look → LoginApp
new_app look = record {
  finger = "any";
  fingers = "any" ∷ [];
  status = "connect to the reader first";
  screen = Screen.disconnected;
  pending = none;
  events = none;
  cancel = none;
  client = false;
  mode = Mode.enroll;
  enroll_finger = "right-index-finger";
  enroll_events = none;
  enroll_cancel = none;
  enroll_status = "";
  enroll_tone = idle;
  enroll_done = 0;
  enroll_total = 0;
  delete_armed = none;
  delete_pending = false;
  list_pending = none;
  keyring = new_tab look;
  tokens = 0;
  cancelled = [];
  spawned = [];
}

-- `connect`.
unfoldable pub connect : LoginApp → LoginApp
connect a = if is_some a.pending then a else record a {
  pending = some none;
  status = "connecting on the system bus";
  spawned = connects ∷ a.spawned;
}

-- `start_login`.
unfoldable pub start_login : LoginApp → LoginApp
start_login a =
    if is_some a.events
    then a
    else if not a.client
    then record a { status = "connect first" }
    else record a {
      events = some [];
      cancel = some a.tokens;
      screen = waiting;
      status = touch;
      tokens = a.tokens + 1;
      spawned = verifies a.finger a.tokens ∷ a.spawned;
    }

cancel_token : Option ℕ → List ℕ → List ℕ
cancel_token none cs = cs
cancel_token (some token) cs = token ∷ cs

-- `cancel_login` and `logout`, by their text.
unfoldable pub leave : String → LoginApp → LoginApp
unfolding cancel_token
leave text a = record a {
  cancel = none;
  cancelled = cancel_token a.cancel a.cancelled;
  events = none;
  screen = ready;
  status = text;
}

unfoldable pub cancel_login : LoginApp → LoginApp
unfolding leave
cancel_login = leave "cancelled"

unfoldable pub logout : LoginApp → LoginApp
unfolding leave
logout = leave "signed out"

-- `start_enroll`.
unfoldable pub start_enroll : LoginApp → LoginApp
start_enroll a =
    if is_some a.enroll_events
    then a
    else if not a.client
    then record a { enroll_status = "connect first"; enroll_tone = error }
    else record a {
      enroll_events = some [];
      enroll_cancel = some a.tokens;
      enroll_done = 0;
      enroll_tone = idle;
      enroll_status = touch_first;
      tokens = a.tokens + 1;
      spawned = enrolls a.enroll_finger a.tokens ∷ a.spawned;
    }

-- `cancel_enroll`.
unfoldable pub cancel_enroll : LoginApp → LoginApp
unfolding cancel_token
cancel_enroll a = record a {
  enroll_cancel = none;
  cancelled = cancel_token a.enroll_cancel a.cancelled;
  enroll_events = none;
  enroll_done = 0;
  enroll_status = pick_enroll;
  enroll_tone = idle;
}

-- `refresh_fingers`.
unfoldable pub refresh_fingers : LoginApp → LoginApp
refresh_fingers a =
    if not a.client then a else record a { list_pending = some none; spawned = lists ∷ a.spawned }

is_armed : Option String → String → Bool
is_armed none name = false
is_armed (some armed) name = str_eq armed name

-- `request_delete`.
unfoldable pub request_delete : String → LoginApp → LoginApp
unfolding is_armed
request_delete name a =
    if a.delete_pending || is_some a.enroll_events
    then a
    else if not (is_armed a.delete_armed name)
    then record a {
      delete_armed = some name;
      enroll_status = concat "click " (concat name " again to confirm delete");
      enroll_tone = hint;
    }
    else if not a.client
    then record a { enroll_status = "connect first"; enroll_tone = error }
    else record a {
      delete_armed = none;
      list_pending = some none;
      delete_pending = true;
      enroll_status = "deleting";
      enroll_tone = idle;
      spawned = deletes name ∷ a.spawned;
    }
