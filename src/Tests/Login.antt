-- ===== src/Tests/Login.antt =====
-- crates/elanprint-login: one run of the client, a few clicks in the window and on the keyring tab.
use elanprint_rs.Prelude.{◌+◌, ◌≤◌, ◌≡◌, ◌≢◌, refl, true, false, List, [], ◌∷◌, none, some, ok, All}
use mathlib.Core.List.{reverse}
use elanprint_rs.Prelude.Text.{codes}
use elanprint_rs.Keyring.Preflight.{not_found}
use elanprint_rs.Algo.Policy.{allows, pam_default}
use elanprint_rs.Algo.Session.{new, begin, step}
use elanprint_rs.Login.Client.{
  AuthEvent, Bus, waiting, done, operate, request, attempt, emit, ◌>>=◌, delete_finger,
  total_stages, stages,
}
use elanprint_rs.Login.Client.Runs.{
  VerifyNext, status, malformed, EnrollNext, shown_as, verify, enroll, drive, drive_enroll,
}
use elanprint_rs.Login.Client.Verdict.{ending, first_error, unused, Tells, verify-ending}
use elanprint_rs.Login.Client.Release.{holding, is_stuck, is_refused, run-holding}
use elanprint_rs.Login.KeyringTab
use elanprint_rs.Login.KeyringTab.{Look, provisioned, new_tab}
use elanprint_rs.Login.KeyringTab.Clicks.{finish, types_password, saved_it, types, continue, set_up}
use elanprint_rs.Login.KeyringTab.Runs
use elanprint_rs.Login.KeyringTab.Runs.{Input, clicked, polled, answered}
use elanprint_rs.Login.KeyringTab.Consent.{IsAllowed, Reached-IsAllowed}
use elanprint_rs.Login.App.{Screen, Mode, LoginApp, hint, new_app}
use elanprint_rs.Login.App.Polling.{poll, sent}
use elanprint_rs.Login.App.Shown.{final_screen, verify-poll, verify-lost}
use elanprint_rs.Login.App.Controls.{Act, connect_button, connect_reply, frame, delete_button, act}
use elanprint_rs.Login.App.Modes
use elanprint_rs.Login.App.Modes.{deletions, presses, Reached-deletions}

-- The bus answers every call.
abbrev bus : Bus
bus = record {
  fails = λ n. none;
  devices = λ n. "reader" ∷ [];
  fingers = λ n. [];
  stages = λ n. ok none;
}

abbrev touches : List VerifyNext
touches = status "verify-remove-and-retry" false ∷ status "verify-no-match" true ∷ []

verify-ending_example :
    Tells (first_error bus 5 0) (ending touches) (verify bus "alice" "any" touches unused)
verify-ending_example = verify-ending bus "alice" "any" touches

verify-done : (verify bus "alice" "any" touches unused).0 ≡ done tt
unfolding verify operate request attempt emit ◌>>=◌ drive shown_as step begin new pam_default allows
verify-done = refl

verify-over : (verify bus "alice" "any" touches unused).0 ≢ waiting
verify-over e = absurd (cc (verify-done, e))

-- The stream of the enrollment's signals ends.
enroll-done : (enroll bus "alice" "any" (EnrollNext.closed ∷ []) unused).0 ≡ done tt
unfolding enroll operate request attempt emit ◌>>=◌ drive_enroll total_stages stages
enroll-done = refl

enroll-over : (enroll bus "alice" "any" (EnrollNext.closed ∷ []) unused).0 ≢ waiting
enroll-over e = absurd (cc (enroll-done, e))

run-holding_example :
    (holding (verify bus "alice" "any" touches unused).1.calls
      ≡ is_stuck (verify bus "alice" "any" touches unused).1.calls)
    × (holding (enroll bus "alice" "any" (EnrollNext.closed ∷ []) unused).1.calls
        ≡ is_stuck (enroll bus "alice" "any" (EnrollNext.closed ∷ []) unused).1.calls)
    × (holding (delete_finger bus "alice" "any" (unused {E = AuthEvent})).1.calls
        ≡ is_refused (delete_finger bus "alice" "any" (unused {E = AuthEvent})).1.calls)
run-holding_example =
    run-holding bus "alice" "any" touches (EnrollNext.closed ∷ []) verify-over enroll-over

-- A machine that is ready for the keyring.
abbrev look : Look
look = record {
  site = record {
    has_tpm2 = some true;
    multiarch = none;
    exists = λ path. true;
    cred = not_found;
    stack_exists = λ file. true;
    stack_text = λ file. some (codes "auth optional pam_gnome_keyring.so");
    home = some (codes "/home/alice");
  };
  recovery = false;
}

-- The window that waits for a run which has sent all that it sends.
abbrev window : List AuthEvent → LoginApp
window events = record {
  finger = "any";
  fingers = "any" ∷ [];
  status = "touch the sensor";
  screen = Screen.waiting;
  pending = none;
  events = some events;
  cancel = some 0;
  client = true;
  mode = Mode.verify;
  enroll_finger = "left-thumb";
  enroll_events = none;
  enroll_cancel = none;
  enroll_status = "";
  enroll_tone = hint;
  enroll_done = 0;
  enroll_total = 0;
  delete_armed = none;
  delete_pending = false;
  list_pending = none;
  keyring = new_tab look;
  tokens = 1;
  cancelled = [];
  spawned = [];
}

abbrev all_sent : List AuthEvent
all_sent = reverse (sent (verify bus "alice" "any" touches unused))

verify-poll_example :
    ((poll (window all_sent)).screen ≡ final_screen bus touches)
    × ((poll (window all_sent)).events ≡ none)
verify-poll_example = verify-poll bus "alice" "any" touches (window all_sent) verify-over record {
  screen = refl;
  events = refl;
  enroll_events = refl;
  list_pending = refl;
  pending = refl;
}

-- The first body does not deserialize.
abbrev in_time : List AuthEvent
in_time = reverse (verify bus "alice" "any" (malformed ∷ []) unused).1.events

verify-lost_example :
    (sent (verify bus "alice" "any" (malformed ∷ []) unused)
      ≡ AuthEvent.failed "reader error, see log"
        ∷ (verify bus "alice" "any" (malformed ∷ []) unused).1.events)
    × ((poll (window in_time)).screen ≡ Screen.waiting)
    × ((poll (window in_time)).events ≡ none)
unfolding first_error ending
verify-lost_example =
    verify-lost bus "alice" "any" (malformed ∷ []) (window in_time) refl refl record {
      screen = refl;
      events = refl;
      enroll_events = refl;
      list_pending = refl;
      pending = refl;
    }

-- Connected, and the delete button clicked twice.
abbrev clicks : List Act
clicks =
    delete_button "left-thumb"
    ∷ delete_button "left-thumb"
    ∷ frame look
    ∷ connect_reply (ok record { fingers = "left-thumb" ∷ []; stages = none })
    ∷ connect_button
    ∷ []

abbrev acted : List Act → LoginApp
acted [] = new_app look
acted (x ∷ h) = act x (acted h)

acted-Reached : (h : List Act) → Modes.Reached h (acted h)
acted-Reached [] = Modes.opened look
acted-Reached (x ∷ h) = Modes.after (acted-Reached h) x

Reached-deletions_example :
    deletions "left-thumb" (acted clicks).spawned + deletions "left-thumb" (acted clicks).spawned
    ≤ presses "left-thumb" clicks
Reached-deletions_example = Reached-deletions "left-thumb" (acted-Reached clicks)

-- A secret is typed back and handed over.
abbrev inputs : List Input
inputs =
    clicked finish
    ∷ clicked (types_password (codes "old"))
    ∷ clicked saved_it
    ∷ clicked (types (codes "a1b2 "))
    ∷ polled
    ∷ answered (ok (provisioned (codes "a1b2")))
    ∷ clicked continue
    ∷ clicked set_up
    ∷ []

abbrev tab : List Input → KeyringTab.KeyringTab
tab [] = new_tab look
tab (i ∷ h) = Runs.step look i (tab h)

tab-Reached : (h : List Input) → Runs.Reached h (tab h)
tab-Reached [] = Runs.opened look
tab-Reached (i ∷ h) = Runs.after (tab-Reached h) look i

Reached-IsAllowed_example : All (IsAllowed inputs) (tab inputs).spawned
Reached-IsAllowed_example = Reached-IsAllowed (tab-Reached inputs)
