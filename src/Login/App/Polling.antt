-- ===== src/Login/App/Polling.antt =====
-- `poll` of crates/elanprint-login/src/app.rs and its parts.
use Prim.Native.String.{◌++◌ as concat}
use elanprint_rs.Prelude.{
  ℕ, ltb, str_eq, Bool, true, false, String, List, [], ◌∷◌, Option, none, some, Result, ok, err,
  ◌||◌, if◌then◌else◌,
}
use elanprint_rs.Login.Copy.{touch_again}
use elanprint_rs.Login.Client.{
  EnrollEvent, stage, completed, AuthEvent, friendly, Outcome, failed_with, Wire,
}
use elanprint_rs.Login.App.{
  Screen, ready, idle, hint, done, error, Connected, LoginApp, refresh_fingers,
}

unfoldable pub names_contain : List String → String → Bool
names_contain [] name = false
names_contain (x ∷ xs) name = str_eq x name || names_contain xs name

-- `if !self.fingers.contains(&self.finger)`.
kept_finger : List String → String → String
unfolding names_contain
kept_finger fingers name = if names_contain fingers name then name else "any"

-- `stages.min(255) as u8`, where it is above 0.
total_from : Option ℕ → ℕ → ℕ
total_from none total = total
total_from (some n) total = if ltb 255 n then 255 else n

unfoldable pub poll_pending : Option (Option (Result Connected String)) → LoginApp → LoginApp
unfolding kept_finger total_from
poll_pending (some (some (ok c))) a = record a {
  pending = none;
  client = true;
  fingers = c.fingers;
  finger = kept_finger c.fingers a.finger;
  enroll_total = total_from c.stages a.enroll_total;
  screen = ready;
  status = "reader ready";
}
poll_pending (some (some (err text))) a = record a {
  pending = none;
  screen = Screen.disconnected;
  status = text;
}
poll_pending _ a = a

-- The arms of the `match` on an event, and whether the event ends the run.
unfoldable pub on_event : AuthEvent → LoginApp → LoginApp × Bool
on_event (AuthEvent.prompt text) a = (record a { status = text }, false)
on_event (AuthEvent.retry text) a = (record a { status = text }, false)
on_event (AuthEvent.finger name) a = (record a { status = concat "verifying " name }, false)
on_event AuthEvent.granted a = (record a { screen = Screen.granted }, true)
on_event (AuthEvent.denied text) a = (record a { screen = Screen.denied }, true)
on_event AuthEvent.locked a = (record a { screen = Screen.locked }, true)
on_event (AuthEvent.failed text) a = (record a { screen = Screen.failed; status = text }, true)
on_event AuthEvent.finished a = (a, true)

-- The loop over what has come.
unfoldable pub read_events : List AuthEvent → Bool → LoginApp → LoginApp × Bool
read_events [] over a = (a, over)
read_events (e ∷ es) over a = let (b, ends) = on_event e a in read_events es (over || ends) b

closed_if : LoginApp × Bool → LoginApp
closed_if (a, over) =
    if over then record a { events = none; cancel = none } else record a { events = some [] }

unfoldable pub poll_events : Option (List AuthEvent) → LoginApp → LoginApp
unfolding closed_if
poll_events none a = a
poll_events (some es) a = closed_if (read_events es false a)

unfoldable pub on_enroll_event : EnrollEvent → LoginApp → LoginApp × Bool × Bool
on_enroll_event (stage n total) a =
    let t = if ltb 0 total then total else a.enroll_total in
    (
      record a {
        enroll_done = n;
        enroll_total = t;
        enroll_status = touch_again n t;
        enroll_tone = idle;
      },
      false,
      false,
    )
on_enroll_event (EnrollEvent.retry text) a =
    (record a { enroll_status = text; enroll_tone = hint }, false, false)
on_enroll_event completed a = (
  record a {
    enroll_done = a.enroll_total;
    enroll_status = concat a.enroll_finger " enrolled";
    enroll_tone = done;
  },
  true,
  true,
)
on_enroll_event (EnrollEvent.failed text) a =
    (record a { enroll_status = text; enroll_tone = error }, true, false)
on_enroll_event EnrollEvent.finished a = (a, true, false)

unfoldable pub read_enroll_events :
    List EnrollEvent → Bool → Bool → LoginApp → LoginApp × Bool × Bool
unfolding on_enroll_event
read_enroll_events [] over fresh a = (a, over, fresh)
read_enroll_events (e ∷ es) over fresh a =
    let (b, ends, enrolled) = on_enroll_event e a in
    read_enroll_events es (over || ends) (fresh || enrolled) b

enroll_closed_if : LoginApp × Bool × Bool → LoginApp
enroll_closed_if (a, over, fresh) =
    let b =
      if over
      then record a { enroll_events = none; enroll_cancel = none }
      else record a { enroll_events = some [] } in
    if fresh then refresh_fingers b else b

-- `poll_enroll`.
unfoldable pub poll_enroll : Option (List EnrollEvent) → LoginApp → LoginApp
unfolding enroll_closed_if refresh_fingers
poll_enroll none a = a
poll_enroll (some es) a = enroll_closed_if (read_enroll_events es false false a)

-- `poll_list_pending`.
unfoldable pub poll_list_pending :
    Option (Option (Result (List String) String)) → LoginApp → LoginApp
unfolding kept_finger
poll_list_pending (some (some (ok fingers))) a = record a {
  list_pending = none;
  delete_pending = false;
  fingers = fingers;
  finger = kept_finger fingers a.finger;
}
poll_list_pending (some (some (err text))) a = record a {
  list_pending = none;
  delete_pending = false;
  enroll_status = text;
  enroll_tone = error;
}
poll_list_pending _ a = a

-- `poll`.
unfoldable pub poll : LoginApp → LoginApp
unfolding poll_enroll poll_list_pending poll_pending poll_events
poll a =
    let b = poll_enroll a.enroll_events a in
    let c = poll_list_pending b.list_pending b in
    let d = poll_pending c.pending c in poll_events d.events d

-- What the task of `start_login` has sent in the end, the newest in front.
unfoldable pub sent : Outcome (Unit {0}) × Wire AuthEvent → List AuthEvent
sent (failed_with e, w) = AuthEvent.failed (friendly e) ∷ w.events
sent (r, w) = w.events
