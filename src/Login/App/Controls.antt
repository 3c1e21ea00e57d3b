-- ===== src/Login/App/Controls.antt =====
-- The buttons and fields of crates/elanprint-login/src/app.rs with the tests that enable them, one frame
-- of the window, and what arrives from the tasks.
use elanprint_rs.Prelude.{
  String, Bool, true, false, not, List, [], ◌∷◌, ◌++◌, Option, none, some, Result, str_eq, ◌&&◌,
  ◌||◌, if◌then◌else◌,
}
use elanprint_rs.Login.Client.{EnrollEvent, AuthEvent}
use elanprint_rs.Login.KeyringTab.{Look, is_some, busy}
use elanprint_rs.Login.KeyringTab.Runs.{Input, clicked, polled, step}
use elanprint_rs.Login.App.{
  Screen, Mode, Connected, LoginApp, connect, start_login, cancel_login, logout, start_enroll,
  cancel_enroll, request_delete,
}
use elanprint_rs.Login.App.Polling.{names_contain, poll}

-- The buttons and fields by their place, a frame, and what arrives.
pub data Act : Type 0 where
  choose_mode : Mode → Act
  pick_finger pick_enroll_finger : String → Act
  test_button cancel_button sign_out_button : Act
  connect_button start_enroll_button cancel_enroll_button : Act
  delete_button : String → Act
  frame : Look → Act
  keyring_input : Look → Input → Act
  auth_event : AuthEvent → Act
  enroll_event : EnrollEvent → Act
  connect_reply : Result Connected String → Act
  list_reply : Result (List String) String → Act

-- `controls`: while something runs, no other mode can be chosen.
unfoldable pub is_locked : LoginApp → Bool
is_locked a = is_some a.events || is_some a.enroll_events || busy a.keyring

-- `verify_controls`, by the screen: whether the finger can be picked, and what the buttons do.
is_editing : Screen → Bool
is_editing Screen.disconnected = true
is_editing Screen.ready = true
is_editing _ = false

on_test : Screen → LoginApp → LoginApp
on_test Screen.ready a = start_login a
on_test Screen.denied a = start_login a
on_test Screen.failed a = start_login a
on_test Screen.locked a = start_login a
on_test _ a = a

on_cancel : Screen → LoginApp → LoginApp
on_cancel Screen.waiting a = cancel_login a
on_cancel _ a = a

on_sign_out : Screen → LoginApp → LoginApp
on_sign_out Screen.granted a = logout a
on_sign_out _ a = a

in_mode : Mode → Mode → Bool
in_mode Mode.verify Mode.verify = true
in_mode Mode.enroll Mode.enroll = true
in_mode Mode.keyring Mode.keyring = true
in_mode _ _ = false

-- `enroll_controls`: the state in which a finger can be picked or deleted.
is_free : LoginApp → Bool
is_free a = a.client && not (is_some a.enroll_events || a.delete_pending)

-- The arms of `keyring_controls` are clicks; anything else comes from the threads.
unfoldable pub is_click : Input → Bool
is_click (clicked c) = true
is_click _ = false

arrive : {E : Type 0} → E → Option (List E) → Option (List E)
arrive e none = none
arrive e (some es) = some (es ++ e ∷ [])

reply : {R : Type 0} → R → Option (Option R) → Option (Option R)
reply r (some none) = some (some r)
reply r other = other

unfoldable pub act : Act → LoginApp → LoginApp
unfolding is_locked is_editing on_test on_cancel on_sign_out in_mode is_free is_click arrive reply
act (choose_mode m) a = if is_locked a then a else record a { mode = m }
act (pick_finger name) a =
    if in_mode Mode.verify a.mode && is_editing a.screen && names_contain a.fingers name
    then record a { finger = name }
    else a
act test_button a = if in_mode Mode.verify a.mode then on_test a.screen a else a
act cancel_button a = if in_mode Mode.verify a.mode then on_cancel a.screen a else a
act sign_out_button a = if in_mode Mode.verify a.mode then on_sign_out a.screen a else a
act connect_button a = if in_mode Mode.enroll a.mode && not a.client then connect a else a
act (pick_enroll_finger name) a =
    if in_mode Mode.enroll a.mode && is_free a && not (names_contain a.fingers name)
    then record a { enroll_finger = name }
    else a
act start_enroll_button a = if in_mode Mode.enroll a.mode && is_free a then start_enroll a else a
act cancel_enroll_button a =
    if in_mode Mode.enroll a.mode && a.client && is_some a.enroll_events then cancel_enroll a else a
act (delete_button name) a =
    if in_mode Mode.enroll a.mode
      && is_free a
      && names_contain a.fingers name
      && not (str_eq name "any")
    then request_delete name a
    else a
act (frame look) a = let b = poll a in record b { keyring = step look polled b.keyring }
act (keyring_input look i) a =
    if is_click i && not (in_mode Mode.keyring a.mode)
    then a
    else record a { keyring = step look i a.keyring }
act (auth_event e) a = record a { events = arrive e a.events }
act (enroll_event e) a = record a { enroll_events = arrive e a.enroll_events }
act (connect_reply r) a = record a { pending = reply r a.pending }
act (list_reply r) a = record a { list_pending = reply r a.list_pending }
