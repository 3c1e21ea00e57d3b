-- ===== src/Login/App/Modes.antt =====
-- crates/elanprint-login/src/app.rs: runs of the window. One thing at most is under way, and a finger is
-- deleted only after two clicks.
use elanprint_rs.Prelude.{
  ℕ, suc, ◌+◌, ◌≤◌, ◌≡◌, refl, ◌⊎◌, Bool, false, String, List, [], ◌∷◌, Option, none, some, Result,
  str_eq, str_eq_iff, ◌||◌, arith, if◌then◌else◌,
}
use elanprint_rs.Login.Client.{AuthEvent, EnrollEvent}
use elanprint_rs.Login.KeyringTab
use elanprint_rs.Login.KeyringTab.{Look, KeyringTab, is_some, busy}
use elanprint_rs.Login.App.{
  Mode, Connected, LoginApp, new_app, Task, deletes, start_login, cancel_login, logout, connect,
  start_enroll, cancel_enroll, request_delete,
}
use elanprint_rs.Login.App.Polling.{
  poll, poll_enroll, poll_list_pending, poll_pending, poll_events, on_event, on_enroll_event,
  read_events, read_enroll_events,
}
use elanprint_rs.Login.App.Controls.{Act, delete_button, frame, act}

-- The windows that acts lead to, the newest act in front.
pub data Reached : List Act → LoginApp → Type 0 where
  opened : (look : Look) → Reached [] (new_app look)
  after : {h : List Act} {a : LoginApp} → Reached h a → (x : Act) → Reached (x ∷ h) (act x a)

-- What is under way belongs to the mode.
pub record IsModal (a : LoginApp) : Type 0 where
  pub logins : (is_some a.events ≡ false) ⊎ (a.mode ≡ Mode.verify)
  pub enrolls : (is_some a.enroll_events ≡ false) ⊎ (a.mode ≡ Mode.enroll)
  pub keyrings : (busy a.keyring ≡ false) ⊎ (a.mode ≡ Mode.keyring)

-- The deletions of a finger that were spawned.
abbrev pub deletions : String → List Task → ℕ
deletions name [] = 0
deletions name (deletes other ∷ ts) =
    if str_eq other name then suc (deletions name ts) else deletions name ts
deletions name (_ ∷ ts) = deletions name ts

-- What a poll leaves as it is; a receiver may go.
record Rests (name : String) (a b : LoginApp) : Type 0 where
  mode : b.mode ≡ a.mode
  keyring : b.keyring ≡ a.keyring
  delete_armed : b.delete_armed ≡ a.delete_armed
  deleted : deletions name b.spawned ≡ deletions name a.spawned
  events : (is_some b.events ≡ false) ⊎ (is_some b.events ≡ is_some a.events)
  enroll_events :
      (is_some b.enroll_events ≡ false) ⊎ (is_some b.enroll_events ≡ is_some a.enroll_events)

Rests-trans : {name : String} {a b c : LoginApp} → Rests name a b → Rests name b c → Rests name a c
Rests-trans r s = ground arith

read_events-same :
    (es : List AuthEvent) (over : Bool) (a : LoginApp)
    → ((read_events es over a).0.mode ≡ a.mode)
      × ((read_events es over a).0.keyring ≡ a.keyring)
      × ((read_events es over a).0.enroll_events ≡ a.enroll_events)
      × ((read_events es over a).0.delete_armed ≡ a.delete_armed)
      × ((read_events es over a).0.spawned ≡ a.spawned)
unfolding read_events on_event
read_events-same [] over a = (refl, refl, refl, refl, refl)
read_events-same (e ∷ es) over a =
    let r = read_events-same es (over || (on_event e a).1) (on_event e a).0 in
    (ground (arith, r), ground (arith, r), ground (arith, r), ground (arith, r), ground (arith, r))

read_enroll_events-same :
    (es : List EnrollEvent) (over fresh : Bool) (a : LoginApp)
    → ((read_enroll_events es over fresh a).0.mode ≡ a.mode)
      × ((read_enroll_events es over fresh a).0.keyring ≡ a.keyring)
      × ((read_enroll_events es over fresh a).0.events ≡ a.events)
      × ((read_enroll_events es over fresh a).0.delete_armed ≡ a.delete_armed)
      × ((read_enroll_events es over fresh a).0.spawned ≡ a.spawned)
unfolding read_enroll_events on_enroll_event
read_enroll_events-same [] over fresh a = (refl, refl, refl, refl, refl)
read_enroll_events-same (e ∷ es) over fresh a =
    let (b, ends, enrolled) = on_enroll_event e a in
    let r = read_enroll_events-same es (over || ends) (fresh || enrolled) b in
    (ground (arith, r), ground (arith, r), ground (arith, r), ground (arith, r), ground (arith, r))

module _ (name : String) where
  poll_events-Rests :
      (o : Option (List AuthEvent)) (a : LoginApp) → a.events ≡ o → Rests name a (poll_events o a)
  unfolding poll_events is_some
  poll_events-Rests none a e = ground arith
  poll_events-Rests (some es) a e = ground (arith, read_events-same es false a)

  poll_enroll-Rests :
      (o : Option (List EnrollEvent)) (a : LoginApp)
      → a.enroll_events ≡ o
      → Rests name a (poll_enroll o a)
  unfolding poll_enroll is_some
  poll_enroll-Rests none a e = ground arith
  poll_enroll-Rests (some es) a e = ground (arith, read_enroll_events-same es false false a)

  poll_list_pending-Rests :
      (o : Option (Option (Result (List String) String))) (a : LoginApp)
      → Rests name a (poll_list_pending o a)
  unfolding poll_list_pending
  poll_list_pending-Rests o a = ground arith

  poll_pending-Rests :
      (o : Option (Option (Result Connected String))) (a : LoginApp)
      → Rests name a (poll_pending o a)
  unfolding poll_pending
  poll_pending-Rests o a = ground arith

  poll-Rests : (a : LoginApp) → Rests name a (poll a)
  unfolding poll
  poll-Rests a =
      let b = poll_enroll a.enroll_events a in
      let c = poll_list_pending b.list_pending b in
      let d = poll_pending c.pending c in
      Rests-trans (poll_enroll-Rests a.enroll_events a refl) (
        Rests-trans (poll_list_pending-Rests b.list_pending b)
          (Rests-trans (poll_pending-Rests c.pending c) (poll_events-Rests d.events d refl)))

-- The clicks on a finger's delete button.
abbrev pub presses : String → List Act → ℕ
presses name [] = 0
presses name (delete_button other ∷ h) =
    if str_eq other name then suc (presses name h) else presses name h
presses name (_ ∷ h) = presses name h

abbrev armed_for : Option String → String → ℕ
armed_for none name = 0
armed_for (some armed) name = if str_eq armed name then 1 else 0

abbrev IsPaid : String → List Act → LoginApp → Type 0
IsPaid name h a =
    deletions name a.spawned + deletions name a.spawned + armed_for a.delete_armed name
    ≤ presses name h

delete-IsPaid :
    (name g : String) (o : Option String) (h : List Act) (a : LoginApp)
    → a.delete_armed ≡ o
    → IsPaid name h a
    → IsPaid name (delete_button g ∷ h) (act (delete_button g) a)
unfolding act request_delete
delete-IsPaid name g none h a e p = ground arith
delete-IsPaid name g (some b) h a e p =
    ground (arith, str_eq_iff b g, str_eq_iff b name, str_eq_iff g name)

act-IsPaid :
    (name : String) (x : Act) (h : List Act) (a : LoginApp)
    → IsPaid name h a
    → IsPaid name (x ∷ h) (act x a)
unfolding act start_login cancel_login logout connect start_enroll cancel_enroll
act-IsPaid name (delete_button g) h a p = delete-IsPaid name g a.delete_armed h a refl p
act-IsPaid name (frame look) h a p = ground (arith, poll-Rests name a)
act-IsPaid name _ h a p = ground arith

Reached-IsPaid : (name : String) {h : List Act} {a : LoginApp} → Reached h a → IsPaid name h a
unfolding new_app
Reached-IsPaid name (opened look) = ground arith
Reached-IsPaid name (after {h} {a} r x) = act-IsPaid name x h a (Reached-IsPaid name r)

-- Whatever is clicked and whatever arrives, in whatever order: a finger is deleted at most once for
-- every two clicks on its delete button.
pub Reached-deletions :
    (name : String) {h : List Act} {a : LoginApp}
    → Reached h a
    → deletions name a.spawned + deletions name a.spawned ≤ presses name h
Reached-deletions name r = omega (arith, Reached-IsPaid name r)
