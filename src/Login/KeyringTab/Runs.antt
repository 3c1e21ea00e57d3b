-- ===== src/Login/KeyringTab/Runs.antt =====
-- crates/elanprint-login/src/keyring_tab.rs: runs of the tab, and that one thread at most is at work.
use elanprint_rs.Prelude.{
  ◌≡◌, refl, ◌⊎◌, inl, Bool, true, false, List, [], ◌∷◌, Option, none, some, Result, arith,
}
use elanprint_rs.Login.KeyringTab.{
  Text, Stage, idle, working, Job, Inbox, empty, message, disconnected, rotate_answer, KeyringTab,
  Look, new_tab, poll,
}
use elanprint_rs.Login.KeyringTab.Clicks.{Click, at_stage, keyring_controls}

-- What happens to the tab: a click, a poll of the window, or something of a thread. The thread of a
-- rotation tells what `rotate_seal`, the change of the keyring's password and the rollback gave it.
pub data Input : Type 0 where
  clicked : Click → Input
  polled : Input
  answered : Result Job Text → Input
  rekeyed : Result (Unit {0}) Text → Input
  rotation : Result (Text × Text) Text → Result (Unit {0}) Text → Bool → Input
  hung_up rekey_hung_up : Input

-- A thread sends at most one message, into a channel that somebody reads.
abbrev pub put {ℓ} : {A : Type ℓ} → A → Option A → Option A
put new none = none
put new (some old) = some new

unfoldable pub deliver :
    Result Job Text → Option (Inbox (Result Job Text)) → Option (Inbox (Result Job Text))
deliver r (some empty) = some (message r)
deliver r other = other

unfoldable pub deliver_rekey :
    Result (Unit {0}) Text
    → Option (Inbox (Result (Unit {0}) Text))
    → Option (Inbox (Result (Unit {0}) Text))
deliver_rekey r (some empty) = some (message r)
deliver_rekey r other = other

unfoldable pub step : Look → Input → KeyringTab → KeyringTab
unfolding deliver deliver_rekey
step look (clicked c) t = keyring_controls look c t
step look polled t = poll look t
step look (answered r) t = record t { job = deliver r t.job }
step look (rekeyed r) t = record t { rekey_reply = deliver_rekey r t.rekey_reply }
step look (rotation sealed changed restored) t = record t {
  job = deliver (rotate_answer sealed changed restored) t.job;
}
step look hung_up t = record t { job = put disconnected t.job }
step look rekey_hung_up t = record t { rekey_reply = put disconnected t.rekey_reply }

-- The tabs that inputs lead to, the newest input in front.
pub data Reached : List Input → KeyringTab → Type 0 where
  opened : (look : Look) → Reached [] (new_tab look)
  after :
      {h : List Input} {t : KeyringTab}
      → Reached h t
      → (look : Look) (i : Input) → Reached (i ∷ h) (step look i t)

-- At most one thread is at work, and the tab says so just then.
abbrev is_working : Stage → Bool
is_working (working note) = true
is_working _ = false

abbrev IsNone {ℓ} : {A : Type ℓ} → Option A → Type 0
IsNone none = Unit
IsNone (some a) = ⊥

abbrev IsGiven {ℓ} : {A : Type ℓ} → Option A → Type 0
IsGiven none = ⊥
IsGiven (some a) = Unit

abbrev pub IsSingle : KeyringTab → Type 0
IsSingle t =
    (IsNone t.job × IsNone t.rekey_reply × (is_working t.stage ≡ false))
    ⊎ (IsGiven t.job × IsNone t.rekey_reply × (is_working t.stage ≡ true))
    ⊎ (IsNone t.job × IsGiven t.rekey_reply × (is_working t.stage ≡ true))

at_stage-IsSingle :
    (s : Stage) (look : Look) (c : Click) (t : KeyringTab)
    → t.stage ≡ s
    → IsSingle t
    → IsSingle (at_stage s look c t)
unfolding at_stage
at_stage-IsSingle idle look c t e h = ground arith
at_stage-IsSingle _ look c t e h = ground arith

step-IsSingle : (look : Look) (i : Input) (t : KeyringTab) → IsSingle t → IsSingle (step look i t)
unfolding step poll keyring_controls
step-IsSingle look (clicked c) t h = at_stage-IsSingle t.stage look c t refl h
step-IsSingle look polled t h = ground arith
step-IsSingle look (answered r) t h = ground arith
step-IsSingle look (rekeyed r) t h = ground arith
step-IsSingle look (rotation sealed changed restored) t h = ground arith
step-IsSingle look hung_up t h = ground arith
step-IsSingle look rekey_hung_up t h = ground arith

-- In every run one thread at most is at work, and the tab shows the working stage, which has no
-- button, just while one is.
Reached-IsSingle : {h : List Input} {t : KeyringTab} → Reached h t → IsSingle t
unfolding new_tab
Reached-IsSingle (opened look) = inl (tt, tt, refl)
Reached-IsSingle (after {h} {t} r look i) = step-IsSingle look i t (Reached-IsSingle r)
