-- ===== src/Login/App/Mark.antt =====
-- `tone` and `outcome` of crates/elanprint-login/src/app.rs: what the mark on the stage says.
use elanprint_rs.Prelude.{Bool, true, false, not, Option, none, some, if◌then◌else◌}
use elanprint_rs.Login.KeyringTab.{Stage, is_some, looks_enabled}
use elanprint_rs.Login.App.{
  Screen, Mode, Tone, dim, neutral, retry, good, bad, EnrollTone, idle, hint, done, error, LoginApp,
}

screen_tone : Screen → Tone
screen_tone Screen.disconnected = dim
screen_tone Screen.granted = good
screen_tone Screen.denied = bad
screen_tone Screen.locked = bad
screen_tone Screen.failed = bad
screen_tone _ = neutral

enroll_tone_of : EnrollTone → Tone
enroll_tone_of hint = retry
enroll_tone_of done = good
enroll_tone_of error = bad
enroll_tone_of idle = neutral

keyring_tone : Stage → Bool → Tone
keyring_tone Stage.done enabled = good
keyring_tone (Stage.failed why) enabled = bad
keyring_tone Stage.idle enabled = if enabled then neutral else dim
keyring_tone _ enabled = neutral

tone_in : Mode → LoginApp → Tone
unfolding screen_tone enroll_tone_of keyring_tone
tone_in Mode.verify a = screen_tone a.screen
tone_in Mode.enroll a = if not a.client then dim else enroll_tone_of a.enroll_tone
tone_in Mode.keyring a = keyring_tone a.keyring.stage (looks_enabled a.keyring)

-- `tone`.
unfoldable pub tone : LoginApp → Tone
unfolding tone_in
tone a = tone_in a.mode a

screen_outcome : Screen → Option Bool
screen_outcome Screen.granted = some true
screen_outcome Screen.denied = some false
screen_outcome _ = none

enroll_outcome : EnrollTone → Option Bool
enroll_outcome done = some true
enroll_outcome error = some false
enroll_outcome _ = none

keyring_outcome : Stage → Option Bool
keyring_outcome Stage.done = some true
keyring_outcome (Stage.failed why) = some false
keyring_outcome _ = none

outcome_in : Mode → LoginApp → Option Bool
unfolding screen_outcome enroll_outcome keyring_outcome
outcome_in Mode.verify a = screen_outcome a.screen
outcome_in Mode.enroll a = if is_some a.enroll_events then none else enroll_outcome a.enroll_tone
outcome_in Mode.keyring a = keyring_outcome a.keyring.stage

-- `outcome`: the check, the cross, or neither.
unfoldable pub outcome : LoginApp → Option Bool
unfolding outcome_in
outcome a = outcome_in a.mode a
