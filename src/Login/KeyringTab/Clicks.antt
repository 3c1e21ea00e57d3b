-- ===== src/Login/KeyringTab/Clicks.antt =====
-- The keyring tab's buttons and fields, by the stage that shows them: `keyring_controls` and what it calls
-- in crates/elanprint-login/src/app.rs.
use elanprint_rs.Prelude.{Bool, true, false, not, [], ◌∷◌, Result, ok, err, if◌then◌else◌}
use elanprint_rs.Prelude.Text.{same, trim}
use elanprint_rs.Keyring.Preflight.{NotReady, require_ready}
use elanprint_rs.Login.KeyringTab.{
  Text, Stage, idle, confirm, working, saved, rekey, show_key, confirm_rotate, done, failed,
  KeyringTab, Look, refresh, start_provision, start_reveal, start_rotate, start_wire_password,
  start_disable, start_forget_file, start_rekey, looks_enabled,
}

is_ready : Result (Unit {0}) NotReady → Bool
is_ready (ok u) = true
is_ready (err e) = false

unfoldable pub is_blank : Text → Bool
is_blank [] = true
is_blank (c ∷ cs) = false

-- What the user does: the buttons, the check box, and the text in a field.
pub data Click : Type 0 where
  show_the_key replace_key also_passwords turn_off : Click
  set_up check_password continue cancel : Click
  types : Text → Click
  saved_it : Click
  types_password : Text → Click
  finish delete_copy replace_now close : Click

-- `keyring_enabled` and `keyring_offer`.
on_idle : Look → Bool → Click → KeyringTab → KeyringTab
unfolding start_reveal start_wire_password start_disable is_ready
on_idle look true show_the_key t = start_reveal t
on_idle look true replace_key t = record t { stage = confirm_rotate }
on_idle look true also_passwords t = if t.report.password_wired then t else start_wire_password t
on_idle look true turn_off t = start_disable t
on_idle look false set_up t =
    if is_ready (require_ready look.site t.report) then record t { stage = confirm } else t
on_idle look enabled _ t = t

-- `keyring_confirm`.
on_confirm : Click → KeyringTab → KeyringTab
unfolding start_provision
on_confirm check_password t = record t { fingerprint_only = not t.fingerprint_only }
on_confirm continue t = start_provision t
on_confirm cancel t = record t { stage = idle }
on_confirm _ t = t

-- `keyring_saved`.
unfoldable pub on_saved : Text → Text → Click → KeyringTab → KeyringTab
on_saved secret typed (types text) t = record t { stage = saved secret text }
on_saved secret typed saved_it t =
    if same (trim typed) secret then record t { stage = rekey secret [] } else t
on_saved secret typed _ t = t

-- `keyring_rekey`.
on_rekey : Text → Text → Click → KeyringTab → KeyringTab
unfolding start_rekey is_blank
on_rekey secret password (types_password text) t = record t { stage = rekey secret text }
on_rekey secret password finish t = if is_blank password then t else start_rekey secret password t
on_rekey secret password _ t = t

on_show_key : Click → KeyringTab → KeyringTab
unfolding start_forget_file
on_show_key delete_copy t = if t.recovery_file then start_forget_file t else t
on_show_key close t = record t { stage = idle }
on_show_key _ t = t

unfoldable pub on_confirm_rotate : Click → KeyringTab → KeyringTab
unfolding start_rotate
on_confirm_rotate replace_now t = start_rotate t
on_confirm_rotate cancel t = record t { stage = idle }
on_confirm_rotate _ t = t

-- The button that a stage ends with.
on_rotated : Click → KeyringTab → KeyringTab
on_rotated close t = record t { stage = idle }
on_rotated _ t = t

on_end : Look → Click → KeyringTab → KeyringTab
unfolding refresh
on_end look close t = record (refresh look t) { stage = idle }
on_end look _ t = t

-- `keyring_controls`: what a click does at each stage.
unfoldable pub at_stage : Stage → Look → Click → KeyringTab → KeyringTab
unfolding on_idle on_confirm on_saved on_rekey on_show_key on_confirm_rotate on_rotated on_end
at_stage idle look c t = on_idle look (looks_enabled t) c t
at_stage confirm look c t = on_confirm c t
at_stage (working note) look c t = t
at_stage (saved secret typed) look c t = on_saved secret typed c t
at_stage (rekey secret password) look c t = on_rekey secret password c t
at_stage (show_key secret) look c t = on_show_key c t
at_stage confirm_rotate look c t = on_confirm_rotate c t
at_stage (Stage.rotated secret) look c t = on_rotated c t
at_stage done look c t = on_end look c t
at_stage (failed why) look c t = on_end look c t

unfoldable pub keyring_controls : Look → Click → KeyringTab → KeyringTab
unfolding at_stage
keyring_controls look c t = at_stage t.stage look c t
