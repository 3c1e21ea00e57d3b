-- ===== src/Login/Copy.antt =====
-- crates/elanprint-login/src/copy.rs: the texts of the window that the code computes or compares.
use Prim.Native.String.{◌++◌ as concat}
use elanprint_rs.Prelude.{ℕ, String, str_eq, leb, ◌||◌, if◌then◌else◌}

abbrev pub touch : String
touch = "Touch the sensor"

abbrev pub touch_first : String
touch_first = "Touch the sensor"

abbrev pub pick_enroll : String
pick_enroll = "Pick a finger to enrol"

unfoldable pub enroll_failure : String → String
enroll_failure result =
    if str_eq result "enroll-duplicate"
    then "That finger is already enrolled, delete it first"
    else if str_eq result "enroll-data-full"
    then "The sensor has no free slots left"
    else if str_eq result "enroll-disconnected"
    then "The reader disconnected"
    else if str_eq result "enroll-failed" || str_eq result "enroll-unknown-error"
    then "Enrol failed, see log"
    else concat "Enrol ended: " result

unfoldable pub touch_again : ℕ → ℕ → String
touch_again done total = if leb total done then "Saving" else "Touch again"

unfoldable pub finger_label : String → String
finger_label name = if str_eq name "any" then "any enrolled finger" else name
