-- ===== src/Keyring/Unlock.antt =====
-- crates/pam-elanprint-keyring/src/lib.rs: the PAM module. What the child process does, and what
-- `pam_set_item` makes of the token, are parameters; the log is left out. Bytes are numbers.
pub mod Token
use elanprint_rs.Prelude.{
  ℕ, zero, suc, ◌+◌, Bool, true, false, not, List, [], ◌∷◌, Option, none, some, ◌==◌, ◌||◌,
  contains, if◌then◌else◌,
}

-- From `_pam_types.h`.
abbrev pub pam_success : ℕ
pam_success = 0

abbrev pub pam_ignore : ℕ
pam_ignore = 25

-- What the reader of the child's output hands over within `TIMEOUT`.
pub data Captured : Type 0 where
  bytes : List ℕ → Captured
  read_failed timed_out : Captured

-- One `try_wait`: the exit with its success, no exit before or after the deadline, or an error.
pub data Poll : Type 0 where
  exited : Bool → Poll
  still_running late failed : Poll

-- The child process: whether it starts, whether its pipes are there, what it prints, and how the
-- n-th poll finds it.
pub record Child : Type 0 where
  pub starts : Bool
  pub pipes : Bool
  pub captured : Captured
  pub polls : ℕ → Poll

-- A poll every 5 milliseconds, for the 200 of `GRACE`.
abbrev pub max_polls : ℕ
max_polls = 41

-- `reap`; none where the child is killed.
reap_from : ℕ → ℕ → (ℕ → Poll) → Option Bool
reap_from zero n polls = none
reap_from (suc fuel) n polls =
    let rest = reap_from fuel (n + 1) polls in
    elim (polls n) [
      | exited success ↦ some success
      | still_running ↦ rest
      | late ↦ none
      | failed ↦ none
    ]

unfoldable pub reap : (ℕ → Poll) → Option Bool
unfolding reap_from
reap polls = reap_from max_polls 0 polls

-- `matches!(status, Some(s) if s.success())`.
is_clean : Option Bool → Bool
is_clean none = false
is_clean (some success) = success

-- What is left of the output once the child is reaped.
captured_bytes : Bool → Captured → Option (List ℕ)
captured_bytes clean (bytes b) = if clean then some b else none
captured_bytes clean read_failed = none
captured_bytes clean timed_out = none

unfoldable pub run : Child → Option (List ℕ)
unfolding is_clean captured_bytes
run c =
    if not c.starts
    then none
    else if not c.pipes
    then none
    else captured_bytes (is_clean (reap c.polls)) c.captured

-- The last byte goes if it is a line end and nothing is left after it.
pop_eol : ℕ → List ℕ → List ℕ
pop_eol c [] = if c == 10 || c == 13 then [] else c ∷ []
pop_eol c (d ∷ ds) = c ∷ d ∷ ds

unfoldable pub trim_eol : List ℕ → List ℕ
unfolding pop_eol
trim_eol [] = []
trim_eol (c ∷ cs) = pop_eol c (trim_eol cs)

unless_empty : List ℕ → Option (List ℕ)
unless_empty [] = none
unless_empty (c ∷ cs) = some (c ∷ cs)

unfoldable pub decrypt : Child → Option (List ℕ)
unfolding unless_empty
decrypt c = elim (run c) [ none ↦ none | some out ↦ unless_empty (trim_eol out) ]

-- `CString::new`.
unfoldable pub to_token : List ℕ → Option (List ℕ)
to_token secret = if contains secret 0 then none else some secret

-- The item `PAM_AUTHTOK` of the handle, and `pam_set_item` on it.
abbrev pub Item : Type 0
Item = Option (List ℕ)

module _ (set_item : List ℕ → Item → ℕ × Item) where
  offer : Option (List ℕ) → Item → ℕ × Item
  offer none item = (pam_ignore, item)
  offer (some token) item = (pam_ignore, (set_item token item).1)

  token_of : Option (List ℕ) → Option (List ℕ)
  token_of none = none
  token_of (some secret) = to_token secret

  -- The result code, and the item afterwards.
  unfoldable pub supply_authtok : Child → Item → ℕ × Item
  unfolding offer token_of
  supply_authtok c item = offer (token_of (decrypt c)) item

  -- The first argument says whether `supply_authtok` panics, before it sets the item.
  unfoldable pub pam_sm_authenticate : Bool → Child → Item → ℕ × Item
  pam_sm_authenticate panics c item = if panics then (pam_ignore, item) else supply_authtok c item

unfoldable pub pam_sm_setcred : ℕ
pam_sm_setcred = pam_success
