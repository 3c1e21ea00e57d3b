-- ===== src/Tests/Cli.antt =====
-- crates/elanprint-cli: a wipe, the check before an enrollment, and a scan of an empty sensor.
use elanprint_rs.Prelude.{
  ℕ, ◌≡◌, ◌≢◌, refl, true, false, String, List, [], ◌∷◌, Option, none, some, ok, str_eq, subst,
  if◌then◌else◌, inl, inr, zero, suc,
}
use elanprint_rs.Prelude.Text.{codes, same, trim}
use elanprint_rs.Store.{Prints}
use elanprint_rs.Proto.Command.{wipe_all, encode}
use elanprint_rs.Proto.Response.{parse}
use elanprint_rs.Cli.{
  go, Desk, Tool, session, wipe_device, send, exchange, kept, parsed, enrolled_count, ◌>>=◌, return,
  lift,
}
use elanprint_rs.Cli.Session.{Sent, Counts, Confirmed, wipe-confirmed}
use elanprint_rs.Cli.Enroll.{enroll}
use elanprint_rs.Cli.Enroll.Findings.{Fair}
use elanprint_rs.Cli.Enroll.Careful.{enroll-Fair}

-- A library that prints the empty map only, and reads any other text as alice's map.
abbrev alice : Prints
alice = ("alice", ("left-thumb", 2) ∷ []) ∷ []

abbrev printed : Prints → Option String
printed [] = some "{}"
printed (x ∷ p) = none

text_of : {t : String} → some "{}" ≡ some t → "{}" ≡ t
text_of h = cc h

abbrev readable : String → Option Prints
readable t = if str_eq t "{}" then some [] else some alice

readable-printed : (p : Prints) (t : String) → printed p ≡ some t → readable t ≡ some p
readable-printed [] t h = subst (λ s. readable s ≡ some []) (text_of h) refl
readable-printed (x ∷ p) t h = absurd (cc h)

-- Two templates, then none.
abbrev replies : ℕ → List ℕ
replies zero = 0x40 ∷ 0x02 ∷ []
replies (suc zero) = []
replies _ = 0x40 ∷ 0x00 ∷ []

abbrev desk : Desk
desk = record {
  opens = ok tt;
  answers = λ n. ok (replies n);
  writes = λ n. ok tt;
  is_terminal = true;
  typed = some (codes "ERASE ");
  holds = λ n. go;
  json = record {
    to_string_pretty = printed;
    from_str = readable;
    from_str-to_string_pretty = readable-printed;
  };
  reads = none;
  saves = none;
}

abbrev tool : Tool
tool = record { log = []; clock = 0; files = record { file = none; temps = []; salt = 0 } }

wipe_all-Sent : Sent wipe_all (session desk (wipe_device desk) tool).1.log
unfolding session wipe_device send exchange enrolled_count kept parsed ◌>>=◌ return lift encode
    parse same trim
wipe_all-Sent = inr (inl refl)

wipe-confirmed_example :
    Confirmed desk
    × ((n : ℕ) × Counts n record { out = 0x40 ∷ 0xff ∷ 0x04 ∷ []; reply = ok (replies 0) }
        × (n ≢ 0))
unfolding encode
wipe-confirmed_example = wipe-confirmed desk tool refl wipe_all-Sent

-- No template, no record in the slot, and a touch that the sensor does not know.
abbrev findings : ℕ → List ℕ
findings (suc (suc zero)) = 0x40 ∷ 0xfd ∷ []
findings _ = 0x40 ∷ 0x00 ∷ []

abbrev free_desk : Desk
free_desk = record desk { answers = λ n. ok (findings n) }

enroll-Fair_example : Fair 3 (enroll free_desk 5 5 "left-thumb" 3 false tool).1
enroll-Fair_example = enroll-Fair free_desk 3 5 5 "left-thumb" false tool refl

-- The sensor counts nothing, and the file holds alice's map.
abbrev mapped : Tool
mapped = record tool {
  files = record tool.files { file = some "{\"alice\": {\"left-thumb\": 2}}" };
}
