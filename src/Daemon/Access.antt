-- ===== src/Daemon/Access.antt =====
-- crates/elanprintd/src/access.rs: who may act on whose fingerprints. Texts are lists of code points;
-- what `getent passwd <user>` prints, where it succeeds in time, is a parameter.
pub mod Entries
use elanprint_rs.Prelude.{
  ℕ, Bool, true, false, List, [], ◌∷◌, Option, none, some, ◌==◌, ◌&&◌, ◌||◌, if◌then◌else◌,
  contains,
}
use elanprint_rs.Prelude.Text.{same, trim, parse_uint}
use elanprint_rs.Prelude.Lines.{prepend, lines}

-- The largest `u32`.
abbrev pub u32_max : ℕ
u32_max = 4294967295

-- `str::split(':')`, never without a piece.
unfoldable pub split_colon : List ℕ → List (List ℕ)
split_colon [] = [] ∷ []
split_colon (c ∷ cs) = let rest = split_colon cs in if c == b':' then [] ∷ rest else prepend c rest

-- The closure of `find_map`, on the fields of a line.
entry_uid : List ℕ → List (List ℕ) → Option ℕ
entry_uid user (name ∷ password ∷ uid ∷ rest) =
    if same name user then parse_uint u32_max (trim uid) else none
entry_uid user _ = none

find_uid : List ℕ → List (List ℕ) → Option ℕ
unfolding entry_uid
find_uid user [] = none
find_uid user (l ∷ ls) = elim (entry_uid user (split_colon l)) [
  | some uid ↦ some uid
  | none ↦ find_uid user ls
]

unfoldable pub uid_for_user : List ℕ → List ℕ → Option ℕ
unfolding find_uid
uid_for_user passwd [] = none
uid_for_user passwd (c ∷ user) = find_uid (c ∷ user) (lines passwd)

unfoldable pub may_act : ℕ → Option ℕ → Bool
may_act caller none = caller == 0
may_act caller (some target) = if caller == 0 then true else target == caller

-- The names that `lookup_uid` refuses to hand to `getent`.
unfoldable pub is_malformed : List ℕ → Bool
is_malformed [] = true
is_malformed (c ∷ cs) = contains (c ∷ cs) b':' || contains (c ∷ cs) 10

-- `getent` answers none where it cannot be run, is too slow, fails, or prints no UTF-8.
unfoldable pub lookup_uid : (List ℕ → Option (List ℕ)) → List ℕ → Option ℕ
unfolding is_malformed
lookup_uid getent user =
    if is_malformed user
    then none
    else elim (getent user) [ none ↦ none | some line ↦ uid_for_user line user ]
