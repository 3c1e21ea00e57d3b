-- ===== src/Daemon/Access/Entries.antt =====
-- crates/elanprintd/src/access.rs: the entry behind a lookup, and what it takes to act for a user.
use elanprint_rs.Prelude.{
  ℕ, ◌≡◌, ◌≢◌, refl, ◌⊎◌, inl, inr, true, List, [], ◌∷◌, Option, none, some, arith, Bool-cases,
  Option-cases, ◌==◌, ==_iff,
}
use elanprint_rs.Prelude.Text.{same→eq, trim, parse_uint}
use elanprint_rs.Prelude.Lines.{lines}
use elanprint_rs.Daemon.Access.{
  u32_max, split_colon, entry_uid, find_uid, uid_for_user, may_act, is_malformed, lookup_uid,
}

-- A line of the password database for `user` with the user id `uid`: its first field is the name,
-- its third the number.
abbrev pub IsEntry : List ℕ → ℕ → List (List ℕ) → Type 0
IsEntry user uid (name ∷ password ∷ number ∷ rest) =
    (name ≡ user) × (parse_uint u32_max (trim number) ≡ some uid)
IsEntry user uid _ = ⊥

abbrev pub HasEntry : List ℕ → ℕ → List (List ℕ) → Type 0
HasEntry user uid [] = ⊥
HasEntry user uid (l ∷ ls) = IsEntry user uid (split_colon l) ⊎ HasEntry user uid ls

entry_uid-IsEntry :
    (user : List ℕ) (uid : ℕ) (fields : List (List ℕ))
    → entry_uid user fields ≡ some uid
    → IsEntry user uid fields
unfolding entry_uid
entry_uid-IsEntry user uid [] h = ground arith
entry_uid-IsEntry user uid (name ∷ []) h = ground arith
entry_uid-IsEntry user uid (name ∷ password ∷ []) h = ground arith
entry_uid-IsEntry user uid (name ∷ password ∷ number ∷ rest) h =
    (ground (arith, same→eq name user), ground arith)

find_uid-HasEntry :
    (user : List ℕ) (uid : ℕ) (ls : List (List ℕ))
    → find_uid user ls ≡ some uid
    → HasEntry user uid ls
unfolding find_uid
find_uid-HasEntry user uid [] h = ground arith
find_uid-HasEntry user uid (l ∷ ls) h = elim (Option-cases (entry_uid user (split_colon l))) [
  | inl other ↦ inr (find_uid-HasEntry user uid ls (ground (arith, other)))
  | inr (n, found) ↦ inl (entry_uid-IsEntry user uid (split_colon l) (ground (arith, found)))
]

uid_for_user-HasEntry :
    (passwd user : List ℕ) (uid : ℕ)
    → uid_for_user passwd user ≡ some uid
    → (user ≢ []) × HasEntry user uid (lines passwd)
unfolding uid_for_user
uid_for_user-HasEntry passwd [] uid h = absurd (cc h)
uid_for_user-HasEntry passwd (c ∷ user) uid h =
    (λ e. cc e, find_uid-HasEntry (c ∷ user) uid (lines passwd) h)

answered :
    (o : Option (List ℕ)) (user : List ℕ) (uid : ℕ)
    → (elim o [ none ↦ none | some line ↦ uid_for_user line user ]) ≡ some uid
    → (passwd : List ℕ) × (o ≡ some passwd) × HasEntry user uid (lines passwd)
answered none user uid h = absurd (cc h)
answered (some passwd) user uid h = (passwd, refl, (uid_for_user-HasEntry passwd user uid h).1)

may_act-some :
    (caller : ℕ) (o : Option ℕ) → may_act caller o ≡ true → (caller ≡ 0) ⊎ (o ≡ some caller)
unfolding may_act
may_act-some caller none h = inl (ground arith)
may_act-some caller (some target) h = elim (Bool-cases (caller == 0)) [
  | inl root ↦ inl ((==_iff caller 0).0 root)
  | inr other ↦ inr (ground (arith, other))
]

lookup_uid-answered :
    (getent : List ℕ → Option (List ℕ)) (user : List ℕ) (uid : ℕ)
    → lookup_uid getent user ≡ some uid
    → (passwd : List ℕ) × (getent user ≡ some passwd) × HasEntry user uid (lines passwd)
unfolding lookup_uid
lookup_uid-answered getent user uid h = elim (Bool-cases (is_malformed user)) [
  | inl bad ↦ absurd (ground (arith, bad))
  | inr good ↦ answered (getent user) user uid (rw good at h)
]

-- Nobody but root acts for another user: whoever may act on a user's fingerprints is root, or the
-- answer of `getent` for that user's name has a line whose first field is exactly the name and whose
-- third field reads as the caller's own user id.
pub may_act-HasEntry :
    (caller : ℕ) (getent : List ℕ → Option (List ℕ)) (user : List ℕ)
    → may_act caller (lookup_uid getent user) ≡ true
    → (caller ≡ 0)
      ⊎ ((passwd : List ℕ) × (getent user ≡ some passwd) × HasEntry user caller (lines passwd))
may_act-HasEntry caller getent user h = elim (may_act-some caller (lookup_uid getent user) h) [
  | inl root ↦ inl root
  | inr own ↦ inr (lookup_uid-answered getent user caller own)
]

-- An account that `getent` does not know, and a name that is empty or holds a colon or a line end,
-- give access to root alone.
pub may_act-unknown :
    (caller : ℕ) (getent : List ℕ → Option (List ℕ)) (user : List ℕ)
    → (getent user ≡ none) ⊎ (is_malformed user ≡ true)
    → may_act caller (lookup_uid getent user) ≡ (caller == 0)
unfolding may_act lookup_uid
may_act-unknown caller getent user (inl e) = ground (arith, e)
may_act-unknown caller getent user (inr e) = ground (arith, e)
