-- ===== src/Algo/Session/Grant.antt =====
-- When a login attempt grants, and when it no longer can.
use elanprint_rs.Prelude.{
  ℕ, suc, ◌+◌, ◌≡◌, refl, ◌≤◌, ◌<◌, String, Bool, true, false, List, [], ◌∷◌, Result, ok, arith,
  str_eq, str_eq_iff, Bool-cases, inl, inr, if◌then◌else◌,
}
use elanprint_rs.Algo.Policy.{new, allows}
use elanprint_rs.Algo.Strings.{verify_match, verify_no_match}
use elanprint_rs.Algo.Session.{
  VerifySession, SessionState, waiting, succeeded, Signal, status, Action, granted, SessionError,
  begin, step, with_policy,
}

abbrev pub is_waiting : SessionState → Bool
is_waiting (waiting f) = true
is_waiting _ = false

abbrev failures : SessionState → ℕ
failures (waiting f) = f
failures _ = 0

abbrev is_miss : Signal → Bool
is_miss (status result done) = str_eq result verify_no_match
is_miss _ = false

abbrev pub is_grant : Result Action SessionError → Bool
is_grant (ok (granted u)) = true
is_grant _ = false

-- A step grants just when a session is waiting and the signal is a terminal "verify-match"; it
-- then grants the session's own user and no other, and the session has succeeded.
pub step-granted :
    (s : VerifySession) (sig : Signal) (u : String)
    → (step s sig).1 ≡ ok (granted u)
    → (is_waiting s.state ≡ true)
      × (sig ≡ status verify_match true)
      × (u ≡ s.user)
      × ((step s sig).0.state ≡ succeeded)
unfolding step
step-granted s (status result done) u h =
    (ground arith, ground (arith, str_eq_iff result verify_match), ground arith, ground arith)
step-granted s _ u h = cc

unfoldable pub run : VerifySession → List Signal → VerifySession
run s [] = s
run s (sig ∷ sigs) = run (step s sig).0 sigs

pub grants : VerifySession → List Signal → Bool
grants s [] = false
grants s (sig ∷ sigs) = if is_grant (step s sig).1 then true else grants (step s sig).0 sigs

-- The "verify-no-match" results among the signals.
abbrev pub misses : List Signal → ℕ
misses [] = 0
misses (sig ∷ sigs) = if is_miss sig then suc (misses sigs) else misses sigs

step-idle :
    (s : VerifySession) (sig : Signal)
    → is_waiting s.state ≡ false
    → (is_grant (step s sig).1 ≡ false) × (is_waiting (step s sig).0.state ≡ false)
unfolding step
step-idle s (status result done) h = (ground arith, ground arith)
step-idle s _ h = (ground arith, ground arith)

grants-idle :
    (s : VerifySession) (sigs : List Signal) → is_waiting s.state ≡ false → grants s sigs ≡ false
unfolding grants
grants-idle s [] h = refl
grants-idle s (sig ∷ sigs) h =
    let one = step-idle s sig h in ground (arith, one, grants-idle (step s sig).0 sigs)

match-not-miss : (r : String) → str_eq r verify_match ≡ true → str_eq r verify_no_match ≡ false
match-not-miss r h = ground (
  arith,
  str_eq_iff r verify_match,
  str_eq_iff r verify_no_match,
  str_eq_iff verify_match verify_no_match,
)

step-waiting :
    (s : VerifySession) (sig : Signal)
    → failures s.state < 4294967295
    → is_waiting (step s sig).0.state ≡ true
    → (is_waiting s.state ≡ true)
      × (failures (step s sig).0.state ≡ failures s.state + (if is_miss sig then 1 else 0))
      × ((is_miss sig ≡ true) → failures (step s sig).0.state < s.policy.max_tries)
      × ((step s sig).0.policy.max_tries ≡ s.policy.max_tries)
unfolding step allows
step-waiting s (status result done) b h = (
  ground arith,
  ground (arith, match-not-miss result),
  λ m. ground (arith, match-not-miss result),
  ground arith,
)
step-waiting s _ b h = (ground arith, ground arith, λ m. ground arith, ground arith)

run-idle :
    (s : VerifySession) (sigs : List Signal)
    → is_waiting s.state ≡ false
    → is_waiting (run s sigs).state ≡ false
unfolding run
run-idle s [] h = h
run-idle s (sig ∷ sigs) h = run-idle (step s sig).0 sigs (step-idle s sig h).1

run-waiting :
    (s : VerifySession) (sigs : List Signal)
    → s.policy.max_tries ≤ 255
    → failures s.state < s.policy.max_tries
    → is_waiting (run s sigs).state ≡ true
    → failures s.state + misses sigs < s.policy.max_tries
unfolding run
run-waiting s [] b f h = omega arith
run-waiting s (sig ∷ sigs) b f h = elim (Bool-cases (is_waiting (step s sig).0.state)) [
  | inr no_more ↦ cc (run-idle (step s sig).0 sigs no_more)
  | inl still ↦
      let one = step-waiting s sig (omega arith) still in
      ground (arith, one, run-waiting (step s sig).0 sigs)
]

-- The budget of attempts holds: once a session that has begun has seen as many "verify-no-match"
-- results as the policy allows tries, whatever else arrived between them, no later signal grants
-- anything until the session is begun again. The limit is the policy's `u8`, and at least 1.
pub budget_holds :
    (user : String) (tries : ℕ) (before later : List Signal)
    → tries ≤ 255
    → 1 ≤ tries
    → tries ≤ misses before
    → grants (run (begin (with_policy user (new tries))).0 before) later ≡ false
unfolding begin with_policy new
budget_holds user tries before later b p m =
    let s : VerifySession = (begin (with_policy user (new tries))).0 in
    elim (Bool-cases (is_waiting (run s before).state)) [
      | inl still ↦
          absurd (omega (arith, run-waiting s before (ground arith) (ground arith) still, max_eq))
      | inr no_more ↦ grants-idle (run s before) later no_more
    ]
  where
    max_eq : (new tries).max_tries ≡ tries
    max_eq = ground arith
