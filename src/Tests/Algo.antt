-- ===== src/Tests/Algo.antt =====
-- crates/elanprint-algo on concrete signals.
use elanprint_rs.Prelude.{◌≡◌, ◌≢◌, refl, ◌↔◌, ◌<◌, true, false, [], ◌∷◌, none, some, arith}
use elanprint_rs.Proto.Status.{classify}
use elanprint_rs.Algo.Strings.{verify_match, verify_no_match, verify_status, verify_status-match}
use elanprint_rs.Algo.Policy.{new}
use elanprint_rs.Algo.Session.{
  VerifySession, succeeded, Signal, status, finger_selected, with_policy, begin, step,
}
use elanprint_rs.Algo.Session.Grant.{run, is_waiting, grants, step-granted, budget_holds}

verify_status-match_example :
    ((verify_status (classify 0) ≡ some verify_match) ↔ (0 < 16))
    × (verify_status (classify 0) ≢ none)
verify_status-match_example = verify_status-match 0

abbrev attempt : VerifySession
attempt = (begin (with_policy "alice" (new 2))).0

step-granted_example :
    (is_waiting attempt.state ≡ true)
    × (status verify_match true ≡ status verify_match true)
    × ("alice" ≡ attempt.user)
    × ((step attempt (status verify_match true)).0.state ≡ succeeded)
unfolding step begin with_policy new
step-granted_example = step-granted attempt (status verify_match true) "alice" refl

abbrev miss : Signal
miss = status verify_no_match true

budget_holds_example :
    grants
      (run (begin (with_policy "alice" (new 2))).0 (miss ∷ finger_selected "any" ∷ miss ∷ []))
      (status verify_match true ∷ [])
    ≡ false
budget_holds_example =
    budget_holds "alice" 2 (miss ∷ finger_selected "any" ∷ miss ∷ [])
      (status verify_match true ∷ []) (omega arith) (omega arith) (omega arith)
