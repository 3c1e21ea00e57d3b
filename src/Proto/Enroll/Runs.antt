-- ===== src/Proto/Enroll/Runs.antt =====
-- Whole enrollments: the machine fed with the replies of the chip, the buffer collected after each
-- progress or retry as the daemon does.
use elanprint_rs.Prelude.{
  ℕ, suc, ◌+◌, ◌≡◌, refl, ap, ◌∙◌, ◌≤◌, ◌<◌, Bool, true, false, List, [], ◌∷◌, ◌++◌, Option, some,
  arith, ◌==◌, ◌&&◌, ◌||◌, length, if◌then◌else◌, All,
}
use elanprint_rs.Proto.Status.{classify, is_retry}
use elanprint_rs.Proto.Command.{commit_blank}
use elanprint_rs.Proto.Response.{byte, parse}
use elanprint_rs.Proto.Enroll.{
  Enroll, done, EnrollAction, emit_progress, emit_retry, Pending, with_total, start, step,
  take_send,
}
use elanprint_rs.Proto.Enroll.Invariant.{Inv, start-Inv, step-Inv}

collected_after : Enroll × EnrollAction → Enroll
collected_after (e, emit_progress k n) = (take_send e).0
collected_after (e, emit_retry r) = (take_send e).0
collected_after (e, _) = e

unfoldable pub run : Enroll → List (List ℕ) → Enroll
unfolding collected_after
run e [] = e
run e (r ∷ rs) = run (collected_after (step e r)) rs

-- A two byte reply with status 0.
abbrev pub accepted : List ℕ → Bool
accepted r = length r == 2 && byte r 1 == 0

-- A two byte reply that asks for another touch.
abbrev pub rejected : List ℕ → Bool
unfolding classify is_retry
rejected r = length r == 2 && is_retry (classify (byte r 1))

abbrev pub accepts : List (List ℕ) → ℕ
accepts [] = 0
accepts (r ∷ rs) = if accepted r then suc (accepts rs) else accepts rs

-- The reply answers a command for a touch, and accepts it.
abbrev pub accepts_touch : Option Pending → List ℕ → Bool
accepts_touch (some Pending.sample) r = accepted r
accepts_touch _ r = false

-- The touches that the chip accepts in a run; the accepted reply to the commit is none.
unfoldable pub touches : Enroll → List (List ℕ) → ℕ
unfolding collected_after
touches e [] = 0
touches e (r ∷ rs) =
    (if accepts_touch e.pending r then 1 else 0) + touches (collected_after (step e r)) rs

collected-step :
    (e : Enroll) (r : List ℕ)
    → (step e r).0.collected ≤ e.collected + (if accepts_touch e.pending r then 1 else 0)
unfolding step parse classify
collected-step e r = ground arith

collected_after-Inv : (x : Enroll × EnrollAction) → Inv x.0 → Inv (collected_after x)
unfolding collected_after take_send
collected_after-Inv (e, emit_progress k n) v = record {
  needed_byte = v.needed_byte;
  slot_byte = v.slot_byte;
  collected_byte = v.collected_byte;
  sampling = v.sampling;
  checking = v.checking;
  storing = v.storing;
  stored = v.stored;
}
collected_after-Inv (e, emit_retry r) v = record {
  needed_byte = v.needed_byte;
  slot_byte = v.slot_byte;
  collected_byte = v.collected_byte;
  sampling = v.sampling;
  checking = v.checking;
  storing = v.storing;
  stored = v.stored;
}
collected_after-Inv (e, _) v = v

-- What no reply changes, and the state that the buffer's collection leaves alone.
collected_after-eq :
    (x : Enroll × EnrollAction)
    → ((collected_after x).collected ≡ x.0.collected)
      × ((collected_after x).needed ≡ x.0.needed)
      × ((collected_after x).slot ≡ x.0.slot)
      × ((collected_after x).pending ≡ x.0.pending)
unfolding collected_after take_send
collected_after-eq (e, emit_progress k n) = (refl, refl, refl, refl)
collected_after-eq (e, _) = (refl, refl, refl, refl)

fixed-step :
    (e : Enroll) (r : List ℕ) → ((step e r).0.needed ≡ e.needed) × ((step e r).0.slot ≡ e.slot)
unfolding step parse
fixed-step e r = (ground arith, ground arith)

run-Inv : (e : Enroll) (rs : List (List ℕ)) → Inv e → Inv (run e rs)
unfolding run
run-Inv e [] v = v
run-Inv e (r ∷ rs) v =
    run-Inv (collected_after (step e r)) rs (collected_after-Inv (step e r) (step-Inv e r v))

run-collected :
    (e : Enroll) (rs : List (List ℕ))
    → ((run e rs).collected ≤ e.collected + touches e rs)
      × ((run e rs).needed ≡ e.needed)
      × ((run e rs).slot ≡ e.slot)
unfolding run touches
run-collected e [] = (omega arith, refl, refl)
run-collected e (r ∷ rs) =
    let ih = run-collected (collected_after (step e r)) rs in
    let same = collected_after-eq (step e r) in
    let keep = fixed-step e r in
    (
      ground (arith, ih, same, keep, collected-step e r),
      ground (arith, ih, same, keep),
      ground (arith, ih, same, keep),
    )

-- An enrollment that ends in success names its own slot, and of the replies to its commands for a
-- touch at least as many are accepted ones as there are stages; the reply to the commit is not counted.
pub done_needs_samples :
    (slot total id : ℕ) (rs : List (List ℕ))
    → slot < 256
    → total < 256
    → (run (start (with_total slot total)).0 rs).state ≡ done id
    → (id ≡ slot) × (total ≤ touches (start (with_total slot total)).0 rs)
unfolding start with_total
done_needs_samples slot total id rs hs ht h =
    let first = (start (with_total slot total)).0 in
    let v = (run-Inv first rs (start-Inv slot total hs ht)).stored id h in
    let k = run-collected first rs in (ground (arith, v, k), omega (arith, v, k))

-- A touch during sampling: an accepted one counts, a rejected one changes nothing.
step-touch :
    (e : Enroll) (r : List ℕ)
    → e.pending ≡ some Pending.sample
    → e.collected + (if accepted r then 1 else 0) < e.needed
    → e.needed < 256
    → (accepted r || rejected r) ≡ true
    → let n = (step e r).0 in
      (n.pending ≡ some Pending.sample)
      × (n.collected ≡ e.collected + (if accepted r then 1 else 0))
unfolding step parse classify is_retry
step-touch e r p lt b t = (ground arith, ground arith)

abbrev pub IsTouch : List ℕ → Type 0
IsTouch r = (accepted r || rejected r) ≡ true

run-touches :
    (e : Enroll) (rs : List (List ℕ))
    → e.pending ≡ some Pending.sample
    → e.collected + accepts rs < e.needed
    → e.needed < 256
    → All IsTouch rs
    → ((run e rs).pending ≡ some Pending.sample) × ((run e rs).collected ≡ e.collected + accepts rs)
unfolding run
run-touches e [] p lt b t = (p, omega arith)
run-touches e (r ∷ rs) p lt b t =
    let same = collected_after-eq (step e r) in
    let keep = fixed-step e r in
    let one = step-touch e r p (ground arith) b t.0 in
    let ih =
      run-touches (collected_after (step e r)) rs (ground (arith, same, one))
        (ground (arith, same, one, keep)) (ground (arith, same, keep)) t.1 in
    (ih.0, ground (arith, ih, same, one))

run-append : (e : Enroll) (xs ys : List (List ℕ)) → run e (xs ++ ys) ≡ run (run e xs) ys
unfolding run
run-append e [] ys = refl
run-append e (x ∷ xs) ys = run-append (collected_after (step e x)) xs ys

step-full :
    (e : Enroll) (r : List ℕ)
    → e.pending ≡ some Pending.sample
    → e.collected + 1 ≡ e.needed
    → e.needed < 256
    → accepted r ≡ true
    → (step e r).0.pending ≡ some Pending.collision
unfolding step parse classify
step-full e r p c b t = ground arith

step-clear :
    (e : Enroll) (r : List ℕ)
    → e.pending ≡ some Pending.collision
    → length r ≡ 3
    → byte r 1 ≡ 0
    → (step e r).0.pending ≡ some Pending.commit
unfolding step parse
step-clear e r p l z = ground arith

step-stored :
    (e : Enroll) (r : List ℕ)
    → e.pending ≡ some Pending.commit
    → accepted r ≡ true
    → (collected_after (step e r)).state ≡ done e.slot
unfolding step parse classify collected_after commit_blank
step-stored e r p t = ground arith

finishes :
    (e : Enroll) (last clear stored : List ℕ)
    → e.pending ≡ some Pending.sample
    → e.collected + 1 ≡ e.needed
    → e.needed < 256
    → accepted last ≡ true
    → length clear ≡ 3
    → byte clear 1 ≡ 0
    → accepted stored ≡ true
    → (run e (last ∷ clear ∷ stored ∷ [])).state ≡ done e.slot
unfolding run
finishes e last clear stored p n b l c z k =
    let e₁ = collected_after (step e last) in
    let e₂ = collected_after (step e₁ clear) in
    let p₁ = (collected_after-eq (step e last)).3 ∙ step-full e last p n b l in
    let p₂ = (collected_after-eq (step e₁ clear)).3 ∙ step-clear e₁ clear p₁ c z in
    let s₁ = (collected_after-eq (step e last)).2 ∙ (fixed-step e last).1 in
    let s₂ = (collected_after-eq (step e₁ clear)).2 ∙ (fixed-step e₁ clear).1 in
    step-stored e₂ stored p₂ k ∙ ap done (s₂ ∙ s₁)

-- An enrollment succeeds: if every touch is accepted or asked for again, the last of as many
-- accepted touches as there are stages comes last, the collision check finds nothing and the
-- commit is accepted, then the machine ends in success at its slot.
pub enroll_completes :
    (slot total : ℕ) (touches : List (List ℕ)) (last clear stored : List ℕ)
    → slot < 256
    → total < 256
    → All IsTouch touches
    → accepts touches + 1 ≡ total
    → accepted last ≡ true
    → length clear ≡ 3
    → byte clear 1 ≡ 0
    → accepted stored ≡ true
    → (run (start (with_total slot total)).0 (touches ++ last ∷ clear ∷ stored ∷ [])).state
      ≡ done slot
unfolding start with_total
enroll_completes slot total touches last clear stored hs ht t n l c z k =
    let first = (start (with_total slot total)).0 in
    let begun : (first.pending ≡ some Pending.sample)
        × (first.collected ≡ 0)
        × (first.needed ≡ total) =
      unfold start with_total in (refl, refl, refl) in
    let got =
      run-touches first touches begun.0 (omega (arith, begun.1, begun.2)) (omega (arith, begun.2))
        t in
    let kept = run-collected first touches in
    rw (run-append first touches (last ∷ clear ∷ stored ∷ [])) (
      finishes (run first touches) last clear stored got.0 (omega (arith, got.1, kept, begun))
        (omega (arith, kept, begun)) l c z k
      ∙ ap done kept.2)
