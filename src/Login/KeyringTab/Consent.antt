-- ===== src/Login/KeyringTab/Consent.antt =====
-- crates/elanprint-login/src/keyring_tab.rs: what the user has done before a thread
-- gives the keyring a new password.
use elanprint_rs.Prelude.{
  ◌≡◌, refl, sym, subst, ◌∙◌, ap, ◌⊎◌, inl, inr, Bool, true, false, List, [], ◌∷◌, Option, none,
  some, Result, ok, err, All, arith, if◌then◌else◌,
}
use elanprint_rs.Prelude.Text.{same, same→eq, trim}
use elanprint_rs.Login.KeyringTab.{
  Text, Stage, idle, saved, rekey, Job, provisioned, Inbox, empty, message, disconnected, Work,
  change_password, rotate_key, confirm_rotate, start_rotate, rotate_answer, spawn, KeyringTab, Look,
  new_tab, poll,
}
use elanprint_rs.Login.KeyringTab.Runs.{
  Input, clicked, polled, answered, rekeyed, rotation, hung_up, rekey_hung_up, deliver, step,
  Reached, opened, after,
}
use elanprint_rs.Login.KeyringTab.Clicks.{
  is_blank, Click, types, saved_it, on_saved, replace_key, replace_now, cancel, on_confirm_rotate,
  at_stage, keyring_controls,
}

-- A thread has answered with this secret.
abbrev pub Answered : Text → List Input → Type 0
Answered secret [] = ⊥
Answered secret (i ∷ h) = (i ≡ answered (ok (provisioned secret))) ⊎ Answered secret h

-- The user has typed this text.
abbrev pub Typed : Text → List Input → Type 0
Typed text [] = ⊥
Typed text (i ∷ h) = (i ≡ clicked (types text)) ⊎ Typed text h

-- The secret came from a thread, and it is empty or the user has typed it back, spaces around it aside.
abbrev pub Agreed : Text → List Input → Type 0
Agreed secret h =
    Answered secret h × ((trim [] ≡ secret) ⊎ ((text : Text) × Typed text h × (trim text ≡ secret)))

-- The user has clicked this button.
abbrev pub Clicked : Click → List Input → Type 0
Clicked c [] = ⊥
Clicked c (i ∷ h) = (i ≡ clicked c) ⊎ Clicked c h

-- The user has asked for a new key and then confirmed it.
abbrev pub Replaced : List Input → Type 0
Replaced [] = ⊥
Replaced (i ∷ h) = ((i ≡ clicked replace_now) × Clicked replace_key h) ⊎ Replaced h

abbrev AtStage : Stage → List Input → Type 0
AtStage confirm_rotate h = Clicked replace_key h
AtStage (saved secret typed) h = Answered secret h × ((typed ≡ []) ⊎ Typed typed h)
AtStage (rekey secret password) h = Agreed secret h
AtStage _ h = Unit

abbrev InBox : Option (Inbox (Result Job Text)) → List Input → Type 0
InBox (some (message (ok (provisioned secret)))) h = Answered secret h
InBox _ h = Unit

-- What has come before a thread that gives the keyring a new password: one that changes it to the secret
-- of a provisioning, or one that seals a new secret and changes it to that, with the old one.
abbrev pub IsAllowed : List Input → Work → Type 0
IsAllowed h (change_password secret password) = Agreed secret h × (is_blank password ≡ false)
IsAllowed h rotate_key = Replaced h
IsAllowed h _ = Unit

record IsKept (h : List Input) (t : KeyringTab) : Type 0 where
  at_stage : AtStage t.stage h
  in_box : InBox t.job h
  works : All (IsAllowed h) t.spawned

Agreed-later : (s : Text) (h : List Input) (i : Input) → Agreed s h → Agreed s (i ∷ h)
Agreed-later s h i (a, inl e) = (inr a, inl e)
Agreed-later s h i (a, inr (x, y, e)) = (inr a, inr (x, inr y, e))

AtStage-later : (s : Stage) (h : List Input) (i : Input) → AtStage s h → AtStage s (i ∷ h)
AtStage-later (saved secret typed) h i (a, inl e) = (inr a, inl e)
AtStage-later (saved secret typed) h i (a, inr e) = (inr a, inr (inr e))
AtStage-later (rekey secret password) h i a = Agreed-later secret h i a
AtStage-later confirm_rotate h i a = inr a
AtStage-later _ h i a = tt

InBox-later :
    (b : Option (Inbox (Result Job Text))) (h : List Input) (i : Input)
    → InBox b h
    → InBox b (i ∷ h)
InBox-later (some (message (ok (provisioned secret)))) h i a = inr a
InBox-later _ h i a = tt

works-later :
    (ws : List Work) (h : List Input) (i : Input)
    → All (IsAllowed h) ws
    → All (IsAllowed (i ∷ h)) ws
works-later [] h i a = tt
works-later (change_password s p ∷ ws) h i a =
    ((Agreed-later s h i a.0.0, a.0.1), works-later ws h i a.1)
works-later (rotate_key ∷ ws) h i a = (inr a.0, works-later ws h i a.1)
works-later (_ ∷ ws) h i a = (tt, works-later ws h i a.1)

later : {h : List Input} {t : KeyringTab} (i : Input) → IsKept h t → IsKept (i ∷ h) t
later {h} {t} i k = record {
  at_stage = AtStage-later t.stage h i k.at_stage;
  in_box = InBox-later t.job h i k.in_box;
  works = works-later t.spawned h i k.works;
}

poll-IsKept : (look : Look) (h : List Input) (t : KeyringTab) → IsKept h t → IsKept h (poll look t)
unfolding poll
poll-IsKept look h t k = ground arith

agree :
    (secret typed : Text) (h : List Input)
    → AtStage (saved secret typed) h
    → same (trim typed) secret ≡ true
    → Agreed secret h
agree secret typed h (a, inl none_yet) e =
    (a, inl (ap trim (sym none_yet) ∙ same→eq (trim typed) secret e))
agree secret typed h (a, inr by_hand) e = (a, inr (typed, by_hand, same→eq (trim typed) secret e))

stage_kept :
    {h : List Input} {t : KeyringTab} (s : Stage)
    → IsKept h t
    → AtStage s h
    → IsKept h (record t { stage = s })
stage_kept s k a = record { at_stage = a; in_box = k.in_box; works = k.works }

saved-IsKept :
    (secret typed : Text) (c : Click) (h : List Input) (t : KeyringTab)
    → AtStage (saved secret typed) (clicked c ∷ h)
    → IsKept (clicked c ∷ h) t
    → IsKept (clicked c ∷ h) (on_saved secret typed c t)
unfolding on_saved
saved-IsKept secret typed (types text) h t a k =
    stage_kept (saved secret text) k (a.0, inr (inl refl))
saved-IsKept secret typed saved_it h t a k = by_test (same (trim typed) secret) refl
  where
    by_test :
        (b : Bool)
        → same (trim typed) secret ≡ b
        → IsKept (clicked saved_it ∷ h) (if b then record t { stage = rekey secret [] } else t)
    by_test true e = stage_kept (rekey secret []) k (agree secret typed (clicked saved_it ∷ h) a e)
    by_test false e = k
saved-IsKept secret typed _ h t a k = k

confirmed : (h : List Input) → Clicked replace_key (clicked replace_now ∷ h) → Clicked replace_key h
confirmed h (inl e) = absurd (cc e)
confirmed h (inr before) = before

rotate-IsKept :
    (c : Click) (h : List Input) (t : KeyringTab)
    → Clicked replace_key (clicked c ∷ h)
    → IsKept (clicked c ∷ h) t
    → IsKept (clicked c ∷ h) (on_confirm_rotate c t)
unfolding on_confirm_rotate start_rotate spawn
rotate-IsKept replace_now h t a k = record {
  at_stage = tt;
  in_box = tt;
  works = (inl (refl, confirmed h a), k.works);
}
rotate-IsKept cancel h t a k = stage_kept idle k tt
rotate-IsKept _ h t a k = k

click-IsKept :
    (s : Stage) (look : Look) (c : Click) (h : List Input) (t : KeyringTab)
    → t.stage ≡ s
    → IsKept (clicked c ∷ h) t
    → IsKept (clicked c ∷ h) (at_stage s look c t)
unfolding at_stage
click-IsKept idle look c h t e k = ground arith
click-IsKept (saved secret typed) look c h t e k =
    saved-IsKept secret typed c h t (subst (λ s. AtStage s (clicked c ∷ h)) e k.at_stage) k
click-IsKept confirm_rotate look c h t e k =
    rotate-IsKept c h t (subst (λ s. AtStage s (clicked c ∷ h)) e k.at_stage) k
click-IsKept _ look c h t e k = ground arith

-- A rotation never answers as a provisioning.
rotation-InBox :
    (sealed : Result (Text × Text) Text) (changed : Result (Unit {0}) Text) (restored : Bool)
    (b : Option (Inbox (Result Job Text))) (h : List Input)
    → InBox b h
    → InBox (deliver (rotate_answer sealed changed restored) b) h
unfolding deliver rotate_answer
rotation-InBox (err e) changed restored (some empty) h k = tt
rotation-InBox (ok pair) (ok u) restored (some empty) h k = tt
rotation-InBox (ok pair) (err e) true (some empty) h k = tt
rotation-InBox (ok pair) (err e) false (some empty) h k = tt
rotation-InBox sealed changed restored (some (message r)) h k = k
rotation-InBox sealed changed restored (some disconnected) h k = k
rotation-InBox sealed changed restored none h k = k

step-IsKept :
    (look : Look) (i : Input) (h : List Input) (t : KeyringTab)
    → IsKept h t
    → IsKept (i ∷ h) (step look i t)
unfolding step keyring_controls
step-IsKept look (clicked c) h t k = click-IsKept t.stage look c h t refl (later (clicked c) k)
step-IsKept look polled h t k = poll-IsKept look (polled ∷ h) t (later polled k)
step-IsKept look (answered (ok (provisioned s))) h t k =
    let l = later (answered (ok (provisioned s))) k in ground arith
step-IsKept look (answered r) h t k = let l = later (answered r) k in ground arith
step-IsKept look (rekeyed r) h t k = let l = later (rekeyed r) k in ground arith
step-IsKept look (rotation sealed changed restored) h t k =
    let l = later (rotation sealed changed restored) k in
    record {
      at_stage = l.at_stage;
      in_box = rotation-InBox sealed changed restored t.job _ l.in_box;
      works = l.works;
    }
step-IsKept look hung_up h t k = let l = later hung_up k in ground arith
step-IsKept look rekey_hung_up h t k = let l = later rekey_hung_up k in ground arith

Reached-IsKept : {h : List Input} {t : KeyringTab} → Reached h t → IsKept h t
unfolding new_tab
Reached-IsKept (opened look) = record { at_stage = tt; in_box = tt; works = tt }
Reached-IsKept (after {h} {t} r look i) = step-IsKept look i h t (Reached-IsKept r)

-- Whatever the user clicks and types, and whatever the threads answer, in whatever order, a thread is
-- spawned that gives the keyring a new password in two cases only. It is given the secret that a
-- provisioning has answered with, after the user has typed it back, spaces around it aside (or it is
-- empty), and a current password that is not empty; or it replaces the key by a rotation, after the
-- user has asked for that and then confirmed it, with nothing typed.
pub Reached-IsAllowed :
    {h : List Input} {t : KeyringTab} → Reached h t → All (IsAllowed h) t.spawned
Reached-IsAllowed r = (Reached-IsKept r).works
