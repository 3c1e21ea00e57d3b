-- ===== src/Login/App/Shown.antt =====
-- crates/elanprint-login: what the window shows of a verification, from the bus through the client and
-- the channel to the screen.
use elanprint_rs.Prelude.{
  ◌≡◌, ◌≢◌, refl, sym, ap, ◌∙◌, subst, Bool, true, false, List, [], ◌∷◌, ◌++◌, Option, none, some,
  String, ◌||◌, arith,
}
use elanprint_rs.Login.Client.{
  AuthEvent, Bus, waiting, operate, request, attempt, emit, ◌>>=◌, friendly, is_named,
}
use elanprint_rs.Login.Client.Runs.{VerifyNext, verify}
use elanprint_rs.Login.Client.Verdict.{
  Verdict, Ending, judged, broken, ending, verdicts, first_error, unused, verify-ending,
}
use elanprint_rs.Login.App.{Screen, LoginApp}
use elanprint_rs.Login.App.Polling.{on_event, read_events, poll_events, poll, sent}
use mathlib.Core.List.{reverse, reverse-cons}

abbrev pub screen_for : Verdict → Screen
screen_for Verdict.granted = Screen.granted
screen_for Verdict.denied = Screen.denied
screen_for Verdict.locked = Screen.locked
screen_for Verdict.failed = Screen.failed

-- The screen after these verdicts, the newest in front.
abbrev latest : List Verdict → Screen → Screen
latest [] s = s
latest (v ∷ vs) s = screen_for v

read-snoc :
    (es : List AuthEvent) (e : AuthEvent) (over : Bool) (a : LoginApp)
    → read_events (es ++ (e ∷ [])) over a
      ≡ (let (b, ended) = read_events es over a in ((on_event e b).0, ended || (on_event e b).1))
unfolding read_events
read-snoc [] e over a = refl
read-snoc (x ∷ es) e over a = read-snoc es e (over || (on_event x a).1) (on_event x a).0

read-reverse :
    (e : AuthEvent) (es : List AuthEvent) (over : Bool) (a : LoginApp)
    → read_events (reverse (e ∷ es)) over a ≡ (
        let (b, ended) = read_events (reverse es) over a in
        ((on_event e b).0, ended || (on_event e b).1))
read-reverse e es over a =
    subst
      (λ l. read_events l over a ≡ (
        let (b, ended) = read_events (reverse es) over a in
        ((on_event e b).0, ended || (on_event e b).1)))
      (sym (reverse-cons e es)) (read-snoc (reverse es) e over a)

read-screen :
    (es : List AuthEvent) (over : Bool) (a : LoginApp)
    → (read_events (reverse es) over a).0.screen ≡ latest (verdicts es) a.screen
unfolding read_events on_event
read-screen [] over a = refl
read-screen (e ∷ es) over a =
    ground (arith, ap (λ x. x.0.screen) (read-reverse e es over a), read-screen es over a)

-- The event that a run sends last.
abbrev is_last : AuthEvent → Bool
is_last (AuthEvent.failed text) = true
is_last AuthEvent.finished = true
is_last _ = false

read-over :
    (e : AuthEvent) (es : List AuthEvent) (over : Bool) (a : LoginApp)
    → is_last e ≡ true
    → (read_events (reverse (e ∷ es)) over a).1 ≡ true
unfolding on_event
read-over e es over a h = ground (arith, ap (λ x. x.1) (read-reverse e es over a))

-- A poll of a window whose run has sent its last event.
poll-last :
    (e : AuthEvent) (es : List AuthEvent) (a : LoginApp)
    → is_last e ≡ true
    → (poll_events (some (reverse (e ∷ es))) a).events ≡ none
unfolding poll_events
poll-last e es a h = ground (arith, read-over e es false a)

poll-screen :
    (es : List AuthEvent) (a : LoginApp)
    → (poll_events (some (reverse es)) a).screen ≡ latest (verdicts es) a.screen
unfolding poll_events
poll-screen es a = ground (arith, read-screen es false a)

abbrev ends_last : List AuthEvent → Bool
ends_last [] = false
ends_last (e ∷ es) = is_last e

verify-last :
    (bus : Bus) (user name : String) (nexts : List VerifyNext)
    → (verify bus user name nexts unused).0 ≢ waiting
    → ends_last (sent (verify bus user name nexts unused)) ≡ true
unfolding verify operate request attempt emit ◌>>=◌ sent
verify-last bus user name nexts over = ground arith

broken-last :
    (bus : Bus) (user name : String) (nexts : List VerifyNext)
    → first_error bus 5 0 ≡ none
    → ending nexts ≡ some broken
    → ends_last (verify bus user name nexts unused).1.events ≡ true
unfolding verify operate request attempt emit ◌>>=◌ first_error
broken-last bus user name nexts f b = ground (arith, verify-ending bus user name nexts)

poll-ends_last :
    (es : List AuthEvent) (a : LoginApp)
    → ends_last es ≡ true
    → (poll_events (some (reverse es)) a).events ≡ none
poll-ends_last [] a h = absurd (cc h)
poll-ends_last (e ∷ es) a h = poll-last e es a h

-- The screen that an ending leads to.
abbrev pub screen_after : Option Ending → Screen
screen_after (some (judged v)) = screen_for v
screen_after (some broken) = Screen.failed
screen_after _ = Screen.waiting

abbrev pub final_screen : Bus → List VerifyNext → Screen
final_screen bus nexts = elim (first_error bus 5 0) [
  | none ↦ screen_after (ending nexts)
  | some e ↦ Screen.failed
]

sent-latest :
    (bus : Bus) (user name : String) (nexts : List VerifyNext)
    → (verify bus user name nexts unused).0 ≢ waiting
    → latest (verdicts (sent (verify bus user name nexts unused))) Screen.waiting
      ≡ final_screen bus nexts
unfolding sent
sent-latest bus user name nexts over = ground (arith, verify-ending bus user name nexts)

-- A window that waits for a verification and has nothing else under way.
pub record IsWaiting (a : LoginApp) (es : List AuthEvent) : Type 0 where
  pub screen : a.screen ≡ Screen.waiting
  pub events : a.events ≡ some (reverse es)
  pub enroll_events : a.enroll_events ≡ none
  pub list_pending : a.list_pending ≡ none
  pub pending : a.pending ≡ none

poll-waiting :
    (a : LoginApp) (es : List AuthEvent)
    → IsWaiting a es
    → poll a ≡ poll_events (some (reverse es)) a
unfolding poll
poll-waiting a es h = ground arith

-- After one poll that reads, at once, all that a finished verification has sent, with none of it read
-- before and nothing else under way, the screen shows what the first deciding status says: it is granted
-- just for a final "verify-match". An error of the bus, before the signals or in one of them, shows as
-- failed. But a run that ends with the stream of signals, or is stopped, leaves the screen waiting for a
-- touch. In each case no run is left whose events
-- the window reads.
pub verify-poll :
    (bus : Bus) (user name : String) (nexts : List VerifyNext) (a : LoginApp)
    → (verify bus user name nexts unused).0 ≢ waiting
    → IsWaiting a (sent (verify bus user name nexts unused))
    → ((poll a).screen ≡ final_screen bus nexts) × ((poll a).events ≡ none)
verify-poll bus user name nexts a over h =
    let es = sent (verify bus user name nexts unused) in
    let p = poll-waiting a es h in
    (
      ap (λ x. x.screen) p
          ∙ poll-screen es a
          ∙ ap (latest (verdicts es)) h.screen
          ∙ sent-latest bus user name nexts over,
      ap (λ x. x.events) p ∙ poll-ends_last es a (verify-last bus user name nexts over),
    )

-- Where a body does not deserialize and the window polls what has come before the task sends its
-- failure, that failure finds no receiver: nothing is under way, and the screen still waits for a touch.
pub verify-lost :
    (bus : Bus) (user name : String) (nexts : List VerifyNext) (a : LoginApp)
    → first_error bus 5 0 ≡ none
    → ending nexts ≡ some broken
    → IsWaiting a (verify bus user name nexts unused).1.events
    → (sent (verify bus user name nexts unused)
        ≡ AuthEvent.failed "reader error, see log" ∷ (verify bus user name nexts unused).1.events)
      × ((poll a).screen ≡ Screen.waiting)
      × ((poll a).events ≡ none)
unfolding sent friendly is_named
verify-lost bus user name nexts a f b h =
    let es = (verify bus user name nexts unused).1.events in
    let p = poll-waiting a es h in
    let v = verify-ending bus user name nexts in
    (
      ground (arith, v),
      ap (λ x. x.screen) p ∙ poll-screen es a ∙ ground (arith, v, h.screen),
      ap (λ x. x.events) p ∙ poll-ends_last es a (broken-last bus user name nexts f b),
    )
