-- ===== src/Cli/Session.antt =====
-- crates/elanprint-cli/src/main.rs: what `session` and `wipe_device` send, and when.
use elanprint_rs.Prelude.{
  ℕ, ◌≡◌, ◌≢◌, refl, ap, ◌∙◌, ◌⊎◌, inl, inr, true, false, List, [], ◌∷◌, Option, none, some, ok,
  arith, ◌==◌,
}
use elanprint_rs.Prelude.Text.{codes, same, same→eq, trim}
use elanprint_rs.Proto.Command.{Command, enrolled_num, wipe_all, abort, encode}
use elanprint_rs.Proto.Response.{Response, parse}
use elanprint_rs.Cli.{
  Desk, Exchange, Tool, Outcome, done, Job, ◌>>=◌, return, bail, lift, exchange, kept, send,
  count_of, enrolled_count, session, wipe_device,
}

-- The bytes of a command are among those sent.
abbrev pub Sent : Command → List Exchange → Type 0
Sent c [] = ⊥
Sent c (e ∷ es) = (e.out ≡ encode c) ⊎ Sent c es

-- The answer of an exchange reads as a count.
abbrev pub Counts : ℕ → Exchange → Type 0
Counts n e =
    (e.out ≡ encode enrolled_num)
    × ((raw : List ℕ) × (kept enrolled_num e.reply ≡ ok raw)
        × (parse enrolled_num raw ≡ ok (Response.enrolled_num n)))

module _ (desk : Desk) where
  abbrev entry : Command → Tool → Exchange
  entry c t = record { out = encode c; reply = desk.answers t.clock }

  send-log : (c : Command) (t : Tool) → (send desk c t).1.log ≡ entry c t ∷ t.log
  unfolding send exchange ◌>>=◌ lift return
  send-log c t = ground arith

  count-log : (t : Tool) → (enrolled_count desk t).1.log ≡ entry enrolled_num t ∷ t.log
  unfolding enrolled_count ◌>>=◌ return bail
  count-log t = ground (arith, send-log enrolled_num t)

  send-parsed :
      (c : Command) (t : Tool) (p : List ℕ × Response)
      → (send desk c t).0 ≡ done p
      → (kept c (desk.answers t.clock) ≡ ok p.0) × (parse c p.0 ≡ ok p.1)
  unfolding send exchange ◌>>=◌ lift return
  send-parsed c t p e = (ground arith, ground arith)

  count-Counts :
      (n : ℕ) (t : Tool) → (enrolled_count desk t).0 ≡ done n → Counts n (entry enrolled_num t)
  unfolding enrolled_count count_of ◌>>=◌ return bail
  count-Counts n t e = by_send (send desk enrolled_num t).0 refl e
    where
      by_reply :
          (raw : List ℕ) (r : Response)
          → kept enrolled_num (desk.answers t.clock) ≡ ok raw
          → parse enrolled_num raw ≡ ok r
          → (count_of r (send desk enrolled_num t).1).0 ≡ done n
          → Counts n (entry enrolled_num t)
      by_reply raw (Response.enrolled_num m) k q h = (refl, (raw, k, ground arith))
      by_reply raw _ k q h = absurd (cc h)

      by_send :
          (r : Outcome (List ℕ × Response))
          → (send desk enrolled_num t).0 ≡ r
          → (enrolled_count desk t).0 ≡ done n
          → Counts n (entry enrolled_num t)
      by_send (done p) s h =
          let (k, q) = send-parsed enrolled_num t p s in by_reply p.0 p.1 k q (ground arith)
      by_send _ s h = absurd (ground arith)

  -- The user has typed the word on a terminal.
  abbrev pub Confirmed : Type 0
  Confirmed =
      (desk.is_terminal ≡ true)
      × ((line : List ℕ) × (desk.typed ≡ some line) × (trim line ≡ codes "ERASE"))

  -- The tool up to the confirmation, and after the command.
  abbrev counted : Tool → Tool
  counted t = (enrolled_count desk t).1

  abbrev wiped : Tool → Tool
  wiped t = (send desk wipe_all (counted t)).1

  wipe-Sent :
      (t : Tool)
      → t.log ≡ []
      → Sent wipe_all (wipe_device desk t).1.log
      → (desk.is_terminal ≡ true)
        × ((line : List ℕ) × (desk.typed ≡ some line) × (same (trim line) (codes "ERASE") ≡ true))
        × ((n : ℕ) × ((enrolled_count desk t).0 ≡ done n) × ((n == 0) ≡ false))
  unfolding wipe_device ◌>>=◌ return bail encode
  wipe-Sent t fresh h = by_typed desk.typed (enrolled_count desk t).0 refl refl
    where
      by_typed :
          (o : Option (List ℕ)) (r : Outcome ℕ)
          → desk.typed ≡ o
          → (enrolled_count desk t).0 ≡ r
          → (desk.is_terminal ≡ true)
            × ((line : List ℕ) × (desk.typed ≡ some line)
                × (same (trim line) (codes "ERASE") ≡ true))
            × ((n : ℕ) × ((enrolled_count desk t).0 ≡ done n) × ((n == 0) ≡ false))
      by_typed none r o c = absurd (ground (arith, count-log t))
      by_typed (some line) (done n) o c = (
        ground (arith, count-log t),
        (line, o, ground (arith, count-log t)),
        (n, c, ground (arith, count-log t)),
      )
      by_typed (some line) _ o c = absurd (ground (arith, count-log t))

  session-Sent :
      (job : Job (Unit {0})) (t : Tool)
      → t.log ≡ []
      → Sent wipe_all (session desk job t).1.log
      → Sent wipe_all (job t).1.log
  unfolding session encode
  session-Sent job t fresh h = ground (arith, send-log abort (job t).1)

  session-done :
      (job : Job (Unit {0})) (t : Tool)
      → (session desk job t).0 ≡ done tt
      → ((job t).0 ≡ done tt) × ((session desk job t).1 ≡ (job t).1)
  unfolding session
  session-done job t h = (ground arith, ground arith)

  -- The tool sends the command that erases every template only on a terminal, after the user typed
  -- ERASE there, spaces around it aside, and after the sensor answered a count that is not 0.
  pub wipe-confirmed :
      (t : Tool)
      → t.log ≡ []
      → Sent wipe_all (session desk (wipe_device desk) t).1.log
      → Confirmed × ((n : ℕ) × Counts n (entry enrolled_num t) × (n ≢ 0))
  wipe-confirmed t fresh h =
      let (terminal, (line, typed, word), (n, count, positive)) =
        wipe-Sent t fresh (session-Sent (wipe_device desk) t fresh h) in
      (
        (terminal, (line, typed, same→eq (trim line) (codes "ERASE") word)),
        (n, count-Counts n t count, ground arith),
      )

  wipe-done :
      (t : Tool)
      → (wipe_device desk t).0 ≡ done tt
      → ((wipe_device desk t).1 ≡ counted t) × ((enrolled_count desk t).0 ≡ done 0)
        ⊎ (((wipe_device desk t).1 ≡ counted (wiped t))
            × ((enrolled_count desk (wiped t)).0 ≡ done 0))
  unfolding wipe_device ◌>>=◌ return bail
  wipe-done t h = ground arith

  -- It reports success only where the last thing that the sensor answered is a count of 0.
  wipe-erased :
      (t : Tool)
      → (session desk (wipe_device desk) t).0 ≡ done tt
      → (e : Exchange) × (es : List Exchange) × ((session desk (wipe_device desk) t).1.log ≡ e ∷ es)
        × Counts 0 e
  wipe-erased t h =
      let (d, same) = session-done (wipe_device desk) t h in by_end same (wipe-done t d)
    where
      by_end :
          (session desk (wipe_device desk) t).1 ≡ (wipe_device desk t).1
          → (((wipe_device desk t).1 ≡ counted t) × ((enrolled_count desk t).0 ≡ done 0)
              ⊎ (((wipe_device desk t).1 ≡ counted (wiped t))
                  × ((enrolled_count desk (wiped t)).0 ≡ done 0)))
          → (e : Exchange) × (es : List Exchange) × ((session desk (wipe_device desk) t).1.log
              ≡ e ∷ es)
            × Counts 0 e
      by_end s (inl (u, c)) =
          (entry enrolled_num t, t.log, ap (λ x. x.log) (s ∙ u) ∙ count-log t, count-Counts 0 t c)
      by_end s (inr (u, c)) = (
        entry enrolled_num (wiped t),
        (wiped t).log,
        ap (λ x. x.log) (s ∙ u) ∙ count-log (wiped t),
        count-Counts 0 (wiped t) c,
      )
