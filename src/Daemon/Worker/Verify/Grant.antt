-- ===== src/Daemon/Worker/Verify/Grant.antt =====
-- crates/elanprintd/src/worker.rs: one touch of `Worker::verify`, and what its match event rests on.
use elanprint_rs.Prelude.{
  inl, inr, ℕ, ◌<◌, String, ◌≡◌, ◌≢◌, refl, sym, subst, ◌∙◌, ◌⊎◌, inr, true, List, [], ◌∷◌, Option,
  none, some, Result, ok, err, arith, length, All, str_eq_iff, map_err,
}
use elanprint_rs.Prelude.BTreeMap.{number_ord, get}
use elanprint_rs.Proto.Status.{ProtoError, VerifyOutcome, match, classify, verify_outcome}
use elanprint_rs.Proto.Status.Codes.{verify_outcome-match}
use elanprint_rs.Proto.Command.{Command}
use elanprint_rs.Proto.Response.{Response, byte, parse}
use elanprint_rs.Algo.Strings.{
  verify_match, verify_no_match, verify_unknown_error, verify_status, verify_status-match,
}
use elanprint_rs.Usb.{UsbError, short_read}
use elanprint_rs.Daemon.Machine.{
  OpEvent, verify_finger_selected, proto, Traffic, opened, sent, Machine,
}
use elanprint_rs.Daemon.Exec.{◌>>◌, pure, modify}
use elanprint_rs.Daemon.Exec.Triple.{Triple, Triple-pure, Triple-bind}
use elanprint_rs.Daemon.Worker.Device.{emit}
use elanprint_rs.Daemon.Worker.Verify.{Allowed, or_unknown, judged, touched, touch_frame}

-- The bytes that came with an answer, complete or cut short.
abbrev pub carried : Result (List ℕ) UsbError → List ℕ
carried (ok bytes) = bytes
carried (err (short_read wanted got bytes)) = bytes
carried (err _) = []

-- The chip has answered a wait for a touch with these bytes.
abbrev pub Answered : List ℕ → List Traffic → Type 0
Answered raw [] = ⊥
Answered raw (opened ∷ log) = Answered raw log
Answered raw (sent f r ∷ log) = ((f ≡ touch_frame) × (carried r ≡ raw)) ⊎ Answered raw log

-- Two bytes with the number of the slot in the second.
abbrev pub Reported : ℕ → List Traffic → Type 0
Reported id log =
    (raw : List ℕ) × Answered raw log × (length raw ≡ 2) × (byte raw 1 ≡ id) × (id < 16)

-- What the event "verify-match" must rest on.
abbrev pub Justified : (String → ℕ → Type 0) → List Traffic → OpEvent → Type 0
Justified owner log (OpEvent.verify_status result over) =
    (result ≢ verify_match) ⊎ ((id : ℕ) × (name : String) × owner name id × Reported id log)
Justified owner log _ = Unit

Answered-later :
    (raw : List ℕ) (t : Traffic) (log : List Traffic) → Answered raw log → Answered raw (t ∷ log)
Answered-later raw opened log h = h
Answered-later raw (sent f r) log h = inr h

Justified-later :
    (owner : String → ℕ → Type 0) (t : Traffic) (log : List Traffic) (e : OpEvent)
    → Justified owner log e
    → Justified owner (t ∷ log) e
Justified-later owner t log (OpEvent.verify_status result over) (inl other) = inl other
Justified-later owner t log (OpEvent.verify_status result over)
      (inr (id, name, o, (raw, a, two, b, below))) =
    inr (id, name, o, (raw, Answered-later raw t log a, two, b, below))
Justified-later owner t log _ h = tt

pub All-later :
    (owner : String → ℕ → Type 0) (t : Traffic) (log : List Traffic) (es : List OpEvent)
    → All (Justified owner log) es
    → All (Justified owner (t ∷ log)) es
All-later owner t log [] h = tt
All-later owner t log (e ∷ es) h = (Justified-later owner t log e h.0, All-later owner t log es h.1)

string_is-match : (o : Option String) → or_unknown o ≡ verify_match → o ≡ some verify_match
unfolding or_unknown
string_is-match none h = absurd (ground (arith, h, str_eq_iff verify_unknown_error verify_match))
string_is-match (some s) h = ground (arith, h)

no_match-ne : verify_no_match ≢ verify_match
no_match-ne h = ground (arith, h, str_eq_iff verify_no_match verify_match)

-- The string that a touch ends with is "verify-match" only for a byte below 16, which is then a
-- match of that slot.
match_string : (b : ℕ) → or_unknown (verify_status (classify b)) ≡ verify_match → b < 16
match_string b h = (verify_status-match b).0.0 (string_is-match _ h)

-- What the parser makes of a touch.
map_err-ok : (r : Result Response ProtoError) (a : Response) → map_err proto r ≡ ok a → r ≡ ok a
map_err-ok (ok b) a h = ground (arith, h)
map_err-ok (err e) a h = absurd (cc h)

parsed-verify :
    (raw : List ℕ) (reply : Response)
    → parse Command.verify raw ≡ ok reply
    → (length raw ≡ 2) × (reply ≡ Response.verify (byte raw 0) (classify (byte raw 1)))
unfolding parse
parsed-verify raw reply h = (ground arith, ground arith)

-- The chip's answer, while a condition holds.
abbrev pub After : (Machine → Type 0) → List ℕ → Machine → Type 0
After I raw m = I m × Answered raw m.log

module _ (owner : String → ℕ → Type 0) (allowed : Allowed)
    (owned : (id : ℕ) (name : String) → get id allowed ≡ some name → owner name id)
    (I : Machine → Type 0)
    (emits : (m : Machine) (e : OpEvent) → Justified owner m.log e → I m → I (emit e m).1) where
  Fair : String → Machine → Type 0
  Fair result m = I m × Justified owner m.log (OpEvent.verify_status result true)

  emit-Keeps :
      (e : OpEvent) (J : Machine → Type 0)
      → ((m : Machine) → J m → I m × Justified owner m.log e)
      → Triple J (emit e) (λ _. I) I
  unfolding emit modify
  emit-Keeps e J h = record { at = λ m j. emits m e (h m j).1 (h m j).0 }

  select-After :
      (raw : List ℕ) (name : String)
      → Triple (After I raw) (emit (verify_finger_selected name)) (λ _. After I raw) I
  unfolding emit modify
  select-After raw name = record { at = λ m j. (emits m (verify_finger_selected name) tt j.0, j.1) }

  selected-Fair :
      (raw : List ℕ) (id : ℕ) (o : Option String) (result : String)
      → length raw ≡ 2
      → (byte raw 1 ≡ id) × (id < 16)
      → get id allowed ≡ o
      → Triple
          (After I raw)
          (elim o [
            | some name ↦ emit (verify_finger_selected name) >> pure result
            | none ↦ pure verify_no_match
          ])
          Fair
          I
  unfolding Fair
  selected-Fair raw id (some name) result two b e =
      Triple-bind (emit (verify_finger_selected name)) _ (select-After raw name) λ _.
        Triple-pure result λ m a. (a.0, inr (id, name, owned id name e, (raw, a.1, two, b.0, b.1)))
  selected-Fair raw id none result two b e =
      Triple-pure verify_no_match λ m a. (a.0, inl no_match-ne)

  other-Fair :
      (raw : List ℕ) (o : Result VerifyOutcome ProtoError) (result : String)
      → ((id : ℕ) → o ≢ ok (match id))
      → verify_outcome (classify (byte raw 1)) ≡ o
      → or_unknown (verify_status (classify (byte raw 1))) ≡ result
      → Triple (After I raw) (pure result) Fair I
  unfolding Fair
  other-Fair raw o result never e r = Triple-pure result λ m a. (a.0, inl no_match_string)
    where
      no_match_string : result ≢ verify_match
      no_match_string x = never (byte raw 1) (
          sym e
          ∙ (verify_outcome-match (byte raw 1) (byte raw 1)).1
              (refl, match_string (byte raw 1) (r ∙ x)))

  judged-Fair :
      (raw : List ℕ) (o : Result VerifyOutcome ProtoError) (result : String)
      → length raw ≡ 2
      → verify_outcome (classify (byte raw 1)) ≡ o
      → or_unknown (verify_status (classify (byte raw 1))) ≡ result
      → Triple (After I raw) (judged allowed o result) Fair I
  unfolding judged
  judged-Fair raw (ok (match id)) result two o r =
      selected-Fair raw id (get id allowed) result two ((verify_outcome-match (byte raw 1) id).0 o)
        refl
  judged-Fair raw (ok _) result two o r = other-Fair raw _ result (λ id h. cc h) o r
  judged-Fair raw (err e) result two o r = other-Fair raw _ result (λ id h. cc h) o r

  touched-Keeps :
      (raw : List ℕ)
      → length raw ≡ 2
      → Triple
          (After I raw)
          (touched allowed (Response.verify (byte raw 0) (classify (byte raw 1))))
          (λ _. I)
          I
  unfolding touched Fair
  touched-Keeps raw two = Triple-bind _ _ (judged-Fair raw _ _ two refl refl) λ result.
      Triple-bind (emit _) _ (emit-Keeps _ (Fair result) (λ m f. f)) λ _. Triple-pure _ (λ m h. h)

  pub reply-Keeps :
      (raw : List ℕ) (reply : Response)
      → map_err proto (parse Command.verify raw) ≡ ok reply
      → Triple (After I raw) (touched allowed reply) (λ _. I) I
  reply-Keeps raw reply h =
      let got = parsed-verify raw reply (map_err-ok _ reply h) in
      subst (λ r. Triple (After I raw) (touched allowed r) (λ _. I) I) (sym got.1)
        (touched-Keeps raw got.0)
