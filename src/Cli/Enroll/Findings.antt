-- ===== src/Cli/Enroll/Findings.antt =====
-- `enroll` of crates/elanprint-cli/src/main.rs up to the machine's start: only reads are sent, and the slot
-- gives no record of a template and the finger is not enrolled.
use elanprint_rs.Prelude.{
  ℕ, zero, suc, ◌≡◌, refl, ◌⊎◌, inl, inr, String, Bool, true, false, List, [], ◌∷◌, Result, ok, All,
  arith, if◌then◌else◌,
}
use elanprint_rs.Proto.Status.{Status, not_enrolled}
use elanprint_rs.Proto.Command.{Command, enrolled_num, finger_info, verify, encode}
use elanprint_rs.Proto.Response.{Response, SlotState, enrolled, empty, stuck, error, parse}
use elanprint_rs.Usb.{UsbError}
use elanprint_rs.Store.{is_valid_finger}
use elanprint_rs.Cli.{
  CliError, unknown_finger, Desk, Exchange, Tool, Job, return, bail, lift, exchange, kept, parsed,
  send, enrolled_count, count_of,
}
use elanprint_rs.Cli.Triple.{Triple, Triple-return, Triple-bail, Triple-lift, Triple-bind}
use elanprint_rs.Cli.Enroll.{slot_free, unknown_touch, wait_more, pre_checked, checked}

-- The reads in front of the machine.
abbrev pub IsRead : ℕ → Exchange → Type 0
IsRead slot e =
    (e.out ≡ encode enrolled_num) ⊎ (e.out ≡ encode (finger_info slot)) ⊎ (e.out ≡ encode verify)

-- No 70 byte record of a template: one that reads empty, one of a stuck sensor, or the 2 byte form,
-- which alone does not prove that the slot is free.
abbrev pub IsRecordless : SlotState → Type 0
IsRecordless s = (s ≡ empty) ⊎ (s ≡ stuck) ⊎ ((code : ℕ) × (s ≡ error code))

-- One of the exchanges is a command and an answer that reads as this response.
abbrev pub Answered : Command → Response → List Exchange → Type 0
Answered c r [] = ⊥
Answered c r (e ∷ es) =
    ((e.out ≡ encode c) × ((raw : List ℕ) × (kept c e.reply ≡ ok raw) × (parse c raw ≡ ok r)))
    ⊎ Answered c r es

-- The slot was read, and the answer is no record of a template.
abbrev pub RecordlessSeen : ℕ → List Exchange → Type 0
RecordlessSeen slot es =
    (id : ℕ) × (s : SlotState) × Answered (finger_info slot) (Response.finger_info id s) es
    × IsRecordless s

-- A touch was answered by "not enrolled".
abbrev pub NewSeen : List Exchange → Type 0
NewSeen es = (b : ℕ) × Answered verify (Response.verify b not_enrolled) es

abbrev pub OnlyReads : ℕ → List Exchange → Type 0
OnlyReads slot = All (IsRead slot)

parsed-parse :
    (c : Command) (raw : List ℕ) (r : Response) → parsed c raw ≡ ok r → parse c raw ≡ ok r
unfolding parsed
parsed-parse c raw r e = ground arith

-- Nothing but reads so far, or both findings are in the log.
abbrev pub Fair : ℕ → Tool → Type 0
Fair slot t = OnlyReads slot t.log ⊎ (RecordlessSeen slot t.log × NewSeen t.log)

abbrev pub Reads : ℕ → Tool → Type 0
Reads slot t = OnlyReads slot t.log

abbrev Recordless : ℕ → Tool → Type 0
Recordless slot t = OnlyReads slot t.log × RecordlessSeen slot t.log

abbrev pub Seen : ℕ → Tool → Type 0
Seen slot t = RecordlessSeen slot t.log × NewSeen t.log

module _ (desk : Desk) where
  abbrev pushed : List ℕ → Tool → Tool
  pushed out t = (exchange desk out t).1

  module _ (P F : Tool → Type 0) (Q : List ℕ × Response → Tool → Type 0) (c : Command)
      (sent : (t : Tool) → P t → F (pushed (encode c) t))
      (read : (t : Tool) (p : List ℕ × Response)
        → kept c (desk.answers t.clock) ≡ ok p.0
        → parse c p.0 ≡ ok p.1
        → P t
        → Q p (pushed (encode c) t)) where
    -- What the answer still owes, before it is read.
    abbrev Owes : Result (List ℕ) UsbError → Tool → Type 0
    Owes r t = F t × ((p : List ℕ × Response) → kept c r ≡ ok p.0 → parse c p.0 ≡ ok p.1 → Q p t)

    abbrev OwesParse : List ℕ → Tool → Type 0
    OwesParse raw t = F t × ((r : Response) → parse c raw ≡ ok r → Q (raw, r) t)

    exchange-Triple : Triple P (exchange desk (encode c)) Owes F
    unfolding exchange
    exchange-Triple = record { from = λ t p. (sent t p, λ q k l. read t q k l p) }

    send-Triple : Triple P (send desk c) Q F
    unfolding send
    send-Triple = Triple-bind _ _ exchange-Triple λ r.
        Triple-bind {Q = OwesParse} (lift (kept c r)) _
          (Triple-lift (kept c r) (λ t raw k o. (o.0, λ p l. o.1 (raw, p) k l)) λ t o. o.0)
          λ raw.
            Triple-bind {Q = λ r t. Q (raw, r) t} (lift (parsed c raw)) _
              (Triple-lift (parsed c raw) (λ t p k o. o.1 p (parsed-parse c raw p k)) λ t o. o.0)
              λ p. Triple-return (raw, p) λ t q. q

  module _ (slot : ℕ) where
    abbrev SlotAnswer : List ℕ × Response → Tool → Type 0
    SlotAnswer p t = OnlyReads slot t.log × Answered (finger_info slot) p.1 t.log

    slot_free-Triple :
        (raw : List ℕ) (r : Response)
        → Triple (SlotAnswer (raw, r)) (slot_free slot r) (λ _. Recordless slot) (Fair slot)
    unfolding slot_free bail return
    slot_free-Triple raw (Response.finger_info id (enrolled b)) = Triple-bail _ λ t q. inl q.0
    slot_free-Triple raw (Response.finger_info id empty) =
        Triple-return tt λ t q. (q.0, (id, empty, q.1, inl refl))
    slot_free-Triple raw (Response.finger_info id stuck) =
        Triple-return tt λ t q. (q.0, (id, stuck, q.1, inr (inl refl)))
    slot_free-Triple raw (Response.finger_info id (error code)) =
        Triple-return tt λ t q. (q.0, (id, error code, q.1, inr (inr (code, refl))))
    slot_free-Triple raw _ = Triple-bail _ λ t q. inl q.0

    abbrev TouchAnswer : List ℕ × Response → Tool → Type 0
    TouchAnswer p t = Recordless slot t × Answered verify p.1 t.log

    unknown_touch-Triple :
        (raw : List ℕ) (r : Response) (again : Job (Unit {0}))
        → Triple (Recordless slot) again (λ _. Seen slot) (Fair slot)
        → Triple (TouchAnswer (raw, r)) (unknown_touch r again) (λ _. Seen slot) (Fair slot)
    unfolding unknown_touch
    unknown_touch-Triple raw (Response.verify b not_enrolled) again k =
        Triple-return tt λ t q. (q.0.1, (b, q.1))
    unknown_touch-Triple raw (Response.verify b (Status.retry r)) again k = record {
      from = λ t q. k.from t q.0;
    }
    unknown_touch-Triple raw _ again k = Triple-bail _ λ t q. inl q.0.0

    pre_checked-Triple :
        (touches : ℕ)
        → Triple (Recordless slot) (pre_checked desk touches) (λ _. Seen slot) (Fair slot)
    unfolding pre_checked wait_more exchange
    pre_checked-Triple zero = record { from = λ t q. inl q.0 }
    pre_checked-Triple (suc touches) =
        Triple-bind _ _
          (send-Triple (Recordless slot) (Fair slot) TouchAnswer verify
            (λ t q. inl (inr (inr refl), q.0))
            λ t p k l q.
              let (reads, (id, state, seen, free)) = q in
              (((inr (inr refl), reads), (id, state, inr seen, free)), inl (refl, (p.0, k, l))))
          λ p. unknown_touch-Triple p.0 p.1 _ (pre_checked-Triple touches)

    count_of-Triple :
        (r : Response) → Triple (Reads slot) (count_of r) (λ _. Reads slot) (Fair slot)
    unfolding count_of
    count_of-Triple (Response.enrolled_num n) = Triple-return n λ t q. q
    count_of-Triple _ = Triple-bail _ λ t q. inl q

    enrolled_count-Triple : Triple (Reads slot) (enrolled_count desk) (λ _. Reads slot) (Fair slot)
    unfolding enrolled_count exchange
    enrolled_count-Triple =
        Triple-bind _ _
          (send-Triple (Reads slot) (Fair slot) (λ _. Reads slot) enrolled_num
            (λ t q. inl (inl refl, q)) λ t p k l q. (inl refl, q))
          λ p. count_of-Triple p.1

    slot_read-Triple : Triple (Reads slot) (send desk (finger_info slot)) SlotAnswer (Fair slot)
    unfolding exchange
    slot_read-Triple =
        send-Triple (Reads slot) (Fair slot) SlotAnswer (finger_info slot)
          (λ t q. inl (inr (inl refl), q))
          λ t p k l q. ((inr (inl refl), q), inl (refl, (p.0, k, l)))

    known-Triple :
        (b : Bool) (e : CliError)
        → Triple (Reads slot) (if b then return tt else bail e) (λ _. Reads slot) (Fair slot)
    known-Triple true e = Triple-return tt λ t q. q
    known-Triple false e = Triple-bail e λ t q. inl q

    pub checked-Triple :
        (touches : ℕ) (name : String)
        → Triple (Reads slot) (checked desk touches name slot) (λ _. Seen slot) (Fair slot)
    unfolding checked
    checked-Triple touches name =
        Triple-bind _ _ (known-Triple (is_valid_finger name) (unknown_finger name)) λ _.
          Triple-bind _ _ enrolled_count-Triple λ _.
            Triple-bind _ _ slot_read-Triple
              λ r. Triple-bind _ _ (slot_free-Triple r.0 r.1) λ _. pre_checked-Triple touches
