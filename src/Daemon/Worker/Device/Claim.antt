-- ===== src/Daemon/Worker/Device/Claim.antt =====
-- crates/elanprintd/src/worker.rs: what `Worker::claim`, `release`, `suspend` and `list` do to the
-- claim and to the shared flags.
use elanprint_rs.Prelude.{
  ℕ, ◌+◌, String, ◌≡◌, refl, sym, ◌∙◌, ap, ◌⊎◌, inl, inr, Bool, true, false, [], ◌∷◌, Option, none,
  some, Result, ok, err, str_eq, str_eq_iff, if◌then◌else◌,
}
use elanprint_rs.Prelude.BTreeMap.{text_ord, get}
use elanprint_rs.Proto.Command.{fw_version, abort}
use elanprint_rs.Usb.{EndpointIn, UsbError}
use elanprint_rs.Store.{Fingers}
use elanprint_rs.Daemon.Machine.{OpState, usb, busy, opened, Env, Machine}
use elanprint_rs.Daemon.Exec.{Outcome, done, failed, waiting, Exec, ◌>>=◌, pure, fail, modify, skip}
use elanprint_rs.Daemon.Exec.Triple.{
  Post, Triple, Keeps, Triple-pure, Triple-fail, Triple-bind, Triple-modify,
}
use elanprint_rs.Daemon.Worker.Kept.{
  Held, skip-Held, send_arm-Held, arm-Held, read_store-Held, transact-Held, abort_session-Held,
}
use elanprint_rs.Daemon.Worker.Device.{
  frame, transact, version_of, read_firmware, may_claim, open_usb, learn_firmware, send_arm, arm,
  hold_claim, claim, abort_session, release, suspend, resume, listed, list, read_store,
}

-- What a claim for `user` needs: no operation runs, and nobody else holds the claim.
abbrev pub CanClaim : Option String → OpState → String → Type 0
CanClaim c s user = (s.busy ≡ false) × ((c ≡ none) ⊎ (c ≡ some user))

-- The flags of a claim and of no claim.
abbrev pub claimed_by : OpState → String → OpState
claimed_by s user = record s { claimed = true; user = some user }

abbrev pub unclaimed : OpState → OpState
unclaimed s = record s { claimed = false; user = none }

module _ (env : Env) (c : Option String) (s : OpState) where
  Granted : String → Unit {0} → Machine → Type 0
  Granted user _ m = Held c s m × CanClaim c s user

  may_claim-Granted :
      (user : String) → Triple (Held c s) (may_claim env user) (Granted user) (Held c s)
  unfolding may_claim Granted
  may_claim-Granted user = record {
    at = λ m h. by_busy m h m.worker.state.busy m.worker.claimed refl refl;
  }
    where
      by_claim :
          (m : Machine)
          → Held c s m
          → s.busy ≡ false
          → (other : String) (b : Bool) → str_eq other user ≡ b
          → c ≡ some other
          → Post (Granted user) (Held c s) (if b then done tt else failed busy, m)
      by_claim m h free other true e own =
          (h, (free, inr (own ∙ ap some ((str_eq_iff other user).0 e))))
      by_claim m h free other false e own = h

      by_busy :
          (m : Machine)
          → Held c s m
          → (b : Bool) (o : Option String) → m.worker.state.busy ≡ b
          → m.worker.claimed ≡ o
          → Post (Granted user) (Held c s) (
            if b then failed busy else elim o [
              | none ↦ done tt
              | some other ↦ if str_eq other user then done tt else failed busy
            ],
            m,
          )
      by_busy m h true o e f = h
      by_busy m h false none e f =
          (h, (ap (λ (x : OpState). x.busy) (sym h.1) ∙ e, inl (sym h.0 ∙ f)))
      by_busy m h false (some other) e f =
          by_claim m h (ap (λ (x : OpState). x.busy) (sym h.1) ∙ e) other (str_eq other user) refl
            (sym h.0 ∙ f)

  open_usb-Held : Keeps (Held c s) (open_usb env)
  unfolding open_usb fail skip pure
  open_usb-Held = record { at = λ m h. by_handle m h m.worker.usb (env.opens m.clock) }
    where
      by_handle :
          (m : Machine)
          → Held c s m
          → (b : Bool) (r : Result (Unit {0}) UsbError)
          → Post
              (λ _. Held c s)
              (Held c s)
              (if b then skip m else elim r [
                | err e ↦ fail (usb e) (record m { clock = m.clock + 1 })
                | ok h ↦ skip (record m {
                  clock = m.clock + 1;
                  log = opened ∷ m.log;
                  worker = record m.worker { usb = true };
                })
              ])
      by_handle m h true r = h
      by_handle m h false (ok x) = h
      by_handle m h false (err e) = h

  read_firmware-Held : Keeps (Held c s) (read_firmware env)
  unfolding read_firmware
  read_firmware-Held = record { at = λ m h. by_handle m h m.worker.usb }
    where
      by_handle :
          (m : Machine)
          → Held c s m
          → (b : Bool)
          → Post
              (λ _. Held c s)
              (Held c s)
              (if b
                then (do
                  r ← transact env (frame fw_version EndpointIn.status)
                  pure (version_of env r))
                    m
                else pure none m)
      by_handle m h true =
          (Triple-bind (transact env (frame fw_version EndpointIn.status)) _
              (transact-Held env c s _) λ r. Triple-pure (version_of env r) (λ n k. k)).at
            m h
      by_handle m h false = (Triple-pure none (λ n k. k)).at m h

  learn_firmware-Held : Keeps (Held c s) (learn_firmware env)
  unfolding learn_firmware
  learn_firmware-Held = record { at = λ m h. by_version m h m.worker.firmware }
    where
      by_version :
          (m : Machine)
          → Held c s m
          → (o : Option (ℕ × ℕ))
          → Post {A = Unit {0}}
              (λ _. Held c s)
              (Held c s)
              (elim o [
                | some v ↦ skip m
                | none ↦
                    (do
                      v ← read_firmware env
                      modify (λ m. record m { worker = record m.worker { firmware = v } }))
                      m
              ])
      by_version m h (some v) = (skip-Held env c s).at m h
      by_version m h none =
          (Triple-bind (read_firmware env) _ read_firmware-Held λ v. Triple-modify _ (λ n k. k)).at
            m h

  -- With what was granted at the start in hand, an action that keeps the claim keeps both.
  framed :
      {A : Type 0} {x : Exec A} (user : String)
      → Keeps (Held c s) x
      → Triple (Granted user tt) x (λ _. Granted user tt) (Held c s)
  unfolding Granted
  framed user t = record { at = λ m h. carry _ h.1 (t.at m h.0) }
    where
      carry :
          {A : Type 0} (r : Outcome A × Machine)
          → CanClaim c s user
          → Post (λ _. Held c s) (Held c s) r
          → Post (λ _. Granted user tt) (Held c s) r
      carry (done a, m) k h = (h, k)
      carry (failed e, m) k h = h
      carry (waiting, m) k h = h

  -- A claim that succeeds was allowed, and belongs to its user; one that fails changes nothing of it.
  pub claim-Triple :
      (user : String)
      → Triple
          (Held c s)
          (claim env user)
          (λ _ m. Held (some user) (claimed_by s user) m × CanClaim c s user)
          (Held c s)
  unfolding claim hold_claim Granted
  claim-Triple user = Triple-bind (may_claim env user) _ (may_claim-Granted user) λ _.
      Triple-bind (open_usb env) _ (framed user open_usb-Held) λ _.
        Triple-bind (learn_firmware env) _ (framed user learn_firmware-Held) λ _.
          Triple-bind (send_arm env) _ (framed user (send_arm-Held env c s)) λ _.
            Triple-bind (arm env) _ (framed user (arm-Held env c s))
              λ _. Triple-modify _ (λ m h. ((refl, ap (λ t. claimed_by t user) h.0.1), h.1))

  abort_session-Done : Triple (Held c s) (abort_session env) (λ _. Held c s) (λ _. ⊥)
  unfolding abort_session transact skip pure ◌>>=◌
  abort_session-Done = record { at = λ m h. by_handle m h m.worker.usb }
    where
      by_handle :
          (m : Machine)
          → Held c s m
          → (b : Bool)
          → Post
              (λ _. Held c s)
              (λ _. ⊥)
              (if b then (do r ← transact env (frame abort EndpointIn.status); skip) m else skip m)
      by_handle m h true = h
      by_handle m h false = h

  -- `abort_session` cannot fail, so a release always gives the claim up.
  pub release-Triple : Triple (Held c s) (release env) (λ _. Held none (unclaimed s)) (λ _. ⊥)
  unfolding release
  release-Triple =
      Triple-bind (abort_session env) _ abort_session-Done
        λ _. Triple-modify _ (λ m h. (refl, ap unclaimed h.1))

  pub suspend-Held : Keeps (Held c s) (suspend env)
  unfolding suspend
  suspend-Held =
      Triple-bind (abort_session env) _ (abort_session-Held env c s) λ _. Triple-modify _ (λ m h. h)

  pub resume-Held : Keeps (Held c s) (resume env)
  unfolding resume
  resume-Held = Triple-modify _ (λ m h. h)

  listed-Held : (user : String) (o : Option Fingers) → Keeps (Held c s) (listed env user o)
  unfolding listed
  listed-Held user none = Triple-fail _ (λ m h. h)
  listed-Held user (some []) = Triple-fail _ (λ m h. h)
  listed-Held user (some (f ∷ fs)) = Triple-pure _ (λ m h. h)

  pub list-Held : (user : String) → Keeps (Held c s) (list env user)
  unfolding list
  list-Held user =
      Triple-bind (read_store env) _ (read_store-Held env c s) λ p. listed-Held user (get user p)
