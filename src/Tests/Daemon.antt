-- ===== src/Tests/Daemon.antt =====
-- crates/elanprintd on one account.
use elanprint_rs.Prelude.{
  String, ℕ, zero, suc, ◌≡◌, refl, ◌⊎◌, true, false, List, [], ◌∷◌, Option, none, some, Result, ok,
  contains, All,
}
use elanprint_rs.Prelude.Text.{codes, same, trim, parse_uint}
use elanprint_rs.Prelude.Lines.{lines}
use elanprint_rs.Store.{Prints}
use elanprint_rs.Store.File.{Json}
use elanprint_rs.Usb.{UsbError}
use elanprint_rs.Daemon.Machine.{OpKind, from_user_request, Env, Machine, new_worker, new_sink}
use elanprint_rs.Daemon.Worker.Verify.{verify}
use elanprint_rs.Daemon.Worker.Verify.Grant.{Justified}
use elanprint_rs.Daemon.Worker.Verify.Owned.{Owner, verify-Justified}
use elanprint_rs.Daemon.Worker.Verify.Ending.{verify-Ending}
use elanprint_rs.Daemon.Worker.EnrollOp.{enroll_op}
use elanprint_rs.Daemon.Worker.EnrollOp.Ending.{enroll_op-Ending}
use elanprint_rs.Daemon.Worker.Terminal.{Ending}
use elanprint_rs.Daemon.Worker.Erase.{delete_finger}
use elanprint_rs.Daemon.Worker.Erase.Own.{ErasesOwn, Frames, delete_finger-ErasesOwn}
use elanprint_rs.Daemon.Access.{split_colon, uid_for_user, may_act, is_malformed, lookup_uid}
use elanprint_rs.Daemon.Access.Entries.{HasEntry, may_act-HasEntry}

-- A `getent` that knows one account.
abbrev one_account : List ℕ → Option (List ℕ)
one_account user = some (codes "alice:x:1000:1000:Alice:/home/alice:/bin/bash\n")

may_act-HasEntry_example :
    (◌≡◌ {A = ℕ} 1000 0)
    ⊎ ((passwd : List ℕ) × (one_account (codes "alice") ≡ some passwd)
        × HasEntry (codes "alice") 1000 (lines passwd))
unfolding may_act lookup_uid is_malformed uid_for_user lines split_colon same trim parse_uint
    contains
may_act-HasEntry_example = may_act-HasEntry 1000 one_account (codes "alice") refl

-- Alice's thumb lies in slot 2; the library reads every text as that map and prints none.
abbrev prints : Prints
prints = ("alice", ("left-thumb", 2) ∷ []) ∷ []

prints_nothing : (p : Prints) (t : String) → none ≡ some t → some prints ≡ some p
prints_nothing p t h = absurd (cc h)

abbrev reader : Json
reader = record {
  to_string_pretty = λ p. none;
  from_str = λ t. some prints;
  from_str-to_string_pretty = prints_nothing;
}

-- The chip answers the arming, then reports slot 2.
abbrev answer : ℕ → Result (List ℕ) UsbError
answer zero = ok (0x40 ∷ 1 ∷ [])
answer (suc n) = ok (0x40 ∷ 2 ∷ [])

abbrev calm : Env
calm = record {
  json = reader;
  opens = λ n. ok tt;
  answers = answer;
  cancels = λ n. false;
  reads = λ n. none;
  saves = λ n. none;
  stages = none;
}

abbrev claimed : Machine
claimed = record {
  worker = record new_worker { usb = true; claimed = some "alice" };
  sink = new_sink OpKind.verify;
  clock = 0;
  log = [];
  files = record { file = some "{}"; temps = []; salt = 0 };
}

verify-Justified_example :
    All
      (Justified (Owner calm claimed.files "alice" "any") (verify calm 1 "any" claimed).1.log)
      (verify calm 1 "any" claimed).1.sink.events
unfolding new_sink new_worker
verify-Justified_example = verify-Justified calm 1 "alice" "any" claimed refl refl

verify-Ending_example : Ending (verify calm 1 "any" claimed)
unfolding new_sink new_worker
verify-Ending_example = verify-Ending calm 1 "any" claimed (refl, tt)

abbrev enrolling : Machine
enrolling = record claimed { sink = new_sink OpKind.enroll }

enroll_op-Ending_example : Ending (enroll_op calm 3 "right-thumb" enrolling)
unfolding new_sink new_worker
enroll_op-Ending_example = enroll_op-Ending calm 3 "right-thumb" enrolling (refl, tt)

delete_finger-ErasesOwn_example :
    Frames
      (ErasesOwn calm claimed.files (from_user_request "alice" "left-thumb"))
      (delete_finger calm (from_user_request "alice" "left-thumb") claimed).1.log
delete_finger-ErasesOwn_example =
    delete_finger-ErasesOwn calm (from_user_request "alice" "left-thumb") claimed refl
