-- ===== src/Keyring/Stack/Edits.antt =====
-- crates/elanprint-keyring-setup/src/pam.rs: where `insert` puts its line, and what `remove` takes out.
use elanprint_rs.Prelude.{
  ℕ, suc, ◌≡◌, refl, sym, ap, ◌∙◌, subst, Bool, true, false, not, List, [], ◌∷◌, ◌++◌, Option, none,
  some, Result, ok, err, ltb, length, any, retain, All, if◌then◌else◌, arith, contains,
}
use elanprint_rs.Prelude.Text.{is_whitespace, trim_start}
use elanprint_rs.Prelude.Lines.{lines, IsClean, lines-join, starts_with, contains_text}
use elanprint_rs.Keyring.Stack.{
  module_line, is_our_line, is_keyring_auth, Change, added, already_present, StackError,
  outside_file, position, insert_at, written, inserted, insert, remove,
}

abbrev IsOurs : List ℕ → Type 0
IsOurs l = is_our_line l ≡ true

-- The lines of a file around its first keyring line, and the one that is put above it.
pub record Placed (ls : List (List ℕ)) (n : ℕ) : Type 0 where
  pub before : List (List ℕ)
  pub keyring : List ℕ
  pub after : List (List ℕ)
  pub whole : ls ≡ before ++ (keyring ∷ after)
  pub is_keyring : is_keyring_auth keyring ≡ true
  pub is_first : any is_keyring_auth before ≡ false
  pub result : insert_at n module_line ls ≡ before ++ (module_line ∷ keyring ∷ after)
  pub within : ltb (length ls) n ≡ false

Placed-later :
    (l : List ℕ) (ls : List (List ℕ)) (m : ℕ)
    → is_keyring_auth l ≡ false
    → Placed ls m
    → Placed (l ∷ ls) (suc m)
unfolding insert_at
Placed-later l ls m k p = record {
  before = l ∷ p.before;
  keyring = p.keyring;
  after = p.after;
  whole = ap (◌∷◌ l) p.whole;
  is_keyring = p.is_keyring;
  is_first = ground (arith, k, p.is_first);
  result = ap (◌∷◌ l) p.result;
  within = ground (arith, p.within);
}

Placed-first : (l : List ℕ) (ls : List (List ℕ)) → is_keyring_auth l ≡ true → Placed (l ∷ ls) 0
unfolding insert_at
Placed-first l ls k = record {
  before = [];
  keyring = l;
  after = ls;
  whole = refl;
  is_keyring = k;
  is_first = refl;
  result = refl;
  within = ground arith;
}

position-Placed : (ls : List (List ℕ)) (n : ℕ) → position is_keyring_auth ls ≡ some n → Placed ls n
unfolding position insert_at
position-Placed [] n e = absurd (cc e)
position-Placed (l ∷ ls) n e =
    by_line (position-Placed ls) (is_keyring_auth l) refl (position is_keyring_auth ls) refl e
  where
    by_line :
        ((m : ℕ) → position is_keyring_auth ls ≡ some m → Placed ls m)
        → (b : Bool) → is_keyring_auth l ≡ b
        → (o : Option ℕ) → position is_keyring_auth ls ≡ o
        → (if b then some 0 else elim o [ none ↦ none | some m ↦ some (suc m) ]) ≡ some n
        → Placed (l ∷ ls) n
    by_line rec true k o q h = subst (Placed (l ∷ ls)) (cc h) (Placed-first l ls k)
    by_line rec false k none q h = absurd (cc h)
    by_line rec false k (some m) q h =
        subst (Placed (l ∷ ls)) (cc h) (Placed-later l ls m k (rec m q))

module_line-ours : is_our_line module_line ≡ true
unfolding is_our_line trim_start is_whitespace starts_with contains_text
module_line-ours = refl

module_line-IsClean : IsClean module_line
unfolding contains
module_line-IsClean = (refl, refl)

retain-none :
    (ls : List (List ℕ)) → any is_our_line ls ≡ false → retain (λ l. not (is_our_line l)) ls ≡ ls
retain-none [] h = refl
retain-none (l ∷ ls) h = ground (arith, retain-none ls)

any-around :
    (before after : List (List ℕ)) → any is_our_line (before ++ (module_line ∷ after)) ≡ true
any-around [] after = ground (arith, module_line-ours)
any-around (l ∷ before) after = ground (arith, any-around before after)

retain-around :
    (before after : List (List ℕ))
    → any is_our_line (before ++ after) ≡ false
    → retain (λ l. not (is_our_line l)) (before ++ (module_line ∷ after)) ≡ before ++ after
retain-around [] after h = ground (arith, module_line-ours, retain-none after h)
retain-around (l ∷ before) after h = ground (arith, retain-around before after)

All-around :
    (before after : List (List ℕ))
    → All IsClean (before ++ after)
    → All IsClean (before ++ (module_line ∷ after))
All-around [] after h = (module_line-IsClean, h)
All-around (l ∷ before) after h = (h.0, All-around before after h.1)

lines-written :
    (before after : List (List ℕ)) (l : List ℕ)
    → All IsClean (before ++ (l ∷ after))
    → lines (written (before ++ (l ∷ after))) ≡ before ++ (l ∷ after)
unfolding written
lines-written [] after l h = lines-join l after h
lines-written (m ∷ before) after l h = lines-join m (before ++ (l ∷ after)) h

-- What `insert` makes of a text without the module.
inserted-Placed :
    (ls : List (List ℕ)) (out : List ℕ)
    → inserted ls (position is_keyring_auth ls) ≡ ok (added out)
    → (n : ℕ) × (p : Placed ls n) × (out
        ≡ written (p.before ++ (module_line ∷ p.keyring ∷ p.after)))
unfolding inserted
inserted-Placed ls out e = by_place (position is_keyring_auth ls) refl e
  where
    by_size :
        (n : ℕ) (p : Placed ls n) (b : Bool)
        → ◌≡◌ {A = Result Change StackError}
            (if b then err outside_file else ok (added (written (insert_at n module_line ls))))
            (ok (added out))
        → out ≡ written (p.before ++ (module_line ∷ p.keyring ∷ p.after))
    by_size n p true h = absurd (cc h)
    by_size n p false h =
        let same_text : written (insert_at n module_line ls) ≡ out = cc h in
        sym same_text ∙ ap written p.result

    by_place :
        (o : Option ℕ)
        → position is_keyring_auth ls ≡ o
        → inserted ls o ≡ ok (added out)
        → (n : ℕ) × (p : Placed ls n) × (out
            ≡ written (p.before ++ (module_line ∷ p.keyring ∷ p.after)))
    by_place none q h = absurd (cc h)
    by_place (some n) q h =
        let p = position-Placed ls n q in (n, p, by_size n p (ltb (length ls) n) h)

insert-Placed :
    (text out : List ℕ)
    → insert text ≡ ok (added out)
    → (any is_our_line (lines text) ≡ false)
      × ((n : ℕ) × (p : Placed (lines text) n) × (out
            ≡ written (p.before ++ (module_line ∷ p.keyring ∷ p.after))))
unfolding insert
insert-Placed text out e = by_flag (any is_our_line (lines text)) refl e
  where
    by_flag :
        (b : Bool)
        → any is_our_line (lines text) ≡ b
        → (if b
            then ok already_present
            else inserted (lines text) (position is_keyring_auth (lines text)))
          ≡ ok (added out)
        → (any is_our_line (lines text) ≡ false)
          × ((n : ℕ) × (p : Placed (lines text) n) × (out
                ≡ written (p.before ++ (module_line ∷ p.keyring ∷ p.after))))
    by_flag true q h = absurd (cc h)
    by_flag false q h = (q, inserted-Placed (lines text) out h)

-- A text that `insert` extends has no line of the module. Its lines, none of which may hold a
-- carriage return, are kept in their order, and the module's line stands directly above the first
-- line that is an auth line of the keyring module. A second `insert` finds the module present, and
-- `remove` takes the line out again: it gives the lines of the old text, each with its line end.
pub insert-remove :
    (text out : List ℕ)
    → insert text ≡ ok (added out)
    → All IsClean (lines text)
    → ((before : List (List ℕ)) × (after : List (List ℕ)) × (keyring : List ℕ) × (lines text
          ≡ before ++ (keyring ∷ after))
        × (is_keyring_auth keyring ≡ true)
        × (any is_keyring_auth before ≡ false)
        × (lines out ≡ before ++ (module_line ∷ keyring ∷ after)))
      × (insert out ≡ ok already_present)
      × (remove out ≡ some (written (lines text)))
unfolding insert remove
insert-remove text out e clean =
    let (free, (n, p, shape)) = insert-Placed text out e in
    let clean_parts = subst (All IsClean) p.whole clean in
    let reads =
      ap lines shape
      ∙ lines-written p.before (p.keyring ∷ p.after) module_line
          (All-around p.before (p.keyring ∷ p.after) clean_parts) in
    let ours = ap (any is_our_line) reads ∙ any-around p.before (p.keyring ∷ p.after) in
    let kept =
      ap (retain (λ l. not (is_our_line l))) reads
      ∙ retain-around p.before (p.keyring ∷ p.after)
          (subst (λ x. any is_our_line x ≡ false) p.whole free)
      ∙ sym p.whole in
    (
      (p.before, p.after, p.keyring, p.whole, p.is_keyring, p.is_first, reads),
      rw ours refl,
      rw (ours, kept) refl,
    )
