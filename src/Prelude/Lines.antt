-- ===== src/Prelude/Lines.antt =====
-- `str::lines`, and the searches in a text that the code makes.
use Prim.Native.Nat.{ℕ}
use mathlib.Core.Path.{◌≡◌, refl, ap, ◌∙◌}
use mathlib.Core.Bool.{Bool, true, false, ◌&&◌, ◌||◌}
use mathlib.Core.List.{List, [], ◌∷◌, ◌++◌, append_assoc}
use native.Mathlib.Omega.{arith}
use elanprint_rs.Prelude.Tests.{◌==◌, if◌then◌else◌}
use elanprint_rs.Prelude.Lists.{contains, All}

-- `c` in front of the first piece.
abbrev pub prepend : ℕ → List (List ℕ) → List (List ℕ)
prepend c [] = (c ∷ []) ∷ []
prepend c (p ∷ ps) = (c ∷ p) ∷ ps

-- `str::lines`: a line ends at "\n" or "\r\n", and nothing follows the last end.
unfoldable pub lines : List ℕ → List (List ℕ)
lines [] = []
lines (c ∷ []) = if c == 10 then [] ∷ [] else (c ∷ []) ∷ []
lines (c ∷ d ∷ cs) =
    let rest = lines (d ∷ cs) in
    if c == 10 then [] ∷ rest else if c == 13 && d == 10 then rest else prepend c rest

-- `s.starts_with(prefix)`.
unfoldable pub starts_with : List ℕ → List ℕ → Bool
starts_with [] s = true
starts_with (p ∷ ps) [] = false
starts_with (p ∷ ps) (c ∷ cs) = p == c && starts_with ps cs

-- `s.contains(needle)` on texts.
unfoldable pub contains_text : List ℕ → List ℕ → Bool
contains_text needle [] = starts_with needle []
contains_text needle (c ∷ cs) = starts_with needle (c ∷ cs) || contains_text needle cs

-- `lines.join("\n")`.
unfoldable pub join : List (List ℕ) → List ℕ
join [] = []
join (l ∷ []) = l
join (l ∷ m ∷ ls) = l ++ (10 ∷ join (m ∷ ls))

-- A line that `lines` gives back as it is: no line end, and no carriage return.
abbrev pub IsClean : List ℕ → Type 0
IsClean l = (contains l 10 ≡ false) × (contains l 13 ≡ false)

unfoldable pub each_ended : List (List ℕ) → List ℕ
each_ended [] = []
each_ended (l ∷ ls) = l ++ (10 ∷ each_ended ls)

pub join-ended :
    (l : List ℕ) (ls : List (List ℕ)) → join (l ∷ ls) ++ (10 ∷ []) ≡ each_ended (l ∷ ls)
unfolding join each_ended
join-ended l [] = refl
join-ended l (m ∷ ls) = simp (append_assoc, join-ended m ls)

lines-line : (l rest : List ℕ) → IsClean l → lines (l ++ (10 ∷ rest)) ≡ l ∷ lines rest
unfolding lines contains
lines-line [] [] h = refl
lines-line [] (c ∷ rest) h = refl
lines-line (c ∷ []) rest h = ground arith
lines-line (c ∷ d ∷ l) rest h =
    let ih = lines-line (d ∷ l) rest (ground arith, ground arith) in ground (arith, ih)

lines-each_ended : (ls : List (List ℕ)) → All IsClean ls → lines (each_ended ls) ≡ ls
unfolding lines each_ended
lines-each_ended [] h = refl
lines-each_ended (l ∷ ls) h =
    lines-line l (each_ended ls) h.0 ∙ ap (◌∷◌ l) (lines-each_ended ls h.1)

-- What is joined reads back.
pub lines-join :
    (l : List ℕ) (ls : List (List ℕ))
    → All IsClean (l ∷ ls)
    → lines (join (l ∷ ls) ++ (10 ∷ [])) ≡ l ∷ ls
lines-join l ls h = ap lines (join-ended l ls) ∙ lines-each_ended (l ∷ ls) h
