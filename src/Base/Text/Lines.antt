-- ===== src/Base/Text/Lines.antt =====
-- `lines` reads back the lines that were written, each with a newline behind it.
use kiry.Base.Tests.{nat_eq}
use kiry.Base.Lists.{All}
use kiry.Base.Text.{Str, has, newline, lines, lines_from, strip_cr}
use kiry.Base.Text.Split.{Lacks}
use mathlib.Core.Path.{◌≡◌, refl, ◌∙◌}
use mathlib.Core.List.{List, [], ◌∷◌, ◌++◌, append-nil, append_assoc}
use native.Mathlib.Omega.{arith}

-- A text with a newline behind each line.
abbrev pub unlines : List Str → Str
unlines [] = []
unlines (l ∷ ls) = l ++ (newline ∷ unlines ls)

-- A line that survives: it holds no newline and ends in no carriage return.
abbrev pub IsLine : Str → Type 0
IsLine l = Lacks newline l × (strip_cr l ≡ l)

pub lines_from-append :
    (l rest cur : Str)
    → Lacks newline l
    → lines_from (l ++ newline ∷ rest) cur ≡ strip_cr (cur ++ l) ∷ lines_from rest []
unfolding lines_from has
lines_from-append [] rest cur h = rw append-nil
lines_from-append (c ∷ l) rest cur h =
    ground (arith, lines_from-append l rest (cur ++ c ∷ []), append_assoc cur (c ∷ []) l)

pub lines-unlines : (ls : List Str) → All IsLine ls → lines (unlines ls) ≡ ls
unfolding lines
lines-unlines [] _ = refl
lines-unlines (l ∷ ls) ((lacks, whole), h) =
    lines_from-append l (unlines ls) [] lacks ∙ rw (whole, lines-unlines ls h)

-- A single line, whatever it ends in.
pub lines_one : (l : Str) → Lacks newline l → lines (l ++ newline ∷ []) ≡ strip_cr l ∷ []
unfolding lines
lines_one l lacks = lines_from-append l [] [] lacks
