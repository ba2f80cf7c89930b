-- ===== src/Base/Text.antt =====
-- Text as the list of its code points, and what the program calls of `str` in the standard
-- library. Rust orders text by its UTF-8 bytes, which is the order of the code points.
pub mod Split
pub mod Lines
pub mod Words
pub mod Trim
pub mod Radix
use Prim.Native.Char.{code}
use Prim.Native.Nat.{ℕ, zero, suc, ◌+◌}
use Prim.Native.String.{String}
use mathlib.Core.Bool.{Bool, true, false, not, ◌&&◌, ◌||◌}
use mathlib.Core.List.{List, [], ◌∷◌, ◌++◌}
use mathlib.Core.Option.{Option, none, some}
use kiry.Base.Tests.{◌==◌, nat_eq, list_eq, leb, if◌then◌else◌}
use kiry.Base.Lists.{is_empty, length}

abbrev pub Str : Type 0
Str = List ℕ

-- A literal of the source.
abbrev pub codes : String → Str
codes String.[] = []
codes (String.◌∷◌ c s) = code c ∷ codes s

abbrev pub space : ℕ
space = 32

abbrev pub newline : ℕ
newline = 10

abbrev pub carriage_return : ℕ
carriage_return = 13

abbrev pub slash : ℕ
slash = b'/'

abbrev pub dot : ℕ
dot = b'.'

abbrev pub comma : ℕ
comma = b','

abbrev pub hash_sign : ℕ
hash_sign = b'#'

-- `char::is_whitespace`: the code points with the property White_Space.
abbrev pub is_whitespace : ℕ → Bool
is_whitespace c =
    (leb 9 c && leb c 13)
    || c == 32
    || c == 0x85
    || c == 0xa0
    || c == 0x1680
    || (leb 0x2000 c && leb c 0x200a)
    || c == 0x2028
    || c == 0x2029
    || c == 0x202f
    || c == 0x205f
    || c == 0x3000

-- `str::contains` of a character.
unfoldable pub has : ℕ → Str → Bool
has c [] = false
has c (d ∷ s) = d == c || has c s

unfoldable pub starts_with : Str → Str → Bool
starts_with s [] = true
starts_with [] (p ∷ ps) = false
starts_with (c ∷ s) (p ∷ ps) = c == p && starts_with s ps

-- `str::starts_with` of a character.
abbrev pub begins : ℕ → Str → Bool
begins p [] = false
begins p (c ∷ s) = c == p

unfoldable pub ends_with : Str → Str → Bool
ends_with [] o = is_empty o
ends_with (c ∷ s) o = (c ∷ s) == o || ends_with s o

unfoldable pub trim_start : (ℕ → Bool) → Str → Str
trim_start p [] = []
trim_start p (c ∷ s) = if p c then trim_start p s else c ∷ s

unfoldable pub trim_end : (ℕ → Bool) → Str → Str
trim_end p [] = []
trim_end p (c ∷ s) = let r = trim_end p s in if is_empty r && p c then [] else c ∷ r

unfoldable pub trim : Str → Str
unfolding trim_start trim_end
trim s = trim_end is_whitespace (trim_start is_whitespace s)

-- `str::split_whitespace`, with the word that is being read.
unfoldable pub words_from : Str → Str → List Str
words_from [] [] = []
words_from [] (w ∷ ws) = (w ∷ ws) ∷ []
words_from (c ∷ s) cur = elim (is_whitespace c) [
  | true ↦ let rest = words_from s [] in if is_empty cur then rest else cur ∷ rest
  | false ↦ words_from s (cur ++ c ∷ [])
]

unfoldable pub split_whitespace : Str → List Str
unfolding words_from
split_whitespace s = words_from s []

-- `str::split` at a character: always at least one part.
unfoldable pub split_from : ℕ → Str → Str → List Str
split_from sep [] cur = cur ∷ []
split_from sep (c ∷ s) cur = elim (c == sep) [
  | true ↦ cur ∷ split_from sep s []
  | false ↦ split_from sep s (cur ++ c ∷ [])
]

unfoldable pub split : Str → ℕ → List Str
unfolding split_from
split s sep = split_from sep s []

-- The text before the first `sep`, and what follows it.
unfoldable pub cut_from : ℕ → Str → Str → Option (Str × Str)
cut_from sep [] cur = none
cut_from sep (c ∷ s) cur = elim (c == sep) [
  | true ↦ some (cur, s)
  | false ↦ cut_from sep s (cur ++ c ∷ [])
]

-- `str::splitn`: at most `n` parts, the last with all that is left.
unfoldable pub splitn : ℕ → Str → ℕ → List Str
unfolding cut_from
splitn zero s sep = []
splitn (suc zero) s sep = s ∷ []
splitn (suc (suc n)) s sep = elim (cut_from sep s []) [
  | none ↦ s ∷ []
  | some (part, rest) ↦ part ∷ splitn (suc n) rest sep
]

-- `str::rfind` of a character, as the text before the last one with the text behind it.
unfoldable pub rcut : ℕ → Str → Option (Str × Str)
rcut sep [] = none
rcut sep (c ∷ s) = elim (rcut sep s) [
  | some (before, behind) ↦ some (c ∷ before, behind)
  | none ↦ if c == sep then some ([], s) else none
]

-- `[&str]::join`
unfoldable pub join : Str → List Str → Str
join sep [] = []
join sep (p ∷ []) = p
join sep (p ∷ q ∷ ps) = p ++ (sep ++ join sep (q ∷ ps))

-- A line ends at "\n" or "\r\n".
unfoldable pub strip_cr : Str → Str
strip_cr [] = []
strip_cr (c ∷ []) = if c == carriage_return then [] else c ∷ []
strip_cr (c ∷ d ∷ s) = c ∷ strip_cr (d ∷ s)

unfoldable pub lines_from : Str → Str → List Str
lines_from [] [] = []
lines_from [] (c ∷ cur) = (c ∷ cur) ∷ []
lines_from (c ∷ s) cur = elim (c == newline) [
  | true ↦ strip_cr cur ∷ lines_from s []
  | false ↦ lines_from s (cur ++ c ∷ [])
]

-- `str::lines`
unfoldable pub lines : Str → List Str
unfolding lines_from strip_cr
lines s = lines_from s []

-- `str::strip_prefix`
unfoldable pub strip_prefix : Str → Str → Option Str
strip_prefix s [] = some s
strip_prefix [] (p ∷ ps) = none
strip_prefix (c ∷ s) (p ∷ ps) = let rest = strip_prefix s ps in if c == p then rest else none

-- `str::contains` of a text.
unfoldable pub has_text : Str → Str → Bool
unfolding starts_with
has_text [] o = is_empty o
has_text (c ∷ s) o = starts_with (c ∷ s) o || has_text s o

-- `str::replace` of a text that is not empty, `len` characters and one; `skip` are left of the last one found.
unfoldable pub replace_from : Str → ℕ → Str → ℕ → Str → Str
unfolding starts_with
replace_from o len to skip [] = []
replace_from o len to (suc skip) (c ∷ s) = replace_from o len to skip s
replace_from o len to zero (c ∷ s) = elim (starts_with (c ∷ s) o) [
  | true ↦ to ++ replace_from o len to len s
  | false ↦ c ∷ replace_from o len to 0 s
]

unfoldable pub replace : Str → Str → Str → Str
unfolding replace_from
replace s [] to = s
replace s (c ∷ o) to = replace_from (c ∷ o) (length o) to 0 s
