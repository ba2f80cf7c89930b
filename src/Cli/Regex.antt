-- ===== src/Cli/Regex.antt =====
-- crates/kiry/src/main.rs, `Node`, `Piece` and `Rx::find`: the patterns of the failure table, and how a
-- pattern is looked for in a line of a build log. Reading a pattern is Regex/Parse.
pub mod Parse
pub mod Attempts
pub mod Meaning
pub mod Complete
pub mod Captures
pub mod Find
pub mod Reading
pub mod New
use kiry.Base.{
  ℕ, zero, suc, ◌+◌, ◌-◌, ◌^◌, List, [], ◌∷◌, reverse, Bool, true, false, not, ◌&&◌, ◌||◌, Option,
  none, some, ◌==◌, nat_eq, leb, length, get_elem?, take, drop, if◌then◌else◌,
}
use kiry.Base.Text.{Str}

-- What a piece stands for, with the alternatives of a group, the pieces one after another, and how often
-- a piece stands: the pairs of `Piece::rep`.
mutual
  pub data Node : Type 0 where
    lit : ℕ → Node
    any : Node
    class : List (ℕ × ℕ) → Bool → Node
    group : ℕ → Alts → Node

  pub data Alts : Type 0 where
    no_alt : Alts
    alt : Pieces → Alts → Alts

  pub data Pieces : Type 0 where
    done : Pieces
    piece : Node → ℕ × ℕ → Pieces → Pieces

pub record Rx : Type 0 where
  pub prog : Pieces
  pub groups : ℕ
  pub src : Str

unfoldable pub as_str : Rx → Str
as_str rx = rx.src

-- `usize::MAX`
abbrev pub usize_max : ℕ
usize_max = 2 ^ 64 - 1

-- What each group took; `none` before it took anything.
abbrev pub Caps : Type 0
Caps = List (Option (ℕ × ℕ))

-- Where a try ended, if it did; what the groups took stays, also of a try that failed.
abbrev pub Attempt : Type 0
Attempt = Option ℕ × Caps

unfoldable pub in_spans : List (ℕ × ℕ) → ℕ → Bool
in_spans [] c = false
in_spans ((a, b) ∷ spans) c = (leb a c && leb c b) || in_spans spans c

unfoldable pub accepts : Node → ℕ → Bool
unfolding in_spans
accepts (lit l) c = c == l
accepts any c = true
accepts (class spans neg) c = if neg then not (in_spans spans c) else in_spans spans c
accepts (group n alts) c = false

unfoldable pub one : Node → Str → ℕ → Option ℕ
unfolding accepts
one n s i = elim (get_elem? s i) [
  | none ↦ none
  | some c ↦ if accepts n c then some (i + 1) else none
]

-- `ends` behind its first: `len` of them are there. No more than the characters of the text are added.
unfoldable pub ends_from : ℕ → Node → ℕ → Str → ℕ → ℕ → List ℕ
unfolding one
ends_from zero n hi s at len = []
ends_from (suc f) n hi s at len = elim (leb len hi) [
  | false ↦ []
  | true ↦ elim (one n s at) [ none ↦ [] | some next ↦ next ∷ ends_from f n hi s next (len + 1) ]
]

-- The ends to be tried, the longest first.
unfoldable pub candidates : Node → ℕ × ℕ → Str → ℕ → List ℕ
unfolding ends_from
candidates n (lo, hi) s i = reverse (drop lo (i ∷ ends_from (length s) n hi s i 1))

-- `caps[n] = Some(..)`. Every group of a pattern that was read has its place.
unfoldable pub set : ℕ → ℕ × ℕ → Caps → Caps
set n x [] = []
set zero x (c ∷ caps) = some x ∷ caps
set (suc n) x (c ∷ caps) = c ∷ set n x caps

-- The next try of a loop, and the return from within it.
unfoldable pub or_else : Attempt → (Caps → Attempt) → Attempt
or_else (some e, caps) next = (some e, caps)
or_else (none, caps) next = next caps

unfoldable pub and_then : Attempt → (ℕ → Caps → Attempt) → Attempt
and_then (some mid, caps) next = next mid caps
and_then (none, caps) next = (none, caps)

unfoldable pub captured : ℕ → ℕ → ℕ → Attempt → Attempt
unfolding set
captured n i mid (some e, caps) = (some e, set n (i, mid) caps)
captured n i mid (none, caps) = (none, caps)

-- Gives characters back one at a time.
unfoldable pub back : List ℕ → (ℕ → Caps → Attempt) → Caps → Attempt
unfolding or_else
back [] next caps = (none, caps)
back (e ∷ es) next caps = or_else (next e caps) (λ c. back es next c)

unfoldable mutual
  unfolding candidates or_else and_then captured back

  pub seq : Pieces → Str → ℕ → Caps → Attempt
  seq done s i caps = (some i, caps)
  seq (piece (group n alts) rep rest) s i caps =
      try_alts alts n (λ mid c. seq rest s mid c) s i caps
  seq (piece (lit l) rep rest) s i caps =
      back (candidates (lit l) rep s i) (λ e c. seq rest s e c) caps
  seq (piece any rep rest) s i caps = back (candidates any rep s i) (λ e c. seq rest s e c) caps
  seq (piece (class spans neg) rep rest) s i caps =
      back (candidates (class spans neg) rep s i) (λ e c. seq rest s e c) caps

  pub try_alts : Alts → ℕ → (ℕ → Caps → Attempt) → Str → ℕ → Caps → Attempt
  try_alts no_alt n next s i caps = (none, caps)
  try_alts (alt a alts) n next s i caps =
      or_else (and_then (seq a s i caps) (λ mid c. captured n i mid (next mid c)))
        (λ c. try_alts alts n next s i c)

unfoldable pub slice : Str → ℕ → ℕ → Str
slice s a b = take (b - a) (drop a s)

-- The text of each group, empty for one that took nothing.
unfoldable pub texts : Str → Caps → List Str
unfolding slice
texts s [] = []
texts s (none ∷ caps) = [] ∷ texts s caps
texts s (some (a, b) ∷ caps) = slice s a b ∷ texts s caps

unfoldable pub no_caps : ℕ → Caps
no_caps zero = []
no_caps (suc n) = none ∷ no_caps n

-- What the try at `start` found, or else a later one.
unfoldable pub hit : ℕ → Attempt → Option (ℕ × Caps) → Option (ℕ × Caps)
hit start (some e, caps) later = some (start, caps)
hit start (none, caps) later = later

-- The loop over `start`, with the number of starts that are left.
unfoldable pub find_from : ℕ → Rx → Str → ℕ → Option (ℕ × Caps)
unfolding seq no_caps hit
find_from zero rx s start = none
find_from (suc left) rx s start =
    hit start (seq rx.prog s start (no_caps rx.groups)) (find_from left rx s (start + 1))

unfoldable pub find : Rx → Str → Option (List Str)
unfolding find_from texts
find rx hay = elim (find_from (length hay + 1) rx hay 0) [
  | none ↦ none
  | some (start, caps) ↦ some (texts hay caps)
]
