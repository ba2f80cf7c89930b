-- ===== src/Cli/Regex/Meaning.antt =====
-- What a pattern of the failure table matches, whatever the search tries first: the meaning of the types of
-- crates/kiry/src/main.rs, `Node` and `Piece`; and that the search finds nothing else.
use kiry.Base.{ℕ, ◌+◌, ◌≤◌, ◌≡◌, sym, ◌∙◌, ◌⊎◌, inl, inr, some, arith}
use kiry.Base.Text.{Str}
use kiry.Cli.Regex.{
  Node, lit, any, class, group, Alts, no_alt, alt, Pieces, done, piece, Caps, Attempt, candidates,
  back, seq, try_alts, captured, and_then,
}
use kiry.Cli.Regex.Attempts.{
  Repeats, or_else-some, and_then-some, captured-end, back-some, candidates-Reached,
}

-- From `i` to `mid` the node stands as often as `rep` allows.
abbrev pub Stands : Node → ℕ × ℕ → Str → ℕ → ℕ → Type 0
Stands n (lo, hi) s i mid = (k : ℕ) × (lo ≤ k) × (k ≤ hi) × Repeats n s i k × (mid ≡ i + k)

-- The pieces match the text from `i` to `j`, and one of the alternatives does.
abbrev mutual
  pub Matches : Str → Pieces → ℕ → ℕ → Type 0
  Matches s done i j = j ≡ i
  Matches s (piece (group n alts) rep rest) i j =
      (mid : ℕ) × AnyOf s alts i mid × Matches s rest mid j
  Matches s (piece (lit l) rep rest) i j =
      (mid : ℕ) × Stands (lit l) rep s i mid × Matches s rest mid j
  Matches s (piece any rep rest) i j = (mid : ℕ) × Stands any rep s i mid × Matches s rest mid j
  Matches s (piece (class spans neg) rep rest) i j =
      (mid : ℕ) × Stands (class spans neg) rep s i mid × Matches s rest mid j

  pub AnyOf : Str → Alts → ℕ → ℕ → Type 0
  AnyOf s no_alt i mid = ⊥
  AnyOf s (alt a alts) i mid = Matches s a i mid ⊎ AnyOf s alts i mid

-- A piece that is no group, with the pieces behind it.
back-Stands :
    (n : Node) (rep : ℕ × ℕ) (s : Str) (i : ℕ) (next : ℕ → Caps → Attempt) (caps : Caps) {j : ℕ}
    (M : ℕ → ℕ → Type 0)
    → ((mid : ℕ) (c : Caps) → (next mid c).0 ≡ some j → M mid j)
    → (back (candidates n rep s i) next caps).0 ≡ some j
    → (mid : ℕ) × Stands n rep s i mid × M mid j
back-Stands n (lo, hi) s i next caps M sound h =
    let (e, among, d, found) = back-some (candidates n (lo, hi) s i) next caps h in
    (e, candidates-Reached n lo hi s i e among, sound e d found)

mutual
  unfolding seq

  pub seq-Matches :
      (ps : Pieces) (s : Str) (i : ℕ) (caps : Caps) {j : ℕ}
      → (seq ps s i caps).0 ≡ some j
      → Matches s ps i j
  seq-Matches done s i caps {j = j} h = let e : i ≡ j = cc h in sym e
  seq-Matches (piece (group n alts) rep rest) s i caps {j = j} h =
      let (mid, some_alt, c, found) =
        try_alts-AnyOf alts n (λ mid c. seq rest s mid c) s i caps h in
      (mid, some_alt, seq-Matches rest s mid c found)
  seq-Matches (piece (lit l) rep rest) s i caps {j = j} h =
      back-Stands (lit l) rep s i (λ e c. seq rest s e c) caps (Matches s rest)
        (λ mid c. seq-Matches rest s mid c) h
  seq-Matches (piece any rep rest) s i caps {j = j} h =
      back-Stands any rep s i (λ e c. seq rest s e c) caps (Matches s rest)
        (λ mid c. seq-Matches rest s mid c) h
  seq-Matches (piece (class spans neg) rep rest) s i caps {j = j} h =
      back-Stands (class spans neg) rep s i (λ e c. seq rest s e c) caps (Matches s rest)
        (λ mid c. seq-Matches rest s mid c) h

  pub try_alts-AnyOf :
      (alts : Alts) (n : ℕ) (next : ℕ → Caps → Attempt) (s : Str) (i : ℕ) (caps : Caps) {j : ℕ}
      → (try_alts alts n next s i caps).0 ≡ some j
      → (mid : ℕ) × AnyOf s alts i mid × (c : Caps) × ((next mid c).0 ≡ some j)
  try_alts-AnyOf no_alt n next s i caps h = ground (arith, h)
  try_alts-AnyOf (alt a alts) n next s i caps {j = j} h =
      elim (or_else-some (and_then (seq a s i caps) (λ mid c. captured n i mid (next mid c)))
        (λ c. try_alts alts n next s i c) h) [
          | inl here ↦
              let (mid, c, found, then) =
                and_then-some (seq a s i caps) (λ mid c. captured n i mid (next mid c)) here in
              (
                mid,
                inl (seq-Matches a s i caps found),
                c,
                sym (captured-end n i mid (next mid c)) ∙ then,
              )
          | inr (c, later) ↦
              let (mid, others, d, found) = try_alts-AnyOf alts n next s i c later in
              (mid, inr others, d, found)
        ]

-- Groups hold alternatives of single characters only: a text, classes and dots, without a quantifier.
abbrev pub IsFixed : Pieces → Type 0
IsFixed done = Unit
IsFixed (piece (group n alts) rep rest) = ⊥
IsFixed (piece (lit l) rep rest) = (rep ≡ (1, 1)) × IsFixed rest
IsFixed (piece any rep rest) = (rep ≡ (1, 1)) × IsFixed rest
IsFixed (piece (class spans neg) rep rest) = (rep ≡ (1, 1)) × IsFixed rest

abbrev pub AreFixed : Alts → Type 0
AreFixed no_alt = Unit
AreFixed (alt a alts) = IsFixed a × AreFixed alts

abbrev pub IsPlain : Pieces → Type 0
IsPlain done = Unit
IsPlain (piece (group n alts) rep rest) = AreFixed alts × IsPlain rest
IsPlain (piece (lit l) rep rest) = IsPlain rest
IsPlain (piece any rep rest) = IsPlain rest
IsPlain (piece (class spans neg) rep rest) = IsPlain rest
