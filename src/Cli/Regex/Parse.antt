-- ===== src/Cli/Regex/Parse.antt =====
-- crates/kiry/src/main.rs, `class_for`, `brackets`, `pieces` and `Rx::new`: how a pattern is read. The
-- place in the pattern is the text that is left of it.
use kiry.Base.{
  ℕ, zero, suc, ◌+◌, ◌*◌, List, [], ◌∷◌, ◌++◌, Bool, true, false, not, ◌&&◌, ◌||◌, Option, none,
  some, ◌==◌, nat_eq, if◌then◌else◌, Result, ok, err, ◌>>=◌, length,
}
use kiry.Base.Text.{Str}
use kiry.Cli.Regex.{
  Node, lit, any, class, group, Alts, no_alt, alt, Pieces, done, piece, Rx, usize_max,
}

pub data ParseError : Type 0 where
  unclosed_class class_backslash backslash unclosed_group group_quantified out_of_fuel : ParseError
  outside_group nothing_before : ℕ → ParseError

-- `class_for`
unfoldable pub class_for : ℕ → Option (List (ℕ × ℕ))
class_for c =
    if c == b'w'
    then some ((b'a', b'z') ∷ (b'A', b'Z') ∷ (b'0', b'9') ∷ (b'_', b'_') ∷ [])
    else if c == b'd'
    then some ((b'0', b'9') ∷ [])
    else if c == b's'
    then some ((32, 32) ∷ (9, 9) ∷ (10, 10) ∷ (13, 13) ∷ [])
    else none

-- What a backslash and a character add to a class.
unfoldable pub escaped : ℕ → List (ℕ × ℕ)
unfolding class_for
escaped e = elim (class_for e) [ some spans ↦ spans | none ↦ (e, e) ∷ [] ]

-- The upper end of a span, behind a - that is not the last of its class.
unfoldable pub range_end : Str → Option (ℕ × Str)
range_end [] = none
range_end (d ∷ []) = none
range_end (d ∷ n ∷ cs) = if d == b'-' && not (n == b']') then some (n, cs) else none

-- The loop of `brackets`; `first` until it has read a character.
unfoldable pub brackets_from : ℕ → Bool → Bool → List (ℕ × ℕ) → Str → Result ParseError (Node × Str)
unfolding escaped
brackets_from zero neg first spans cs = err out_of_fuel
brackets_from (suc f) neg first spans [] = err unclosed_class
brackets_from (suc f) neg first spans (c ∷ cs) = elim (c == b']' && not first) [
  | true ↦ ok (class spans neg, cs)
  | false ↦ elim (c == b'\\') [
    | true ↦ elim cs [
      | [] ↦ err class_backslash
      | e ∷ cs' ↦ brackets_from f neg false (spans ++ escaped e) cs'
    ]
    | false ↦ elim (range_end cs) [
      | none ↦ brackets_from f neg false (spans ++ (c, c) ∷ []) cs
      | some (hi, cs') ↦ brackets_from f neg false (spans ++ (c, hi) ∷ []) cs'
    ]
  ]
]

unfoldable pub brackets : Str → Result ParseError (Node × Str)
unfolding brackets_from
brackets [] = err unclosed_class
brackets (c ∷ cs) =
    if c == b'^'
    then brackets_from (length cs + 1) true true [] cs
    else brackets_from (length cs + 2) false true [] (c ∷ cs)

-- What a backslash and a character stand for outside a class.
unfoldable pub escape : ℕ → Node
unfolding class_for
escape e = elim (class_for e) [ some spans ↦ class spans false | none ↦ lit e ]

-- The quantifier of a piece, and whether it is one.
unfoldable pub rep_of : Str → (ℕ × ℕ) × Bool × Str
rep_of [] = ((1, 1), false, [])
rep_of (c ∷ cs) =
    if c == b'+'
    then ((1, usize_max), true, cs)
    else if c == b'*'
    then ((0, usize_max), true, cs)
    else if c == b'?'
    then ((0, 1), true, cs)
    else ((1, 1), false, c ∷ cs)

-- A group takes no quantifier; otherwise the piece, and what is left.
unfoldable pub quantified : Node → (ℕ × ℕ) × Bool × Str → Result ParseError ((ℕ × ℕ) × Str)
quantified (group n alts) (rep, is_rep, cs) = if is_rep then err group_quantified else ok (rep, cs)
quantified (lit l) (rep, is_rep, cs) = ok (rep, cs)
quantified any (rep, is_rep, cs) = ok (rep, cs)
quantified (class spans neg) (rep, is_rep, cs) = ok (rep, cs)

-- A node and what is left, with the number of groups so far.
abbrev pub NodeRead : Type 0
NodeRead = Node × Str × ℕ

-- The node that begins with `c`, if that begins no group.
unfoldable pub single : ℕ → Str → ℕ → Result ParseError NodeRead
unfolding brackets escape
single c cs groups =
    if c == b'.'
    then ok (any, cs, groups)
    else if c == b'['
    then brackets cs >>= (λ (n, cs'). ok (n, cs', groups))
    else if c == b'\\'
    then (elim cs [ [] ↦ err backslash | e ∷ cs' ↦ ok (escape e, cs', groups) ])
    else if c == b')' || c == b'|'
    then err (outside_group c)
    else if c == b'+' || c == b'*' || c == b'?'
    then err (nothing_before c)
    else ok (lit c, cs, groups)

-- Whether the alternative of a group ends before `c`.
abbrev pub stops : Bool → ℕ → Bool
stops top c = not top && (c == b'|' || c == b')')

-- What comes behind an alternative.
unfoldable pub alt_end : Str → Result ParseError (Bool × Str)
alt_end [] = err unclosed_group
alt_end (c ∷ cs) =
    if c == b'|' then ok (true, cs) else if c == b')' then ok (false, cs) else err unclosed_group

-- The group numbered `n`.
unfoldable pub grouped : ℕ → Alts × Str × ℕ → NodeRead
grouped n (alts, cs, groups) = (group n alts, cs, groups)

abbrev pub PiecesRead : Type 0
PiecesRead = Result ParseError (Pieces × Str × ℕ)

-- A node, its quantifier, and the pieces behind it.
unfoldable pub piece_read : Result ParseError NodeRead → (Str → ℕ → PiecesRead) → PiecesRead
unfolding rep_of quantified
piece_read node behind = do
  (n, cs1, g1) ← node
  (rep, cs2) ← quantified n (rep_of cs1)
  (ps, cs3, g2) ← behind cs2 g1
  ok (piece n rep ps, cs3, g2)

abbrev pub AltsRead : Type 0
AltsRead = Result ParseError (Alts × Str × ℕ)

-- An alternative, and those behind it.
unfoldable pub alt_read : PiecesRead → (Str → ℕ → AltsRead) → AltsRead
unfolding alt_end
alt_read first behind = do
  (a, cs1, g1) ← first
  (more, cs2) ← alt_end cs1
  (alts, cs3, g2) ← elim more [ true ↦ behind cs2 g1 | false ↦ ok (no_alt, cs2, g1) ]
  ok (alt a alts, cs3, g2)

unfoldable mutual
  unfolding single grouped piece_read alt_read

  pub pieces : ℕ → Str → ℕ → Bool → PiecesRead
  pieces zero cs groups top = err out_of_fuel
  pieces (suc f) [] groups top = ok (done, [], groups)
  pieces (suc f) (c ∷ cs) groups top = elim (stops top c) [
    | true ↦ ok (done, c ∷ cs, groups)
    | false ↦
        piece_read
          (elim (c == b'(') [
            | true ↦ alternatives f cs (groups + 1) >>= (λ r. ok (grouped groups r))
            | false ↦ single c cs groups
          ])
          (λ cs' g. pieces f cs' g top)
  ]

  pub alternatives : ℕ → Str → ℕ → AltsRead
  alternatives zero cs groups = err out_of_fuel
  alternatives (suc f) cs groups =
      alt_read (pieces f cs groups false) (λ cs' g. alternatives f cs' g)

-- `Rx::new`
unfoldable pub new : Str → Result ParseError Rx
unfolding pieces
new src = do
  (prog, cs, groups) ← pieces (2 * length src + 1) src 0 true
  ok (record { prog = prog; groups = groups; src = src })
