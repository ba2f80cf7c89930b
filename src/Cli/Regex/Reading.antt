-- ===== src/Cli/Regex/Reading.antt =====
-- How crates/kiry/src/main.rs, `brackets` and `pieces`, read what is no group: what is left after it is no
-- longer, and the reading comes to an end.
use kiry.Base.{
  ℕ, zero, suc, ◌+◌, ◌≤◌, ◌≡◌, ◌≢◌, refl, subst, inl, inr, ap, List, [], ◌∷◌, ◌++◌, Bool, true,
  false, not, ◌&&◌, ◌||◌, Option, some, none, ◌==◌, nat_eq, arith, length, Result, ok, err, ◌>>=◌,
  Bool-cases, if◌then◌else◌,
}
use kiry.Base.Text.{Str}
use kiry.Cli.Regex.{Node, lit, any, class, group, Alts, no_alt, alt, Pieces, done, piece}
use kiry.Cli.Regex.Parse.{
  ParseError, out_of_fuel, class_backslash, backslash, brackets_from, brackets, range_end, escape,
  class_for, escaped, NodeRead, single, PiecesRead, AltsRead,
}

-- The groups are numbered from `a` on in the order of their parentheses, up to `b`, and stand once.
abbrev mutual
  pub Numbered : ℕ → ℕ → Pieces → Type 0
  Numbered a b done = b ≡ a
  Numbered a b (piece (group n alts) rep rest) =
      (m : ℕ) × (n ≡ a) × (rep ≡ (1, 1)) × NumberedIn (a + 1) m alts × Numbered m b rest
  Numbered a b (piece (lit l) rep rest) = Numbered a b rest
  Numbered a b (piece any rep rest) = Numbered a b rest
  Numbered a b (piece (class spans neg) rep rest) = Numbered a b rest

  pub NumberedIn : ℕ → ℕ → Alts → Type 0
  NumberedIn a b no_alt = b ≡ a
  NumberedIn a b (alt p alts) = (m : ℕ) × Numbered a m p × NumberedIn m b alts

abbrev pub NumberedNode : ℕ → ℕ → Node → Type 0
NumberedNode a b (group n alts) = (n ≡ a) × NumberedIn (a + 1) b alts
NumberedNode a b (lit l) = b ≡ a
NumberedNode a b any = b ≡ a
NumberedNode a b (class spans neg) = b ≡ a

-- A node was read with at most `l` characters left, or it was refused for what the pattern says.
abbrev pub IsNode : ℕ → ℕ → Result ParseError NodeRead → Type 0
IsNode l a (err e) = e ≢ out_of_fuel
IsNode l a (ok (n, cs, b)) = (length cs ≤ l) × NumberedNode a b n

abbrev pub IsPieces : ℕ → ℕ → PiecesRead → Type 0
IsPieces l a (err e) = e ≢ out_of_fuel
IsPieces l a (ok (ps, cs, b)) = (length cs ≤ l) × Numbered a b ps

abbrev pub IsAlts : ℕ → ℕ → AltsRead → Type 0
IsAlts l a (err e) = e ≢ out_of_fuel
IsAlts l a (ok (alts, cs, b)) = (length cs ≤ l) × NumberedIn a b alts

IsBrackets : ℕ → Result ParseError (Node × Str) → Type 0
IsBrackets l (err e) = e ≢ out_of_fuel
IsBrackets l (ok (n, cs)) = (length cs ≤ l) × ((a : ℕ) → NumberedNode a a n)

-- What holds of both branches holds of a choice.
pub by_bool :
    {A : Type 0} (P : A → Type 0) (b : Bool) {x y : A}
    → P x
    → P y
    → P (elim b [ true ↦ x | false ↦ y ])
by_bool P true here there = here
by_bool P false here there = there

pub by_if : {A : Type 0} (P : A → Type 0) (b : Bool) {x y : A} → P x → P y → P (if b then x else y)
by_if P true here there = here
by_if P false here there = there

range_end-length :
    (cs : Str) {hi : ℕ} {left : Str} → range_end cs ≡ some (hi, left) → length left ≤ length cs
unfolding range_end
range_end-length [] h = ground (arith, h)
range_end-length (d ∷ []) h = ground (arith, h)
range_end-length (d ∷ n ∷ cs) {left = left} h = elim (Bool-cases (d == b'-' && not (n == b']'))) [
  | inl e ↦
      let same : cs ≡ left = ground (arith, e, h) in
      subst (λ l. length l ≤ length (d ∷ n ∷ cs)) same (omega arith)
  | inr e ↦ absurd (ground (arith, e, h))
]

IsBrackets-le :
    (l k : ℕ) (r : Result ParseError (Node × Str)) → l ≤ k → IsBrackets l r → IsBrackets k r
unfolding IsBrackets
IsBrackets-le l k (err e) below h = h
IsBrackets-le l k (ok (n, cs)) below (short, h) = (omega (arith, short, below), h)

-- The next round of the loop, with whatever is left.
Again : ℕ → Bool → ℕ → Str → Type 0
Again f neg c cs =
    (more : List (ℕ × ℕ)) (left : Str)
    → length left ≤ length cs
    → IsBrackets (length (c ∷ cs)) (brackets_from f neg false more left)

brackets_from-IsBrackets :
    (f : ℕ) (neg first : Bool) (spans : List (ℕ × ℕ)) (cs : Str)
    → length cs + 1 ≤ f
    → IsBrackets (length cs) (brackets_from f neg first spans cs)
unfolding brackets_from IsBrackets Again
brackets_from-IsBrackets zero neg first spans cs fuel = absurd (omega (arith, fuel))
brackets_from-IsBrackets (suc f) neg first spans [] fuel = λ e. ground (arith, e)
brackets_from-IsBrackets (suc f) neg first spans (c ∷ cs) fuel =
    let again : Again f neg c cs = λ more left short.
      IsBrackets-le (length left) (length (c ∷ cs)) (brackets_from f neg false more left)
        (omega (arith, short))
        (brackets_from-IsBrackets f neg false more left (omega (arith, short, fuel))) in
    by_bool (IsBrackets (length (c ∷ cs))) (c == b']' && not first) (omega arith, λ a. refl)
      (by_bool (IsBrackets (length (c ∷ cs))) (c == b'\\') (backslashed again cs refl)
        (ranged again (range_end cs) refl))
  where
    -- Behind a backslash.
    backslashed :
        Again f neg c cs
        → (rest : Str) → rest ≡ cs
        → IsBrackets (length (c ∷ cs)) (elim rest [
          | [] ↦ err class_backslash
          | e ∷ cs' ↦ brackets_from f neg false (spans ++ escaped e) cs'
        ])
    backslashed again [] same = λ e. ground (arith, e)
    backslashed again (e ∷ cs') same =
        let shorter : length (e ∷ cs') ≡ length cs = ap length same in
        again (spans ++ escaped e) cs' (omega (arith, shorter))

    -- A span, or one character.
    ranged :
        Again f neg c cs
        → (r : Option (ℕ × Str)) → range_end cs ≡ r
        → IsBrackets (length (c ∷ cs)) (elim r [
          | none ↦ brackets_from f neg false (spans ++ (c, c) ∷ []) cs
          | some (hi, cs') ↦ brackets_from f neg false (spans ++ (c, hi) ∷ []) cs'
        ])
    ranged again none same = again (spans ++ (c, c) ∷ []) cs (omega arith)
    ranged again (some (hi, cs')) same =
        again (spans ++ (c, hi) ∷ []) cs' (range_end-length cs same)

brackets-IsBrackets : (cs : Str) → IsBrackets (length cs) (brackets cs)
unfolding brackets IsBrackets
brackets-IsBrackets [] = λ e. ground (arith, e)
brackets-IsBrackets (c ∷ cs) =
    by_if (IsBrackets (length (c ∷ cs))) (c == b'^')
      (IsBrackets-le (length cs) (length (c ∷ cs)) (brackets_from (length cs + 1) true true [] cs)
        (omega arith) (brackets_from-IsBrackets (length cs + 1) true true [] cs (omega arith)))
      (brackets_from-IsBrackets (length cs + 2) false true [] (c ∷ cs) (omega arith))

in_class-IsNode :
    (l a : ℕ) (r : Result ParseError (Node × Str))
    → IsBrackets l r
    → IsNode l a (r >>= (λ (n, cs'). ok (n, cs', a)))
unfolding IsBrackets
in_class-IsNode l a (err e) h = h
in_class-IsNode l a (ok (n, cs)) (short, h) = (short, h a)

escape-NumberedNode : (e a : ℕ) → NumberedNode a a (escape e)
unfolding escape
escape-NumberedNode e a = either (class_for e)
  where
    -- A class, or the character itself.
    either :
        (r : Option (List (ℕ × ℕ)))
        → NumberedNode a a (elim r [ some spans ↦ class spans false | none ↦ lit e ])
    either none = refl
    either (some spans) = refl

pub single-IsNode : (c : ℕ) (cs : Str) (a : ℕ) → IsNode (length cs) a (single c cs a)
unfolding single
single-IsNode c cs a =
    by_if (IsNode (length cs) a) (c == b'.') (omega arith, refl)
      (by_if (IsNode (length cs) a) (c == b'[')
        (in_class-IsNode (length cs) a (brackets cs) (brackets-IsBrackets cs))
        (by_if (IsNode (length cs) a) (c == b'\\') (escaping cs) (
          by_if (IsNode (length cs) a) (c == b')' || c == b'|') (λ e. ground (arith, e))
            (by_if (IsNode (length cs) a) (c == b'+' || c == b'*' || c == b'?')
              (λ e. ground (arith, e)) (omega arith, refl)))))
  where
    -- Behind a backslash.
    escaping :
        (rest : Str)
        → IsNode
            (length rest)
            a
            (elim rest [ [] ↦ err backslash | e ∷ cs' ↦ ok (escape e, cs', a) ])
    escaping [] = λ e. ground (arith, e)
    escaping (e ∷ cs') = (omega arith, escape-NumberedNode e a)
