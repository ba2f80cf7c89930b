-- ===== src/Cli/Regex/New.antt =====
-- What crates/kiry/src/main.rs, `Rx::new`, promises of a pattern it reads.
use kiry.Base.{
  ℕ, zero, suc, ◌+◌, ◌*◌, ◌≤◌, ◌≡◌, ◌≢◌, refl, subst, [], ◌∷◌, Bool, true, false, ◌==◌, nat_eq,
  arith, length, Result, ok, err, ◌>>=◌,
}
use kiry.Base.Text.{Str}
use kiry.Cli.Regex.{Node, lit, any, class, group, Alts, no_alt, alt, Pieces, piece, Rx}
use kiry.Cli.Regex.Parse.{
  ParseError, out_of_fuel, rep_of, quantified, NodeRead, single, stops, alt_end, grouped,
  PiecesRead, piece_read, AltsRead, alt_read, pieces, alternatives, new,
}
use kiry.Cli.Regex.Reading.{
  by_bool, by_if, Numbered, NumberedNode, IsNode, IsPieces, IsAlts, single-IsNode,
}

-- A quantifier that is none is once; what is left is no longer.
IsRep : ℕ → (ℕ × ℕ) × Bool × Str → Type 0
IsRep l (rep, is_rep, cs) = (length cs ≤ l) × (is_rep ≡ false → rep ≡ (1, 1))

rep_of-IsRep : (cs : Str) → IsRep (length cs) (rep_of cs)
unfolding rep_of IsRep
rep_of-IsRep [] = (omega arith, λ e. refl)
rep_of-IsRep (c ∷ cs) =
    by_if (IsRep (length (c ∷ cs))) (c == b'+') (omega arith, λ e. ground (arith, e))
      (by_if (IsRep (length (c ∷ cs))) (c == b'*') (omega arith, λ e. ground (arith, e))
        (by_if (IsRep (length (c ∷ cs))) (c == b'?') (omega arith, λ e. ground (arith, e))
          (omega arith, λ e. refl)))

-- A piece in front of the pieces that were read behind it.
put-IsPieces :
    (k l a b : ℕ) (n : Node) (rep : ℕ × ℕ) (r : PiecesRead)
    → k ≤ l
    → NumberedNode a b n
    → ((m : ℕ) (alts : Alts) → n ≡ group m alts → rep ≡ (1, 1))
    → IsPieces k b r
    → IsPieces l a (r >>= (λ (ps, cs, g). ok (piece n rep ps, cs, g)))
put-IsPieces k l a b n rep (err e) below own once h = h
put-IsPieces k l a b (group m alts) rep (ok (ps, cs, g)) below (same, own) once (short, h) =
    (omega (arith, short, below), (b, same, once m alts refl, own, h))
put-IsPieces k l a b (lit c) rep (ok (ps, cs, g)) below own once (short, h) =
    (omega (arith, short, below), subst (λ x. Numbered x g ps) own h)
put-IsPieces k l a b any rep (ok (ps, cs, g)) below own once (short, h) =
    (omega (arith, short, below), subst (λ x. Numbered x g ps) own h)
put-IsPieces k l a b (class spans neg) rep (ok (ps, cs, g)) below own once (short, h) =
    (omega (arith, short, below), subst (λ x. Numbered x g ps) own h)

-- What comes behind a node, with at most `l` characters left.
Behind : ℕ → ℕ → (Str → ℕ → PiecesRead) → Type 0
Behind l k behind = (cs : Str) (g : ℕ) → length cs ≤ l → IsPieces k g (behind cs g)

quantified-IsPieces :
    (l k a b : ℕ) (n : Node) (q : (ℕ × ℕ) × Bool × Str) (behind : Str → ℕ → PiecesRead)
    → NumberedNode a b n
    → IsRep l q
    → Behind l k behind
    → IsPieces k a (
        quantified n q
        >>= (λ (rep, cs2). behind cs2 b >>= (λ (ps, cs3, g2). ok (piece n rep ps, cs3, g2))))
unfolding quantified IsRep Behind
quantified-IsPieces l k a b (group n alts) (rep, true, cs) behind own (short, once) onward =
    λ e. ground (arith, e)
quantified-IsPieces l k a b (group n alts) (rep, false, cs) behind own (short, once) onward =
    put-IsPieces k k a b (group n alts) rep (behind cs b) (omega arith) own
      (λ m as_alts e. once refl) (onward cs b short)
quantified-IsPieces l k a b (lit c) (rep, is_rep, cs) behind own (short, once) onward =
    put-IsPieces k k a b (lit c) rep (behind cs b) (omega arith) own
      (λ m as_alts e. ground (arith, e)) (onward cs b short)
quantified-IsPieces l k a b any (rep, is_rep, cs) behind own (short, once) onward =
    put-IsPieces k k a b any rep (behind cs b) (omega arith) own (λ m as_alts e. ground (arith, e))
      (onward cs b short)
quantified-IsPieces l k a b (class spans neg) (rep, is_rep, cs) behind own (short, once) onward =
    put-IsPieces k k a b (class spans neg) rep (behind cs b) (omega arith) own
      (λ m as_alts e. ground (arith, e)) (onward cs b short)

piece_read-IsPieces :
    (l k a : ℕ) (node : Result ParseError NodeRead) (behind : Str → ℕ → PiecesRead)
    → IsNode l a node
    → Behind l k behind
    → IsPieces k a (piece_read node behind)
unfolding piece_read IsRep
piece_read-IsPieces l k a (err e) behind h onward = h
piece_read-IsPieces l k a (ok (n, cs, b)) behind (short, own) onward =
    quantified-IsPieces l k a b n (rep_of cs) behind own
      (omega (arith, short, (rep_of-IsRep cs).0), (rep_of-IsRep cs).1) onward

-- What comes behind an alternative is another, or nothing.
IsEnd : ℕ → Result ParseError (Bool × Str) → Type 0
IsEnd l (err e) = e ≢ out_of_fuel
IsEnd l (ok (more, cs)) = suc (length cs) ≤ l

alt_end-IsEnd : (cs : Str) → IsEnd (length cs) (alt_end cs)
unfolding alt_end IsEnd
alt_end-IsEnd [] = λ e. ground (arith, e)
alt_end-IsEnd (c ∷ cs) =
    by_if (IsEnd (length (c ∷ cs))) (c == b'|') (omega arith)
      (by_if (IsEnd (length (c ∷ cs))) (c == b')') (omega arith) (λ e. ground (arith, e)))

IsAlts-le : (k l a : ℕ) (r : AltsRead) → k ≤ l → IsAlts k a r → IsAlts l a r
IsAlts-le k l a (err e) below h = h
IsAlts-le k l a (ok (alts, cs, g)) below (short, h) = (omega (arith, short, below), h)

IsPieces-le : (k l a : ℕ) (r : PiecesRead) → k ≤ l → IsPieces k a r → IsPieces l a r
IsPieces-le k l a (err e) below h = h
IsPieces-le k l a (ok (ps, cs, g)) below (short, h) = (omega (arith, short, below), h)

-- An alternative in front of those that were read behind it.
add-IsAlts :
    (l a b : ℕ) (p : Pieces) (r : AltsRead)
    → Numbered a b p
    → IsAlts l b r
    → IsAlts l a (r >>= (λ (alts, cs, g). ok (alt p alts, cs, g)))
add-IsAlts l a b p (err e) first h = h
add-IsAlts l a b p (ok (alts, cs, g)) first (short, h) = (short, (b, first, h))

-- What comes behind an alternative of a group, with fewer than `l` characters left.
BehindAlt : ℕ → (Str → ℕ → AltsRead) → Type 0
BehindAlt l behind = (cs : Str) (g : ℕ) → suc (length cs) ≤ l → IsAlts l g (behind cs g)

after_end-IsAlts :
    (l a b : ℕ) (p : Pieces) (q : Result ParseError (Bool × Str)) (behind : Str → ℕ → AltsRead)
    → Numbered a b p
    → IsEnd l q
    → BehindAlt l behind
    → IsAlts l a (
        q >>= (λ (more, cs2).
          (elim more [ true ↦ behind cs2 b | false ↦ ok (no_alt, cs2, b) ])
          >>= (λ (alts, cs3, g2). ok (alt p alts, cs3, g2))))
unfolding IsEnd BehindAlt
after_end-IsAlts l a b p (err e) behind first h onward = h
after_end-IsAlts l a b p (ok (true, cs)) behind first h onward =
    add-IsAlts l a b p (behind cs b) first (onward cs b h)
after_end-IsAlts l a b p (ok (false, cs)) behind first h onward =
    add-IsAlts l a b p (ok (no_alt, cs, b)) first (omega (arith, h), refl)

IsEnd-le : (k l : ℕ) (q : Result ParseError (Bool × Str)) → k ≤ l → IsEnd k q → IsEnd l q
unfolding IsEnd
IsEnd-le k l (err e) below h = h
IsEnd-le k l (ok (more, cs)) below h = omega (arith, h, below)

alt_read-IsAlts :
    (l a : ℕ) (first : PiecesRead) (behind : Str → ℕ → AltsRead)
    → IsPieces l a first
    → BehindAlt l behind
    → IsAlts l a (alt_read first behind)
unfolding alt_read
alt_read-IsAlts l a (err e) behind h onward = h
alt_read-IsAlts l a (ok (p, cs, b)) behind (short, first) onward =
    after_end-IsAlts l a b p (alt_end cs) behind first
      (IsEnd-le (length cs) l (alt_end cs) short (alt_end-IsEnd cs)) onward

grouped-IsNode :
    (l a : ℕ) (r : AltsRead) → IsAlts l (a + 1) r → IsNode l a (r >>= (λ x. ok (grouped a x)))
unfolding grouped
grouped-IsNode l a (err e) h = h
grouped-IsNode l a (ok (alts, cs, g)) (short, h) = (short, (refl, h))

mutual
  unfolding pieces BehindAlt Behind

  pieces-IsPieces :
      (f : ℕ) (cs : Str) (a : ℕ) (top : Bool)
      → 2 * length cs + 1 ≤ f
      → IsPieces (length cs) a (pieces f cs a top)
  pieces-IsPieces zero cs a top fuel = absurd (omega (arith, fuel))
  pieces-IsPieces (suc f) [] a top fuel = (omega arith, refl)
  pieces-IsPieces (suc f) (c ∷ cs) a top fuel =
      by_bool (IsPieces (length (c ∷ cs)) a) (stops top c) (omega arith, refl)
        (piece_read-IsPieces (length cs) (length (c ∷ cs)) a
          (elim (c == b'(') [
            | true ↦ alternatives f cs (a + 1) >>= (λ r. ok (grouped a r))
            | false ↦ single c cs a
          ])
          (λ cs' g. pieces f cs' g top)
          (by_bool (IsNode (length cs) a) (c == b'(')
            (grouped-IsNode (length cs) a (alternatives f cs (a + 1))
              (alternatives-IsAlts f cs (a + 1) (omega (arith, fuel))))
            (single-IsNode c cs a))
          (λ cs' g short.
            IsPieces-le (length cs') (length (c ∷ cs)) g (pieces f cs' g top) (omega (arith, short))
              (pieces-IsPieces f cs' g top (omega (arith, short, fuel)))))

  alternatives-IsAlts :
      (f : ℕ) (cs : Str) (a : ℕ)
      → 2 * length cs + 2 ≤ f
      → IsAlts (length cs) a (alternatives f cs a)
  alternatives-IsAlts zero cs a fuel = absurd (omega (arith, fuel))
  alternatives-IsAlts (suc f) cs a fuel =
      alt_read-IsAlts (length cs) a (pieces f cs a false) (λ cs' g. alternatives f cs' g)
        (pieces-IsPieces f cs a false (omega (arith, fuel)))
        (λ cs' g short.
          IsAlts-le (length cs') (length cs) g (alternatives f cs' g) (omega (arith, short))
            (alternatives-IsAlts f cs' g (omega (arith, short, fuel))))

-- A pattern was read, its groups numbered from 0 on; or it was refused for what it says.
IsRead : Result ParseError Rx → Type 0
IsRead (err e) = e ≢ out_of_fuel
IsRead (ok rx) = Numbered 0 rx.groups rx.prog

whole-IsRead :
    (src : Str) (l : ℕ) (r : PiecesRead)
    → IsPieces l 0 r
    → IsRead (r >>= (λ (prog, cs, groups). ok (record { prog = prog; groups = groups; src = src })))
unfolding IsRead
whole-IsRead src l (err e) h = h
whole-IsRead src l (ok (prog, cs, groups)) (short, h) = h

new-IsRead : (src : Str) → IsRead (new src)
unfolding new
new-IsRead src =
    whole-IsRead src (length src) (pieces (2 * length src + 1) src 0 true)
      (pieces-IsPieces (2 * length src + 1) src 0 true (omega arith))

-- The reading of a pattern comes to an end: it gives a pattern or the fault of the text.
pub new_total : (src : Str) → new src ≢ err out_of_fuel
unfolding IsRead
new_total src e = (subst IsRead e (new-IsRead src)) refl

-- The groups of a pattern that is read are numbered from 0 on in the order of their parentheses, as many as
-- it counts, and none has a quantifier.
pub new-Numbered : (src : Str) {rx : Rx} → new src ≡ ok rx → Numbered 0 rx.groups rx.prog
unfolding IsRead
new-Numbered src e = subst IsRead e (new-IsRead src)
