-- ===== src/Cli/Regex/Complete.antt =====
-- The search of crates/kiry/src/main.rs, `seq` and `Rx::find`, finds a match wherever a pattern has one, if
-- the groups of the pattern hold single characters only.
use kiry.Base.{
  ℕ, ◌+◌, ◌≤◌, ◌≡◌, refl, sym, ◌∙◌, ap, subst, ◌⊎◌, inl, inr, Option, some, none, arith, length,
  Among,
}
use kiry.Base.Text.{Str}
use kiry.Cli.Regex.{
  Node, lit, any, class, group, Alts, no_alt, alt, Pieces, done, piece, Caps, Attempt, candidates,
  back, seq, try_alts, captured, and_then, hit,
}
use kiry.Cli.Regex.Attempts.{
  Hits, Repeats-length, captured-end, candidates-Among, back-Hits, and_then-Hits, or_else-Hits,
  or_else-Hits_first,
}
use kiry.Cli.Regex.Meaning.{Stands, Matches, AnyOf, IsFixed, AreFixed, IsPlain, seq-Matches}

width : Pieces → ℕ
width done = 0
width (piece n rep rest) = width rest + 1

Stands-once :
    (n : Node) (rep : ℕ × ℕ) (s : Str) (i mid : ℕ)
    → rep ≡ (1, 1)
    → Stands n rep s i mid
    → mid ≡ i + 1
Stands-once n (lo, hi) s i mid e (k, low, high, reps, same) =
    let l : lo ≡ 1 = ap (λ r. r.0) e in
    let h : hi ≡ 1 = ap (λ r. r.1) e in omega (arith, low, high, same, l, h)

Matches-width : (ps : Pieces) (s : Str) (i j : ℕ) → IsFixed ps → Matches s ps i j → j ≡ i + width ps
unfolding width
Matches-width done s i j fixed h = omega (arith, h)
Matches-width (piece (group n alts) rep rest) s i j fixed h = absurd fixed
Matches-width (piece (lit l) rep rest) s i j (once, fixed) (mid, stands, h) =
    omega (arith, Stands-once (lit l) rep s i mid once stands, Matches-width rest s mid j fixed h)
Matches-width (piece any rep rest) s i j (once, fixed) (mid, stands, h) =
    omega (arith, Stands-once any rep s i mid once stands, Matches-width rest s mid j fixed h)
Matches-width (piece (class spans neg) rep rest) s i j (once, fixed) (mid, stands, h) = omega (
  arith,
  Stands-once (class spans neg) rep s i mid once stands,
  Matches-width rest s mid j fixed h,
)

back-Hits_at :
    (n : Node) (rep : ℕ × ℕ) (s : Str) (i mid : ℕ) (next : ℕ → Caps → Attempt) (caps : Caps)
    → i ≤ length s
    → Stands n rep s i mid
    → ((c : Caps) → Hits (next mid c))
    → Hits (back (candidates n rep s i) next caps)
back-Hits_at n (lo, hi) s i mid next caps below (k, low, high, reps, same) hit =
    back-Hits (candidates n (lo, hi) s i) next caps mid
      (subst (λ e. Among e (candidates n (lo, hi) s i)) (sym same)
        (candidates-Among n lo hi s i k below low high reps))
      hit

pub Stands-length :
    (n : Node) (rep : ℕ × ℕ) (s : Str) (i mid : ℕ)
    → i ≤ length s
    → Stands n rep s i mid
    → mid ≤ length s
Stands-length n (lo, hi) s i mid below (k, low, high, reps, same) =
    omega (arith, Repeats-length n s i k below reps, same)

IsFixed-IsPlain : (ps : Pieces) → IsFixed ps → IsPlain ps
IsFixed-IsPlain done h = tt
IsFixed-IsPlain (piece (group n alts) rep rest) h = absurd h
IsFixed-IsPlain (piece (lit l) rep rest) (once, h) = IsFixed-IsPlain rest h
IsFixed-IsPlain (piece any rep rest) (once, h) = IsFixed-IsPlain rest h
IsFixed-IsPlain (piece (class spans neg) rep rest) (once, h) = IsFixed-IsPlain rest h

mutual
  pub Matches-length :
      (ps : Pieces) (s : Str) (i j : ℕ) → i ≤ length s → Matches s ps i j → j ≤ length s
  Matches-length done s i j below h = omega (arith, below, h)
  Matches-length (piece (group n alts) rep rest) s i j below (mid, alternative, h) =
      Matches-length rest s mid j (AnyOf-length alts s i mid below alternative) h
  Matches-length (piece (lit l) rep rest) s i j below (mid, stands, h) =
      Matches-length rest s mid j (Stands-length (lit l) rep s i mid below stands) h
  Matches-length (piece any rep rest) s i j below (mid, stands, h) =
      Matches-length rest s mid j (Stands-length any rep s i mid below stands) h
  Matches-length (piece (class spans neg) rep rest) s i j below (mid, stands, h) =
      Matches-length rest s mid j (Stands-length (class spans neg) rep s i mid below stands) h

  pub AnyOf-length :
      (alts : Alts) (s : Str) (i mid : ℕ) → i ≤ length s → AnyOf s alts i mid → mid ≤ length s
  AnyOf-length no_alt s i mid below h = absurd h
  AnyOf-length (alt a alts) s i mid below (inl h) = Matches-length a s i mid below h
  AnyOf-length (alt a alts) s i mid below (inr h) = AnyOf-length alts s i mid below h

captured-Hits : (n i mid : ℕ) (r : Attempt) → Hits r → Hits (captured n i mid r)
captured-Hits n i mid r (e, h) = (e, captured-end n i mid r ∙ h)

-- The one end of an alternative that is matched.
fixed_end :
    (a : Pieces) (s : Str) (i mid : ℕ) (caps : Caps)
    → IsFixed a
    → Matches s a i mid
    → Hits (seq a s i caps)
    → (seq a s i caps).0 ≡ some mid
fixed_end a s i mid caps fixed m (e, found) =
    let same : e ≡ mid = omega (
      arith,
      Matches-width a s i mid fixed m,
      Matches-width a s i e fixed (seq-Matches a s i caps found),
    ) in
    found ∙ ap (λ x. some x) same

mutual
  unfolding seq

  pub seq-Hits :
      (ps : Pieces) (s : Str) (i : ℕ) (caps : Caps) (j : ℕ)
      → IsPlain ps
      → i ≤ length s
      → Matches s ps i j
      → Hits (seq ps s i caps)
  seq-Hits done s i caps j plain below h = (i, refl)
  seq-Hits (piece (group n alts) rep rest) s i caps j (fixed, plain) below (mid, alternative, h) =
      let low = AnyOf-length alts s i mid below alternative in
      try_alts-Hits alts n (λ e c. seq rest s e c) s i caps mid fixed below alternative
        (λ c. seq-Hits rest s mid c j plain low h)
  seq-Hits (piece (lit l) rep rest) s i caps j plain below (mid, stands, h) =
      let low = Stands-length (lit l) rep s i mid below stands in
      back-Hits_at (lit l) rep s i mid (λ e c. seq rest s e c) caps below stands
        (λ c. seq-Hits rest s mid c j plain low h)
  seq-Hits (piece any rep rest) s i caps j plain below (mid, stands, h) =
      let low = Stands-length any rep s i mid below stands in
      back-Hits_at any rep s i mid (λ e c. seq rest s e c) caps below stands
        (λ c. seq-Hits rest s mid c j plain low h)
  seq-Hits (piece (class spans neg) rep rest) s i caps j plain below (mid, stands, h) =
      let low = Stands-length (class spans neg) rep s i mid below stands in
      back-Hits_at (class spans neg) rep s i mid (λ e c. seq rest s e c) caps below stands
        (λ c. seq-Hits rest s mid c j plain low h)

  try_alts-Hits :
      (alts : Alts) (n : ℕ) (next : ℕ → Caps → Attempt) (s : Str) (i : ℕ) (caps : Caps) (mid : ℕ)
      → AreFixed alts
      → i ≤ length s
      → AnyOf s alts i mid
      → ((c : Caps) → Hits (next mid c))
      → Hits (try_alts alts n next s i caps)
  try_alts-Hits no_alt n next s i caps mid fixed below h hit = absurd h
  try_alts-Hits (alt a alts) n next s i caps mid (fixed, more) below (inl m) hit =
      or_else-Hits_first (and_then (seq a s i caps) (λ e c. captured n i e (next e c)))
        (λ c. try_alts alts n next s i c)
        (and_then-Hits (seq a s i caps) (λ e c. captured n i e (next e c))
          (fixed_end a s i mid caps fixed m
            (seq-Hits a s i caps mid (IsFixed-IsPlain a fixed) below m))
          (λ c. captured-Hits n i mid (next mid c) (hit c)))
  try_alts-Hits (alt a alts) n next s i caps mid (fixed, more) below (inr m) hit =
      or_else-Hits (and_then (seq a s i caps) (λ e c. captured n i e (next e c)))
        (λ c. try_alts alts n next s i c)
        (λ c. try_alts-Hits alts n next s i c mid more below m hit)

pub hit-none :
    (start : ℕ) (r : Attempt) (later : Option (ℕ × Caps))
    → hit start r later ≡ none
    → ¬ (Hits r) × (later ≡ none)
unfolding hit
hit-none start (some e, c) later h = ground (arith, h)
hit-none start (none, c) later h = (λ (e, found). ground (arith, found), h)

pub hit-some :
    (start : ℕ) (r : Attempt) (later : Option (ℕ × Caps)) {at : ℕ} {caps : Caps}
    → hit start r later ≡ some (at, caps)
    → ((at ≡ start) × Hits r × (r.1 ≡ caps)) ⊎ (¬ (Hits r) × (later ≡ some (at, caps)))
unfolding hit
hit-some start (some e, c) later {at = at} {caps = caps} h =
    let same : start ≡ at = cc h in let took : c ≡ caps = cc h in inl (sym same, (e, refl), took)
hit-some start (none, c) later h = inr (λ (e, found). ground (arith, found), h)
