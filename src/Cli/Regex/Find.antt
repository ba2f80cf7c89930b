-- ===== src/Cli/Regex/Find.antt =====
-- What crates/kiry/src/main.rs, `Rx::find`, promises: it finds a match, the leftmost one, and texts that the
-- alternatives of the groups match.
use kiry.Base.{
  ℕ, zero, suc, ◌+◌, ◌≤◌, ◌<◌, ◌≡◌, refl, sym, ◌∙◌, ap, subst, ◌↔◌, ◌⊎◌, inl, inr, List, [], ◌∷◌,
  some, none, arith, length, Option-cases,
}
use kiry.Base.Text.{Str}
use kiry.Cli.Regex.{
  lit, any, class, group, Alts, no_alt, alt, Pieces, done, piece, Rx, Caps, Attempt, seq, no_caps,
  find_from, find, texts, slice,
}
use kiry.Cli.Regex.Attempts.{Hits}
use kiry.Cli.Regex.Meaning.{Matches, AnyOf, IsPlain, seq-Matches}
use kiry.Cli.Regex.Complete.{seq-Hits, hit-none, hit-some, AnyOf-length}
use kiry.Cli.Regex.Captures.{Held, no_caps-Held, Owned, OwnedIn, seq-Held}

-- A group of the pattern, also one within another.
abbrev mutual
  pub HasGroup : Pieces → ℕ → Alts → Type 0
  HasGroup done n alts = ⊥
  HasGroup (piece (group m own) rep rest) n alts =
      ((m ≡ n) × (own ≡ alts)) ⊎ HasWithin own n alts ⊎ HasGroup rest n alts
  HasGroup (piece (lit l) rep rest) n alts = HasGroup rest n alts
  HasGroup (piece any rep rest) n alts = HasGroup rest n alts
  HasGroup (piece (class spans neg) rep rest) n alts = HasGroup rest n alts

  pub HasWithin : Alts → ℕ → Alts → Type 0
  HasWithin no_alt n alts = ⊥
  HasWithin (alt a own) n alts = HasGroup a n alts ⊎ HasWithin own n alts

mutual
  Matches-le : (ps : Pieces) (s : Str) (i j : ℕ) → Matches s ps i j → i ≤ j
  Matches-le done s i j h = omega (arith, h)
  Matches-le (piece (group n alts) rep rest) s i j (mid, alternative, h) =
      omega (arith, AnyOf-le alts s i mid alternative, Matches-le rest s mid j h)
  Matches-le (piece (lit l) (lo, hi) rest) s i j (mid, (k, low, high, reps, e), h) =
      omega (arith, e, Matches-le rest s mid j h)
  Matches-le (piece any (lo, hi) rest) s i j (mid, (k, low, high, reps, e), h) =
      omega (arith, e, Matches-le rest s mid j h)
  Matches-le (piece (class spans neg) (lo, hi) rest) s i j (mid, (k, low, high, reps, e), h) =
      omega (arith, e, Matches-le rest s mid j h)

  AnyOf-le : (alts : Alts) (s : Str) (i mid : ℕ) → AnyOf s alts i mid → i ≤ mid
  AnyOf-le no_alt s i mid h = absurd h
  AnyOf-le (alt a alts) s i mid (inl h) = Matches-le a s i mid h
  AnyOf-le (alt a alts) s i mid (inr h) = AnyOf-le alts s i mid h

-- Group `n` of the pattern has an alternative that the text from `a` to `b` matches.
abbrev pub Taken : Pieces → Str → ℕ → ℕ → ℕ → Type 0
Taken prog s n a b =
    (alts : Alts) × HasGroup prog n alts × AnyOf s alts a b × (a ≤ b) × (b ≤ length s)

module _ (prog : Pieces) (s : Str) where
  mutual
    Taken-Owned :
        (ps : Pieces)
        → ((n : ℕ) (own : Alts) → HasGroup ps n own → HasGroup prog n own)
        → Owned (Taken prog s) s ps
    Taken-Owned done within = tt
    Taken-Owned (piece (group n alts) rep rest) within = (
      λ a b below m. (
        alts,
        within n alts (inl (refl, refl)),
        m,
        AnyOf-le alts s a b m,
        AnyOf-length alts s a b below m,
      ),
      Taken-OwnedIn alts (λ m own h. within m own (inr (inl h))),
      Taken-Owned rest (λ m own h. within m own (inr (inr h))),
    )
    Taken-Owned (piece (lit l) rep rest) within = Taken-Owned rest within
    Taken-Owned (piece any rep rest) within = Taken-Owned rest within
    Taken-Owned (piece (class spans neg) rep rest) within = Taken-Owned rest within

    Taken-OwnedIn :
        (alts : Alts)
        → ((n : ℕ) (own : Alts) → HasWithin alts n own → HasGroup prog n own)
        → OwnedIn (Taken prog s) s alts
    Taken-OwnedIn no_alt within = tt
    Taken-OwnedIn (alt a alts) within = (
      Taken-Owned a (λ m own h. within m own (inl h)),
      Taken-OwnedIn alts (λ m own h. within m own (inr h)),
    )

  -- The text of each group, from `k` on: empty, or one that an alternative of the group matches.
  abbrev pub AreTaken : ℕ → List Str → Type 0
  AreTaken k [] = Unit
  AreTaken k (t ∷ ts) =
      ((t ≡ []) ⊎ ((a : ℕ) × (b : ℕ) × (t ≡ slice s a b) × Taken prog s k a b))
      × AreTaken (suc k) ts

  texts-AreTaken : (k : ℕ) (caps : Caps) → Held (Taken prog s) k caps → AreTaken k (texts s caps)
  unfolding texts
  texts-AreTaken k [] h = tt
  texts-AreTaken k (none ∷ caps) h = (inl refl, texts-AreTaken (suc k) caps h)
  texts-AreTaken k (some (a, b) ∷ caps) (p, h) =
      (inr (a, b, refl, p), texts-AreTaken (suc k) caps h)

le_cases : (m i : ℕ) → m ≤ i → (m ≡ i) ⊎ (m < i)
le_cases zero zero h = inl refl
le_cases zero (suc i) h = inr (omega arith)
le_cases (suc m) zero h = absurd (omega (arith, h))
le_cases (suc m) (suc i) h = elim (le_cases m i (omega (arith, h))) [
  | inl e ↦ inl (omega (arith, e))
  | inr below ↦ inr (omega (arith, below))
]

module _ (rx : Rx) (s : Str) where
  abbrev at : ℕ → Attempt
  at i = seq rx.prog s i (no_caps rx.groups)

  find_from-none :
      (left start : ℕ)
      → find_from left rx s start ≡ none
      → (i : ℕ) → start ≤ i
      → i < start + left
      → ¬ (Hits (at i))
  unfolding find_from
  find_from-none zero start h i low high = absurd (omega (arith, low, high))
  find_from-none (suc left) start h i low high =
      let (miss, later) = hit-none start (at start) (find_from left rx s (start + 1)) h in
      elim (le_cases start i low) [
        | inl here ↦ subst (λ x. ¬ (Hits (at x))) here miss
        | inr behind ↦
            find_from-none left (start + 1) later i (omega (arith, behind)) (omega (arith, high))
      ]

  find_from-some :
      (left start : ℕ) {i : ℕ} {caps : Caps}
      → find_from left rx s start ≡ some (i, caps)
      → (start ≤ i)
        × (i < start + left)
        × Hits (at i)
        × ((at i).1 ≡ caps)
        × ((m : ℕ) → start ≤ m → m < i → ¬ (Hits (at m)))
  unfolding find_from
  find_from-some zero start h = ground (arith, h)
  find_from-some (suc left) start {i = i} {caps = caps} h =
      elim (hit-some start (at start) (find_from left rx s (start + 1)) h) [
        | inl (here, hits, took) ↦ (
          omega (arith, here),
          omega (arith, here),
          subst (λ x. Hits (at x)) (sym here) hits,
          subst (λ x. (at x).1 ≡ caps) (sym here) took,
          λ m low high. absurd (omega (arith, low, high, here)),
        )
        | inr (miss, later) ↦
            let (low, high, hits, took, first) = find_from-some left (start + 1) later in
            (
              omega (arith, low),
              omega (arith, high),
              hits,
              took,
              λ m from below. elim (le_cases start m from) [
                | inl here ↦ subst (λ x. ¬ (Hits (at x))) here miss
                | inr behind ↦ first m (omega (arith, behind)) below
              ],
            )
      ]

  find-cases :
      ((find rx s ≡ none) × (find_from (length s + 1) rx s 0 ≡ none))
      ⊎ ((i : ℕ) × (caps : Caps) × (find_from (length s + 1) rx s 0 ≡ some (i, caps))
          × (find rx s ≡ some (texts s caps)))
  unfolding find
  find-cases = elim (Option-cases (find_from (length s + 1) rx s 0)) [
    | inl e ↦ inl (ground (arith, e), e)
    | inr ((i, caps), e) ↦ inr (i, caps, e, ground (arith, e))
  ]

  at-Held : (i : ℕ) → i ≤ length s → Held (Taken rx.prog s) 0 (at i).1
  at-Held i below =
      seq-Held (Taken rx.prog s) s rx.prog i (no_caps rx.groups)
        (Taken-Owned rx.prog s rx.prog (λ n own h. h)) below
        (no_caps-Held (Taken rx.prog s) 0 rx.groups)

  -- What is found is a match of the pattern, and each text is empty or one that an alternative of its group
  -- matches, within the line.
  pub find-Matches :
      {ts : List Str}
      → find rx s ≡ some ts
      → (i : ℕ) × (j : ℕ) × (i ≤ length s) × Matches s rx.prog i j × AreTaken rx.prog s 0 ts
  find-Matches {ts = ts} h = elim find-cases [
    | inl (nothing, e) ↦ absurd (ground (arith, nothing, h))
    | inr (i, caps, e, given) ↦
        let (low, high, (j, hits), took, first) = find_from-some (length s + 1) 0 e in
        let below : i ≤ length s = omega (arith, high) in
        let same : texts s (at i).1 ≡ ts = ap (λ c. texts s c) took ∙ cc (given, h) in
        (
          i,
          j,
          below,
          seq-Matches rx.prog s i (no_caps rx.groups) hits,
          subst (AreTaken rx.prog s 0) same (texts-AreTaken rx.prog s 0 (at i).1 (at-Held i below)),
        )
  ]

  no_match :
      IsPlain rx.prog → (i j : ℕ) → i ≤ length s → ¬ (Hits (at i)) → ¬ (Matches s rx.prog i j)
  no_match plain i j below miss m = miss (seq-Hits rx.prog s i (no_caps rx.groups) j plain below m)

  -- With groups of single characters only, nothing is found exactly if the pattern matches nowhere.
  pub find-none :
      IsPlain rx.prog → (find rx s ≡ none) ↔ ((i j : ℕ) → i ≤ length s → ¬ (Matches s rx.prog i j))
  find-none plain = elim find-cases [
    | inl (nothing, e) ↦ (
      λ h i j below.
          no_match plain i j below
            (find_from-none (length s + 1) 0 e i (omega arith) (omega (arith, below))),
      λ h. nothing,
    )
    | inr (i, caps, e, given) ↦
        let (low, high, (j, hits), took, first) = find_from-some (length s + 1) 0 e in
        (
          λ h. absurd (ground (arith, h, given)),
          λ h.
              absurd
                (h i j (omega (arith, high)) (seq-Matches rx.prog s i (no_caps rx.groups) hits)),
        )
  ]

  -- With groups of single characters only, what is found is the texts of the leftmost match.
  pub find-Leftmost :
      {ts : List Str}
      → IsPlain rx.prog
      → find rx s ≡ some ts
      → (i : ℕ) × (j : ℕ) × (ts ≡ texts s (seq rx.prog s i (no_caps rx.groups)).1)
        × Matches s rx.prog i j
        × ((m k : ℕ) → m < i → ¬ (Matches s rx.prog m k))
  find-Leftmost {ts = ts} plain h = elim find-cases [
    | inl (nothing, e) ↦ absurd (ground (arith, nothing, h))
    | inr (i, caps, e, given) ↦
        let (low, high, (j, hits), took, first) = find_from-some (length s + 1) 0 e in
        (
          i,
          j,
          sym (ap (λ c. texts s c) took ∙ cc (given, h)),
          seq-Matches rx.prog s i (no_caps rx.groups) hits,
          λ m k below.
              no_match plain m k (omega (arith, below, high)) (first m (omega arith) below),
        )
  ]
