-- ===== src/Cli/Regex/Captures.antt =====
-- What the groups of a pattern take, crates/kiry/src/main.rs, `seq`: whatever holds of each group and what
-- its alternatives match is true of the places that a search leaves behind, also one that went back.
use kiry.Base.{
  ℕ, zero, suc, ◌+◌, ◌≤◌, ◌≡◌, refl, subst, Among, inl, inr, List, [], ◌∷◌, some, none, arith,
  length,
}
use kiry.Base.Text.{Str}
use kiry.Cli.Regex.{
  Node, lit, any, class, group, Alts, no_alt, alt, Pieces, done, piece, Caps, Attempt, candidates,
  back, seq, try_alts, captured, and_then, or_else, no_caps, set,
}
use kiry.Cli.Regex.Meaning.{AnyOf, seq-Matches}
use kiry.Cli.Regex.Attempts.{candidates-Reached}
use kiry.Cli.Regex.Complete.{Stands-length, Matches-length}

module _ (P : ℕ → ℕ → ℕ → Type 0) where
  -- `P` is true of what the groups from `k` on took.
  abbrev pub Held : ℕ → Caps → Type 0
  Held k [] = Unit
  Held k (none ∷ caps) = Held (suc k) caps
  Held k (some (a, b) ∷ caps) = P k a b × Held (suc k) caps

  pub no_caps-Held : (k n : ℕ) → Held k (no_caps n)
  unfolding no_caps
  no_caps-Held k zero = tt
  no_caps-Held k (suc n) = no_caps-Held (suc k) n

  set-Held :
      (n k m a b : ℕ) (caps : Caps) → m ≡ n + k → P m a b → Held k caps → Held k (set n (a, b) caps)
  unfolding set
  set-Held n k m a b [] e p h = tt
  set-Held zero k m a b (none ∷ caps) e p h =
      let here : m ≡ k = omega (arith, e) in (subst (λ x. P x a b) here p, h)
  set-Held zero k m a b (some (c, d) ∷ caps) e p (q, h) =
      let here : m ≡ k = omega (arith, e) in (subst (λ x. P x a b) here p, h)
  set-Held (suc n) k m a b (none ∷ caps) e p h =
      set-Held n (suc k) m a b caps (omega (arith, e)) p h
  set-Held (suc n) k m a b (some (c, d) ∷ caps) e p (q, h) =
      (q, set-Held n (suc k) m a b caps (omega (arith, e)) p h)

  or_else-Held :
      (r : Attempt) (next : Caps → Attempt)
      → Held 0 r.1
      → ((c : Caps) → Held 0 c → Held 0 (next c).1)
      → Held 0 (or_else r next).1
  unfolding or_else
  or_else-Held (some e, c) next h later = h
  or_else-Held (none, c) next h later = later c h

  and_then-Held :
      (r : Attempt) (next : ℕ → Caps → Attempt)
      → Held 0 r.1
      → ((mid : ℕ) (c : Caps) → r.0 ≡ some mid → Held 0 c → Held 0 (next mid c).1)
      → Held 0 (and_then r next).1
  unfolding and_then
  and_then-Held (some e, c) next h later = later e c refl h
  and_then-Held (none, c) next h later = h

  captured-Held :
      (n i mid : ℕ) (r : Attempt) → P n i mid → Held 0 r.1 → Held 0 (captured n i mid r).1
  unfolding captured
  captured-Held n i mid (some e, c) p h = set-Held n 0 n i mid c (omega arith) p h
  captured-Held n i mid (none, c) p h = h

  back-Held :
      (es : List ℕ) (next : ℕ → Caps → Attempt) (c : Caps)
      → ((e : ℕ) (d : Caps) → Among e es → Held 0 d → Held 0 (next e d).1)
      → Held 0 c
      → Held 0 (back es next c).1
  unfolding back
  back-Held [] next c keeps h = h
  back-Held (e ∷ es) next c keeps h =
      or_else-Held (next e c) (λ d. back es next d) (keeps e c (inl refl) h)
        (λ d held. back-Held es next d (λ e' d' among. keeps e' d' (inr among)) held)

  module _ (s : Str) where
    -- `P` is true of each group and what its alternatives match.
    abbrev mutual
      pub Owned : Pieces → Type 0
      Owned done = Unit
      Owned (piece (group n alts) rep rest) =
          ((a b : ℕ) → a ≤ length s → AnyOf s alts a b → P n a b) × OwnedIn alts × Owned rest
      Owned (piece (lit l) rep rest) = Owned rest
      Owned (piece any rep rest) = Owned rest
      Owned (piece (class spans neg) rep rest) = Owned rest

      pub OwnedIn : Alts → Type 0
      OwnedIn no_alt = Unit
      OwnedIn (alt a alts) = Owned a × OwnedIn alts

    candidate_length :
        (n : Node) (rep : ℕ × ℕ) (i e : ℕ)
        → i ≤ length s
        → Among e (candidates n rep s i)
        → e ≤ length s
    candidate_length n (lo, hi) i e below among =
        Stands-length n (lo, hi) s i e below (candidates-Reached n lo hi s i e among)

    mutual
      unfolding seq

      pub seq-Held :
          (ps : Pieces) (i : ℕ) (caps : Caps)
          → Owned ps
          → i ≤ length s
          → Held 0 caps
          → Held 0 (seq ps s i caps).1
      seq-Held done i caps own below h = h
      seq-Held (piece (group n alts) rep rest) i caps (mine, inner, own) below h =
          try_alts-Held alts n (λ e c. seq rest s e c) i caps inner below mine
            (λ e c low held. seq-Held rest e c own low held) h
      seq-Held (piece (lit l) rep rest) i caps own below h =
          back-Held (candidates (lit l) rep s i) (λ e c. seq rest s e c) caps
            (λ e c among held.
              seq-Held rest e c own (candidate_length (lit l) rep i e below among) held)
            h
      seq-Held (piece any rep rest) i caps own below h =
          back-Held (candidates any rep s i) (λ e c. seq rest s e c) caps
            (λ e c among held.
              seq-Held rest e c own (candidate_length any rep i e below among) held)
            h
      seq-Held (piece (class spans neg) rep rest) i caps own below h =
          back-Held (candidates (class spans neg) rep s i) (λ e c. seq rest s e c) caps
            (λ e c among held.
              seq-Held rest e c own (candidate_length (class spans neg) rep i e below among) held)
            h

      try_alts-Held :
          (alts : Alts) (n : ℕ) (next : ℕ → Caps → Attempt) (i : ℕ) (caps : Caps)
          → OwnedIn alts
          → i ≤ length s
          → ((a b : ℕ) → a ≤ length s → AnyOf s alts a b → P n a b)
          → ((e : ℕ) (c : Caps) → e ≤ length s → Held 0 c → Held 0 (next e c).1)
          → Held 0 caps
          → Held 0 (try_alts alts n next s i caps).1
      try_alts-Held no_alt n next i caps inner below mine keeps h = h
      try_alts-Held (alt a alts) n next i caps (first, inner) below mine keeps h =
          or_else-Held (and_then (seq a s i caps) (λ e c. captured n i e (next e c)))
            (λ c. try_alts alts n next s i c)
            (and_then-Held (seq a s i caps) (λ e c. captured n i e (next e c))
              (seq-Held a i caps first below h)
              (λ mid c found held.
                let m = seq-Matches a s i caps found in
                captured-Held n i mid (next mid c) (mine i mid below (inl m))
                  (keeps mid c (Matches-length a s i mid below m) held)))
            (λ c held.
              try_alts-Held alts n next i c inner below (λ x y low m. mine x y low (inr m)) keeps
                held)
