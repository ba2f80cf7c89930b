-- ===== src/Cli/Paths/Laws.antt =====
-- Where `spelled` of crates/kiry/src/main.rs leads: a walk over the components of a path, past the
-- links on the way.
use kiry.Base.{
  ℕ, zero, suc, ◌≤◌, ◌≡◌, refl, sym, ◌∙◌, ap, subst, ◌⊎◌, inl, inr, List, [], ◌∷◌, ◌++◌, reverse,
  true, false, Option, none, some, ◌==◌, nat_eq, list_eq, All, All-append, All-imp, arith,
  Bool-cases, Option-cases, append-nil, append_assoc, if◌then◌else◌,
}
use kiry.Base.Text.{Str, slash, begins, split, split_from, join}
use kiry.Base.Text.Split.{Lacks, split-join}
use kiry.Archive.Resolve.Beneath.{IsPlain}
use kiry.Cli.Paths.{lexical_from, lexical, hopped, unlinked, spelled}
use kiry.Cli.Paths.Lexical.{Lands, lexical_from-Lands, lexical_from-append, lexical-IsPlain}

-- Where a link leads: `to` from the root, or from the directory `before` where the link stands, and
-- on to what comes behind it.
abbrev pub Start : List Str → Str → List Str → Type 0
Start before to start =
    ((begins slash to ≡ true) × (start ≡ []))
    ⊎ ((begins slash to ≡ false) × (start ≡ reverse before))

abbrev pub Leads : List Str → Str → List Str → List Str → Type 0
Leads before to behind next =
    (start ends : List Str) × Start before to start
    × Lands start (split to slash ++ behind) ends
    × (next ≡ reverse ends)

-- A path is split in two at each slash.
split_from-append :
    (s t cur : Str)
    → split_from slash (s ++ slash ∷ t) cur ≡ split_from slash s cur ++ split_from slash t []
unfolding split_from
split_from-append [] t cur = refl
split_from-append (c ∷ s) t cur = elim (Bool-cases (c == slash)) [
  | inl e ↦ rw (e, split_from) (ap (λ ps. cur ∷ ps) (split_from-append s t []))
  | inr e ↦ rw (e, split_from) (split_from-append s t (cur ++ c ∷ []))
]

split-append : (s t : Str) → split (s ++ slash ∷ t) slash ≡ split s slash ++ split t slash
unfolding split
split-append s t = split_from-append s t []

-- From the directory that a path spells, or from the root.
from_base :
    (before cs : List Str)
    → All IsPlain before
    → lexical_from (split (join (slash ∷ []) before) slash ++ cs) []
      ≡ lexical_from cs (reverse before)
unfolding lexical_from split join
from_base [] cs h = refl
from_base (c ∷ before) cs h =
    ap (λ ps. lexical_from (ps ++ cs) [])
      (split-join slash (c ∷ before) (λ e. ground (arith, e))
        (All-imp IsPlain (Lacks slash) (c ∷ before) (λ x p. p.solid) h))
    ∙ lexical_from-append (c ∷ before) cs [] h

hopped-Leads :
    (before : List Str) (to d : Str) (behind : List Str)
    → All IsPlain before
    → All IsPlain (d ∷ behind)
    → Leads before to (d ∷ behind) (hopped before to (d ∷ behind))
unfolding hopped lexical
hopped-Leads before to d behind plain plain' = elim (Bool-cases (begins slash to)) [
  | inl abs ↦
      let cs = split to slash ++ d ∷ behind in
      (
        [],
        lexical_from cs [],
        inl (abs, refl),
        lexical_from-Lands cs [],
        rw (abs, hopped) (ap reverse (parts []) ∙ ap reverse (from_base [] cs tt)),
      )
  | inr rel ↦
      let cs = split to slash ++ d ∷ behind in
      (
        reverse before,
        lexical_from cs (reverse before),
        inr (rel, refl),
        lexical_from-Lands cs (reverse before),
        rw (rel, hopped)
            (ap reverse (parts (join (slash ∷ []) before))
              ∙ ap reverse (from_base before cs plain)),
      )
]
  where
    parts :
        (base : Str)
        → lexical_from
            (split (base ++ slash ∷ (to ++ slash ∷ join (slash ∷ []) (d ∷ behind))) slash)
            []
          ≡ lexical_from (split base slash ++ (split to slash ++ d ∷ behind)) []
    parts base =
        ap (λ ps. lexical_from ps [])
          (split-append base (to ++ slash ∷ join (slash ∷ []) (d ∷ behind))
            ∙ ap (λ ps. split base slash ++ ps)
                (split-append to (join (slash ∷ []) (d ∷ behind))
                  ∙ ap (λ ps. split to slash ++ ps)
                      (split-join slash (d ∷ behind) (λ e. ground (arith, e))
                        (All-imp IsPlain (Lacks slash) (d ∷ behind) (λ x p. p.solid) plain'))))

hopped-IsPlain :
    (before : List Str) (to : Str) (behind : List Str) → All IsPlain (hopped before to behind)
unfolding hopped
hopped-IsPlain before to behind =
    let base = if begins slash to then [] else join (slash ∷ []) before in
    lexical-IsPlain (base ++ slash ∷ (to ++ slash ∷ join (slash ∷ []) behind))

module _ (read_link : Str → Option Str) where
  -- No directory on the way is a link, from the one behind `before` on; the last component may be.
  abbrev pub Clear : List Str → List Str → Type 0
  Clear before [] = Unit
  Clear before (c ∷ []) = Unit
  Clear before (c ∷ d ∷ behind) =
      (read_link (join (slash ∷ []) (before ++ c ∷ [])) ≡ none)
      × Clear (before ++ c ∷ []) (d ∷ behind)

  -- The first link on the way was replaced by what it leads to, `n` times.
  pub data Turns : ℕ → List Str → List Str → Type 0 where
    still : {cs : List Str} → Turns 0 cs cs
    turn :
        {n : ℕ} {cs next ends : List Str} (before behind : List Str) (c d to : Str)
        → cs ≡ before ++ c ∷ d ∷ behind
        → Clear [] (before ++ c ∷ [])
        → read_link (join (slash ∷ []) (before ++ c ∷ [])) ≡ some to
        → Leads before to (d ∷ behind) next
        → Turns n next ends
        → Turns (suc n) cs ends

  -- All links on the way are replaced, or as many as are followed.
  abbrev pub Unlinked : ℕ → List Str → List Str → Type 0
  Unlinked hops cs ends = (n : ℕ) × (n ≤ hops) × Turns n cs ends × ((n ≡ hops) ⊎ Clear [] ends)

  unlinked_zero : (cs before : List Str) → unlinked read_link 0 cs before ≡ before ++ cs
  unfolding unlinked
  unlinked_zero [] before = sym (append-nil before)
  unlinked_zero (c ∷ []) before = refl
  unlinked_zero (c ∷ d ∷ behind) before =
      unlinked_zero (d ∷ behind) (before ++ c ∷ []) ∙ append_assoc before (c ∷ []) (d ∷ behind)

  step-Clear :
      (before : List Str) (c : Str)
      → ((cs : List Str) → Clear before cs → Clear [] (before ++ cs))
      → read_link (join (slash ∷ []) (before ++ c ∷ [])) ≡ none
      → (cs : List Str) → Clear (before ++ c ∷ []) cs
      → Clear [] ((before ++ c ∷ []) ++ cs)
  step-Clear before c clear e [] h =
      subst (Clear []) (sym (append_assoc before (c ∷ []) [])) (clear (c ∷ []) tt)
  step-Clear before c clear e (d ∷ cs) h =
      subst (Clear []) (sym (append_assoc before (c ∷ []) (d ∷ cs))) (clear (c ∷ d ∷ cs) (e, h))

  unlinked-Unlinked :
      (hops : ℕ) (cs before : List Str)
      → ((ds : List Str) → Clear before ds → Clear [] (before ++ ds))
      → All IsPlain before
      → All IsPlain cs
      → Unlinked hops (before ++ cs) (unlinked read_link hops cs before)
  unfolding unlinked
  unlinked-Unlinked zero cs before clear _ _ = (
    0,
    omega arith,
    subst (Turns 0 (before ++ cs)) (sym (unlinked_zero cs before)) still,
    inl refl,
  )
  unlinked-Unlinked (suc hops) [] before clear _ _ = (
    0,
    omega arith,
    subst (λ x. Turns 0 x before) (sym (append-nil before)) still,
    inr (subst (Clear []) (append-nil before) (clear [] tt)),
  )
  unlinked-Unlinked (suc hops) (c ∷ []) before clear _ _ =
      (0, omega arith, still, inr (clear (c ∷ []) tt))
  unlinked-Unlinked (suc hops) (c ∷ d ∷ behind) before clear plain (pc, plain') =
      elim (Option-cases (read_link (join (slash ∷ []) (before ++ c ∷ [])))) [
        | inl e ↦
            rw (e, unlinked)
              (subst
                (λ x.
                  Unlinked (suc hops) x
                    (unlinked read_link (suc hops) (d ∷ behind) (before ++ c ∷ [])))
                (append_assoc before (c ∷ []) (d ∷ behind))
                (unlinked-Unlinked (suc hops) (d ∷ behind) (before ++ c ∷ [])
                  (step-Clear before c clear e) (All-append IsPlain before (c ∷ []) plain (pc, tt))
                  plain'))
        | inr (to, e) ↦
            let (n, low, turns, answer) =
              unlinked-Unlinked hops (hopped before to (d ∷ behind)) [] (λ ds h. h) tt
                (hopped-IsPlain before to (d ∷ behind)) in
            rw (e, unlinked)
              (
                suc n,
                omega (arith, low),
                turn before behind c d to refl (clear (c ∷ []) tt) e
                    (hopped-Leads before to d behind plain plain') turns,
                elim answer [ inl all ↦ inl (ap suc all) | inr free ↦ inr free ],
              )
      ]

  -- A spelled path is that of the components that the path leads to from the root, with the first link
  -- on the way replaced by what it leads to, again and again: until there is none, or 40 times.
  pub spelled-Unlinked :
      (p : Str)
      → (start ends : List Str) × Lands [] (split p slash) start
        × (spelled read_link p ≡ join (slash ∷ []) ends)
        × Unlinked 40 (reverse start) ends
  unfolding spelled lexical
  spelled-Unlinked p = (
    lexical_from (split p slash) [],
    unlinked read_link 40 (lexical p) [],
    lexical_from-Lands (split p slash) [],
    refl,
    unlinked-Unlinked 40 (lexical p) [] (λ ds h. h) tt (lexical-IsPlain p),
  )
