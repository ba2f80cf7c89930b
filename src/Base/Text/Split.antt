-- ===== src/Base/Text/Split.antt =====
-- `split` and `splitn` read back what was written with separators.
use kiry.Base.Tests.{◌==◌, nat_eq, Bool-cases}
use kiry.Base.Lists.{All}
use kiry.Base.Text.{Str, has, split, split_from, cut_from, splitn, join}
use Prim.Native.Nat.{ℕ, suc}
use mathlib.Core.Path.{◌≡◌, refl, ◌∙◌, ap}
use mathlib.Core.Bool.{false}
use mathlib.Core.Logic.{◌≢◌, inl, inr}
use mathlib.Core.List.{List, [], ◌∷◌, ◌++◌, append-nil, append_assoc}
use mathlib.Core.Option.{none, some}
use native.Mathlib.Omega.{arith}

-- The separator does not stand in the text.
abbrev pub Lacks : ℕ → Str → Type 0
Lacks sep s = has sep s ≡ false

module _ (sep : ℕ) where
  pub cut_from-append :
      (p rest cur : Str) → Lacks sep p → cut_from sep (p ++ sep ∷ rest) cur ≡ some (cur ++ p, rest)
  unfolding cut_from has
  cut_from-append [] rest cur h = rw append-nil (ground arith)
  cut_from-append (c ∷ p) rest cur h =
      ground (arith, cut_from-append p rest (cur ++ c ∷ []), append_assoc cur (c ∷ []) p)

  pub cut_from-none : (p cur : Str) → Lacks sep p → cut_from sep p cur ≡ none
  unfolding cut_from has
  cut_from-none [] cur h = refl
  cut_from-none (c ∷ p) cur h = ground (arith, cut_from-none p (cur ++ c ∷ []))

  -- One part and its separator are taken off the front.
  pub splitn-append :
      (n : ℕ) (p rest : Str)
      → Lacks sep p
      → splitn (suc (suc n)) (p ++ sep ∷ rest) sep ≡ p ∷ splitn (suc n) rest sep
  unfolding splitn
  splitn-append n p rest h = ground (arith, cut_from-append p rest [] h)

  pub splitn_one : (s : Str) → splitn 1 s sep ≡ s ∷ []
  unfolding splitn
  splitn_one s = refl

  pub splitn_short : (n : ℕ) (p : Str) → Lacks sep p → splitn (suc (suc n)) p sep ≡ p ∷ []
  unfolding splitn
  splitn_short n p h = ground (arith, cut_from-none p [] h)

  split_from-append :
      (p rest cur : Str)
      → Lacks sep p
      → split_from sep (p ++ sep ∷ rest) cur ≡ (cur ++ p) ∷ split_from sep rest []
  unfolding split_from has
  split_from-append [] rest cur h = rw append-nil (ground arith)
  split_from-append (c ∷ p) rest cur h =
      ground (arith, split_from-append p rest (cur ++ c ∷ []), append_assoc cur (c ∷ []) p)

  split_from_last : (p cur : Str) → Lacks sep p → split_from sep p cur ≡ (cur ++ p) ∷ []
  unfolding split_from has
  split_from_last [] cur h = rw append-nil
  split_from_last (c ∷ p) cur h =
      ground (arith, split_from_last p (cur ++ c ∷ []), append_assoc cur (c ∷ []) p)

  -- Splitting a join gives the parts back.
  pub split-join :
      (ps : List Str) → ps ≢ [] → All (Lacks sep) ps → split (join (sep ∷ []) ps) sep ≡ ps
  unfolding split join
  split-join [] h _ = absurd (h refl)
  split-join (p ∷ []) h (hp, _) = split_from_last p [] hp
  split-join (p ∷ q ∷ ps) h (hp, hps) =
      split_from-append p _ [] hp ∙ ap (λ t. p ∷ t) (split-join (q ∷ ps) (cc) hps)

  -- No part of a split holds the separator.
  pub has-append : (s t : Str) → Lacks sep s → Lacks sep t → Lacks sep (s ++ t)
  unfolding has
  has-append [] t hs ht = ht
  has-append (c ∷ s) t hs ht = ground (arith, has-append s t)

  split_from-Lacks : (s cur : Str) → Lacks sep cur → All (Lacks sep) (split_from sep s cur)
  unfolding split_from has
  split_from-Lacks [] cur h = (h, tt)
  split_from-Lacks (c ∷ s) cur h = elim (Bool-cases (c == sep)) [
    | inl e ↦ rw (e, split_from) (h, split_from-Lacks s [] refl)
    | inr e ↦
        rw (e, split_from)
          (split_from-Lacks s (cur ++ c ∷ []) (has-append cur (c ∷ []) h (ground arith)))
  ]

  pub split-Lacks : (s : Str) → All (Lacks sep) (split s sep)
  unfolding split has
  split-Lacks s = split_from-Lacks s [] refl
