-- ===== src/Archive/Resolve/Fixed.antt =====
-- A path that was resolved stays where it is: to resolve it again changes nothing.
use mathlib.Core.List.{reverse-reverse}
use kiry.Base.{
  ℕ, zero, suc, ◌≡◌, refl, ◌∙◌, ap, List, [], ◌∷◌, reverse, reverse_aux, Bool, false, not, ◌&&◌,
  Option, none, is_empty, All-imp, Bool-cases, inl, inr, arith, Result, ok, err, String, ◌≢◌,
}
use kiry.Base.Text.{Str, slash, split, join}
use kiry.Base.Text.Split.{Lacks, split-join}
use kiry.Archive.Resolve.{spell, target_of, round, walk, resolve, max_hops}
use kiry.Archive.Resolve.Beneath.{
  IsPlain, Settled, Landed, resolve-Landed, Landed-IsPlain, All-reverse_aux,
}

reverse_aux-ne-nil : (xs : List Str) (c : Str) (ys : List Str) → reverse_aux xs (c ∷ ys) ≢ []
reverse_aux-ne-nil [] c ys = λ e. cc
reverse_aux-ne-nil (x ∷ xs) c ys = reverse_aux-ne-nil xs x (c ∷ ys)

module _ (target : Str → Option Str) (follow_final : Bool) where
  -- A queue through which the loop goes with no turn.
  Clear : List Str → List Str → Type 0
  Clear [] out = Unit
  Clear (c ∷ queue) out =
      IsPlain c
      × ((is_empty queue && not follow_final) ≡ false → target (spell (c ∷ out)) ≡ none)
      × Clear queue (c ∷ out)

  round-Clear :
      (next : List Str → Result String (List Str))
      (hop : List Str → List Str → Result String (List Str)) (c : Str) (queue out : List Str)
      → Clear (c ∷ queue) out
      → next (c ∷ out) ≡ ok (reverse_aux queue (c ∷ out))
      → round target follow_final next hop c queue out ≡ ok (reverse_aux queue (c ∷ out))
  unfolding round Clear
  round-Clear next hop c [] out (p, none_there, _) h =
      elim (Bool-cases (is_empty {A = Str} [] && not follow_final)) [
        | inl last ↦ rw (p.named, p.level, last, round)
        | inr more ↦ rw (p.named, p.level, more, none_there more, round) h
      ]
  round-Clear next hop c (d ∷ queue) out (p, none_there, _) h =
      rw (p.named, p.level, none_there refl, round) h

  walk-Clear :
      (hops : ℕ) (queue out : List Str)
      → Clear queue out
      → walk target follow_final hops queue out ≡ ok (reverse_aux queue out)
  unfolding walk Clear
  walk-Clear hops [] out _ = refl
  walk-Clear zero (c ∷ queue) out (p, n, cs) =
      round-Clear (walk target follow_final zero queue) (λ q o. err "too many symlinks on the way")
        c queue out (p, n, cs) (walk-Clear zero queue (c ∷ out) cs)
  walk-Clear (suc hops) (c ∷ queue) out (p, n, cs) =
      round-Clear (walk target follow_final (suc hops) queue) (walk target follow_final hops) c
        queue out (p, n, cs) (walk-Clear (suc hops) queue (c ∷ out) cs)

  Clear-Settled :
      (out queue : List Str)
      → Settled target out
      → Clear queue out
      → Clear (reverse_aux out queue) []
  unfolding Clear
  Clear-Settled [] queue _ h = h
  Clear-Settled (c ∷ out) queue (p, n, s) h = Clear-Settled out (c ∷ queue) s (p, λ _. n, h)

  Clear-Landed : (out : List Str) → Landed target follow_final out → Clear (reverse out) []
  unfolding Clear
  Clear-Landed [] _ = tt
  Clear-Landed (c ∷ out) (p, n, s) = Clear-Settled out (c ∷ []) s (p, λ e. n (ground arith), tt)

  walk-Landed_again :
      (out : List Str)
      → Landed target follow_final out
      → walk target follow_final max_hops (split (spell out) slash) [] ≡ ok out
  unfolding spell walk split join
  walk-Landed_again [] _ = refl
  walk-Landed_again (c ∷ out) l =
      ap (λ q. walk target follow_final max_hops q [])
        (split-join slash (reverse (c ∷ out)) (reverse_aux-ne-nil out c []) (
          All-imp IsPlain (Lacks slash) (reverse (c ∷ out)) (λ x p. p.solid)
            (All-reverse_aux IsPlain (c ∷ out) [] (Landed-IsPlain target follow_final (c ∷ out) l)
              tt)))
      ∙ walk-Clear max_hops (reverse (c ∷ out)) [] (Clear-Landed (c ∷ out) l)
      ∙ ap ok (reverse-reverse (c ∷ out))

-- To resolve the path that `resolve` gave, with the same links, gives that path.
pub resolve-resolve :
    (read_link : Str → Option Str) (path : Str) (follow_final : Bool) (made : List (Str × Str))
    {p : Str}
    → resolve read_link path follow_final made ≡ ok p
    → resolve read_link p follow_final made ≡ ok p
unfolding resolve
resolve-resolve read_link path follow_final made {p} h =
    let (out, same, landed) = resolve-Landed read_link path follow_final made h in
    rw (same, walk-Landed_again (target_of made read_link) follow_final out landed, resolve)
