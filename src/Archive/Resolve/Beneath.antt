-- ===== src/Archive/Resolve/Beneath.antt =====
-- Where a resolved path lands: below the root, with no link on the way.
use kiry.Base.{
  ℕ, zero, suc, ◌≡◌, refl, sym, subst, inl, inr, ◌++◌, List, [], ◌∷◌, reverse, reverse_aux, Bool,
  true, false, not, ◌&&◌, Option, none, some, nat_eq, list_eq, is_empty, All, All-append, All-imp,
  Result-cases, Bool-cases, arith, if◌then◌else◌, Result, ok, err, String, ok-injective, contains,
}
use kiry.Base.Text.{Str, codes, slash, has, begins, split, split_from, join}
use kiry.Base.Text.Split.{Lacks, split-Lacks, split-join}
use kiry.Archive.Resolve.{
  spell, target_of, is_skipped, is_up, go_up, round, walk, resolve, max_hops,
}

-- A component that names something: not empty, not "." or "..", and with no slash.
pub record IsPlain (c : Str) : Type 0 where
  pub solid : Lacks slash c
  pub named : is_skipped c ≡ false
  pub level : is_up c ≡ false

module _ (target : Str → Option Str) where
  -- Each component is plain, and no path from the root down to one is a link.
  abbrev pub Settled : List Str → Type 0
  Settled [] = Unit
  Settled (c ∷ out) = IsPlain c × (target (spell (c ∷ out)) ≡ none) × Settled out

  -- The newest component may be a link, if the last one is not followed.
  abbrev pub Landed : Bool → List Str → Type 0
  Landed follow_final [] = Unit
  Landed follow_final (c ∷ out) =
      IsPlain c × (follow_final ≡ true → target (spell (c ∷ out)) ≡ none) × Settled out

  Settled-Landed : (follow_final : Bool) (out : List Str) → Settled out → Landed follow_final out
  Settled-Landed f [] _ = tt
  Settled-Landed f (c ∷ out) (p, t, s) = (p, λ _. t, s)

  module _ (follow_final : Bool) where
    go_up-Landed :
        (next : List Str → Result String (List Str))
        → ((out out' : List Str) → Settled out → next out ≡ ok out' → Landed follow_final out')
        → (out out' : List Str) → Settled out
        → go_up target follow_final next out ≡ ok out'
        → Landed follow_final out'
    unfolding go_up
    go_up-Landed next keeps [] out' s h = absurd (cc)
    go_up-Landed next keeps (d ∷ out) out' (_, _, s) h = keeps out out' s h

    module _ (next : List Str → Result String (List Str))
        (hop : List Str → List Str → Result String (List Str))
        (keeps : (o o' : List Str) → Settled o → next o ≡ ok o' → Landed follow_final o')
        (hops : (q o o' : List Str)
          → All (Lacks slash) q
          → Settled o
          → hop q o ≡ ok o'
          → Landed follow_final o') where
      -- The link at the end of `out`, if there is one, or the component as it stands.
      seen-Landed :
          (c : Str) (queue out out' : List Str) (found : Option Str)
          → IsPlain c
          → All (Lacks slash) queue
          → Settled out
          → target (spell (c ∷ out)) ≡ found
          → (elim found [
            | some t ↦ hop (split t slash ++ queue) (if begins slash t then [] else out)
            | none ↦ next (c ∷ out)
          ])
            ≡ ok out'
          → Landed follow_final out'
      seen-Landed c queue out out' none p qs s e h = keeps (c ∷ out) out' (p, e, s) h
      seen-Landed c queue out out' (some t) p qs s e h = elim (Bool-cases (begins slash t)) [
        | inl abs ↦ hops _ [] out' (All-append _ _ queue (split-Lacks slash t) qs) tt (rw abs at h)
        | inr rel ↦ hops _ out out' (All-append _ _ queue (split-Lacks slash t) qs) s (rw rel at h)
      ]

      round-Landed :
          (c : Str) (queue out out' : List Str)
          → Lacks slash c
          → All (Lacks slash) queue
          → Settled out
          → round target follow_final next hop c queue out ≡ ok out'
          → Landed follow_final out'
      unfolding round
      round-Landed c queue out out' solid qs s h = elim (Bool-cases (is_skipped c)) [
        | inl skip ↦ keeps out out' s (rw (skip, round) at h)
        | inr named ↦ elim (Bool-cases (is_up c)) [
          | inl up ↦ go_up-Landed next keeps out out' s (rw (named, up, round) at h)
          | inr level ↦
              let plain : IsPlain c = record { solid = solid; named = named; level = level } in
              elim (Bool-cases (is_empty queue && not follow_final)) [
                | inl last ↦
                    subst (Landed follow_final) (ok-injective (rw (named, level, last, round) at h))
                      (plain, λ f. absurd (ground arith), s)
                | inr more ↦
                    seen-Landed c queue out out' _ plain qs s refl
                      (rw (named, level, more, round) at h)
              ]
        ]
      ]

    walk-Landed :
        (hops : ℕ) (queue out out' : List Str)
        → All (Lacks slash) queue
        → Settled out
        → walk target follow_final hops queue out ≡ ok out'
        → Landed follow_final out'
    unfolding walk
    walk-Landed hops [] out out' _ s h =
        subst (Landed follow_final) (ok-injective h) (Settled-Landed _ out s)
    walk-Landed zero (c ∷ queue) out out' (hc, hq) s h =
        round-Landed (walk target follow_final zero queue)
          (λ q o. err "too many symlinks on the way")
          (λ o o' so ho. walk-Landed zero queue o o' hq so ho) (λ q o o' hq' so ho. absurd (cc)) c
          queue out out' hc hq s h
    walk-Landed (suc hops) (c ∷ queue) out out' (hc, hq) s h =
        round-Landed (walk target follow_final (suc hops) queue) (walk target follow_final hops)
          (λ o o' so ho. walk-Landed (suc hops) queue o o' hq so ho)
          (λ q o o' hq' so ho. walk-Landed hops q o o' hq' so ho) c queue out out' hc hq s h

-- Below the root: the components are plain, the path is not absolute, and no component is "..".
pub record IsBeneath (p : Str) : Type 0 where
  pub parts : List Str
  pub spelled : p ≡ join (slash ∷ []) parts
  pub plain : All IsPlain parts
  pub relative : begins slash p ≡ false
  pub level : contains (split p slash) (codes "..") ≡ false

pub All-reverse_aux :
    (P : Str → Type 0) (xs ys : List Str) → All P xs → All P ys → All P (reverse_aux xs ys)
All-reverse_aux P [] ys _ h = h
All-reverse_aux P (x ∷ xs) ys (px, pxs) h = All-reverse_aux P xs (x ∷ ys) pxs (px, h)

begins-join :
    (parts : List Str) → All IsPlain parts → begins slash (join (slash ∷ []) parts) ≡ false
unfolding join has
begins-join [] _ = refl
begins-join ([] ∷ ps) (p, _) = absurd (cc (p.named))
begins-join ((c ∷ s) ∷ []) (p, _) = let solid = p.solid in ground arith
begins-join ((c ∷ s) ∷ q ∷ ps) (p, _) = let solid = p.solid in ground arith

contains-plain : (parts : List Str) → All IsPlain parts → contains parts (codes "..") ≡ false
contains-plain [] _ = refl
contains-plain (c ∷ parts) (p, ps) = rw (p.level, contains-plain parts ps)

split-plain :
    (parts : List Str)
    → All IsPlain parts
    → contains (split (join (slash ∷ []) parts) slash) (codes "..") ≡ false
split-plain [] _ = unfold join split split_from in refl
split-plain (c ∷ parts) ps =
    rw
      (split-join slash (c ∷ parts) (λ e. cc)
        (All-imp IsPlain (Lacks slash) (c ∷ parts) (λ x p. p.solid) ps))
      (contains-plain (c ∷ parts) ps)

plain-IsBeneath : (parts : List Str) → All IsPlain parts → IsBeneath (join (slash ∷ []) parts)
plain-IsBeneath parts ps = record {
  parts = parts;
  spelled = refl;
  plain = ps;
  relative = begins-join parts ps;
  level = split-plain parts ps;
}

Settled-IsPlain :
    (target : Str → Option Str) (out : List Str) → Settled target out → All IsPlain out
Settled-IsPlain target [] _ = tt
Settled-IsPlain target (c ∷ out) (p, _, s) = (p, Settled-IsPlain target out s)

pub Landed-IsPlain :
    (target : Str → Option Str) (f : Bool) (out : List Str) → Landed target f out → All IsPlain out
Landed-IsPlain target f [] _ = tt
Landed-IsPlain target f (c ∷ out) (p, _, s) = (p, Settled-IsPlain target out s)

module _ (read_link : Str → Option Str) (path : Str) (follow_final : Bool)
    (made : List (Str × Str)) where
  -- The components where the path landed, newest first.
  resolve-walk :
      {p : Str}
      → resolve read_link path follow_final made ≡ ok p
      → (out : List Str) × (walk
            (target_of made read_link)
            follow_final
            max_hops
            (split path slash)
            []
          ≡ ok out)
        × (p ≡ spell out)
  unfolding resolve
  resolve-walk {p} h =
      elim (Result-cases
        (walk (target_of made read_link) follow_final max_hops (split path slash) [])) [
          | inl (out, e) ↦ (out, e, sym (ok-injective (rw (e, resolve) at h)))
          | inr (why, e) ↦ absurd (cc (rw (e, resolve) at h))
        ]

  -- No component above the last is a link, and the last is none either if it was to be followed:
  -- what is written at the path is written there and nowhere else.
  pub resolve-Landed :
      {p : Str}
      → resolve read_link path follow_final made ≡ ok p
      → (out : List Str) × (p ≡ spell out) × Landed (target_of made read_link) follow_final out
  resolve-Landed h =
      let (out, e, same) = resolve-walk h in
      (
        out,
        same,
        walk-Landed (target_of made read_link) follow_final max_hops (split path slash) [] out
            (split-Lacks slash path) tt e,
      )

  -- A path that resolves lands below the root, whatever links are on disk or in the archive.
  pub resolve-IsBeneath : {p : Str} → resolve read_link path follow_final made ≡ ok p → IsBeneath p
  unfolding spell
  resolve-IsBeneath h =
      let (out, same, landed) = resolve-Landed h in
      subst IsBeneath (sym same) (
        plain-IsBeneath (reverse out) (
          All-reverse_aux IsPlain out []
            (Landed-IsPlain (target_of made read_link) follow_final out landed) tt))
