-- ===== src/Install/Check/Findings.antt =====
-- What a collision is that `paths` of crates/kiry-core/src/install.rs reports.
use kiry.Base.{
  ◌≡◌, refl, ◌∙◌, sym, ap, subst, ◌↔◌, inl, inr, ◌++◌, List, [], ◌∷◌, none, some, ◌==◌, nat_eq,
  list_eq, Bool-cases, Option-cases, lookup, list_beq_iff, append-nil, append_assoc, Among,
}
use kiry.Base.Text.{Str}
use kiry.Install.Check.{Owners, collisions}

-- A path that is claimed, with the one who had it before that claim: its owner, or without one the
-- first of the earlier claims of the path.
abbrev pub IsFinding : Owners → List (Str × Str) → Str × Str → Type 0
IsFinding owner cs (path, who) =
    (before after : List (Str × Str)) × (name : Str) × (cs ≡ before ++ (path, name) ∷ after)
    × (lookup path (owner ++ before) ≡ some who)

lookup-append_some :
    (p : Str) (o more : Owners) {w : Str} → lookup p o ≡ some w → lookup p (o ++ more) ≡ some w
unfolding lookup
lookup-append_some p [] more h = absurd (cc h)
lookup-append_some p ((q, n) ∷ o) more h = elim (Bool-cases (q == p)) [
  | inl same ↦ rw (same, lookup) (rw (same, lookup) at h)
  | inr apart ↦ rw (apart, lookup) (lookup-append_some p o more (rw (apart, lookup) at h))
]

lookup-append_none :
    (p : Str) (o more : Owners) → lookup p o ≡ none → lookup p (o ++ more) ≡ lookup p more
unfolding lookup
lookup-append_none p [] more h = refl
lookup-append_none p ((q, n) ∷ o) more h = elim (Bool-cases (q == p)) [
  | inl same ↦ absurd (cc (rw (same, lookup) at h))
  | inr apart ↦ rw (apart, lookup) (lookup-append_none p o more (rw (apart, lookup) at h))
]

-- Two lists of owners that say the same of every path.
abbrev Agree : Owners → Owners → Type 0
Agree o o' = (p : Str) → lookup p o ≡ lookup p o'

-- A claim of a path that has no owner.
Agree-new :
    (o o' : Owners) (q n : Str)
    → Agree o o'
    → lookup q o ≡ none
    → Agree ((q, n) ∷ o) (o' ++ (q, n) ∷ [])
unfolding lookup
Agree-new o o' q n agree fresh p = elim (Bool-cases (q == p)) [
  | inl same ↦
      let e : q ≡ p = (list_beq_iff q p).0 same in
      let free : lookup p o' ≡ none = sym (agree p) ∙ subst (λ x. lookup x o ≡ none) e fresh in
      rw (same, lookup) (sym (lookup-append_none p o' ((q, n) ∷ []) free ∙ rw (same, lookup) refl))
  | inr apart ↦ elim (Option-cases (lookup p o')) [
    | inl e ↦
        rw (apart, lookup)
          (agree p ∙ e ∙ sym (lookup-append_none p o' ((q, n) ∷ []) e ∙ rw (apart, lookup) refl))
    | inr (w, e) ↦ rw (apart, lookup) (agree p ∙ e ∙ sym (lookup-append_some p o' ((q, n) ∷ []) e))
  ]
]

-- A claim of a path that has an owner changes no owner.
Agree-old :
    (o o' : Owners) (q n : Str) {w : Str}
    → Agree o o'
    → lookup q o ≡ some w
    → Agree o (o' ++ (q, n) ∷ [])
unfolding lookup
Agree-old o o' q n agree owned p = elim (Option-cases (lookup p o')) [
  | inr (v, e) ↦ agree p ∙ e ∙ sym (lookup-append_some p o' ((q, n) ∷ []) e)
  | inl e ↦ elim (Bool-cases (q == p)) [
    | inl same ↦
        absurd (cc (sym owned ∙ agree q ∙ ap (λ x. lookup x o') ((list_beq_iff q p).0 same) ∙ e))
    | inr apart ↦
        agree p ∙ e ∙ sym (lookup-append_none p o' ((q, n) ∷ []) e ∙ rw (apart, lookup) refl)
  ]
]

-- A finding among the later claims, with this claim behind the owners.
later :
    (owner : Owners) (c : Str × Str) (cs : List (Str × Str)) (f : Str × Str)
    → IsFinding (owner ++ c ∷ []) cs f
    → IsFinding owner (c ∷ cs) f
later owner c cs (path, who) (before, after, name, e, had) = (
  c ∷ before,
  after,
  name,
  ap (λ x. c ∷ x) e,
  subst (λ x. lookup path x ≡ some who) (append_assoc owner (c ∷ []) before) had,
)

found :
    (o o' : Owners) (cs : List (Str × Str)) (f : Str × Str)
    → Agree o o'
    → Among f (collisions o cs)
    → IsFinding o' cs f
unfolding collisions
found o o' [] f agree h = absurd h
found o o' ((q, n) ∷ cs) f agree h = elim (Option-cases (lookup q o)) [
  | inl e ↦
      later o' (q, n) cs f
        (found ((q, n) ∷ o) (o' ++ (q, n) ∷ []) cs f (Agree-new o o' q n agree e)
          (rw (e, collisions) at h))
  | inr (w, e) ↦
      first w e (rw (e, collisions) at h)
        (found o (o' ++ (q, n) ∷ []) cs f (Agree-old o o' q n agree e))
]
  where
    -- This claim, or one behind it.
    first :
        (w : Str)
        → lookup q o ≡ some w
        → Among f ((q, w) ∷ collisions o cs)
        → (Among f (collisions o cs) → IsFinding (o' ++ (q, n) ∷ []) cs f)
        → IsFinding o' ((q, n) ∷ cs) f
    first w e (inl here) behind = subst (IsFinding o' ((q, n) ∷ cs)) (sym here) (
      [],
      cs,
      n,
      refl,
      subst (λ x. lookup q x ≡ some w) (sym (append-nil o')) (sym (agree q) ∙ e),
    )
    first w e (inr there) behind = later o' (q, n) cs f (behind there)

reported :
    (o o' : Owners) (before after : List (Str × Str)) (path name who : Str)
    → Agree o o'
    → lookup path (o' ++ before) ≡ some who
    → Among (path, who) (collisions o (before ++ (path, name) ∷ after))
unfolding collisions
reported o o' [] after path name who agree had =
    let e : lookup path o ≡ some who =
      agree path ∙ subst (λ x. lookup path x ≡ some who) (append-nil o') had in
    rw (e, collisions) (inl refl)
reported o o' ((q, n) ∷ before) after path name who agree had =
    let had' =
      subst (λ x. lookup path x ≡ some who) (sym (append_assoc o' ((q, n) ∷ []) before)) had in
    elim (Option-cases (lookup q o)) [
      | inl e ↦
          rw (e, collisions)
            (reported ((q, n) ∷ o) (o' ++ (q, n) ∷ []) before after path name who
              (Agree-new o o' q n agree e) had')
      | inr (w, e) ↦
          rw (e, collisions)
            (inr (
              reported o (o' ++ (q, n) ∷ []) before after path name who (Agree-old o o' q n agree e)
                had'))
    ]

-- The collision check reports a path with a package exactly if the path is claimed and the package had
-- it before that claim: as its owner, or, where it has no owner, as the first that claims it.
pub collisions_iff_finding :
    (owner : Owners) (cs : List (Str × Str)) (f : Str × Str)
    → Among f (collisions owner cs) ↔ IsFinding owner cs f
collisions_iff_finding owner cs (path, who) = (
  found owner owner cs (path, who) (λ p. refl),
  λ (before, after, name, e, had).
      subst (λ x. Among (path, who) (collisions owner x)) (sym e)
        (reported owner owner before after path name who (λ p. refl) had),
)
