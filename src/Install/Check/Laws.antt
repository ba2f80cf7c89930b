-- ===== src/Install/Check/Laws.antt =====
-- When `paths` of crates/kiry-core/src/install.rs finds no collision.
use kiry.Base.{
  ◌≡◌, refl, ◌↔◌, inl, inr, List, [], ◌∷◌, map, false, none, ◌==◌, nat_eq, list_eq, Option-cases,
  arith, contains, lookup, list_beq_iff,
}
use kiry.Base.Text.{Str}
use kiry.Install.Check.{Owners, collisions}

abbrev pub paths_in : List (Str × Str) → List Str
paths_in = map (λ (c : Str × Str). c.0)

str_eq_sym : (s t : Str) → (s == t) ≡ (t == s)
str_eq_sym s t = ground (arith, list_beq_iff s t, list_beq_iff t s)

-- No path of the claims has an owner, and none is claimed twice.
abbrev pub Free : Owners → List (Str × Str) → Type 0
Free owner [] = Unit
Free owner ((path, name) ∷ cs) =
    (lookup path owner ≡ none) × (contains (paths_in cs) path ≡ false) × Free owner cs

-- A path that gets an owner is one more that the others must not claim.
Free-cons :
    (owner : Owners) (path name : Str) (cs : List (Str × Str))
    → Free ((path, name) ∷ owner) cs
    → (contains (paths_in cs) path ≡ false) × Free owner cs
unfolding lookup
Free-cons owner path name [] _ = (refl, tt)
Free-cons owner path name ((q, n) ∷ cs) (none_q, fresh, free) =
    let (apart, free') = Free-cons owner path name cs free in
    (ground (arith, str_eq_sym path q), (ground arith, fresh, free'))

cons-Free :
    (owner : Owners) (path name : Str) (cs : List (Str × Str))
    → contains (paths_in cs) path ≡ false
    → Free owner cs
    → Free ((path, name) ∷ owner) cs
unfolding lookup
cons-Free owner path name [] _ _ = tt
cons-Free owner path name ((q, n) ∷ cs) apart (none_q, fresh, free) =
    (ground (arith, str_eq_sym path q), fresh, cons-Free owner path name cs (ground arith) free)

collisions-Free :
    (owner : Owners) (cs : List (Str × Str)) → collisions owner cs ≡ [] → Free owner cs
unfolding collisions
collisions-Free owner [] h = tt
collisions-Free owner ((path, name) ∷ cs) h = elim (Option-cases (lookup path owner)) [
  | inl e ↦
      let (apart, free) =
        Free-cons owner path name cs
          (collisions-Free ((path, name) ∷ owner) cs (rw (e, collisions) at h)) in
      (e, apart, free)
  | inr (who, e) ↦ absurd (cc (rw (e, collisions) at h))
]

Free-collisions :
    (owner : Owners) (cs : List (Str × Str)) → Free owner cs → collisions owner cs ≡ []
unfolding collisions
Free-collisions owner [] _ = refl
Free-collisions owner ((path, name) ∷ cs) (e, apart, free) =
    rw (e, collisions)
      (Free-collisions ((path, name) ∷ owner) cs (cons-Free owner path name cs apart free))

-- With no owner of a path among the claims, and no path claimed twice, there is no finding; and the
-- other way round.
pub collisions_iff :
    (owner : Owners) (cs : List (Str × Str)) → (collisions owner cs ≡ []) ↔ Free owner cs
collisions_iff owner cs = (collisions-Free owner cs, Free-collisions owner cs)
