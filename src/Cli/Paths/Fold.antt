-- ===== src/Cli/Paths/Fold.antt =====
-- Which paths `fold` of crates/kiry/src/main.rs spells alike.
use kiry.Base.{
  ℕ, zero, suc, ◌+◌, ◌≤◌, ◌≡◌, ◌≢◌, refl, sym, ◌∙◌, ap, subst, ◌⊎◌, inl, inr, List, [], ◌∷◌, ◌++◌,
  reverse, reverse_aux, Bool, true, false, ◌||◌, Option, none, some, ◌==◌, nat_eq, list_eq,
  is_empty, All, All-imp, arith, Bool-cases, Option-cases, append-nil, append_assoc, list_beq_iff,
  Among, ◌↔◌,
}
use kiry.Base.Text.{Str, codes, slash, split, join}
use kiry.Archive.Resolve.Beneath.{IsPlain}
use kiry.Cli.Paths.{lexical_from, lexical, is_merged, below_usr, fold}
use kiry.Cli.Paths.Lexical.{Lands, lexical_from-Lands, lexical-IsPlain, lexical-join}

below_usr-IsPlain : (cs : List Str) → All IsPlain cs → All IsPlain (below_usr cs)
unfolding below_usr kiry.Base.Text.has
below_usr-IsPlain [] h = tt
below_usr-IsPlain (c ∷ cs) h = elim (Bool-cases (is_merged c)) [
  | inl e ↦ rw (e, below_usr) (record { solid = refl; named = refl; level = refl }, h)
  | inr e ↦ rw (e, below_usr) h
]

-- The directories of the root that are links into usr.
abbrev pub Merged : Str → Type 0
Merged c = Among c (codes "lib" ∷ codes "lib64" ∷ codes "bin" ∷ codes "sbin" ∷ [])

is_merged-Merged : (c : Str) → is_merged c ≡ true → Merged c
unfolding is_merged
is_merged-Merged c h = elim (Bool-cases (c == codes "lib")) [
  | inl e ↦ inl ((list_beq_iff c _).0 e)
  | inr a ↦ elim (Bool-cases (c == codes "lib64")) [
    | inl e ↦ inr (inl ((list_beq_iff c _).0 e))
    | inr b ↦ elim (Bool-cases (c == codes "bin")) [
      | inl e ↦ inr (inr (inl ((list_beq_iff c _).0 e)))
      | inr d ↦ inr (inr (inr (inl ((list_beq_iff c _).0 (rw (a, b, d, is_merged) at h)))))
    ]
  ]
]

Merged-is_merged : (c : Str) → Merged c → is_merged c ≡ true
unfolding is_merged
Merged-is_merged c (inl e) = subst (λ x. is_merged x ≡ true) (sym e) refl
Merged-is_merged c (inr (inl e)) = subst (λ x. is_merged x ≡ true) (sym e) refl
Merged-is_merged c (inr (inr (inl e))) = subst (λ x. is_merged x ≡ true) (sym e) refl
Merged-is_merged c (inr (inr (inr (inl e)))) = subst (λ x. is_merged x ≡ true) (sym e) refl
Merged-is_merged c (inr (inr (inr (inr h)))) = absurd h

-- The same components, but for usr before a directory that is merged into it.
abbrev pub Below : List Str → List Str → Type 0
Below xs ys =
    (c : Str) × (rest : List Str) × Merged c × (xs ≡ c ∷ rest) × (ys ≡ codes "usr" ∷ c ∷ rest)

abbrev pub Same : List Str → List Str → Type 0
Same xs ys = (xs ≡ ys) ⊎ (Below xs ys ⊎ Below ys xs)

abbrev Lowered : List Str → Type 0
Lowered cs =
    (c : Str) × (rest : List Str) × Merged c
    × (cs ≡ c ∷ rest)
    × (below_usr cs ≡ codes "usr" ∷ c ∷ rest)

below_usr-cases : (cs : List Str) → (below_usr cs ≡ cs) ⊎ Lowered cs
unfolding below_usr
below_usr-cases [] = inl refl
below_usr-cases (c ∷ cs) = elim (Bool-cases (is_merged c)) [
  | inl e ↦ inr (c, cs, is_merged-Merged c e, refl, rw (e, below_usr) refl)
  | inr e ↦ inl (rw (e, below_usr) refl)
]

below_usr-Same : (xs ys : List Str) → below_usr xs ≡ below_usr ys → Same xs ys
below_usr-Same xs ys h = by_cases (below_usr-cases xs) (below_usr-cases ys)
  where
    by_cases : (below_usr xs ≡ xs) ⊎ Lowered xs → (below_usr ys ≡ ys) ⊎ Lowered ys → Same xs ys
    by_cases (inl a) (inl b) = inl (sym a ∙ h ∙ b)
    by_cases (inr (c, rest, m, e, low)) (inl b) = inr (inl (c, rest, m, e, sym b ∙ sym h ∙ low))
    by_cases (inl a) (inr (c, rest, m, e, low)) = inr (inr (c, rest, m, e, sym a ∙ h ∙ low))
    by_cases (inr (c, rest, m, e, low)) (inr (c', rest', m', e', low')) =
        inl (e ∙ tail (sym low ∙ h ∙ low') ∙ sym e')
      where
        tail : {x y z : Str} {r s : List Str} → (z ∷ x ∷ r) ≡ (z ∷ y ∷ s) → (x ∷ r) ≡ (y ∷ s)
        tail k = cc

Below-below_usr : (xs ys : List Str) → Below xs ys → below_usr xs ≡ below_usr ys
unfolding below_usr is_merged
Below-below_usr xs ys (c, rest, m, e, e') = ap below_usr e ∙ lowered ∙ sym (ap below_usr e')
  where
    lowered : below_usr (c ∷ rest) ≡ below_usr (codes "usr" ∷ c ∷ rest)
    lowered = rw (Merged-is_merged c m, below_usr) refl

Same-below_usr : (xs ys : List Str) → Same xs ys → below_usr xs ≡ below_usr ys
Same-below_usr xs ys (inl e) = ap below_usr e
Same-below_usr xs ys (inr (inl h)) = Below-below_usr xs ys h
Same-below_usr xs ys (inr (inr h)) = sym (Below-below_usr ys xs h)

lexical-fold : (p : Str) → lexical (fold p) ≡ below_usr (lexical p)
unfolding fold
lexical-fold p =
    lexical-join (below_usr (lexical p)) (below_usr-IsPlain (lexical p) (lexical-IsPlain p))

-- Two paths are folded to one spelling exactly if they lead to the same components from the root, but
-- for usr before lib, lib64, bin or sbin.
pub fold_iff :
    (p q : Str)
    → (xs ys : List Str) × Lands [] (split p slash) xs
      × Lands [] (split q slash) ys
      × ((fold p ≡ fold q) ↔ Same (reverse xs) (reverse ys))
unfolding fold lexical
fold_iff p q = (
  lexical_from (split p slash) [],
  lexical_from (split q slash) [],
  lexical_from-Lands (split p slash) [],
  lexical_from-Lands (split q slash) [],
  (
    λ h.
        below_usr-Same (lexical p) (lexical q)
          (sym (lexical-fold p) ∙ ap lexical h ∙ lexical-fold q),
    λ h. ap (join (slash ∷ [])) (Same-below_usr (lexical p) (lexical q) h),
  ),
)
