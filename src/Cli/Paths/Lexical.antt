-- ===== src/Cli/Paths/Lexical.antt =====
-- What `lexical` of crates/kiry/src/main.rs makes of a path, against a walk over its components.
use mathlib.Core.List.{reverse-reverse}
use kiry.Base.{
  ◌≡◌, ◌≢◌, refl, sym, ◌∙◌, ap, subst, ◌⊎◌, inl, inr, List, [], ◌∷◌, ◌++◌, reverse, reverse_aux,
  true, false, ◌||◌, ◌==◌, nat_eq, list_eq, is_empty, All, All-imp, arith, Bool-cases, list_beq_iff,
}
use kiry.Base.Text.{Str, codes, slash, split, join}
use kiry.Base.Text.Split.{Lacks, split-Lacks, split-join}
use kiry.Archive.Resolve.Beneath.{IsPlain, All-reverse_aux}
use kiry.Cli.Paths.{lexical_from, lexical}

-- The components are walked from a directory to another, each directory by its components with the
-- newest first: .. goes up, and stays at the root.
pub data Lands : List Str → List Str → List Str → Type 0 where
  arrived : {out : List Str} → Lands out [] out
  stay :
      {out cs end : List Str} (c : Str)
      → (c ≡ []) ⊎ (c ≡ codes ".")
      → Lands out cs end
      → Lands out (c ∷ cs) end
  up_root : {cs end : List Str} (c : Str) → c ≡ codes ".." → Lands [] cs end → Lands [] (c ∷ cs) end
  up :
      {out cs end : List Str} (c d : Str)
      → c ≡ codes ".."
      → Lands out cs end
      → Lands (d ∷ out) (c ∷ cs) end
  down :
      {out cs end : List Str} (c : Str)
      → c ≢ []
      → c ≢ codes "."
      → c ≢ codes ".."
      → Lands (c ∷ out) cs end
      → Lands out (c ∷ cs) end

stays : (c : Str) → (is_empty c || c == codes ".") ≡ true → (c ≡ []) ⊎ (c ≡ codes ".")
stays [] h = inl refl
stays (x ∷ c) h = inr ((list_beq_iff (x ∷ c) (codes ".")).0 h)

pub lexical_from-Lands : (cs out : List Str) → Lands out cs (lexical_from cs out)
unfolding lexical_from
lexical_from-Lands [] out = arrived
lexical_from-Lands (c ∷ cs) out = elim (Bool-cases (is_empty c || c == codes ".")) [
  | inl e ↦ rw (e, lexical_from) (stay c (stays c e) (lexical_from-Lands cs out))
  | inr e ↦ elim (Bool-cases (c == codes "..")) [
    | inl dots ↦
        rw (e, dots, lexical_from)
          (climb out ((list_beq_iff c (codes "..")).0 dots) (lexical_from-Lands cs _))
    | inr other ↦
        rw (e, other, lexical_from)
          (down c (λ h. apart_empty h e) (λ h. apart_dot h e)
            (λ h. cc (sym other ∙ (list_beq_iff c (codes "..")).1 h))
            (lexical_from-Lands cs (c ∷ out)))
  ]
]
  where
    climb :
        (o : List Str)
        → c ≡ codes ".."
        → Lands
            (elim o [ [] ↦ [] | d ∷ top ↦ top ])
            cs
            (lexical_from cs (elim o [ [] ↦ [] | d ∷ top ↦ top ]))
        → Lands o (c ∷ cs) (lexical_from cs (elim o [ [] ↦ [] | d ∷ top ↦ top ]))
    climb [] h way = up_root c h way
    climb (d ∷ top) h way = up c d h way

    apart_empty : c ≡ [] → (is_empty c || c == codes ".") ≡ false → ⊥
    apart_empty h e = cc (subst (λ x. (is_empty x || x == codes ".") ≡ false) h e)

    apart_dot : c ≡ codes "." → (is_empty c || c == codes ".") ≡ false → ⊥
    apart_dot h e = cc (subst (λ x. (is_empty x || x == codes ".") ≡ false) h e)

-- What comes behind components that name something is walked from them on.
pub lexical_from-append :
    (cs rest out : List Str)
    → All IsPlain cs
    → lexical_from (cs ++ rest) out ≡ lexical_from rest (reverse_aux cs out)
unfolding lexical_from
lexical_from-append [] rest out h = refl
lexical_from-append (c ∷ cs) rest out (p, h) =
    rw (p.named, p.level, lexical_from) (lexical_from-append cs rest (c ∷ out) h)

lexical_from-IsPlain :
    (cs out : List Str) → All (Lacks slash) cs → All IsPlain out → All IsPlain (lexical_from cs out)
unfolding lexical_from
lexical_from-IsPlain [] out solid plain = plain
lexical_from-IsPlain (c ∷ cs) out (lacks, solid) plain =
    elim (Bool-cases (is_empty c || c == codes ".")) [
      | inl e ↦ rw (e, lexical_from) (lexical_from-IsPlain cs out solid plain)
      | inr e ↦ elim (Bool-cases (c == codes "..")) [
        | inl dots ↦ rw (e, dots, lexical_from) (lexical_from-IsPlain cs _ solid (less out plain))
        | inr other ↦
            rw (e, other, lexical_from)
              (lexical_from-IsPlain cs (c ∷ out) solid
                (record { solid = lacks; named = e; level = other }, plain))
      ]
    ]
  where
    -- One component less.
    less : (o : List Str) → All IsPlain o → All IsPlain (elim o [ [] ↦ [] | d ∷ top ↦ top ])
    less [] h = tt
    less (d ∷ top) (p, h) = h

pub lexical-IsPlain : (p : Str) → All IsPlain (lexical p)
unfolding lexical
lexical-IsPlain p =
    All-reverse_aux IsPlain (lexical_from (split p slash) []) []
      (lexical_from-IsPlain (split p slash) [] (split-Lacks slash p) tt) tt

lexical_from_plain : (cs out : List Str) → All IsPlain cs → lexical_from cs out ≡ reverse_aux cs out
unfolding lexical_from
lexical_from_plain [] out h = refl
lexical_from_plain (c ∷ cs) out (p, h) =
    rw (p.named, p.level, lexical_from) (lexical_from_plain cs (c ∷ out) h)

-- Components that name something are those of their path.
pub lexical-join : (cs : List Str) → All IsPlain cs → lexical (join (slash ∷ []) cs) ≡ cs
unfolding lexical join split
lexical-join [] h = refl
lexical-join (c ∷ cs) h =
    ap (λ q. reverse (lexical_from q []))
      (split-join slash (c ∷ cs) (λ e. ground (arith, e))
        (All-imp IsPlain (Lacks slash) (c ∷ cs) (λ x p. p.solid) h))
    ∙ ap reverse (lexical_from_plain (c ∷ cs) [] h)
    ∙ reverse-reverse (c ∷ cs)
