-- ===== src/Elf/Compare/Laws.antt =====
-- When `compare` finds nothing, and what its findings name.
use kiry.Base.{
  ℕ, ◌≡◌, refl, ◌∙◌, ap, sym, inl, inr, List, [], ◌∷◌, ◌++◌, map, Bool, true, false, not, ◌&&◌,
  Option, none, some, ◌==◌, nat_eq, All, All-imp, Among, Option-cases, arith,
}
use kiry.Base.Text.{Str}
use kiry.Elf.Compare.{
  Sym, Change, weakened, grew, retyped, undefaulted, key, class, when, differ, changes, Search,
  compare_one, compare_all, compare,
}

-- What a search in sorted symbols promises: what it finds is there under the key, and it finds nothing
-- only where nothing is.
pub record IsSearch (search : Search) : Type 0 where
  pub found :
      (now : List (Str × Sym)) (k : Str) (s : Sym)
      → search now k ≡ some s
      → Among {A = Str × Sym} (k, s) now
  pub missed :
      (now : List (Str × Sym)) (k : Str) (s : Sym)
      → search now k ≡ none
      → Among {A = Str × Sym} (k, s) now
      → ⊥

-- A symbol that still serves those who linked to the old one.
pub record Serves (versions : Bool) (was is : Sym) : Type 0 where
  pub bound : was.weak ≡ false → is.weak ≡ false
  pub size : was.object ≡ true → is.object ≡ true → was.size ≡ is.size
  pub class_kept : differ (class was.kind) (class is.kind) ≡ false
  pub default_kept : versions ≡ true → was.default ≡ true → is.default ≡ true

when-nil : (b : Bool) (c : Change) → when b c ≡ [] → b ≡ false
unfolding when
when-nil true c h = cc
when-nil false c h = refl

append-nil_left : (xs ys : List Change) → xs ++ ys ≡ [] → (xs ≡ []) × (ys ≡ [])
append-nil_left [] ys h = (refl, h)
append-nil_left (x ∷ xs) ys h = absurd (cc)

changes-Serves :
    (versions : Bool) (k : Str) (was is : Sym)
    → changes versions k was is ≡ []
    → Serves versions was is
unfolding changes
changes-Serves versions k was is h =
    let (h1, t1) = append-nil_left (when (not was.weak && is.weak) (weakened k)) _ h in
    let (h2, t2) =
      append-nil_left (when ((was.object && is.object) && not (was.size == is.size)) (grew k)) _
        t1 in
    let (h3, h4) =
      append-nil_left (when (differ (class was.kind) (class is.kind)) (retyped k)) _ t2 in
    let e1 = when-nil _ (weakened k) h1 in
    let e2 = when-nil _ (grew k) h2 in
    let e4 = when-nil _ (undefaulted k) h4 in
    record {
      bound = λ w. ground (arith, e1);
      size = λ o o'. ground (arith, e2);
      class_kept = when-nil _ (retyped k) h3;
      default_kept = λ v d. ground (arith, e4);
    }

differ_self : (c : Option ℕ) → differ c c ≡ false
unfolding differ
differ_self none = refl
differ_self (some a) = ground arith

Serves-changes : (versions : Bool) (k : Str) (s : Sym) → changes versions k s s ≡ []
unfolding changes when
Serves-changes versions k s = rw (differ_self (class s.kind)) (ground arith)

Among-keyed :
    (versions : Bool) (k : Str) (s : Sym) (new : List Sym)
    → Among {A = Str × Sym} (k, s) (map (λ t. (key versions t, t)) new)
    → Among s new × (key versions s ≡ k)
Among-keyed versions k s [] there = elim there [ ]
Among-keyed versions k s (t ∷ new) (inl e) = (
  inl (ap (λ (p : Str × Sym). p.1) e),
  ap (key versions) (ap (λ (p : Str × Sym). p.1) e) ∙ sym (ap (λ (p : Str × Sym). p.0) e),
)
Among-keyed versions k s (t ∷ new) (inr later) =
    let (there, same) = Among-keyed versions k s new later in (inr there, same)

keyed-Among :
    (versions : Bool) (s : Sym) (new : List Sym)
    → Among s new
    → Among {A = Str × Sym} (key versions s, s) (map (λ t. (key versions t, t)) new)
keyed-Among versions s [] there = elim there [ ]
keyed-Among versions s (t ∷ new) (inl e) = inl (ap (λ u. (key versions u, u)) e)
keyed-Among versions s (t ∷ new) (inr later) = inr (keyed-Among versions s new later)

-- A symbol of the new build that stands under the old one's key and serves in its place.
abbrev pub Served : Bool → List Sym → Sym → Type 0
Served versions new was =
    (is : Sym) × (Among is new × ((key versions is ≡ key versions was) × Serves versions was is))

module _ (search : Search) (h : IsSearch search) (versions : Bool) (new : List Sym) where
  abbrev now : List (Str × Sym)
  now = map (λ s. (key versions s, s)) new

  compare_one-Served :
      (was : Sym) → compare_one search versions now was ≡ [] → Served versions new was
  unfolding compare_one
  compare_one-Served was e = elim (Option-cases (search now (key versions was))) [
    | inl none_there ↦ absurd (cc (rw (none_there, compare_one) at e))
    | inr (is, there) ↦
        let (among, same) =
          Among-keyed versions (key versions was) is new
            (h.found now (key versions was) is there) in
        (
          is,
          (
            among,
            (
              same,
              changes-Serves versions (key versions was) was is (rw (there, compare_one) at e),
            ),
          ),
        )
  ]

  compare_all-Served :
      (old : List Sym) → compare_all search versions now old ≡ [] → All (Served versions new) old
  unfolding compare_all
  compare_all-Served [] e = tt
  compare_all-Served (was ∷ old) e =
      let (here, later) = append-nil_left (compare_one search versions now was) _ e in
      (compare_one-Served was here, compare_all-Served old later)

  compare_one_self :
      (was : Sym)
      → Among was new
      → ((s : Sym) → Among s new → key versions s ≡ key versions was → s ≡ was)
      → compare_one search versions now was ≡ []
  unfolding compare_one
  compare_one_self was there only = elim (Option-cases (search now (key versions was))) [
    | inl none_there ↦
        absurd (h.missed now (key versions was) was none_there (keyed-Among versions was new there))
    | inr (is, found_it) ↦
        let (among, same) =
          Among-keyed versions (key versions was) is new
            (h.found now (key versions was) is found_it) in
        rw (found_it, only is among same, compare_one)
          (Serves-changes versions (key versions was) was)
  ]

  compare_all_self :
      (old : List Sym)
      → All
          (λ was.
            Among was new × ((s : Sym) → Among s new → key versions s ≡ key versions was → s ≡ was))
          old
      → compare_all search versions now old ≡ []
  unfolding compare_all
  compare_all_self [] _ = refl
  compare_all_self (was ∷ old) ((there, only), rest) =
      rw (compare_one_self was there only, compare_all_self old rest)

-- If no change is found, each symbol of the old build has one of the new build under its key that is
-- weak only if the old one was, has the size of the old one where both are objects, is reached in the
-- same way, and is still the default where versions count.
pub compare-Served :
    (search : Search)
    → IsSearch search
    → (old new : List Sym) (versions : Bool) → compare search old new versions ≡ []
    → All (Served versions new) old
unfolding compare
compare-Served search h old new versions e = compare_all-Served search h versions new old e

-- No two symbols have one key.
abbrev pub Keyed : Bool → List Sym → Type 0
Keyed versions syms =
    (s t : Sym) → Among s syms → Among t syms → key versions s ≡ key versions t → s ≡ t

All-Among : (syms : List Sym) → All (λ s. Among s syms) syms
All-Among syms = from syms (λ s there. there)
  where
    from : (xs : List Sym) → ((s : Sym) → Among s xs → Among s syms) → All (λ s. Among s syms) xs
    from [] f = tt
    from (x ∷ xs) f = (f x (inl refl), from xs (λ s there. f s (inr there)))

-- A build whose symbols have different keys has no change against itself.
pub compare_self :
    (search : Search)
    → IsSearch search
    → (syms : List Sym) (versions : Bool) → Keyed versions syms
    → compare search syms syms versions ≡ []
unfolding compare
compare_self search h syms versions keyed = compare_all_self search h versions syms syms (
    All-imp (λ s. Among s syms) _ syms
      (λ s there. (there, λ t t_there e. keyed t s t_there there e)) (All-Among syms))
