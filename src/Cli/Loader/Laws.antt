-- ===== src/Cli/Loader/Laws.antt =====
-- What `missing` of crates/kiry/src/main.rs reports.
use kiry.Base.{
  ℕ, zero, suc, ◌<◌, ◌≡◌, refl, sym, ◌∙◌, ap, subst, ◌↔◌, List, [], ◌∷◌, ◌++◌, Bool, true, false,
  not, inl, inr, Option, some, ◌==◌, nat_eq, list_eq, nat_beq_iff, contains, keep, any, length,
  lookup, get_elem?, arith, Bool-cases, Option-cases, Among, map-Among, Among-map, keep-Among,
  Among-keep, any-false,
}
use kiry.Base.Text.{Str, slash}
use kiry.Elf.Compare.{Sym, key}
use kiry.Elf.Parse.{Elf}
use kiry.Cli.Paths.{fold, searched}
use kiry.Cli.Loader.{
  find_at, most_links, at_path, provider, opened, Elves, libraries, serves_at, unserved,
  unserved_at, missing,
}
use kiry.Cli.Loader.Search.{closed}
use kiry.Cli.Loader.Reached.{Reach, IsClosure, closure_of-IsClosure}

-- What a list of numbers that are below `n` holds.
module _ (n : ℕ) where
  -- The index of each file is one of an object.
  abbrev pub Placed : List (Str × ℕ) → Type 0
  Placed [] = Unit
  Placed ((p, i) ∷ here) = (i < n) × Placed here

  lookup-below :
      (here : List (Str × ℕ)) (p : Str) {i : ℕ} → Placed here → lookup p here ≡ some i → i < n
  unfolding lookup
  lookup-below [] p placed h = ground (arith, h)
  lookup-below ((q, j) ∷ here) p {i = i} (low, placed) h = elim (Bool-cases (q == p)) [
    | inl e ↦ let same : j ≡ i = ground (arith, e, h) in omega (arith, low, same)
    | inr e ↦ lookup-below here p placed (ground (arith, e, h))
  ]

  find_at-below :
      (f : ℕ) (here : List (Str × ℕ)) (links : List (Str × Str)) (p : Str) {i : ℕ}
      → Placed here
      → find_at f here links p ≡ some i
      → i < n
  unfolding find_at
  find_at-below zero here links p placed h = ground (arith, h)
  find_at-below (suc f) here links p {i = i} placed h = elim (Option-cases (lookup p here)) [
    | inr (j, e) ↦
        let same : j ≡ i = ground (arith, e, h) in omega (arith, lookup-below here p placed e, same)
    | inl e ↦ elim (Option-cases (lookup p links)) [
      | inl e2 ↦ ground (arith, e, e2, h)
      | inr (to, e2) ↦ find_at-below f here links to placed (ground (arith, e, e2, h))
    ]
  ]

  provider-below :
      (here : List (Str × ℕ)) (links : List (Str × Str)) (want : Str) (ds : List Str) {i : ℕ}
      → Placed here
      → provider here links want ds ≡ some i
      → i < n
  unfolding provider at_path
  provider-below here links want [] placed h = ground (arith, h)
  provider-below here links want (d ∷ ds) {i = i} placed h =
      elim (Option-cases (at_path here links (d ++ slash ∷ want))) [
        | inl e ↦ provider-below here links want ds placed (ground (arith, e, h))
        | inr (j, e) ↦
            let same : j ≡ i = ground (arith, e, h) in
            omega
              (arith, find_at-below most_links here links (fold (d ++ slash ∷ want)) placed e, same)
      ]

  opened-below :
      (here : List (Str × ℕ)) (links : List (Str × Str)) (ds wants : List Str)
      → Placed here
      → (k : ℕ) → contains (opened here links ds wants) k ≡ true
      → k < n
  unfolding opened
  opened-below here links ds [] placed k h = ground (arith, h)
  opened-below here links ds (want ∷ wants) placed k h =
      elim (Option-cases (provider here links want ds)) [
        | inl e ↦ opened-below here links ds wants placed k (ground (arith, e, h))
        | inr (j, e) ↦ elim (Bool-cases (j == k)) [
          | inl here_it_is ↦
              let same = (nat_beq_iff j k).0 here_it_is in
              omega (arith, provider-below here links want ds placed e, same)
          | inr apart ↦ opened-below here links ds wants placed k (ground (arith, e, h, apart))
        ]
      ]

get_elem?-some :
    {A : Type 0} (xs : List A) (i : ℕ) → i < length xs → (x : A) × (get_elem? xs i ≡ some x)
get_elem?-some [] i below = absurd (omega (arith, below))
get_elem?-some (x ∷ xs) zero below = (x, refl)
get_elem?-some (x ∷ xs) (suc i) below = get_elem?-some xs i (omega (arith, below))

get_elem?-length :
    {A : Type 0} (xs : List A) (i : ℕ) {x : A} → get_elem? xs i ≡ some x → i < length xs
get_elem?-length [] i h = ground (arith, h)
get_elem?-length (y ∷ xs) zero h = omega arith
get_elem?-length (y ∷ xs) (suc i) h = omega (arith, get_elem?-length xs i h)

module _ (elves : Elves) (here : List (Str × ℕ)) (links : List (Str × Str)) (dirs : List Str)
    (own : List (Str × Str)) where
  -- Every index is one of an object, so that each object's libraries are objects.
  libraries-Valid :
      Placed (length elves) here
      → (i : ℕ) → i < length elves
      → (js : List ℕ) × (libraries elves here links dirs own i ≡ some js)
        × ((k : ℕ) → contains js k ≡ true → k < length elves)
  unfolding libraries
  libraries-Valid placed i below =
      let ((path, o), e) = get_elem?-some elves i below in
      (
        opened here links (searched o path dirs own) o.needed,
        ground (arith, e),
        opened-below (length elves) here links (searched o path dirs own) o.needed placed,
      )

  -- A strong symbol that a program asks for and no object that it reaches serves.
  abbrev pub IsMissing : ℕ → Elf → Str → Type 0
  IsMissing root o t =
      (s : Sym) × Among s o.undefined
      × (s.weak ≡ false)
      × (t ≡ key true s)
      × ((i : ℕ) → Reach (libraries elves here links dirs own) root i → serves_at elves s i ≡ false)

  none_serves :
      (p : ℕ → Bool) (c : List ℕ) → ((i : ℕ) → contains c i ≡ true → p i ≡ false) → any p c ≡ false
  none_serves p [] h = refl
  none_serves p (i ∷ c) h = ground (
    arith,
    h i (ground (arith, (nat_beq_iff i i).1 refl)),
    none_serves p c (λ j m. h j (ground (arith, m))),
  )

  unserved-IsMissing :
      (root : ℕ) (o : Elf) (c : List ℕ)
      → IsClosure (libraries elves here links dirs own) root c
      → (t : Str) → Among t (unserved elves c o.undefined) ↔ IsMissing root o t
  unfolding unserved
  unserved-IsMissing root o c whole t = (to, from)
    where
      -- What is reported is missing.
      to : Among t (unserved elves c o.undefined) → IsMissing root o t
      to h =
          let strong : List Sym = keep (λ x. not x.weak) o.undefined in
          let (s, kept, named) =
            Among-map (key true) (keep (λ x. not (any (serves_at elves x) c)) strong) t h in
          let (among, unserved_by) =
            Among-keep (λ x. not (any (serves_at elves x) c)) strong s kept in
          let (asked, is_strong) = Among-keep (λ x. not x.weak) o.undefined s among in
          (
            s,
            asked,
            ground (arith, is_strong),
            named,
            λ i r. any-false (serves_at elves s) c i (ground (arith, unserved_by)) ((whole i).1 r),
          )

      -- What is missing is reported.
      from : IsMissing root o t → Among t (unserved elves c o.undefined)
      from (s, asked, strong, named, nowhere) =
          let kept = keep-Among (λ x. not x.weak) o.undefined s asked (ground (arith, strong)) in
          let free = none_serves (serves_at elves s) c (λ i m. nowhere i ((whole i).0 m)) in
          subst (λ x. Among x (unserved elves c o.undefined)) (sym named)
            (map-Among (key true)
              (keep (λ x. not (any (serves_at elves x) c)) (keep (λ x. not x.weak) o.undefined)) s
              (keep-Among (λ x. not (any (serves_at elves x) c))
                (keep (λ x. not x.weak) o.undefined) s kept (ground (arith, free))))

  unserved_at-closed :
      (root : ℕ) (path : Str) (o : Elf) (c : List ℕ)
      → get_elem? elves root ≡ some (path, o)
      → unserved_at elves root (closed c) ≡ some (unserved elves c o.undefined)
  unfolding unserved_at
  unserved_at-closed root path o c e = ground (arith, e)

  -- `missing` comes to an end, and reports the strong symbols that no object serves that the program
  -- reaches, and no others.
  pub missing_iff :
      (root : ℕ) (path : Str) (o : Elf)
      → Placed (length elves) here
      → get_elem? elves root ≡ some (path, o)
      → (ls : List Str) × (missing elves here links dirs own root ≡ some ls)
        × ((t : Str) → Among t ls ↔ IsMissing root o t)
  unfolding missing
  missing_iff root path o placed e =
      let next : ℕ → Option (List ℕ) = libraries elves here links dirs own in
      let (c, ended, whole) =
        closure_of-IsClosure next root (length elves) (get_elem?-length elves root e)
          (libraries-Valid placed) in
      (
        unserved elves c o.undefined,
        ap (unserved_at elves root) ended ∙ unserved_at-closed root path o c e,
        unserved-IsMissing root o c whole,
      )
