-- ===== src/Cli/Levels/Laws.antt =====
-- What a plan promises: everything is built, nothing before what it asks for, and there is a plan
-- wherever the dependencies are no cycle.
use kiry.Base.{
  ℕ, zero, suc, ◌<◌, ◌≡◌, ◌≢◌, refl, subst, List, [], Bool, true, false, not, ◌==◌, nat_eq, list_eq,
  contains, length, arith, length-keep-le-length,
}
use kiry.Base.Text.{Str}
use kiry.Pkg.{Dep}
use kiry.Cli.Levels.{
  Level, Planned, ordered, cycle, out_of_fuel, Wanted, needs, name_of, range_from, levels,
  enough_fuel,
}
use kiry.Cli.Levels.Plans.{
  range_from-contains, length-range_from, built_in, InOrder, IsPlan, loop-IsPlan,
}

module _ (host : Str) (has_bootstrap : Str → Bool) (want : Wanted) (built : List Bool)
    (edges : List (List Dep)) where
  levels-IsPlan :
      IsPlan
        (needs host want built edges)
        (length want)
        (range_from 0 (length want))
        []
        (levels host has_bootstrap want built edges)
  unfolding levels
  levels-IsPlan =
      let shorter = length-keep-le-length (λ i. not (contains [] i)) (range_from 0 (length want)) in
      loop-IsPlan (needs host want built edges) (length want) (λ i. has_bootstrap (name_of want i))
        (name_of want) (enough_fuel (length want)) (range_from 0 (length want)) []
        (omega (arith, shorter, length-range_from 0 (length want)))

  -- The rounds come to an end: there is a plan, or a cycle that the process dies of.
  pub levels_total : levels host has_bootstrap want built edges ≢ out_of_fuel
  levels_total e =
      subst (IsPlan (needs host want built edges) (length want) (range_from 0 (length want)) []) e
        levels-IsPlan

  -- In a plan, whatever another package that is built asks for stands in an earlier level, where it is
  -- built or stands in; and every wanted package is built.
  pub levels-InOrder :
      {ls : List Level}
      → levels host has_bootstrap want built edges ≡ ordered ls
      → InOrder (needs host want built edges) (length want) [] ls
        × ((i : ℕ) → i < length want → contains (built_in ls) i ≡ true)
  levels-InOrder e =
      let (sound, whole) =
        subst (IsPlan (needs host want built edges) (length want) (range_from 0 (length want)) []) e
          levels-IsPlan in
      (
        sound [] (λ j below gone. ground (
          arith,
          range_from-contains 0 (length want) j (omega arith) (omega (arith, below)),
          gone,
        )),
        λ i below.
            whole i (range_from-contains 0 (length want) i (omega arith) (omega (arith, below))),
      )

  -- Nothing needs itself by way of others: what a package asks for ranks lower.
  abbrev pub Ranked : (ℕ → ℕ) → Type 0
  Ranked rank =
      (i j : ℕ) → needs host want built edges i j ≡ true → (j == i) ≡ false → rank j < rank i

  no_descent :
      (rank : ℕ → ℕ) (left : List ℕ)
      → Ranked rank
      → ((i : ℕ)
          → contains left i ≡ true
          → (j : ℕ) × (contains left j ≡ true)
            × ((j == i) ≡ false)
            × (needs host want built edges i j ≡ true))
      → (bound k : ℕ) → contains left k ≡ true
      → rank k < bound
      → ⊥
  no_descent rank left ranked held zero k m below = omega (arith, below)
  no_descent rank left ranked held (suc bound) k m below =
      let (j, there, apart, asks) = held k m in
      let lower = ranked k j asks apart in
      no_descent rank left ranked held bound j there (omega (arith, lower, below))

  planned :
      (rank : ℕ → ℕ) (r : Planned)
      → Ranked rank
      → IsPlan (needs host want built edges) (length want) (range_from 0 (length want)) [] r
      → (ls : List Level) × (r ≡ ordered ls)
  planned rank (ordered ls) ranked h = (ls, refl)
  planned rank (cycle names) ranked (left, sub, (k, m), held) =
      absurd (no_descent rank left ranked held (suc (rank k)) k m (omega arith))
  planned rank out_of_fuel ranked h = absurd h

  -- Where no package needs itself by way of others, there is a plan, with or without bootstrap files.
  pub levels-Ranked :
      (rank : ℕ → ℕ)
      → Ranked rank
      → (ls : List Level) × (levels host has_bootstrap want built edges ≡ ordered ls)
  levels-Ranked rank ranked =
      planned rank (levels host has_bootstrap want built edges) ranked levels-IsPlan
