-- ===== src/Tests/Plans.antt =====
-- Runs of the build order, crates/kiry/src/main.rs.
use kiry.Base.{
  ℕ, zero, suc, if◌then◌else◌, ◌≡◌, ◌≢◌, ◌<◌, refl, List, [], ◌∷◌, Bool, true, false, none,
  contains, nat_eq, list_eq, ◌==◌, arith,
}
use kiry.Base.Text.{Str, codes}
use kiry.Pkg.{Dep}
use kiry.Cli.Levels.{Level, ordered, cycle, out_of_fuel, Wanted, levels, needs}
use kiry.Cli.Levels.Plans.{InOrder, built_in}
use kiry.Cli.Levels.Laws.{levels_total, levels-InOrder, levels-Ranked}

abbrev run_time : Str → Dep
run_time n = record { name = n; make = false; host = false; only = none }

abbrev tool : Str → Dep
tool n = record { name = n; make = true; host = true; only = none }

abbrev musl : Str
musl = codes "x86_64-musl"

abbrev want : Wanted
want = (codes "curl", musl) ∷ (codes "zlib", musl) ∷ (codes "cmake", musl) ∷ []

abbrev edges : List (List Dep)
edges =
    (run_time (codes "zlib") ∷ tool (codes "cmake") ∷ []) ∷ [] ∷ (run_time (codes "zlib") ∷ []) ∷ []

abbrev nothing_built : List Bool
nothing_built = false ∷ false ∷ false ∷ []

abbrev plan : List Level
plan = ((1, false) ∷ []) ∷ ((2, false) ∷ []) ∷ ((0, false) ∷ []) ∷ []

plan_three : levels musl (λ n. false) want nothing_built edges ≡ ordered plan
unfolding levels
plan_three = refl

-- With zlib asking for curl the three are a cycle, which zlib's bootstrap breaks.
abbrev knot : List (List Dep)
knot = (run_time (codes "zlib") ∷ []) ∷ (run_time (codes "curl") ∷ []) ∷ [] ∷ []

plan_knot :
    levels musl (λ n. n == codes "zlib") want nothing_built knot
    ≡ ordered (((2, false) ∷ []) ∷ ((1, true) ∷ []) ∷ ((0, false) ∷ []) ∷ ((1, false) ∷ []) ∷ [])
unfolding levels
plan_knot = refl

no_plan :
    levels musl (λ n. false) want nothing_built knot ≡ cycle (codes "curl" ∷ codes "zlib" ∷ [])
unfolding levels
no_plan = refl

levels_total_example : levels musl (λ n. false) want nothing_built knot ≢ out_of_fuel
levels_total_example = levels_total musl (λ n. false) want nothing_built knot

levels-InOrder_example :
    InOrder (needs musl want nothing_built edges) 3 [] plan
    × ((i : ℕ) → i < 3 → contains (built_in plan) i ≡ true)
levels-InOrder_example = levels-InOrder musl (λ n. false) want nothing_built edges plan_three

abbrev rank : ℕ → ℕ
rank i = if i == 0 then 2 else if i == 2 then 1 else 0

needs_few : (i j : ℕ) → needs musl want nothing_built edges i j ≡ true → rank j < rank i
unfolding needs
needs_few zero zero h = absurd (cc h)
needs_few zero (suc zero) h = omega arith
needs_few zero (suc (suc zero)) h = omega arith
needs_few zero (suc (suc (suc k))) h = absurd (cc h)
needs_few (suc zero) zero h = absurd (cc h)
needs_few (suc zero) (suc zero) h = absurd (cc h)
needs_few (suc zero) (suc (suc zero)) h = absurd (cc h)
needs_few (suc zero) (suc (suc (suc k))) h = absurd (cc h)
needs_few (suc (suc zero)) zero h = absurd (cc h)
needs_few (suc (suc zero)) (suc zero) h = omega arith
needs_few (suc (suc zero)) (suc (suc zero)) h = absurd (cc h)
needs_few (suc (suc zero)) (suc (suc (suc k))) h = absurd (cc h)
needs_few (suc (suc (suc k))) j h = absurd (cc h)

levels-Ranked_example :
    (ls : List Level) × (levels musl (λ n. false) want nothing_built edges ≡ ordered ls)
levels-Ranked_example =
    levels-Ranked musl (λ n. false) want nothing_built edges rank
      (λ i j asks apart. needs_few i j asks)
