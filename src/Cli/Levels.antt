-- ===== src/Cli/Levels.antt =====
-- crates/kiry/src/main.rs, `levels`: the order in which a set of packages is built. What the process
-- dies of is a value here, and whether a recipe has a bootstrap file is a parameter.
pub mod Rounds
pub mod Plans
pub mod Laws
use kiry.Base.{
  ℕ, zero, suc, ◌+◌, ◌*◌, List, [], ◌∷◌, ◌++◌, map, Bool, true, false, not, ◌&&◌, ◌||◌, Option,
  none, some, ◌==◌, nat_eq, list_eq, get_elem?, is_empty, any, keep, contains, length,
  if◌then◌else◌,
}
use kiry.Base.Text.{Str}
use kiry.Pkg.{Dep, applies}

-- A level of the plan: packages by index, and whether one only stands in for its cycle.
abbrev pub Level : Type 0
Level = List (ℕ × Bool)

pub data Planned : Type 0 where
  ordered : List Level → Planned
  cycle : List Str → Planned
  out_of_fuel : Planned

-- `(i..i + n).collect()`
unfoldable pub range_from : ℕ → ℕ → List ℕ
range_from i zero = []
range_from i (suc n) = i ∷ range_from (i + 1) n

-- The loop over what is left. `needs i j` says that the build of `i` asks for `j`, and `boots i` that
-- `i` says how to start.
module _ (needs : ℕ → ℕ → Bool) (boots : ℕ → Bool) where
  -- What holds `i` back: another package that is left and does not stand in yet.
  unfoldable pub waits : List ℕ → List ℕ → ℕ → Bool
  waits left done i = any (λ j. not (j == i) && (not (contains done j) && needs i j)) left

  unfoldable pub ready : List ℕ → List ℕ → List ℕ
  unfolding waits
  ready left done = keep (λ i. not (waits left done i)) left

  unfoldable pub starters : List ℕ → List ℕ → List ℕ
  starters left done = keep (λ i. not (contains done i) && boots i) left

  unfoldable pub without : List ℕ → List ℕ → List ℕ
  without left now = keep (λ i. not (contains now i)) left

  abbrev pub level_of : Bool → List ℕ → Level
  level_of stands_in is = map (λ i. (i, stands_in)) is

  abbrev pub before : Level → Planned → Planned
  before l (ordered ls) = ordered (l ∷ ls)
  before l (cycle names) = cycle names
  before l out_of_fuel = out_of_fuel

  module _ (name_of : ℕ → Str) where
    -- One round: the packages that are ready, else those that stand in for a cycle, else the end.
    -- `next` goes on with what is left and what stands in.
    unfoldable pub round : (List ℕ → List ℕ → Planned) → List ℕ → List ℕ → List ℕ → List ℕ → Planned
    unfolding without
    round next left done (i ∷ now) boot =
        before (level_of false (i ∷ now)) (next (without left (i ∷ now)) done)
    round next left done [] (i ∷ boot) =
        before (level_of true (i ∷ boot)) (next left (done ++ (i ∷ boot)))
    round next left done [] [] = cycle (map name_of left)

    unfoldable pub loop : ℕ → List ℕ → List ℕ → Planned
    unfolding round ready starters
    loop fuel [] done = ordered []
    loop zero (i ∷ left) done = out_of_fuel
    loop (suc fuel) (i ∷ left) done =
        round (loop fuel) (i ∷ left) done (ready (i ∷ left) done) (starters (i ∷ left) done)

abbrev pub Wanted : Type 0
Wanted = List (Str × Str)

-- Whether a dependency of a package for `t` names the package `name` for `u`.
unfoldable pub is_edge : Str → Bool → Str → Str × Str → Dep → Bool
unfolding applies
is_edge host is_built t (name, u) x =
    applies x t
    && (not (is_built && x.make) && (x.name == name && (if x.host then host else t) == u))

-- The edge test of `levels`. An index is always that of a wanted package.
unfoldable pub needs : Str → Wanted → List Bool → List (List Dep) → ℕ → ℕ → Bool
unfolding is_edge
needs host want built edges i j = elim (get_elem? want i) [
  | none ↦ false
  | some (name, t) ↦ elim (get_elem? want j) [
    | none ↦ false
    | some at ↦ elim (get_elem? edges i) [
      | none ↦ false
      | some deps ↦
          any (is_edge host (elim (get_elem? built i) [ none ↦ false | some b ↦ b ]) t at) deps
    ]
  ]
]

unfoldable pub name_of : Wanted → ℕ → Str
name_of want i = elim (get_elem? want i) [ none ↦ [] | some at ↦ at.0 ]

-- Each round takes a package off, or lets one stand in that did not before.
abbrev pub enough_fuel : ℕ → ℕ
enough_fuel n = n + n

unfoldable pub levels : Str → (Str → Bool) → Wanted → List Bool → List (List Dep) → Planned
unfolding needs name_of loop range_from
levels host has_bootstrap want built edges =
    loop (needs host want built edges) (λ i. has_bootstrap (name_of want i)) (name_of want)
      (enough_fuel (length want)) (range_from 0 (length want)) []
