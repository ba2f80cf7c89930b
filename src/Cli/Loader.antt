-- ===== src/Cli/Loader.antt =====
-- crates/kiry/src/main.rs, `interpreter`, `provider`, `index`, `exists`, `at_path`, `exported` and `missing`:
-- which file the loader opens for a library, and which symbols of a program no library of it has. A hash
-- map is an association list, its newest entry first, and a hash set a list. The `sets` of `missing` are what
-- `exported` gives for its objects, so they are no argument here.
pub mod Search
pub mod Visit
pub mod Reached
pub mod Laws
use kiry.Base.{
  ℕ, zero, suc, ◌+◌, List, [], ◌∷◌, ◌++◌, map, Bool, true, false, not, ◌&&◌, ◌||◌, Option, none,
  some, ◌==◌, nat_eq, list_eq, any, keep, contains, length, lookup, get_elem?, drop, if◌then◌else◌,
}
use kiry.Base.Text.{Str, codes, slash, begins, has, ends_with, trim_start, strip_prefix}
use kiry.Db.Manifest.{Kind, file, dir, link, hard, Entry}
use kiry.Elf.Compare.{Sym, key}
use kiry.Elf.Parse.{Elf}
use kiry.Cli.Paths.{fold, dirname, searched}
use kiry.Cli.Loader.Search.{Closure, closed, panicked, out_of_fuel, closure_of}

unfoldable pub find_first : (Str → Bool) → List Str → Option Str
find_first p [] = none
find_first p (w ∷ ws) = let rest = find_first p ws in if p w then some w else rest

-- `interpreter`
unfoldable pub interpreter : List Str → Option Str
unfolding find_first trim_start ends_with has
interpreter [] = none
interpreter (w ∷ ws) =
    let want = trim_start (λ c. c == slash) w in
    if ends_with want (codes "/env") || want == codes "env"
    then find_first (λ a. not (begins b'-' a) && not (has b'=' a)) ws
    else some want

-- A link, and where it points.
unfoldable pub pointed : Entry → Str → Str
unfolding strip_prefix dirname
pointed e t = elim (strip_prefix t (slash ∷ [])) [
  | some abs ↦ abs
  | none ↦ dirname e.path ++ slash ∷ t
]

abbrev pub World : Type 0
World = List Str × List (Str × Str)

unfoldable pub index_one : Entry → Kind → World → World
unfolding fold pointed
index_one e (file sum) (present, links) = (fold e.path ∷ present, links)
index_one e (hard to) (present, links) = (fold e.path ∷ present, links)
index_one e (link t) (present, links) = (present, (fold e.path, fold (pointed e t)) ∷ links)
index_one e dir (present, links) = (present, links)

unfoldable pub index : List Entry → World → World
unfolding index_one
index [] w = w
index (e ∷ es) w = index es (index_one e e.kind w)

-- The rounds of `exists`, one for each link on the way.
unfoldable pub exists_at : ℕ → List Str → List (Str × Str) → Str → Bool
unfolding lookup
exists_at zero present links at = false
exists_at (suc n) present links at = elim (contains present at) [
  | true ↦ true
  | false ↦ elim (lookup at links) [ none ↦ false | some to ↦ exists_at n present links to ]
]

abbrev pub most_links : ℕ
most_links = 8

unfoldable pub exists : List Str → List (Str × Str) → Str → Bool
unfolding exists_at fold
exists present links path = exists_at most_links present links (fold path)

unfoldable pub find_at : ℕ → List (Str × ℕ) → List (Str × Str) → Str → Option ℕ
unfolding lookup
find_at zero here links at = none
find_at (suc n) here links at = elim (lookup at here) [
  | some i ↦ some i
  | none ↦ elim (lookup at links) [ none ↦ none | some to ↦ find_at n here links to ]
]

unfoldable pub at_path : List (Str × ℕ) → List (Str × Str) → Str → Option ℕ
unfolding find_at fold
at_path here links path = find_at most_links here links (fold path)

unfoldable pub provider : List (Str × ℕ) → List (Str × Str) → Str → List Str → Option ℕ
unfolding at_path
provider here links want [] = none
provider here links want (d ∷ ds) =
    let rest = provider here links want ds in
    elim (at_path here links (d ++ slash ∷ want)) [ some i ↦ some i | none ↦ rest ]

-- The objects that the loader opens for the names that an object needs.
unfoldable pub opened : List (Str × ℕ) → List (Str × Str) → List Str → List Str → List ℕ
unfolding provider
opened here links where_ [] = []
opened here links where_ (want ∷ wants) =
    let rest = opened here links where_ wants in
    elim (provider here links want where_) [ some j ↦ j ∷ rest | none ↦ rest ]

abbrev pub Elves : Type 0
Elves = List (Str × Elf)

module _ (elves : Elves) (here : List (Str × ℕ)) (links : List (Str × Str)) (dirs : List Str)
    (own : List (Str × Str)) where
  -- What object `i` has opened; `none` if there is no such object, of which the process dies.
  unfoldable pub libraries : ℕ → Option (List ℕ)
  unfolding opened searched
  libraries i = elim (get_elem? elves i) [
    | none ↦ none
    | some (path, o) ↦ some (opened here links (searched o path dirs own) o.needed)
  ]

-- `exported`, for one object: names, and names with their versions.
unfoldable pub has_name : Elf → Str → Bool
has_name o n = any (λ s. s.name == n) o.exports

version_eq : Option Str → Option Str → Bool
version_eq none none = true
version_eq none (some w) = false
version_eq (some v) none = false
version_eq (some v) (some w) = v == w

unfoldable pub has_versioned : Elf → Str → Option Str → Bool
unfolding version_eq
has_versioned o n v = any (λ s. s.name == n && version_eq s.version v) o.exports

-- An object serves a symbol that is asked for; one without a version serves any.
unfoldable pub serves : Elf → Sym → Bool
unfolding has_name has_versioned
serves o s = elim s.version [
  | none ↦ has_name o s.name
  | some v ↦ has_versioned o s.name (some v) || has_versioned o s.name none
]

unfoldable pub serves_at : Elves → Sym → ℕ → Bool
unfolding serves
serves_at elves s i = elim (get_elem? elves i) [ none ↦ false | some (path, o) ↦ serves o s ]

unfoldable pub unserved : Elves → List ℕ → List Sym → List Str
unfolding serves_at key
unserved elves closure syms =
    map (key true) (keep (λ s. not (any (serves_at elves s) closure)) (keep (λ s. not s.weak) syms))

unfoldable pub unserved_at : Elves → ℕ → Closure → Option (List Str)
unfolding unserved
unserved_at elves root (closed c) = elim (get_elem? elves root) [
  | none ↦ none
  | some (path, o) ↦ some (unserved elves c o.undefined)
]
unserved_at elves root panicked = none
unserved_at elves root out_of_fuel = none

-- `missing`
unfoldable pub missing :
    Elves → List (Str × ℕ) → List (Str × Str) → List Str → List (Str × Str) → ℕ → Option (List Str)
unfolding unserved_at closure_of libraries
missing elves here links dirs own root =
    unserved_at elves root (closure_of (libraries elves here links dirs own) (length elves) root)
