-- ===== src/Cli/Version.antt =====
-- crates/kiry/src/main.rs, `parts`, `compare_as`, `level` and `policy_allows`: which of two upstream
-- versions is newer, how far a bump goes, and whether a recipe lets it through.
pub mod Laws
use kiry.Base.{
  ℕ, ◌+◌, ◌-◌, ◌*◌, ◌^◌, List, [], ◌∷◌, ◌++◌, Bool, true, false, not, ◌&&◌, ◌||◌, Option, none,
  some, ◌==◌, nat_eq, list_eq, ltb, leb, get_elem?, is_empty, contains, keep, if◌then◌else◌, Result,
  ok, err,
}
use kiry.Base.Text.{Str, codes, slash, rcut, split_whitespace}
use kiry.Disk.{Disk, path_join, read_to_string, str_leb, is_file}
use kiry.Pkg.{entries}

pub data Part : Type 0 where
  num : ℕ → Part
  sep : Part
  text : Str → Part

pub data Order : Type 0 where
  less equal greater : Order

-- A digit, a separator, or anything else.
unfoldable pub kind : ℕ → ℕ
kind c = if leb b'0' c && leb c b'9' then 0 else if contains (codes ".-_+~:") c then 1 else 2

-- `parse::<u64>` of a run of digits.
unfoldable pub u64_from : Str → ℕ → Option ℕ
u64_from [] n = some n
u64_from (c ∷ s) n = elim (ltb (n * 10 + (c - b'0')) (2 ^ 64)) [
  | true ↦ u64_from s (n * 10 + (c - b'0'))
  | false ↦ none
]

-- One run of characters of a kind.
unfoldable pub part_of : ℕ → Str → Part
unfolding u64_from
part_of k run =
    if k == 0
    then (elim (u64_from run 0) [ some n ↦ num n | none ↦ text run ])
    else if k == 1
    then sep
    else text run

-- The loop of `parts`, within a run of kind `k`; before the first character the run is empty.
unfoldable pub parts_from : Str → ℕ → Str → List Part
unfolding part_of kind
parts_from [] k run = if is_empty run then [] else part_of k run ∷ []
parts_from (c ∷ cs) k run = elim (kind c == k || is_empty run) [
  | true ↦ parts_from cs (kind c) (run ++ c ∷ [])
  | false ↦ part_of k run ∷ parts_from cs (kind c) (c ∷ [])
]

unfoldable pub parts : Str → List Part
unfolding parts_from
parts v = parts_from v 0 []

-- `Ord::cmp` of numbers and of texts.
unfoldable pub cmp : ℕ → ℕ → Order
cmp p q = if p == q then equal else if ltb p q then less else greater

unfoldable pub cmp_text : Str → Str → Order
cmp_text p q = if p == q then equal else if str_leb p q then less else greater

-- What is left over of the longer one: whether it makes that one bigger, if it stays numeric.
unfoldable pub leftover : List Part → Option Bool
leftover [] = some false
leftover (num n ∷ ps) = elim (leftover ps) [ none ↦ none | some b ↦ some (ltb 0 n || b) ]
leftover (sep ∷ ps) = leftover ps
leftover (text s ∷ ps) = none

unfoldable pub decided : Order → Option Bool → Option Order
decided o none = none
decided o (some b) = some (if b then o else equal)

-- The loop over the parts that both have, and what is behind it.
unfoldable pub compare_parts : Bool → List Part → List Part → Option Order
unfolding cmp cmp_text leftover decided
compare_parts letters xs [] = decided greater (leftover xs)
compare_parts letters [] (y ∷ ys) = decided less (leftover (y ∷ ys))
compare_parts letters (num p ∷ xs) (num q ∷ ys) =
    let rest = compare_parts letters xs ys in if p == q then rest else some (cmp p q)
compare_parts letters (sep ∷ xs) (sep ∷ ys) = compare_parts letters xs ys
compare_parts letters (text p ∷ xs) (text q ∷ ys) =
    let rest = compare_parts letters xs ys in
    if p == q then rest else if letters then some (cmp_text p q) else none
compare_parts letters (num p ∷ xs) (sep ∷ ys) = none
compare_parts letters (num p ∷ xs) (text q ∷ ys) = none
compare_parts letters (sep ∷ xs) (num q ∷ ys) = none
compare_parts letters (sep ∷ xs) (text q ∷ ys) = none
compare_parts letters (text p ∷ xs) (num q ∷ ys) = none
compare_parts letters (text p ∷ xs) (sep ∷ ys) = none

unfoldable pub compare_as : Str → Str → Bool → Option Order
unfolding parts compare_parts
compare_as a b letters = compare_parts letters (parts a) (parts b)

-- `compare`
unfoldable pub compare : Str → Str → Option Order
unfolding compare_as
compare a b = compare_as a b false

-- `comps`: the parts without the separators.
unfoldable pub comps : List Part → List Part
comps [] = []
comps (num n ∷ ps) = num n ∷ comps ps
comps (sep ∷ ps) = comps ps
comps (text s ∷ ps) = text s ∷ comps ps

-- Whether two components at one place differ.
unfoldable pub differ : Part → Part → Bool
differ (num a) (num b) = not (a == b)
differ (text a) (text b) = not (a == b)
differ (num a) (text b) = true
differ (text a) (num b) = true
differ sep y = true
differ x sep = true

-- A component that only one of the two has, a zero apart.
unfoldable pub counts : Part → Bool
counts (num n) = not (n == 0)
counts sep = true
counts (text s) = true

-- The first component that moved, `i` being the place of the next one.
unfoldable pub moved : ℕ → List Part → List Part → Option ℕ
unfolding differ counts
moved i [] [] = none
moved i [] (y ∷ ys) = let rest = moved (i + 1) [] ys in if counts y then some i else rest
moved i (x ∷ xs) [] = let rest = moved (i + 1) xs [] in if counts x then some i else rest
moved i (x ∷ xs) (y ∷ ys) = let rest = moved (i + 1) xs ys in if differ x y then some i else rest

-- `plain`
unfoldable pub plain : Disk → Str → List Str
plain d at = elim (read_to_string d at) [ ok t ↦ entries t | err e ↦ [] ]

-- A recipe that lies in the directory core.
unfoldable pub in_core : Str → Bool
in_core dir = elim (rcut slash dir) [
  | none ↦ false
  | some (above, behind) ↦ elim (rcut slash above) [
    | none ↦ above == codes "core"
    | some (up, name) ↦ name == codes "core"
  ]
]

first_of : List Str → Option Str
first_of [] = none
first_of (l ∷ ls) = some l

pub data Bump : Type 0 where
  major minor patch : Bump

-- A component past the end of the scheme is a finer one than it names.
unfoldable pub role : List Str → ℕ → Option Bump
role roles i = elim (get_elem? roles i) [
  | none ↦ some patch
  | some r ↦
      if r == codes "major"
      then some major
      else if r == codes "minor"
      then some minor
      else if r == codes "patch"
      then some patch
      else none
]

unfoldable pub roles_of : Option Str → List Str
roles_of (some s) = split_whitespace s
roles_of none = codes "major" ∷ codes "minor" ∷ codes "patch" ∷ []

abbrev is_none : Option Str → Bool
is_none none = true
is_none (some s) = false

unfoldable pub level_by : Bool → Option Str → Str → Str → Option Bump
unfolding role roles_of moved comps parts
level_by core scheme ours up =
    if is_none scheme && core
    then none
    else (elim (moved 0 (comps (parts ours)) (comps (parts up))) [
      | none ↦ none
      | some i ↦ role (roles_of scheme) i
    ])

unfoldable pub level : Disk → Str → Str → Str → Option Bump
unfolding plain in_core first_of level_by path_join
level d dir ours up =
    level_by (in_core dir) (first_of (plain d (path_join dir (codes "scheme")))) ours up

pub data Refused : Type 0 where
  no_scheme : Refused
  bad_policy : Str → Refused
  held : Str → Option Bump → Refused

-- What a policy says of a bump; nothing for a policy that is none.
unfoldable pub allowed : Str → Option Bump → Option Bool
allowed p level =
    if p == codes "auto=always"
    then some true
    else if p == codes "auto=minor"
    then some (elim level [
      | none ↦ false
      | some b ↦ elim b [ major ↦ false | minor ↦ true | patch ↦ true ]
    ])
    else if p == codes "auto=patch"
    then some (elim level [
      | none ↦ false
      | some b ↦ elim b [ major ↦ false | minor ↦ false | patch ↦ true ]
    ])
    else if p == codes "auto=none"
    then some false
    else none

policy_of : List Str → Str
policy_of [] = codes "auto=always"
policy_of (p ∷ ps) = p

unfoldable pub by_policy : Str → Option Bump → Result Refused (Unit {0})
unfolding allowed
by_policy p level = elim (allowed p level) [
  | none ↦ err (bad_policy p)
  | some b ↦ if b then ok tt else err (held p level)
]

unfoldable pub policy_allows : Disk → Str → Option Bump → Result Refused (Unit {0})
unfolding plain in_core policy_of by_policy path_join is_file
policy_allows d dir level =
    let answer = by_policy (policy_of (plain d (path_join dir (codes "policy")))) level in
    if in_core dir && not (is_file d (path_join dir (codes "scheme")))
    then err no_scheme
    else answer
