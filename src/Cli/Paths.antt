-- ===== src/Cli/Paths.antt =====
-- crates/kiry/src/main.rs, `defaults`, `search`, `bundles`, `searched`, `dirname`, `fold`, `lexical` and
-- `spelled`: the directories a loader searches, and one spelling for each path.
pub mod Lexical
pub mod Fold
pub mod Laws
use kiry.Base.{
  ℕ, zero, suc, List, [], ◌∷◌, ◌++◌, map, reverse, Bool, true, false, not, ◌&&◌, ◌||◌, Option, none,
  some, ◌==◌, nat_eq, list_eq, is_empty, contains, keep, if◌then◌else◌,
}
use kiry.Base.Text.{Str, codes, slash, begins, split, join, rcut, starts_with, has_text, replace}
use kiry.Elf.Parse.{Elf}

-- The components with the newest first; .. takes one off, if there is one.
unfoldable pub lexical_from : List Str → List Str → List Str
lexical_from [] out = out
lexical_from (c ∷ cs) out = elim (is_empty c || c == codes ".") [
  | true ↦ lexical_from cs out
  | false ↦ elim (c == codes "..") [
    | true ↦ lexical_from cs (elim out [ [] ↦ [] | d ∷ up ↦ up ])
    | false ↦ lexical_from cs (c ∷ out)
  ]
]

unfoldable pub lexical : Str → List Str
unfolding lexical_from split
lexical p = reverse (lexical_from (split p slash) [])

-- A directory of the root that is a link into usr.
unfoldable pub is_merged : Str → Bool
is_merged c = c == codes "lib" || c == codes "lib64" || c == codes "bin" || c == codes "sbin"

unfoldable pub below_usr : List Str → List Str
unfolding is_merged
below_usr [] = []
below_usr (c ∷ cs) = if is_merged c then codes "usr" ∷ c ∷ cs else c ∷ cs

unfoldable pub fold : Str → Str
unfolding lexical below_usr join
fold p = join (slash ∷ []) (below_usr (lexical p))

unfoldable pub dirname : Str → Str
unfolding rcut
dirname p = elim (rcut slash p) [ none ↦ [] | some (before, behind) ↦ before ]

-- `rsplit(sep).next()`
unfoldable pub last_part : ℕ → Str → Str
unfolding rcut
last_part sep p = elim (rcut sep p) [ none ↦ p | some (before, behind) ↦ behind ]

unfoldable pub defaults : Str → Option (List Str)
unfolding last_part
defaults target =
    if last_part b'-' target == codes "musl"
    then some (codes "usr/lib" ∷ codes "usr/local/lib" ∷ [])
    else if last_part b'-' target == codes "gnu"
    then some (codes "usr/lib64" ∷ [])
    else none

-- The list of directories that the file names, `DT_RUNPATH` before `DT_RPATH`.
unfoldable pub listed : Elf → Str
listed o = elim o.runpath [ some r ↦ r | none ↦ elim o.rpath [ some r ↦ r | none ↦ [] ] ]

unfoldable pub search : Elf → Str → List Str → List Str
unfolding listed dirname fold split replace
search o path dirs =
    map
      (λ d.
        fold
          (replace (replace d (codes "${ORIGIN}") (dirname path)) (codes "$ORIGIN") (dirname path)))
      (keep (λ d. not (is_empty d)) (split (listed o) b':'))
    ++ dirs

-- Whether a path is that of a loader.
unfoldable pub is_loader : Str → Bool
unfolding last_part starts_with has_text
is_loader p =
    let base = last_part slash p in
    (starts_with base (codes "ld-musl-") || starts_with base (codes "ld-linux"))
    && has_text base (codes ".so.")

-- What is above a library directory that is not one of the system's.
unfoldable pub top_of : List Str → Str → Str
unfolding rcut
top_of sys dir = elim (rcut slash dir) [
  | none ↦ dir
  | some (up, name) ↦
      if (name == codes "lib" || name == codes "lib64") && not (contains sys up) then up else dir
]

unfoldable pub bundle_of : List Str → Str → List (Str × Str)
unfolding is_loader dirname top_of
bundle_of sys p =
    if is_loader p && not (contains sys (dirname p))
    then (top_of sys (dirname p), dirname p) ∷ []
    else []

unfoldable pub bundles_in : List Str → List Str → List (Str × Str)
unfolding bundle_of fold
bundles_in sys [] = []
bundles_in sys (p ∷ ps) = bundle_of sys (fold p) ++ bundles_in sys ps

unfoldable pub bundles : List Str → Str → List (Str × Str)
unfolding bundles_in defaults
bundles paths target = bundles_in (elim (defaults target) [ some sys ↦ sys | none ↦ [] ]) paths

-- The libraries of the bundles that a path lies in.
unfoldable pub own_dirs : Str → List (Str × Str) → List Str
unfolding fold starts_with
own_dirs path [] = []
own_dirs path ((top, d) ∷ bs) =
    let rest = own_dirs path bs in
    if starts_with (fold path) (top ++ slash ∷ []) then d ∷ rest else rest

unfoldable pub searched : Elf → Str → List Str → List (Str × Str) → List Str
unfolding own_dirs search
searched o path dirs bs = own_dirs path bs ++ search o path dirs

-- What `spelled` puts in the place of a link: `to` from the directory `before` on, and what comes after.
unfoldable pub hopped : List Str → Str → List Str → List Str
unfolding lexical join
hopped before to behind =
    let base = if begins slash to then [] else join (slash ∷ []) before in
    lexical (base ++ slash ∷ (to ++ slash ∷ join (slash ∷ []) behind))

-- The loop of `spelled`, with the links that may still be followed and the components before the place
-- where it is; the last component is never looked at.
module _ (read_link : Str → Option Str) where
  unfoldable pub unlinked : ℕ → List Str → List Str → List Str
  unfolding hopped join
  unlinked hops [] before = before
  unlinked hops (c ∷ []) before = before ++ c ∷ []
  unlinked zero (c ∷ d ∷ behind) before = unlinked zero (d ∷ behind) (before ++ c ∷ [])
  unlinked (suc hops) (c ∷ d ∷ behind) before =
      elim (read_link (join (slash ∷ []) (before ++ c ∷ []))) [
        | some to ↦ unlinked hops (hopped before to (d ∷ behind)) []
        | none ↦ unlinked (suc hops) (d ∷ behind) (before ++ c ∷ [])
      ]

abbrev pub most_hops : ℕ
most_hops = 40

unfoldable pub spelled : (Str → Option Str) → Str → Str
unfolding unlinked lexical join
spelled read_link p = join (slash ∷ []) (unlinked read_link most_hops (lexical p) [])
