-- ===== src/Tests/Loaders.antt =====
-- Runs of the search for libraries, crates/kiry/src/main.rs.
use kiry.Base.{
  ℕ, ◌≡◌, refl, ◌↔◌, List, [], ◌∷◌, Bool, true, false, Option, none, some, ◌==◌, nat_eq, list_eq,
  Among, if◌then◌else◌, arith, reverse,
}
use kiry.Base.Text.{Str, codes, slash, split, join}
use kiry.Db.Manifest.{Entry, link}
use kiry.Elf.Compare.{Sym}
use kiry.Elf.Parse.{Elf}
use kiry.Cli.Paths.{fold, search, bundles, spelled}
use kiry.Cli.Paths.Lexical.{Lands}
use kiry.Cli.Paths.Fold.{Same, fold_iff}
use kiry.Cli.Paths.Laws.{spelled-Unlinked, Unlinked}
use kiry.Cli.Loader.{interpreter, index, exists, provider, Elves, missing}
use kiry.Cli.Loader.Laws.{missing_iff, IsMissing}

folded : fold (codes "/usr/bin/../lib/./libz.so") ≡ codes "usr/lib/libz.so"
unfolding fold
folded = refl

merged : fold (codes "lib/libz.so") ≡ codes "usr/lib/libz.so"
unfolding fold
merged = refl

fold_iff_example :
    (xs ys : List Str) × Lands [] (split (codes "/lib/../bin/sh") slash) xs
    × Lands [] (split (codes "usr/./bin/sh") slash) ys
    × ((fold (codes "/lib/../bin/sh") ≡ fold (codes "usr/./bin/sh"))
        ↔ Same (reverse xs) (reverse ys))
fold_iff_example = fold_iff (codes "/lib/../bin/sh") (codes "usr/./bin/sh")

abbrev lib_link : Str → Option Str
lib_link p = if p == codes "lib" then some (codes "usr/lib") else none

spelled_once : spelled lib_link (codes "/lib/libz.so") ≡ codes "usr/lib/libz.so"
unfolding spelled
spelled_once = refl

-- The last component is no directory on the way.
spelled_last : spelled lib_link (codes "/lib") ≡ codes "lib"
unfolding spelled
spelled_last = refl

spelled-Unlinked_example :
    (start ends : List Str) × Lands [] (split (codes "/lib/libz.so") slash) start
    × (spelled lib_link (codes "/lib/libz.so") ≡ join (slash ∷ []) ends)
    × Unlinked lib_link 40 (reverse start) ends
spelled-Unlinked_example = spelled-Unlinked lib_link (codes "/lib/libz.so")

abbrev object : List Str → Option Str → List Sym → List Sym → Elf
object needed runpath exports undefined = record {
  soname = none;
  needed = needed;
  rpath = none;
  runpath = runpath;
  exports = exports;
  undefined = undefined;
  versioned = false;
  interp = false;
}

abbrev sym : Str → Option Str → Bool → Sym
sym n v weak = record {
  name = n;
  version = v;
  default = false;
  weak = weak;
  object = false;
  size = 0;
  kind = 2;
}

abbrev app : Elf
app = object (codes "libz.so" ∷ []) (some (codes "$ORIGIN/../lib")) [] (
    sym (codes "inflate") none false
    ∷ sym (codes "__gmon_start__") none true
    ∷ sym (codes "gone") (some (codes "V1")) false
    ∷ [])

abbrev libz : Elf
libz = object [] none (sym (codes "inflate") (some (codes "V1")) false ∷ []) []

abbrev elves : Elves
elves = (codes "opt/app/bin/app", app) ∷ (codes "opt/app/lib/libz.so.1", libz) ∷ []

abbrev here : List (Str × ℕ)
here = (codes "opt/app/lib/libz.so.1", 1) ∷ (codes "opt/app/bin/app", 0) ∷ []

abbrev links : List (Str × Str)
links = (codes "opt/app/lib/libz.so", codes "opt/app/lib/libz.so.1") ∷ []

searches_origin :
    search app (codes "opt/app/bin/app") (codes "usr/lib" ∷ [])
    ≡ codes "opt/app/lib" ∷ codes "usr/lib" ∷ []
unfolding search
searches_origin = refl

brings_its_loader :
    bundles
      (codes "opt/app/lib/ld-musl-x86_64.so.1" ∷ codes "usr/lib/ld-musl-x86_64.so.1" ∷ [])
      (codes "x86_64-musl")
    ≡ (codes "opt/app", codes "opt/app/lib") ∷ []
unfolding bundles
brings_its_loader = refl

follows_link : provider here links (codes "libz.so") (codes "opt/app/lib" ∷ []) ≡ some 1
unfolding provider
follows_link = refl

abbrev at : Str → Entry
at p = record { mode = 0; kind = link (codes "libz.so.1"); path = p }

indexed :
    index (at (codes "lib/libz.so") ∷ []) ([], [])
    ≡ ([], (codes "usr/lib/libz.so", codes "usr/lib/libz.so.1") ∷ [])
unfolding index
indexed = refl

exists_twice :
    exists
      (codes "usr/lib/libz.so.1" ∷ [])
      ((codes "usr/lib/libz.so", codes "usr/lib/libz.so.1") ∷ [])
      (codes "/lib/libz.so")
    ≡ true
unfolding exists
exists_twice = refl

env_name :
    interpreter (codes "/usr/bin/env" ∷ codes "-S" ∷ codes "A=1" ∷ codes "python3" ∷ [])
    ≡ some (codes "python3")
unfolding interpreter
env_name = refl

one_is_missing : missing elves here links (codes "usr/lib" ∷ []) [] 0 ≡ some (codes "gone@V1" ∷ [])
unfolding missing
one_is_missing = refl

missing_iff_example :
    (ls : List Str) × (missing elves here links (codes "usr/lib" ∷ []) [] 0 ≡ some ls)
    × ((t : Str) → Among t ls ↔ IsMissing elves here links (codes "usr/lib" ∷ []) [] 0 app t)
missing_iff_example =
    missing_iff elves here links (codes "usr/lib" ∷ []) [] 0 (codes "opt/app/bin/app") app
      (omega arith, (omega arith, tt)) refl
