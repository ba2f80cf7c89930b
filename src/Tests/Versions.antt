-- ===== src/Tests/Versions.antt =====
-- Runs of the comparison of versions, crates/kiry/src/main.rs.
use kiry.Base.{ℕ, ◌≡◌, refl, ◌↔◌, List, [], ◌∷◌, Bool, true, false, Option, none, some, ok, err}
use kiry.Base.Text.{Str, codes}
use kiry.Cli.Version.{
  num, sep, text, less, equal, parts, compare, compare_as, level_by, major, minor, by_policy, held,
}
use kiry.Cli.Version.Laws.{flipped, compare_as-flip, level_by-equal}

parts_rc : parts (codes "1.12-rc2") ≡ num 1 ∷ sep ∷ num 12 ∷ sep ∷ text (codes "rc") ∷ num 2 ∷ []
unfolding parts
parts_rc = refl

older : compare (codes "1.9") (codes "1.10") ≡ some less
unfolding compare compare_as
older = refl

zeros : compare (codes "1.2") (codes "1.2.0") ≡ some equal
unfolding compare compare_as
zeros = refl

no_guess : compare (codes "2026c") (codes "2026d") ≡ none
unfolding compare compare_as
no_guess = refl

by_letter : compare_as (codes "2026c") (codes "2026d") true ≡ some less
unfolding compare_as kiry.Disk.str_leb
by_letter = refl

second_moved : level_by false none (codes "1.2.3") (codes "1.3.0") ≡ some minor
unfolding level_by
second_moved = refl

core_needs_scheme : level_by true none (codes "1.2.3") (codes "1.3.0") ≡ none
unfolding level_by
core_needs_scheme = refl

by_scheme :
    level_by true (some (codes "major major patch")) (codes "1.2.3") (codes "1.3.0") ≡ some major
unfolding level_by kiry.Base.Text.split_whitespace
by_scheme = refl

patch_only :
    by_policy (codes "auto=patch") (some minor) ≡ err (held (codes "auto=patch") (some minor))
unfolding by_policy
patch_only = refl

compare_as-flip_example :
    compare_as (codes "1.10") (codes "1.9") false
    ≡ flipped (compare_as (codes "1.9") (codes "1.10") false)
compare_as-flip_example = compare_as-flip (codes "1.9") (codes "1.10") false

zeros_as : compare_as (codes "1.2") (codes "1.2.0") false ≡ some equal
unfolding compare_as
zeros_as = refl

level_by-equal_example :
    (level_by false none (codes "1.2") (codes "1.2.0") ≡ none) ↔ (equal ≡ equal)
level_by-equal_example = level_by-equal (codes "1.2") (codes "1.2.0") false zeros_as
