-- ===== src/Tests/Fixes.antt =====
-- Runs of the failure table, crates/kiry/src/main.rs.
use kiry.Base.{
  ℕ, ◌≡◌, refl, List, [], ◌∷◌, ◌++◌, Bool, true, false, Option, none, some, Result, ok, err, ◌>>=◌,
  map, length, contains, list_eq, nat_eq,
}
use kiry.Base.Text.{Str, codes, newline, join, lines}
use kiry.Disk.{Disk, file, folder}
use kiry.Cli.Regex.{Pieces, piece, lit, done}
use kiry.Cli.Failures.{
  Rule, Fix, FixError, failures, rules_from, rules, phase, scan, no_action, not_an_action,
}
use kiry.Cli.Failures.Notes.{placed, noted, read_or_default, write_fix}
use kiry.Cli.Failures.Laws.{IsAnswer, scan-IsAnswer}
use kiry.Cli.Failures.Once.{IsSetting, noted-noted}
use kiry.Cli.Failures.Taken.{setting_of, filters-noted}
use kiry.Cli.Failures.Written.{IsPlain, IsWhole}
use kiry.Cli.Flags.{Setting, key_value, verbs, filters}

all_read : (rules [] [] failures >>= (λ rs. ok (length rs))) ≡ ok 12
unfolding rules join kiry.Cli.Regex.Parse.range_end
all_read = refl

row_of_one : rules_from 1 (codes "# a comment" ∷ codes "only a pattern" ∷ []) ≡ err (no_action 2)
unfolding rules_from
row_of_one = refl

abbrev log : Str
log =
    join (newline ∷ [])
      (codes "checking for cc" ∷ codes "FAILED: x.o" ∷ codes " unknown argument: '-fweb'" ∷ [])

last_phase : phase log ≡ codes "check"
unfolding phase join
last_phase = refl

fixed :
    (rules [] [] failures >>= (λ rs. ok (scan rs log)))
    ≡ ok (
        some (record {
          rule = codes "unknown argument: '(-[fm][\\w=-]+)'";
          line = codes "unknown argument: '-fweb'";
          act = codes "drop -fweb";
        }))
unfolding rules join kiry.Cli.Regex.Parse.range_end scan kiry.Cli.Regex.find
fixed = refl

abbrev fix : Fix
fix = record { rule = codes "r"; line = codes "l"; act = codes "drop -fweb" }

abbrev eight : Str → Result FixError (Option ℕ)
eight k = ok (some 8)

halved :
    placed eight [] (codes "core/x") (codes "x") (codes "set JOBS /2")
    ≡ ok (some (codes "etc/kiry/pkg/x", codes "JOBS 4"))
unfolding placed
halved = refl

no_verb :
    placed eight [] (codes "core/x") (codes "x") (codes "melt") ≡ err (not_an_action (codes "melt"))
unfolding placed
no_verb = refl

abbrev disk : Disk
disk =
    (codes "core/x/filter", file (codes "filter-lto"))
    ∷ (codes "core/x", folder)
    ∷ (codes "core", folder)
    ∷ []

abbrev after : Disk
after =
    (
      codes "core/x/filter",
      file (
          join (newline ∷ []) (
            codes "filter-lto"
            ∷ codes "# 2026-01-02 check failed, r"
            ∷ codes "#   l"
            ∷ codes "filter-flags -fweb"
            ∷ []
            ∷ [])),
    )
    ∷ (codes "core/x", folder)
    ∷ (codes "core", folder)
    ∷ []

writes_once :
    write_fix eight disk (codes "2026-01-02") [] (codes "core/x") (codes "x") fix log
    ≡ ok (some (codes "filter-flags -fweb"), after)
unfolding write_fix
writes_once = refl

noted_first :
    noted disk (codes "2026-01-02") log fix (codes "core/x/filter") (codes "filter-flags -fweb")
    ≡ ok (some (codes "filter-flags -fweb"), after)
unfolding noted
noted_first = refl

-- A line that is not trimmed is not found again, and is written a second time.
abbrev bare : Fix
bare = record { rule = codes "r"; line = codes "l"; act = codes "drop" }

abbrev twice : Result FixError (Option Str × Disk)
twice =
    write_fix eight [] (codes "d") [] (codes "x") (codes "x") bare []
    >>= (λ (said, d). write_fix eight d (codes "d") [] (codes "x") (codes "x") bare [])

written_twice : (twice >>= (λ (said, d). ok said)) ≡ ok (some (codes "filter-flags "))
unfolding write_fix
written_twice = refl

abbrev row : ℕ → Str → Rule
row c act = record {
  rx = record { prog = piece (lit c) (1, 1) done; groups = 0; src = c ∷ [] };
  act = act;
}

abbrev table : List Rule
table = row b'!' (codes "notaflag") ∷ row b'F' (codes "filter-lto") ∷ row b'u' (codes "drop") ∷ []

scan-IsAnswer_example : IsAnswer table (lines log) (scan table log)
scan-IsAnswer_example = scan-IsAnswer table log

web-IsSetting : IsSetting (codes "filter-flags -fweb")
unfolding kiry.Base.Text.has kiry.Base.Text.strip_cr kiry.Base.Text.trim
web-IsSetting = record { line = (refl, refl); plain = refl; tight = refl }

noted-noted_example :
    noted after (codes "2026-02-03") [] fix (codes "core/x/filter") (codes "filter-flags -fweb")
    ≡ ok (none, after)
noted-noted_example =
    noted-noted disk after (codes "2026-01-02") (codes "2026-02-03") log [] fix fix
      (codes "core/x/filter") (codes "filter-flags -fweb") (codes "filter-flags -fweb")
      web-IsSetting noted_first

-- The same file with a newline at its end.
abbrev whole_disk : Disk
whole_disk =
    (codes "core/x/filter", file (codes "filter-lto" ++ newline ∷ []))
    ∷ (codes "core/x", folder)
    ∷ (codes "core", folder)
    ∷ []

abbrev read_row : Str → Str → Setting
read_row k v = record { from = codes "core/x/filter"; key = k; value = v }

reads_lto : filters whole_disk (codes "core/x") ≡ ok (read_row (codes "filter-lto") [] ∷ [])
unfolding filters
reads_lto = refl

noted_web :
    noted whole_disk
      (codes "2026-01-02")
      log
      fix
      (codes "core/x/filter")
      (codes "filter-flags -fweb")
    ≡ ok (some (codes "filter-flags -fweb"), after)
unfolding noted
noted_web = refl

fix-IsPlain : IsPlain (codes "2026-01-02") fix
unfolding kiry.Base.Text.has
fix-IsPlain = record { day_line = refl; rule_line = refl; line_line = refl }

lto-IsWhole : IsWhole (read_or_default whole_disk (codes "core/x/filter"))
unfolding read_or_default kiry.Base.Text.ends_with
lto-IsWhole = refl

web-verb : contains verbs (key_value (codes "filter-flags -fweb")).0 ≡ true
unfolding key_value
web-verb = refl

filters-noted_example :
    filters after (codes "core/x")
    ≡ ok (
        (read_row (codes "filter-lto") [] ∷ [])
        ++ setting_of (codes "core/x/filter") (codes "filter-flags -fweb") ∷ [])
unfolding kiry.Disk.path_join
filters-noted_example =
    filters-noted whole_disk after (codes "2026-01-02") log fix (codes "core/x")
      (codes "filter-flags -fweb") (codes "filter-flags -fweb") web-IsSetting web-verb fix-IsPlain
      lto-IsWhole reads_lto noted_web
