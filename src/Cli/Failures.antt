-- ===== src/Cli/Failures.antt =====
-- crates/kiry/src/main.rs, `rules`, `phase` and `scan`: the failure table, and the fix it has for the log of a
-- failed build.
pub mod Laws
pub mod Notes
pub mod Once
pub mod Written
pub mod Taken
use kiry.Base.{
  ℕ, zero, suc, ◌+◌, ◌/◌, max, List, [], ◌∷◌, ◌++◌, map, Bool, true, false, not, ◌&&◌, ◌||◌, Option,
  none, some, ◌==◌, nat_eq, list_eq, leb, is_empty, any, all, keep, if◌then◌else◌, Result, ok, err,
  ◌>>=◌,
}
use kiry.Base.Text.{
  Str, codes, space, slash, newline, hash_sign, begins, split, split_whitespace, lines, trim,
  trim_start, join, starts_with, ends_with, has_text, strip_prefix, cut_from, rcut, replace,
}
use kiry.Base.Text.Radix.{digits}
use kiry.Error.{IoError, not_found, other}
use kiry.Disk.{
  Disk, path_join, read_to_string, write, create_dir_all, read_dir, sort_names, is_file,
}
use kiry.Cli.Regex.{Rx, find, as_str}
use kiry.Cli.Regex.Parse.{ParseError, new}
use kiry.Cli.Version.{u64_from}

pub record Rule : Type 0 where
  pub rx : Rx
  pub act : Str

pub data FixError : Type 0 where
  unread : Str → IoError → FixError
  no_action : ℕ → FixError
  bad_pattern : ℕ → ParseError → FixError
  set_wants not_a_divisor not_an_action : Str → FixError

-- `split` at two spaces.
unfoldable pub split_wide : Str → Str → List Str
split_wide [] cur = cur ∷ []
split_wide (c ∷ []) cur = (cur ++ c ∷ []) ∷ []
split_wide (c ∷ d ∷ s) cur = elim (c == space && d == space) [
  | true ↦ cur ∷ split_wide s []
  | false ↦ split_wide (d ∷ s) (cur ++ c ∷ [])
]

unfoldable pub wide_parts : List Str → List Str
unfolding split_wide
wide_parts [] = []
wide_parts (x ∷ xs) = split_wide x [] ++ wide_parts xs

-- The columns of a row: a tab or a run of spaces ends one.
unfoldable pub columns : Str → List Str
unfolding wide_parts split trim
columns l = keep (λ x. not (is_empty x)) (map trim (wide_parts (split l 9)))

unfoldable pub rule_of : ℕ → List Str → Result FixError Rule
unfolding new
rule_of n [] = err (no_action n)
rule_of n (pattern ∷ []) = err (no_action n)
rule_of n (pattern ∷ act ∷ more) = elim (new pattern) [
  | err e ↦ err (bad_pattern n e)
  | ok rx ↦ ok (record { rx = rx; act = act })
]

-- The loop of `rules` from row `n` on; blank rows and comments are passed over.
unfoldable pub rules_from : ℕ → List Str → Result FixError (List Rule)
unfolding rule_of columns trim
rules_from n [] = ok []
rules_from n (l ∷ ls) =
    let rest = rules_from (n + 1) ls in
    elim (is_empty (trim l) || begins hash_sign (trim l)) [
      | true ↦ rest
      | false ↦ do r ← rule_of n (columns (trim l)); rs ← rest; ok (r ∷ rs)
    ]

-- The files of failures.d that are read, one after another.
unfoldable pub user_rows : Disk → List Str → Result FixError Str
unfolding read_to_string
user_rows d [] = ok []
user_rows d (f ∷ fs) = elim (read_to_string d f) [
  | err e ↦ err (unread f e)
  | ok t ↦ do rest ← user_rows d fs; ok (t ++ newline ∷ rest)
]

-- A directory that cannot be read counts as empty.
unfoldable pub user_files : Disk → Str → List Str
unfolding read_dir sort_names path_join is_file
user_files d at = elim (read_dir d at) [
  | err e ↦ []
  | ok names ↦ keep (is_file d) (map (path_join at) (sort_names names))
]

unfoldable pub shipped_rows : Str → Result IoError Str → Result FixError Str
shipped_rows built_in (ok t) = ok t
shipped_rows built_in (err not_found) = ok built_in
shipped_rows built_in (err (other n)) = err (unread (codes "usr/share/kiry/failures") (other n))

-- `rules`, with the table that is built in. The user's rows come first.
unfoldable pub rules : Disk → Str → Str → Result FixError (List Rule)
unfolding user_rows user_files shipped_rows rules_from lines path_join
rules d root built_in = do
  mine ← user_rows d (user_files d (path_join root (codes "etc/kiry/failures.d")))
  theirs ←
      shipped_rows built_in (read_to_string d (path_join root (codes "usr/share/kiry/failures")))
  rules_from 1 (lines (mine ++ theirs))

-- `FAILURES`
abbrev pub failures : Str
failures = join (newline ∷ []) (
    codes "# regex                                      action"
    ∷ codes "LLVM ERROR: out of memory.*lto               set LTO thin"
    ∷ codes "(out of memory|signal 9|exit status 137)     set KIRY_THINLTO_JOBS /2"
    ∷ codes "(Not a valid object file|invalid bitcode)    filter-lto"
    ∷ codes "unknown argument: '(-[fm][\\w=-]+)'          drop $1"
    ∷ codes "recompile with -fPIC                         append -fPIC"
    ∷ codes "undefined symbol: __\\w+_chk                  append -U_FORTIFY_SOURCE"
    ∷ codes
        "use of undeclared identifier '(malloc|calloc|realloc|free|abort|exit|getenv)'  append -include stdlib.h"
    ∷ codes "error: instruction requires:                set CFLAGS_MARCH x86-64"
    ∷ codes "does not allow 'register' storage class      append -Wno-register"
    ∷ codes
        "no (template|member) named '(auto_ptr|binary_function|unary_function|bind1st|bind2nd|ptr_fun|random_shuffle)' in namespace 'std'  append -D_LIBCPP_ENABLE_CXX17_REMOVED_AUTO_PTR -D_LIBCPP_ENABLE_CXX17_REMOVED_BINDERS -D_LIBCPP_ENABLE_CXX17_REMOVED_RANDOM_SHUFFLE -D_LIBCPP_ENABLE_CXX17_REMOVED_UNARY_BINARY_FUNCTION"
    ∷ codes "undefined reference to `__isoc99_            notaflag musl-portability"
    ∷ codes "PLEASE submit a bug report                   set OPT -O2"
    ∷ []
    ∷ [])

-- What a line of the log says of the phase, if it says anything.
unfoldable pub phase_of : Str → Option Str
unfolding starts_with has_text
phase_of l =
    if starts_with l (codes "checking ") || has_text l (codes "configure:")
    then some (codes "configure")
    else if has_text l (codes "ld.lld:")
        || has_text l (codes "undefined reference")
        || has_text l (codes "relocation")
    then some (codes "link")
    else if has_text l (codes "FAILED:")
        || has_text l (codes "Test suite")
        || has_text l (codes "tests failed")
        || has_text l (codes "Testing")
        || starts_with l (codes "PASS")
    then some (codes "check")
    else none

unfoldable pub phase_from : Str → List Str → Str
unfolding phase_of
phase_from seen [] = seen
phase_from seen (l ∷ ls) = elim (phase_of l) [
  | some p ↦ phase_from p ls
  | none ↦ phase_from seen ls
]

unfoldable pub phase : Str → Str
unfolding phase_from lines
phase log = phase_from (codes "compile") (lines log)

pub record Fix : Type 0 where
  pub rule : Str
  pub line : Str
  pub act : Str

-- The groups put in the place of `$1`, `$2` and so on.
unfoldable pub filled : ℕ → List Str → Str → Str
unfolding replace digits
filled i [] act = act
filled i (c ∷ caps) act = filled (i + 1) caps (replace act (b'$' ∷ digits 10 i) c)

unfoldable pub fix_of : Rule → Str → List Str → Fix
unfolding filled as_str trim
fix_of r l caps = record { rule = as_str r.rx; line = trim l; act = filled 1 caps r.act }

-- The first line that a rule matches.
unfoldable pub scan_lines : Rule → List Str → Option Fix
unfolding fix_of
scan_lines r [] = none
scan_lines r (l ∷ ls) =
    let rest = scan_lines r ls in
    elim (find r.rx l) [ some caps ↦ some (fix_of r l caps) | none ↦ rest ]

unfoldable pub scan_rules : List Rule → List Str → Option Fix
unfolding scan_lines
scan_rules [] ls = none
scan_rules (r ∷ rs) ls =
    let rest = scan_rules rs ls in elim (scan_lines r ls) [ some f ↦ some f | none ↦ rest ]

-- `scan`: the first rule with a line.
unfoldable pub scan : List Rule → Str → Option Fix
unfolding scan_rules lines
scan rs log = scan_rules rs (lines log)
