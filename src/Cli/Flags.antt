-- ===== src/Cli/Flags.antt =====
-- crates/kiry/src/main.rs, `settings`, `filters` and `filtered`: the settings of a package, and what its recipe
-- takes out of the compiler's flags.
use kiry.Base.{
  ℕ, ◌+◌, List, [], ◌∷◌, ◌++◌, map, Bool, true, false, not, ◌||◌, Option, none, some, ◌==◌, nat_eq,
  list_eq, is_empty, any, contains, keep, if◌then◌else◌, Result, ok, err, ◌>>=◌,
}
use kiry.Base.Text.{
  Str, codes, slash, hash_sign, is_whitespace, split_whitespace, lines, trim, starts_with, cut_from,
}
use kiry.Error.{IoError, not_found, other}
use kiry.Disk.{Disk, path_join, read_to_string}

-- A setting with the file that it is from.
pub record Setting : Type 0 where
  pub from : Str
  pub key : Str
  pub value : Str

pub data FlagError : Type 0 where
  unread : Str → IoError → FlagError
  not_a_setting not_a_verb : Str → ℕ → Str → FlagError
  two_flags : Str → Str → FlagError

-- `split_once(char::is_whitespace)`, or the line with nothing behind it.
unfoldable pub key_value : Str → Str × Str
key_value [] = ([], [])
key_value (c ∷ s) = let (k, v) = key_value s in if is_whitespace c then ([], s) else (c ∷ k, v)

-- A line without its comment.
unfoldable pub uncommented : Str → Str
unfolding cut_from trim
uncommented l = trim (elim (cut_from hash_sign l []) [ none ↦ l | some (before, behind) ↦ before ])

-- The rows of a file from line `n` on, each with a key that is known.
module _ (known : Str → Bool) (refuse : ℕ → Str → FlagError) (from : Str) where
  unfoldable pub row : ℕ → Str × Str → Result FlagError Setting
  row n (k, v) =
      if known k then ok (record { from = from; key = k; value = trim v }) else err (refuse n k)

  unfoldable pub rows : ℕ → List Str → Result FlagError (List Setting)
  unfolding row uncommented key_value
  rows n [] = ok []
  rows n (l ∷ ls) =
      let rest = rows (n + 1) ls in
      elim (is_empty (uncommented l)) [
        | true ↦ rest
        | false ↦ do s ← row n (key_value (uncommented l)); more ← rest; ok (s ∷ more)
      ]

-- A file that is not there has no rows.
unfoldable pub rows_of :
    (Str → Bool)
    → (ℕ → Str → FlagError)
    → Str
    → Str
    → Result IoError Str
    → Result FlagError (List Setting)
unfolding rows lines
rows_of known refuse from at (ok t) = rows known refuse from 1 (lines t)
rows_of known refuse from at (err not_found) = ok []
rows_of known refuse from at (err (other n)) = err (unread at (other n))

-- The names of `KNOBS`.
abbrev pub knobs : List Str
knobs = codes "OPT" ∷ codes "CFLAGS_MARCH" ∷ codes "LTO" ∷ codes "KIRY_THINLTO_JOBS" ∷ []

unfoldable pub is_known : Str → Bool
unfolding starts_with
is_known k =
    k == codes "flags"
    || starts_with k (codes "KIRY_")
    || contains (codes "CFLAGS" ∷ codes "CXXFLAGS" ∷ codes "LDFLAGS" ∷ codes "RUSTFLAGS" ∷ []) k
    || contains knobs k

unfoldable pub settings_in : Disk → Str → Str → Result FlagError (List Setting)
unfolding rows_of is_known path_join read_to_string
settings_in d root f =
    rows_of is_known (not_a_setting (slash ∷ f)) (slash ∷ f) (path_join root f)
      (read_to_string d (path_join root f))

-- `settings`: the machine's, then those of the package.
unfoldable pub settings : Disk → Str → Str → Result FlagError (List Setting)
unfolding settings_in path_join
settings d root name = do
  global ← settings_in d root (codes "etc/kiry/config")
  mine ← settings_in d root (path_join (codes "etc/kiry/pkg") name)
  ok (global ++ mine)

-- `VERBS`
abbrev pub verbs : List Str
verbs =
    codes "filter-lto"
    ∷ codes "filter-flags"
    ∷ codes "filter-ldflags"
    ∷ codes "strip-flags"
    ∷ codes "append-flags"
    ∷ codes "replace-flags"
    ∷ []

-- `KEPT_FLAGS`
abbrev pub kept_flags : List Str
kept_flags =
    codes "-O"
    ∷ codes "-march="
    ∷ codes "-mtune="
    ∷ codes "-mcpu="
    ∷ codes "-pipe"
    ∷ codes "-g"
    ∷ []

-- `strip_suffix('*')`
unfoldable pub star_off : Str → Option Str
star_off [] = none
star_off (c ∷ []) = if c == b'*' then some [] else none
star_off (c ∷ d ∷ s) = elim (star_off (d ∷ s)) [ none ↦ none | some p ↦ some (c ∷ p) ]

-- One trailing star and nothing else.
unfoldable pub like : Str → Str → Bool
unfolding star_off starts_with
like pat s = elim (star_off pat) [ some p ↦ starts_with s p | none ↦ s == pat ]

unfoldable pub filters : Disk → Str → Result FlagError (List Setting)
unfolding rows_of path_join read_to_string
filters d dir =
    let at = path_join dir (codes "filter") in
    rows_of (contains verbs) (not_a_verb at) at at (read_to_string d at)

-- The flags of the C compiler, of the C++ compiler and of the linker.
pub record Flags : Type 0 where
  pub c : List Str
  pub cxx : List Str
  pub ld : List Str

unfoldable pub is_lto : Str → Bool
unfolding starts_with
is_lto f = starts_with f (codes "-flto") || starts_with f (codes "-Wl,--thinlto-jobs")

-- One verb with its arguments. A verb that is none of the list does not come here.
unfoldable pub filter_by : Setting → List Str → Flags → Result FlagError Flags
unfolding is_lto like starts_with
filter_by s args l =
    let drop_like : List Str → List Str = keep (λ f. not (any (λ p. like p f) args)) in
    let strip : List Str → List Str = keep (λ f. any (starts_with f) kept_flags) in
    if s.key == codes "filter-lto"
    then ok (record {
      c = keep (λ f. not (is_lto f)) l.c;
      cxx = keep (λ f. not (is_lto f)) l.cxx;
      ld = keep (λ f. not (is_lto f)) l.ld;
    })
    else if s.key == codes "filter-flags"
    then ok (record { c = drop_like l.c; cxx = drop_like l.cxx; ld = l.ld })
    else if s.key == codes "filter-ldflags"
    then ok (record { c = l.c; cxx = l.cxx; ld = drop_like l.ld })
    else if s.key == codes "strip-flags"
    then ok (record { c = strip l.c; cxx = strip l.cxx; ld = l.ld })
    else if s.key == codes "append-flags"
    then ok (record { c = l.c ++ args; cxx = l.cxx ++ args; ld = l.ld })
    else replaced args
  where
    -- `replace-flags`
    replaced : List Str → Result FlagError Flags
    replaced (was ∷ now ∷ []) =
        let swap : List Str → List Str = map (λ f. if like was f then now else f) in
        ok (record { c = swap l.c; cxx = swap l.cxx; ld = l.ld })
    replaced [] = err (two_flags s.from s.value)
    replaced (a ∷ []) = err (two_flags s.from s.value)
    replaced (a ∷ b ∷ e ∷ more) = err (two_flags s.from s.value)

-- `filtered`
unfoldable pub filtered : List Setting → Flags → Result FlagError Flags
unfolding filter_by split_whitespace
filtered [] l = ok l
filtered (s ∷ ss) l = filter_by s (split_whitespace s.value) l >>= filtered ss
