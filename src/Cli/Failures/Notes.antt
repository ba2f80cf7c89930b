-- ===== src/Cli/Failures/Notes.antt =====
-- crates/kiry/src/main.rs, `write_fix`: where the fix for a failed build is written. What `flags` says of a
-- setting, and the day, are parameters.
use kiry.Base.{
  ℕ, ◌/◌, max, List, [], ◌∷◌, ◌++◌, Bool, true, false, not, ◌&&◌, ◌||◌, Option, none, some, ◌==◌,
  nat_eq, list_eq, leb, is_empty, any, all, if◌then◌else◌, Result, ok, err, ◌>>=◌,
}
use kiry.Base.Text.{
  Str, codes, space, slash, newline, hash_sign, split_whitespace, lines, trim, join, ends_with,
  strip_prefix, cut_from, rcut,
}
use kiry.Base.Text.Radix.{digits}
use kiry.Error.{IoError}
use kiry.Disk.{Disk, path_join, read_to_string, write, create_dir_all}
use kiry.Cli.Version.{u64_from}
use kiry.Cli.Failures.{Fix, FixError, set_wants, not_a_divisor, not_an_action, unread, phase}

-- `parse::<usize>`
unfoldable pub usize_of : Str → Option ℕ
unfolding u64_from
usize_of s =
    let d : Str = elim (strip_prefix s (b'+' ∷ [])) [ some t ↦ t | none ↦ s ] in
    if is_empty d || not (all (λ c. leb b'0' c && leb c b'9') d) then none else u64_from d 0

-- What a setting is divided by at most, and what it is at least.
unfoldable pub divided : Option ℕ → ℕ → Str
unfolding digits
divided was by = digits 10 (max ((elim was [ some n ↦ n | none ↦ 8 ]) / (max by 1)) 1)

-- The value of a `set`: a number after a slash divides what the setting is.
unfoldable pub set_value : (Str → Result FixError (Option ℕ)) → Str → Str → Result FixError Str
unfolding strip_prefix usize_of divided
set_value now k v = elim (strip_prefix v (slash ∷ [])) [
  | none ↦ ok v
  | some d ↦ elim (usize_of d) [
    | none ↦ err (not_a_divisor v)
    | some by ↦ do was ← now k; ok (divided was by)
  ]
]

unfoldable pub setting :
    (Str → Result FixError (Option ℕ)) → Str → Str → List Str → Result FixError (Option (Str × Str))
unfolding set_value
setting now act at [] = err (set_wants act)
setting now act at (k ∷ []) = err (set_wants act)
setting now act at (k ∷ v ∷ []) = do x ← set_value now k v; ok (some (at, k ++ space ∷ x))
setting now act at (k ∷ v ∷ w ∷ ws) = err (set_wants act)

unfoldable pub by_verb :
    (Str → Result FixError (Option ℕ))
    → Str
    → Str
    → Str
    → Str
    → List Str
    → Result FixError (Option (Str × Str))
unfolding setting join
by_verb now act filter pkg verb rest =
    if verb == codes "drop"
    then ok (some (filter, codes "filter-flags " ++ join (space ∷ []) rest))
    else if verb == codes "append"
    then ok (some (filter, codes "append-flags " ++ join (space ∷ []) rest))
    else if verb == codes "filter-lto"
    then ok (some (filter, codes "filter-lto"))
    else if verb == codes "set"
    then setting now act pkg rest
    else if verb == codes "notaflag"
    then ok none
    else err (not_an_action verb)

-- Where an action is written, and the line that is.
unfoldable pub placed :
    (Str → Result FixError (Option ℕ))
    → Str
    → Str
    → Str
    → Str
    → Result FixError (Option (Str × Str))
unfolding by_verb path_join split_whitespace
placed now root dir name act = elim (split_whitespace act) [
  | [] ↦
      by_verb now act (path_join dir (codes "filter"))
        (path_join (path_join root (codes "etc/kiry/pkg")) name) [] []
  | verb ∷ rest ↦
      by_verb now act (path_join dir (codes "filter"))
        (path_join (path_join root (codes "etc/kiry/pkg")) name) verb rest
]

-- A line without its comment.
unfoldable pub uncommented : Str → Str
unfolding cut_from trim
uncommented l = trim (elim (cut_from hash_sign l []) [ none ↦ l | some (before, behind) ↦ before ])

unfoldable pub has_line : Str → Str → Bool
unfolding uncommented lines
has_line had line = any (λ l. uncommented l == line) (lines had)

-- Where a fix comes from, in two lines of comment.
unfoldable pub origin : Str → Str → Fix → Str
unfolding join
origin day seen f = join [] (
    codes "# "
    ∷ day
    ∷ codes " "
    ∷ seen
    ∷ codes " failed, "
    ∷ f.rule
    ∷ (newline ∷ [])
    ∷ codes "#   "
    ∷ f.line
    ∷ [])

-- The text that is written: what was there, where the fix comes from, and the fix.
unfoldable pub body : Str → Str → Str → Fix → Str → Str
unfolding ends_with origin
body had day seen f line =
    let gap : Str = if is_empty had || ends_with had (newline ∷ []) then [] else newline ∷ [] in
    (had ++ gap) ++ (origin day seen f ++ newline ∷ (line ++ newline ∷ []))

unfoldable pub read_or_default : Disk → Str → Str
unfolding read_to_string
read_or_default d at = elim (read_to_string d at) [ ok t ↦ t | err e ↦ [] ]

unfoldable pub parent_made : Disk → Str → Result FixError Disk
unfolding create_dir_all rcut
parent_made d at = elim (rcut slash at) [
  | none ↦ ok d
  | some (up, name) ↦ elim (create_dir_all d up) [ ok e ↦ ok e | err why ↦ err (unread up why) ]
]

unfoldable pub written : Str → Str → Result IoError Disk → Result FixError (Option Str × Disk)
written at line (ok after) = ok (some line, after)
written at line (err why) = err (unread at why)

unfoldable pub noted_new : Disk → Str → Str → Fix → Str → Str → Result FixError (Option Str × Disk)
unfolding parent_made write body read_or_default phase written
noted_new d day log f at line = do
  e ← parent_made d at
  written at line (write e at (body (read_or_default d at) day (phase log) f line))

-- A fix that is there already is not written again.
unfoldable pub noted : Disk → Str → Str → Fix → Str → Str → Result FixError (Option Str × Disk)
unfolding has_line read_or_default noted_new
noted d day log f at line = elim (has_line (read_or_default d at) line) [
  | true ↦ ok (none, d)
  | false ↦ noted_new d day log f at line
]

-- `write_fix`, with `now` for what `flags` says of a setting.
unfoldable pub write_fix :
    (Str → Result FixError (Option ℕ))
    → Disk
    → Str
    → Str
    → Str
    → Str
    → Fix
    → Str
    → Result FixError (Option Str × Disk)
unfolding placed noted
write_fix now d day root dir name f log = do
  p ← placed now root dir name f.act
  elim p [ none ↦ ok (none, d) | some (at, line) ↦ noted d day log f at line ]
