-- ===== src/Cli/Boot/Efi.antt =====
-- crates/kiry/src/main.rs, `entry`, `booted`, `keeps`, `order` and `reorder`: what the firmware boots first.
-- What /proc/cmdline and efibootmgr print are arguments.
use kiry.Base.{
  ℕ, zero, suc, ◌+◌, ◌-◌, List, [], ◌∷◌, ◌++◌, map, reverse, Bool, true, false, not, Option, none,
  some, ◌==◌, nat_eq, list_eq, ltb, leb, is_empty, keep, all, if◌then◌else◌, Result, ok, err, ◌>>=◌,
}
use kiry.Base.Text.{
  Str, codes, slash, comma, split, split_whitespace, lines, trim, trim_start, strip_prefix,
  cut_from,
}
use kiry.Db.Manifest.{is_hexdigit}
use kiry.Cli.Boot.{
  BootError, split_character, no_entry, no_subvol, another_root, find_map, subvol_of,
}

unfoldable pub label : Str → Str
label sub = codes "kiry " ++ sub

-- The bytes of a character in UTF-8.
unfoldable pub width : ℕ → ℕ
width c = if ltb c 0x80 then 1 else if ltb c 0x800 then 2 else if ltb c 0x10000 then 3 else 4

unfoldable pub byte_len : Str → ℕ
unfolding width
byte_len [] = 0
byte_len (c ∷ s) = width c + byte_len s

-- `str::split_at`; `none` within a character, where the process dies.
unfoldable pub split_at : ℕ → Str → Option (Str × Str)
unfolding width
split_at zero s = some ([], s)
split_at (suc n) [] = none
split_at (suc n) (c ∷ s) =
    let rest = split_at (suc n - width c) s in
    if leb (width c) (suc n)
    then (elim rest [ none ↦ none | some (a, b) ↦ some (c ∷ a, b) ])
    else none

star_off : Str → Str
star_off [] = []
star_off (c ∷ s) = if c == b'*' then s else c ∷ s

before_tab : Str → Str
before_tab s = elim (cut_from 9 s []) [ none ↦ s | some (a, b) ↦ a ]

-- `entry`: the number and the label of an entry line.
unfoldable pub entry : Str → Result BootError (Option (Str × Str))
unfolding strip_prefix byte_len split_at star_off before_tab trim
entry l = elim (strip_prefix l (codes "Boot")) [
  | none ↦ ok none
  | some rest ↦ elim (ltb (byte_len rest) 5) [
    | true ↦ ok none
    | false ↦ elim (split_at 4 rest) [
      | none ↦ err split_character
      | some (num, tail) ↦
          ok (if all is_hexdigit num then some (num, trim (before_tab (star_off tail))) else none)
    ]
  ]
]

named : Str → Option (Str × Str) → Option Str
named want none = none
named want (some (num, name)) = if name == want then some num else none

unfoldable pub entry_among : Str → List Str → Result BootError (Option Str)
unfolding entry named
entry_among want [] = ok none
entry_among want (l ∷ ls) =
    let rest = entry_among want ls in
    entry l >>= (λ e. elim (named want e) [ some num ↦ ok (some num) | none ↦ rest ])

unfoldable pub entry_for : Str → Str → Result BootError (Option Str)
unfolding entry_among label lines
entry_for text sub = entry_among (label sub) (lines text)

unfoldable pub booted : Str → Option Str
unfolding find_map strip_prefix split_whitespace subvol_of trim_start
booted cmdline =
    elim (find_map (λ w. strip_prefix w (codes "rootflags="))
      (reverse (split_whitespace cmdline))) [
        | none ↦ none
        | some flags ↦ elim (subvol_of flags) [
          | none ↦ none
          | some sub ↦ some (trim_start (λ c. c == slash) sub)
        ]
      ]

unfoldable pub order : Str → List Str
unfolding find_map strip_prefix lines split trim
order text =
    keep (λ s. not (is_empty s))
      (map trim (
        split
          (elim (find_map (λ l. strip_prefix l (codes "BootOrder:")) (lines text)) [
            | some o ↦ o
            | none ↦ []
          ])
          comma))

unfoldable pub is_first : Str → List Str → Bool
is_first num [] = false
is_first num (n ∷ ns) = n == num

unfoldable pub commit_of : Str → Option Str → List Str → Option Str → Result BootError (Option Str)
unfolding is_first
commit_of now cmd was none = err (no_entry now)
commit_of now none was (some num) = err no_subvol
commit_of now (some b) was (some num) =
    if not (b == now)
    then err (another_root b)
    else ok (if is_first num was then none else some num)

-- `keeps`
unfoldable pub keeps : Str → Str → Str → Result BootError (Option Str)
unfolding entry_for commit_of booted order
keeps now cmdline seen =
    entry_for seen now >>= (λ num. commit_of now (booted cmdline) (order seen) num)

unfoldable pub reorder : Str → List Str → List Str
reorder num was = num ∷ keep (λ n. not (n == num)) was
