-- ===== src/Install/Apply.antt =====
-- crates/kiry-core/src/install.rs, parts of `apply`: which old library a new one is compared with, and
-- how a package loses the paths that a forced batch takes from it.
use kiry.Base.{
  ◌++◌, List, [], ◌∷◌, map, Bool, false, not, ◌||◌, ◌&&◌, Option, none, some, ◌==◌, nat_eq, list_eq,
  keep, contains, length, lookup, if◌then◌else◌, Result, ok, err, ◌>>=◌,
}
use kiry.Base.Text.{Str, slash, has, rcut}
use kiry.Error.{Error}
use kiry.Disk.{Disk}
use kiry.Db.Manifest.{Entry}
use kiry.Db.Provides.{Provide}
use kiry.Db.Record
use kiry.Db.Record.{Installed}
use kiry.Archive.Walk.{Member, what_is_dir}
use kiry.Elf.Parse.{Elf}
use kiry.Install.Check.{Job, is_dir_kind}

-- `beside`
unfoldable pub beside : Str → Str → Option Str
unfolding has rcut
beside path target = if has slash target then none else elim (rcut slash path) [
  | none ↦ some target
  | some (before, behind) ↦ some (before ++ (slash ∷ target))
]

has_soname : Str → Elf → Bool
has_soname soname o = elim o.soname [ none ↦ false | some s ↦ s == soname ]

only_one : List Elf → Option Elf
only_one [] = none
only_one (o ∷ []) = some o
only_one (o ∷ p ∷ os) = none

abbrev values : List (Str × Elf) → List Elf
values = map (λ (p : Str × Elf). p.1)

-- `baseline`: the old file of the path, else the only one of the soname.
unfoldable pub baseline : List (Str × Elf) → Str → Str → Option Elf
unfolding only_one has_soname lookup
baseline before path soname = elim (lookup path before) [
  | some o ↦ some o
  | none ↦ only_one (keep (has_soname soname) (values before))
]

-- The paths that a job puts things at, directories apart.
unfoldable pub taken : List Member → List Str
taken [] = []
taken (m ∷ ms) = let rest = taken ms in if what_is_dir m.what then rest else m.path ∷ rest

-- `retain`: what the package still owns.
unfoldable pub retained : List Str → List Entry → List Entry
retained taken_paths es = keep (λ e. is_dir_kind e.kind || not (contains taken_paths e.path)) es

-- A record that lost paths is written, with the sonames of the files that it kept.
unfoldable pub rewrite : Str → Disk → Str → Str → Installed → Result Error Disk
rewrite root d t name rec = do
  d' ← Record.write d root rec
  ps ← Record.read_provides d' root t name
  Record.write_provides d' root t name
      (keep (λ (p : Provide). contains (map (λ (e : Entry). e.path) rec.manifest) p.path) ps)

unfoldable pub dispossess_record : Str → List Str → Disk → Str → Str → Result Error Disk
unfolding retained rewrite
dispossess_record root taken_paths d t name = do
  rec ← Record.read d root t name
  let kept = retained taken_paths rec.manifest
  if length kept == length rec.manifest
      then ok d
      else rewrite root d t name (record rec { manifest = kept })

or_empty : Result Error (List Str) → List Str
or_empty (ok ns) = ns
or_empty (err e) = []

-- Each package of each target; a target whose packages cannot be listed has none.
unfoldable pub all_records : Disk → Str → List Str → List (Str × Str)
unfolding or_empty
all_records d root [] = []
all_records d root (t ∷ ts) =
    map (λ n. (t, n)) (or_empty (Record.installed d root t)) ++ all_records d root ts

unfoldable pub dispossess_records : Str → Job → Disk → List (Str × Str) → Result Error Disk
unfolding dispossess_record taken
dispossess_records root j d [] = ok d
dispossess_records root j d ((t, name) ∷ recs) = do
  d' ←
      if name == j.name && t == j.target
      then ok d
      else dispossess_record root (taken j.members) d t name
  dispossess_records root j d' recs

unfoldable pub dispossess : Str → Disk → List Job → Result Error Disk
unfolding dispossess_records all_records
dispossess root d [] = ok d
dispossess root d (j ∷ jobs) = do
  ts ← Record.targets d root
  d' ← dispossess_records root j d (all_records d root ts)
  dispossess root d' jobs
