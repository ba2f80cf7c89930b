-- ===== src/Install/Remove.antt =====
-- crates/kiry-core/src/install.rs, `unlink` and `remove`: what a removal deletes.
pub mod Laws
pub mod Needed
use kiry.Base.{
  ℕ, ◌+◌, ◌++◌, List, [], ◌∷◌, reverse, map, Bool, true, false, not, ◌&&◌, ◌||◌, Option, none, some,
  ◌==◌, nat_eq, list_eq, any, contains, lookup, if◌then◌else◌, Result, ok, err, ◌>>=◌, ◌>>◌,
  traverse, map_err,
}
use kiry.Base.Text.{Str, codes}
use kiry.Error
use kiry.Error.{Error}
use kiry.Disk.{Disk}
use kiry.Pkg.{Dep}
use kiry.Db.Manifest.{Kind, file, dir, link, hard, Entry}
use kiry.Db.Record
use kiry.Db.Record.{Installed}
use kiry.Install.Os.{Os, Errno, noent, errno, hash, parent_of, leaf_of}

-- `PROTECTED`
abbrev pub protected : List Str
protected =
    []
    ∷ codes "usr"
    ∷ codes "etc"
    ∷ codes "var"
    ∷ codes "bin"
    ∷ codes "sbin"
    ∷ codes "lib"
    ∷ codes "lib64"
    ∷ codes "usr/bin"
    ∷ codes "usr/sbin"
    ∷ codes "usr/lib"
    ∷ codes "usr/lib64"
    ∷ codes "usr/local"
    ∷ codes "usr/share"
    ∷ []

pub record Removed : Type 0 where
  pub gone : ℕ
  pub missing : ℕ
  pub kept : ℕ

abbrev pub nothing : Removed
nothing = record { gone = 0; missing = 0; kept = 0 }

-- The digests of the record by path; of two entries for a path the later one counts.
unfoldable pub sums_from : List Entry → List (Str × Str) → List (Str × Str)
sums_from [] sums = sums
sums_from (e ∷ es) sums =
    sums_from es
      (elim e.kind [ file h ↦ (e.path, h) ∷ sums | dir ↦ sums | link t ↦ sums | hard t ↦ sums ])

-- What a file should hash to; a hard link's third field is the path that it links to.
unfoldable pub want : Kind → List (Str × Str) → Option Str
unfolding lookup
want (file h) sums = some h
want (hard to) sums = lookup to sums
want dir sums = none
want (link t) sums = none

-- The dependency by which an installed package still needs one of the names.
unfoldable pub needed_by : List Str → List Dep → Option Dep
needed_by names [] = none
needed_by names (d ∷ ds) =
    let rest = needed_by names ds in if not d.make && contains names d.name then some d else rest

-- The check of `remove` over the other packages.
unfoldable pub check_needed : Disk → Str → Str → List Str → List Str → Result Error (Unit {0})
unfolding needed_by
check_needed d root target names [] = ok tt
check_needed d root target names (o ∷ others) =
    let rest = check_needed d root target names others in
    let look : Result Error (Unit {0}) = (do
      rec ← Record.read d root target o
      elim (needed_by names rec.depends) [
        | some dep ↦ err (Error.needed dep.name o)
        | none ↦ rest
      ]) in
    if contains names o then rest else look

-- The records of the names, read before anything is unlinked.
unfoldable pub read_all : Disk → Str → Str → List Str → Result Error (List (Str × Installed))
read_all d root target names =
    traverse (λ name. (do rec ← Record.read d root target name; ok (name, rec))) names

unfoldable pub check_unless : Bool → Disk → Str → Str → List Str → Result Error (Unit {0})
unfolding check_needed
check_unless true d root target names = ok tt
check_unless false d root target names = do
  others ← Record.installed d root target
  check_needed d root target names others

module _ (os : Os) where
  open os use {State, Fd, beneath, readlinkat, unlinkat}

  abbrev pub Step : Type 0
  Step = State × Removed

  abbrev pub count_gone : Removed → Removed
  count_gone r = record r { gone = r.gone + 1 }

  abbrev pub count_missing : Removed → Removed
  count_missing r = record r { missing = r.missing + 1 }

  abbrev pub count_kept : Removed → Removed
  count_kept r = record r { kept = r.kept + 1 }

  -- What is there, set against what should be: deleted if they agree.
  unfoldable pub by_content : State → Fd → Str → Removed → Result Errno Str → Option Str → Step
  by_content s fd leaf r (ok got) (some wanted) =
      if got == wanted then (unlinkat s fd leaf false, count_gone r) else (s, count_kept r)
  by_content s fd leaf r (ok got) none = (s, count_kept r)
  by_content s fd leaf r (err noent) w = (s, count_missing r)
  by_content s fd leaf r (err (errno n)) w = (s, count_kept r)

  -- The `match` on the kind, in the opened parent.
  unfoldable pub unlink_at : List (Str × Str) → State → Fd → Removed → Kind → Str → Step
  unfolding by_content want hash
  unlink_at sums s fd r dir path =
      (if contains protected path then s else unlinkat s fd (leaf_of path) true, r)
  unlink_at sums s fd r (link t) path =
      by_content s fd (leaf_of path) r (readlinkat s fd (leaf_of path)) (some t)
  unlink_at sums s fd r (file h) path =
      by_content s fd (leaf_of path) r (hash os s fd (leaf_of path)) (want (file h) sums)
  unlink_at sums s fd r (hard to) path =
      by_content s fd (leaf_of path) r (hash os s fd (leaf_of path)) (want (hard to) sums)

  -- One round of the loop.
  unfoldable pub unlink_entry : List (Str × Str) → State → Removed → Entry → Step
  unfolding unlink_at
  unlink_entry sums s r e = elim (beneath s (parent_of e.path)) [
    | none ↦ (s, count_missing r)
    | some fd ↦ unlink_at sums s fd r e.kind e.path
  ]

  unfoldable pub unlink_all : List (Str × Str) → State → Removed → List Entry → Step
  unfolding unlink_entry
  unlink_all sums s r [] = (s, r)
  unlink_all sums s r (e ∷ es) = let (s', r') = unlink_entry sums s r e in unlink_all sums s' r' es

  -- `unlink`: in reverse, so that a directory comes after what is in it.
  unfoldable pub unlink : State → List Entry → List Entry → Step
  unfolding unlink_all sums_from
  unlink s manifest all_entries = unlink_all (sums_from all_entries []) s nothing (reverse manifest)

  unfoldable pub remove_each :
      Str
      → Str
      → List (Str × Installed)
      → Disk
      → State
      → Result Error (List (Str × Removed) × Disk × State)
  unfolding unlink
  remove_each root target [] d s = ok ([], d, s)
  remove_each root target ((name, rec) ∷ recs) d s = do
    let (s', r) = unlink s rec.manifest rec.manifest
    d' ← Record.forget d root target name
    (done, d'', s'') ← remove_each root target recs d' s'
    ok ((name, r) ∷ done, d'', s'')

  unfoldable pub remove :
      Str
      → Str
      → List Str
      → Bool
      → Disk
      → State
      → Result Error (List (Str × Removed) × Disk × State)
  unfolding read_all check_unless remove_each
  remove root target names force d s = do
    recs ← read_all d root target names
    check_unless force d root target names
    map_err (λ e. Error.io root e) (os.open_root s)
    remove_each root target recs d s
