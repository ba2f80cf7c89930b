-- ===== src/Db/Record.antt =====
-- crates/kiry-core/src/db.rs: the record of an installed package as files below the root, and the
-- libraries that were kept back from an older version.
use kiry.Base.{
  ◌++◌, List, [], ◌∷◌, not, none, some, nat_eq, list_eq, is_empty, keep, if◌then◌else◌, Result, ok,
  err, map_err, ◌>>=◌,
}
use kiry.Base.Text.{Str, codes, slash, dot, newline, begins, rcut, join, trim}
use kiry.Error.{Error, IoError}
use kiry.Disk.{
  Disk, path_join, read_to_string, write as fs_write, rename, remove_file, create_dir_all, is_dir,
  remove_dir_all, read_dir, sort_names,
}
use kiry.Pkg
use kiry.Pkg.{Version, Dep}
use kiry.Db.Manifest.{Entry, parse_manifest, format_manifest}
use kiry.Db.Provides.{Provide, parse_provides, format_provides}

pub record Installed : Type 0 where
  pub name : Str
  pub target : Str
  pub version : Version
  pub depends : List Dep
  pub manifest : List Entry
  pub hash : Str
  pub users : List Str
  pub flags : List Str

abbrev pub at {ℓ} : {A : Type ℓ} → Str → Result IoError A → Result Error A
at p r = map_err (λ e. Error.io p e) r

-- `DB`
abbrev pub db_dir : Str
db_dir = codes "usr/lib/kiry/db"

-- `root.join(DB).join(part).join(target).join(name)`
below : Str → Str → Str → Str → Str
unfolding path_join
below root part target name =
    path_join (path_join (path_join (path_join root db_dir) part) target) name

unfoldable pub provides : Str → Str → Str → Str
unfolding below
provides root target name = below root (codes "provides") target name

unfoldable pub preserved : Str → Str → Str → Str
unfolding below
preserved root target name = below root (codes "preserved") target name

unfoldable pub dir : Str → Str → Str → Str
unfolding below
dir root target name = below root (codes "installed") target name

-- `Path::parent`, and the path itself where it has none.
unfoldable pub parent_or : Str → Str
unfolding rcut
parent_or p = elim (rcut slash p) [ none ↦ p | some (before, behind) ↦ before ]

-- `with_file_name` of the hidden name beside the file.
unfoldable pub hidden : Str → Str
unfolding rcut
hidden p = elim (rcut slash p) [
  | none ↦ dot ∷ p
  | some (before, behind) ↦ before ++ (slash ∷ dot ∷ behind)
]

-- `put`: beside and renamed over.
unfoldable pub put : Disk → Str → Str → Result Error Disk
unfolding hidden fs_write rename
put d p body = at p (do d' ← fs_write d (hidden p) body; rename d' (hidden p) p)

-- `rm`: a file that is not there is no error.
unfoldable pub rm : Disk → Str → Result Error Disk
unfolding remove_file
rm d p = elim (remove_file d p) [
  | ok d' ↦ ok d'
  | err IoError.not_found ↦ ok d
  | err (IoError.other n) ↦ err (Error.io p (IoError.other n))
]

-- A file that need not be there, with what reads its text.
unfoldable pub read_or_empty {ℓ} :
    {A : Type ℓ} → Disk → Str → A → (Str → Result Error A) → Result Error A
unfolding read_to_string
read_or_empty d p nothing parse = elim (read_to_string d p) [
  | ok text ↦ parse text
  | err IoError.not_found ↦ ok nothing
  | err (IoError.other n) ↦ err (Error.io p (IoError.other n))
]

unfoldable pub write_provides : Disk → Str → Str → Str → List Provide → Result Error Disk
unfolding provides put create_dir_all format_provides parent_or
write_provides d root target name ps = do
  text ← format_provides ps
  let p = provides root target name
  d' ← at (parent_or p) (create_dir_all d (parent_or p))
  put d' p text

unfoldable pub read_provides : Disk → Str → Str → Str → Result Error (List Provide)
unfolding provides read_or_empty parse_provides
read_provides d root target name = read_or_empty d (provides root target name) [] parse_provides

write_some_preserved : Disk → Str → List Entry → Result Error Disk
unfolding put create_dir_all format_manifest parent_or
write_some_preserved d p m = do
  text ← format_manifest m
  d' ← at (parent_or p) (create_dir_all d (parent_or p))
  put d' p text

unfoldable pub write_preserved : Disk → Str → Str → Str → List Entry → Result Error Disk
unfolding preserved rm write_some_preserved
write_preserved d root target name m =
    let p = preserved root target name in if is_empty m then rm d p else write_some_preserved d p m

unfoldable pub read_preserved : Disk → Str → Str → Str → Result Error (List Entry)
unfolding preserved read_or_empty parse_manifest
read_preserved d root target name = read_or_empty d (preserved root target name) [] parse_manifest

-- A dot name is a `put` that a kill cut short, never a package.
unfoldable pub names : Disk → Str → Result Error (List Str)
unfolding read_dir sort_names
names d p = elim (read_dir d p) [
  | ok ns ↦ ok (sort_names (keep (λ n. not (begins dot n)) ns))
  | err IoError.not_found ↦ ok []
  | err (IoError.other n) ↦ err (Error.io p (IoError.other n))
]

unfoldable pub preserving : Disk → Str → Str → Result Error (List Str)
unfolding names path_join
preserving d root target =
    names d (path_join (path_join (path_join root db_dir) (codes "preserved")) target)

unfoldable pub targets : Disk → Str → Result Error (List Str)
unfolding names path_join
targets d root = names d (path_join (path_join root db_dir) (codes "installed"))

unfoldable pub installed : Disk → Str → Str → Result Error (List Str)
unfolding names path_join
installed d root target =
    names d (path_join (path_join (path_join root db_dir) (codes "installed")) target)

unfoldable pub forget : Disk → Str → Str → Str → Result Error Disk
unfolding provides dir rm remove_dir_all
forget d root target name = do
  d' ← rm d (provides root target name)
  at (dir root target name) (remove_dir_all d' (dir root target name))

-- `read_to_string(..).unwrap_or_default()`
read_or_default : Disk → Str → Str
unfolding read_to_string
read_or_default d p = elim (read_to_string d p) [ ok text ↦ text | err e ↦ [] ]

read_record : Disk → Str → Str → Str → Result Error Installed
unfolding path_join Pkg.required Pkg.parse_version Pkg.lines Pkg.depends_from parse_manifest
    read_or_default trim
read_record d p target name = do
  version_text ← Pkg.required d (path_join p (codes "version"))
  version ← Pkg.parse_version version_text
  depends ← Pkg.lines d (path_join p (codes "depends"))
  manifest_text ← Pkg.required d (path_join p (codes "manifest"))
  manifest ← parse_manifest manifest_text
  users ← Pkg.lines d (path_join p (codes "users"))
  flags ← Pkg.lines d (path_join p (codes "flags"))
  ok (record {
    name = name;
    target = target;
    version = version;
    depends = Pkg.depends_from depends;
    manifest = manifest;
    hash = trim (read_or_default d (path_join p (codes "hash")));
    users = users;
    flags = flags;
  })

unfoldable pub read : Disk → Str → Str → Str → Result Error Installed
unfolding dir is_dir read_record
read d root target name =
    let p = dir root target name in
    let found = read_record d p target name in
    if is_dir d p then found else err (Error.no_package p)

depends_text : List Dep → Str
unfolding Pkg.show_dep
depends_text [] = []
depends_text (e ∷ es) = Pkg.show_dep e ++ (newline ∷ depends_text es)

-- One of the three files that a record may lack.
put_or_rm : Disk → Str → Str → Result Error Disk
unfolding put rm
put_or_rm d p v = if is_empty v then rm d p else put d p (v ++ newline ∷ [])

unfoldable pub write : Disk → Str → Installed → Result Error Disk
unfolding dir put_or_rm depends_text put create_dir_all format_manifest path_join Pkg.show_version
    join
write d root rec = do
  manifest ← format_manifest rec.manifest
  let p = dir root rec.target rec.name
  d1 ← at p (create_dir_all d p)
  d2 ← put d1 (path_join p (codes "version")) (Pkg.show_version rec.version ++ newline ∷ [])
  d3 ← put d2 (path_join p (codes "depends")) (depends_text rec.depends)
  d4 ← put_or_rm d3 (path_join p (codes "hash")) rec.hash
  d5 ← put_or_rm d4 (path_join p (codes "users")) (join (newline ∷ []) rec.users)
  d6 ← put_or_rm d5 (path_join p (codes "flags")) (join (newline ∷ []) rec.flags)
  put d6 (path_join p (codes "manifest")) manifest
