-- ===== src/Install/Check.antt =====
-- crates/kiry-core/src/install.rs, `plan`, `paths`, `deps` and `meta`: a batch is read and checked
-- before any of it is applied.
pub mod Laws
pub mod Findings
pub mod Promise
pub mod Owners
pub mod Sound
use kiry.Base.{
  ℕ, ◌++◌, List, [], ◌∷◌, map, Bool, true, false, not, ◌&&◌, ◌||◌, Option, none, some, ◌==◌, nat_eq,
  list_eq, is_empty, any, contains, lookup, if◌then◌else◌, Result, ok, err, map_err, ◌>>=◌, ◌>>◌,
  traverse,
}
use kiry.Base.Text.{Str, codes, trim}
use kiry.Error
use kiry.Error.{Error, IoError}
use kiry.Disk.{Disk, path_join, read_to_string}
use kiry.Pkg
use kiry.Pkg.{Version, Dep}
use kiry.Db.Manifest.{Kind, Entry}
use kiry.Db.Manifest
use kiry.Db.Record
use kiry.Db.Record.{Installed}
use kiry.Archive.Walk.{Member, What, what_is_dir, View, Header}
use kiry.Archive.Walk

pub record Job : Type 0 where
  pub name : Str
  pub target : Str
  pub version : Version
  pub depends : List Dep
  pub archive : Str
  pub members : List Member
  pub hash : Str
  pub users : List Str
  pub flags : List Str

-- The sidecar of an archive.
pub record Meta : Type 0 where
  pub name : Str
  pub target : Str
  pub version : Version
  pub depends : List Dep
  pub hash : Str
  pub users : List Str
  pub flags : List Str

-- `targets` must hold exactly one.
one_target : Str → List Str → Result Error Str
one_target p [] = err (Error.empty p)
one_target p (t ∷ []) = ok t
one_target p (t ∷ u ∷ ts) = err (Error.targets p)

or_default : Result IoError Str → Str
or_default (ok text) = text
or_default (err e) = []

unfoldable pub meta : Disk → Str → Result Error Meta
unfolding one_target or_default
meta d a = do
  let p = a ++ codes ".meta"
  name ← Pkg.required d (path_join p (codes "name"))
  version_text ← Pkg.required d (path_join p (codes "version"))
  version ← Pkg.parse_version version_text
  depends ← Pkg.lines d (path_join p (codes "depends"))
  targets ← Pkg.lines d (path_join p (codes "targets"))
  target ← one_target (path_join p (codes "targets")) targets
  users ← Pkg.lines d (path_join p (codes "users"))
  flags ← Pkg.lines d (path_join p (codes "flags"))
  ok (record {
    name = trim name;
    target = target;
    version = version;
    depends = Pkg.depends_from depends;
    hash = trim (or_default (read_to_string d (path_join p (codes "hash"))));
    users = users;
    flags = flags;
  })

abbrev pub Owners : Type 0
Owners = List (Str × Str)

abbrev pub is_dir_kind : Kind → Bool
is_dir_kind (Kind.file h) = false
is_dir_kind Kind.dir = true
is_dir_kind (Kind.link t) = false
is_dir_kind (Kind.hard t) = false

-- `owner.insert` for what a record lists, directories apart; the newest entry of a path counts.
unfoldable pub owned_by : Str → List Entry → Owners → Owners
owned_by name [] owner = owner
owned_by name (e ∷ es) owner =
    owned_by name es (if is_dir_kind e.kind then owner else (e.path, name) ∷ owner)

-- `(name, target)` of a job.
unfoldable pub replaces : List Job → Str → Str → Bool
replaces [] name target = false
replaces (j ∷ jobs) name target =
    (j.name == name && j.target == target) || replaces jobs name target

-- The two loops over the records, those that the batch replaces apart.
unfoldable pub owners_in : Disk → Str → List Job → Str → List Str → Owners → Result Error Owners
unfolding replaces owned_by
owners_in d root jobs target [] owner = ok owner
owners_in d root jobs target (name ∷ names) owner =
    let skip = owners_in d root jobs target names owner in
    let take_over : Result Error Owners = (do
      rec ← Record.read d root target name
      owners_in d root jobs target names (owned_by name rec.manifest owner)) in
    if replaces jobs name target then skip else take_over

unfoldable pub owners_of : Disk → Str → List Job → List Str → Owners → Result Error Owners
unfolding owners_in
owners_of d root jobs [] owner = ok owner
owners_of d root jobs (t ∷ ts) owner = do
  names ← Record.installed d root t
  owner' ← owners_in d root jobs t names owner
  owners_of d root jobs ts owner'

-- What each job would put down, directories apart, with the job's name.
unfoldable pub claims_of : Str → List Member → List (Str × Str)
claims_of name [] = []
claims_of name (m ∷ ms) =
    let rest = claims_of name ms in if what_is_dir m.what then rest else (m.path, name) ∷ rest

unfoldable pub claims : List Job → List (Str × Str)
unfolding claims_of
claims [] = []
claims (j ∷ jobs) = claims_of j.name j.members ++ claims jobs

-- The loop over the members: a path that has an owner is a finding, one that has none gets one.
unfoldable pub collisions : Owners → List (Str × Str) → List (Str × Str)
unfolding lookup
collisions owner [] = []
collisions owner ((path, name) ∷ cs) = elim (lookup path owner) [
  | some who ↦ (path, who) ∷ collisions owner cs
  | none ↦ collisions ((path, name) ∷ owner) cs
]

unfoldable pub paths : Disk → Str → List Job → Result Error (List (Str × Str))
unfolding owners_of claims collisions
paths d root jobs = do
  ts ← Record.targets d root
  owner ← owners_of d root jobs ts []
  ok (collisions owner (claims jobs))

abbrev pub in_batch : List Job → Str → Bool
in_batch jobs name = any (λ (o : Job). o.name == name) jobs

-- The dependencies of one job that neither the root nor the batch has.
unfoldable pub missing_of : List Job → List Str → Str → List Dep → List (Str × Str)
missing_of jobs have name [] = []
missing_of jobs have name (d ∷ ds) =
    let rest = missing_of jobs have name ds in
    if d.make
    then rest
    else if contains have d.name || in_batch jobs d.name
    then rest
    else (name, d.name) ∷ rest

unfoldable pub deps_from : Disk → Str → List Job → List Job → Result Error (List (Str × Str))
unfolding missing_of
deps_from d root batch [] = ok []
deps_from d root batch (j ∷ jobs) = do
  have ← Record.installed d root j.target
  rest ← deps_from d root batch jobs
  ok (missing_of batch have j.name j.depends ++ rest)

unfoldable pub deps : Disk → Str → List Job → Result Error (List (Str × Str))
unfolding deps_from
deps d root jobs = deps_from d root jobs jobs

-- The members of an archive, which the crates ruzstd and tar unpack.
abbrev pub Unpack : Type 0
Unpack = Str → Result Error (List (Result IoError Header) × ℕ)

unfoldable pub job_of : Disk → Unpack → View → Str → Result Error Job
unfolding meta
job_of d unpack view a = do
  m ← meta d a
  members ← Walk.plan view (unpack a) a
  ok (record {
    name = m.name;
    target = m.target;
    version = m.version;
    depends = m.depends;
    archive = a;
    members = members;
    hash = m.hash;
    users = m.users;
    flags = m.flags;
  })

-- Both checks before refusing.
unfoldable pub refuse_or : List Job → List (Str × Str) → List (Str × Str) → Result Error (List Job)
refuse_or jobs owned missing =
    if not (is_empty owned) || not (is_empty missing)
    then err (Error.refused owned missing)
    else ok jobs

unfoldable pub plan : Disk → Str → Unpack → View → List Str → Bool → Result Error (List Job)
unfolding job_of paths deps refuse_or
plan d root unpack view archives force = do
  jobs ← traverse (job_of d unpack view) archives
  if force
      then ok jobs
      else (do owned ← paths d root jobs; missing ← deps d root jobs; refuse_or jobs owned missing)
