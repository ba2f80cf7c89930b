-- ===== src/Install/Check/Promise.antt =====
-- What a batch must be for `apply` of crates/kiry-core/src/install.rs, said without its checks.
use kiry.Base.{
  ◌≡◌, ◌≢◌, ◌⊎◌, ◌++◌, List, [], ◌∷◌, map, false, nat_eq, list_eq, All, Among, contains, ok,
}
use kiry.Base.Text.{Str}
use kiry.Disk.{Disk}
use kiry.Pkg.{Dep}
use kiry.Db.Manifest.{Kind, Entry}
use kiry.Db.Record
use kiry.Db.Record.{Installed}
use kiry.Archive.Walk
use kiry.Archive.Walk.{Member, What, View}
use kiry.Install.Check.{Job}

-- What a batch puts down, directories apart.
abbrev pub leaf : Member → List Str
leaf m = elim m.what [
  | Walk.file ↦ m.path ∷ []
  | Walk.dir ↦ []
  | Walk.link t ↦ m.path ∷ []
  | Walk.hard t ↦ m.path ∷ []
]

abbrev pub leaves : List Member → List Str
leaves [] = []
leaves (m ∷ ms) = leaf m ++ leaves ms

abbrev pub puts : List Job → List Str
puts [] = []
puts (j ∷ jobs) = leaves j.members ++ puts jobs

abbrev pub Distinct : List Str → Type 0
Distinct [] = Unit
Distinct (p ∷ ps) = (contains ps p ≡ false) × Distinct ps

-- No job has this name and this target: the package stays as it is.
abbrev pub Stays : List Job → Str → Str → Type 0
Stays jobs target name = (j : Job) → Among j jobs → j.target ≡ target → j.name ≢ name

-- The package has a record, and what it lists besides directories meets the condition.
abbrev pub Lists : Disk → Str → (Str → Type 0) → Str → Str → Type 0
Lists d root P target name =
    (rec : Installed) × (Record.read d root target name ≡ ok rec)
    × All (λ (e : Entry). e.kind ≢ Kind.dir → P e.path) rec.manifest

-- The packages of a target that stay.
abbrev pub Stayers : Disk → Str → List Job → (Str → Type 0) → Str → Type 0
Stayers d root jobs P target =
    (names : List Str) × (Record.installed d root target ≡ ok names)
    × All (λ name. Stays jobs target name → Lists d root P target name) names

-- A dependency at run time is installed for the job's target, or has the name of a job of the batch.
abbrev pub IsMet : List Job → List Str → Dep → Type 0
IsMet jobs have dep =
    dep.make ≡ false → Among dep.name have ⊎ ((o : Job) × Among o jobs × (o.name ≡ dep.name))

-- A batch that can be applied.
pub record IsSound (d : Disk) (root : Str) (archives : List Str) (jobs : List Job) : Type 0 where
  pub whole : map (λ (j : Job). j.archive) jobs ≡ archives
  pub targets : List Str
  pub targets_read : Record.targets d root ≡ ok targets
  pub apart : All (Stayers d root jobs (λ p. contains (puts jobs) p ≡ false)) targets
  pub once : Distinct (puts jobs)
  pub met :
      All
        (λ (j : Job).
          (have : List Str) × (Record.installed d root j.target ≡ ok have)
          × All (IsMet jobs have) j.depends)
        jobs
