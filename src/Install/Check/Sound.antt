-- ===== src/Install/Check/Sound.antt =====
-- What a batch is that `plan` of crates/kiry-core/src/install.rs lets through.
use kiry.Base.{
  ◌≡◌, refl, sym, ◌∙◌, ap, subst, inl, inr, ◌++◌, List, [], ◌∷◌, map, true, false, ◌==◌, nat_eq,
  list_eq, All, All-imp, Among, Bool-cases, arith, contains, lookup, list_beq_iff, ok, >>=-eq-ok,
  ok-injective, traverse,
}
use kiry.Base.Text.{Str}
use kiry.Disk.{Disk}
use kiry.Pkg.{Dep}
use kiry.Db.Record
use kiry.Db.Record.{Installed}
use kiry.Archive.Walk
use kiry.Archive.Walk.{Member, What, View}
use kiry.Install.Check.{
  Job, Owners, owners_of, claims_of, claims, paths, missing_of, deps_from, deps, in_batch, Unpack,
  meta, job_of, plan, refuse_or,
}
use kiry.Install.Check.Laws.{paths_in, Free, collisions_iff}
use kiry.Install.Check.Promise.{Lists, Stayers, leaf, leaves, puts, Distinct, IsMet, IsSound}
use kiry.Install.Check.Owners.{Owned, owners_of-Stayers}

-- The claims are what is put down.
claims_of-leaves : (name : Str) (ms : List Member) → paths_in (claims_of name ms) ≡ leaves ms
unfolding claims_of
claims_of-leaves name [] = refl
claims_of-leaves name (m ∷ ms) = by_kind m.what refl (claims_of-leaves name ms)
  where
    by_kind :
        (w : What)
        → m.what ≡ w
        → paths_in (claims_of name ms) ≡ leaves ms
        → paths_in (claims_of name (m ∷ ms)) ≡ leaf m ++ leaves ms
    by_kind Walk.file e rest = rw (e, claims_of) (ap (λ ps. m.path ∷ ps) rest)
    by_kind Walk.dir e rest = rw (e, claims_of) rest
    by_kind (Walk.link t) e rest = rw (e, claims_of) (ap (λ ps. m.path ∷ ps) rest)
    by_kind (Walk.hard t) e rest = rw (e, claims_of) (ap (λ ps. m.path ∷ ps) rest)

paths_in-append : (cs ds : List (Str × Str)) → paths_in (cs ++ ds) ≡ paths_in cs ++ paths_in ds
paths_in-append [] ds = refl
paths_in-append (c ∷ cs) ds = ap (λ ps. c.0 ∷ ps) (paths_in-append cs ds)

claims-puts : (jobs : List Job) → paths_in (claims jobs) ≡ puts jobs
unfolding claims
claims-puts [] = refl
claims-puts (j ∷ jobs) =
    paths_in-append (claims_of j.name j.members) (claims jobs)
    ∙ cong2 (claims_of-leaves j.name j.members) (claims-puts jobs)
  where
    cong2 : {a b c e : List Str} → a ≡ b → c ≡ e → (a ++ c) ≡ (b ++ e)
    cong2 h k = cc

Free-Distinct : (owner : Owners) (cs : List (Str × Str)) → Free owner cs → Distinct (paths_in cs)
Free-Distinct owner [] _ = tt
Free-Distinct owner ((path, name) ∷ cs) (_, apart, free) = (apart, Free-Distinct owner cs free)

-- What has an owner is not claimed.
Free-apart :
    (owner : Owners) (cs : List (Str × Str)) (p : Str)
    → Free owner cs
    → Owned owner p
    → contains (paths_in cs) p ≡ false
Free-apart owner [] p _ _ = refl
Free-apart owner ((path, name) ∷ cs) p (none_p, _, free) (who, e) = elim (Bool-cases (path == p)) [
  | inl same ↦
      absurd (cc (sym none_p ∙ ap (λ x. lookup x owner) ((list_beq_iff path p).0 same) ∙ e))
  | inr apart ↦ let behind = Free-apart owner cs p free (who, e) in ground arith
]

-- What the packages that stay list is not put down.
Stayers-puts :
    (d : Disk) (root : Str) (jobs : List Job) (owner : Owners)
    → Free owner (claims jobs)
    → (t : Str) → Stayers d root jobs (Owned owner) t
    → Stayers d root jobs (λ p. contains (puts jobs) p ≡ false) t
Stayers-puts d root jobs owner free t (names, e, all) =
    (names, e, All-imp _ _ names (λ n lists stays. unclaimed n (lists stays)) all)
  where
    unclaimed :
        (n : Str)
        → Lists d root (Owned owner) t n
        → Lists d root (λ p. contains (puts jobs) p ≡ false) t n
    unclaimed n (rec, e, all) = (
      rec,
      e,
      All-imp _ _ rec.manifest
          (λ x owned leaf.
            subst (λ ps. contains ps x.path ≡ false) (claims-puts jobs)
              (Free-apart owner (claims jobs) x.path free (owned leaf)))
          all,
    )

contains-Among : (xs : List Str) (x : Str) → contains xs x ≡ true → Among x xs
contains-Among [] x h = absurd (cc h)
contains-Among (y ∷ xs) x h = elim (Bool-cases (y == x)) [
  | inl same ↦ inl (sym ((list_beq_iff y x).0 same))
  | inr apart ↦ inr (contains-Among xs x (ground arith))
]

in_batch-Among :
    (jobs : List Job) (name : Str)
    → in_batch jobs name ≡ true
    → (o : Job) × Among o jobs × (o.name ≡ name)
in_batch-Among [] name h = absurd (cc h)
in_batch-Among (j ∷ jobs) name h = elim (Bool-cases (j.name == name)) [
  | inl same ↦ (j, inl refl, (list_beq_iff j.name name).0 same)
  | inr apart ↦ let (o, there, e) = in_batch-Among jobs name (ground arith) in (o, inr there, e)
]

missing_of-IsMet :
    (jobs : List Job) (have : List Str) (name : Str) (ds : List Dep)
    → missing_of jobs have name ds ≡ []
    → All (IsMet jobs have) ds
unfolding missing_of
missing_of-IsMet jobs have name [] h = tt
missing_of-IsMet jobs have name (dep ∷ ds) h = elim (Bool-cases dep.make) [
  | inl make ↦ (
    λ run. absurd (cc (sym make ∙ run)),
    missing_of-IsMet jobs have name ds (rw (make, missing_of) at h),
  )
  | inr run ↦ elim (Bool-cases (contains have dep.name)) [
    | inl installed ↦ (
      λ _. inl (contains-Among have dep.name installed),
      missing_of-IsMet jobs have name ds (rw (run, installed, missing_of) at h),
    )
    | inr apart ↦ elim (Bool-cases (in_batch jobs dep.name)) [
      | inl batch ↦ (
        λ _. inr (in_batch-Among jobs dep.name batch),
        missing_of-IsMet jobs have name ds (rw (run, apart, batch, missing_of) at h),
      )
      | inr lacks ↦ absurd (cc (rw (run, apart, lacks, missing_of) at h))
    ]
  ]
]

append-nil_left : (xs ys : List (Str × Str)) → xs ++ ys ≡ [] → (xs ≡ []) × (ys ≡ [])
append-nil_left [] ys h = (refl, h)
append-nil_left (x ∷ xs) ys h = absurd (cc)

deps_from-IsMet :
    (d : Disk) (root : Str) (batch jobs : List Job)
    → deps_from d root batch jobs ≡ ok []
    → All
        (λ (j : Job).
          (have : List Str) × (Record.installed d root j.target ≡ ok have)
          × All (IsMet batch have) j.depends)
        jobs
unfolding deps_from
deps_from-IsMet d root batch [] h = tt
deps_from-IsMet d root batch (j ∷ jobs) h =
    let (have, e0, e1) = >>=-eq-ok (Record.installed d root j.target) _ h in
    let (rest, e2, e3) = >>=-eq-ok (deps_from d root batch jobs) _ e1 in
    let (none_here, none_later) =
      append-nil_left (missing_of batch have j.name j.depends) rest (ok-injective e3) in
    (
      (have, e0, missing_of-IsMet batch have j.name j.depends none_here),
      deps_from-IsMet d root batch jobs (e2 ∙ ap ok none_later),
    )

refuse_or_lem :
    (jobs jobs' : List Job) (owned missing : List (Str × Str))
    → refuse_or jobs owned missing ≡ ok jobs'
    → (owned ≡ []) × (missing ≡ []) × (jobs ≡ jobs')
unfolding refuse_or
refuse_or_lem jobs jobs' [] [] h = (refl, refl, ok-injective h)
refuse_or_lem jobs jobs' [] (m ∷ ms) h = absurd (cc)
refuse_or_lem jobs jobs' (o ∷ os) ms h = absurd (cc)

module _ (d : Disk) (unpack : Unpack) (view : View) where
  job_of-archive : (a : Str) {j : Job} → job_of d unpack view a ≡ ok j → j.archive ≡ a
  unfolding job_of
  job_of-archive a h =
      let (m, _, h1) = >>=-eq-ok (meta d a) _ h in
      let (ms, _, h2) = >>=-eq-ok (Walk.plan view (unpack a) a) _ h1 in
      sym (ap (λ (j : Job). j.archive) (ok-injective h2))

  traverse-whole :
      (archives : List Str) {jobs : List Job}
      → traverse (job_of d unpack view) archives ≡ ok jobs
      → map (λ (j : Job). j.archive) jobs ≡ archives
  traverse-whole [] h = sym (ap (map (λ (j : Job). j.archive)) (ok-injective h))
  traverse-whole (a ∷ archives) h =
      let (j, e0, h1) = >>=-eq-ok (job_of d unpack view a) _ h in
      let (js, e1, h2) = >>=-eq-ok (traverse (job_of d unpack view) archives) _ h1 in
      sym (ap (map (λ (j : Job). j.archive)) (ok-injective h2))
      ∙ cons (job_of-archive a e0) (traverse-whole archives e1)
    where
      cons : {x y : Str} {xs ys : List Str} → x ≡ y → xs ≡ ys → (x ∷ xs) ≡ (y ∷ ys)
      cons e es = cc

-- A batch that `plan` accepts without force has one job for each archive. Nothing that it puts down,
-- directories apart, is listed by the record of a package that stays, and nothing is put down twice.
-- What a job asks for at run time is installed for its target, or has the name of a job of the batch,
-- whatever that one's target.
pub plan-IsSound :
    (d : Disk) (root : Str) (unpack : Unpack) (view : View) (archives : List Str) {jobs : List Job}
    → plan d root unpack view archives false ≡ ok jobs
    → IsSound d root archives jobs
unfolding plan paths deps
plan-IsSound d root unpack view archives {jobs} h =
    let (js, e0, e1) = >>=-eq-ok (traverse (job_of d unpack view) archives) _ h in
    let (owned, e2, e3) = >>=-eq-ok (paths d root js) _ e1 in
    let (missing, e4, e5) = >>=-eq-ok (deps d root js) _ e3 in
    let (no_owned, no_missing, same) = refuse_or_lem js jobs owned missing e5 in
    let (ts, f0, f1) = >>=-eq-ok (Record.targets d root) _ e2 in
    let (owner, f2, f3) = >>=-eq-ok (owners_of d root js ts []) _ f1 in
    let free = (collisions_iff owner (claims js)).0 (ok-injective f3 ∙ no_owned) in
    subst (IsSound d root archives) same (record {
      whole = traverse-whole d unpack view archives e0;
      targets = ts;
      targets_read = f0;
      apart =
          All-imp _ _ ts (Stayers-puts d root js owner free)
            (owners_of-Stayers d root js ts [] f2).1;
      once = subst Distinct (claims-puts js) (Free-Distinct owner (claims js) free);
      met = deps_from-IsMet d root js js (e4 ∙ ap ok no_missing);
    })
