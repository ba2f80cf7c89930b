-- ===== src/Install/Check/Owners.antt =====
-- The owners that `paths` of crates/kiry-core/src/install.rs collects from the records.
use kiry.Base.{
  ◌≡◌, ◌≢◌, refl, sym, subst, inl, inr, List, [], ◌∷◌, Bool, true, ◌&&◌, some, ◌==◌, nat_eq,
  list_eq, All, All-imp, Bool-cases, arith, lookup, list_beq_iff, ok, >>=-eq-ok, ok-injective,
  if◌then◌else◌,
}
use kiry.Base.Text.{Str}
use kiry.Disk.{Disk}
use kiry.Db.Manifest.{Kind, Entry}
use kiry.Db.Record
use kiry.Db.Record.{Installed}
use kiry.Install.Check.{Job, Owners, is_dir_kind, owned_by, replaces, owners_in, owners_of}
use kiry.Install.Check.Promise.{Stays, Lists, Stayers}

abbrev pub Owned : Owners → Str → Type 0
Owned owner p = (who : Str) × (lookup p owner ≡ some who)

abbrev Grows : Owners → Owners → Type 0
Grows o o' = (p : Str) → Owned o p → Owned o' p

Grows-cons : (o : Owners) (q n : Str) → Grows o ((q, n) ∷ o)
unfolding lookup
Grows-cons o q n p (who, e) = elim (Bool-cases (q == p)) [
  | inl same ↦ (n, rw (same, lookup) refl)
  | inr apart ↦ (who, rw (apart, lookup) e)
]

here-Owned : (o : Owners) (q n : Str) → Owned ((q, n) ∷ o) q
unfolding lookup
here-Owned o q n = (n, rw ((list_beq_iff q q).1 refl, lookup) refl)

is_dir_kind_lem : (k : Kind) → is_dir_kind k ≡ true → k ≡ Kind.dir
is_dir_kind_lem (Kind.file h) e = cc
is_dir_kind_lem Kind.dir e = refl
is_dir_kind_lem (Kind.link t) e = cc
is_dir_kind_lem (Kind.hard t) e = cc

-- The owners that were there are, and so are those of the entries.
abbrev Takes : Owners → List Entry → Owners → Type 0
Takes o es out = Grows o out × All (λ (e : Entry). e.kind ≢ Kind.dir → Owned out e.path) es

owned_by-Takes :
    (name : Str) (es : List Entry) (owner : Owners) → Takes owner es (owned_by name es owner)
unfolding owned_by
owned_by-Takes name [] owner = (λ p h. h, tt)
owned_by-Takes name (e ∷ es) owner = elim (Bool-cases (is_dir_kind e.kind)) [
  | inl folder ↦
      let (grows, all) = owned_by-Takes name es owner in
      subst by_test (sym folder)
        (grows, (λ leaf. absurd (leaf (is_dir_kind_lem e.kind folder)), all))
  | inr other ↦
      let (grows, all) = owned_by-Takes name es ((e.path, name) ∷ owner) in
      subst by_test (sym other) (
        λ p h. grows p (Grows-cons owner e.path name p h),
        (λ leaf. grows e.path (here-Owned owner e.path name), all),
      )
]
  where
    by_test : Bool → Type 0
    by_test b =
        Takes owner (e ∷ es) (owned_by name es (if b then owner else (e.path, name) ∷ owner))

replaces-Stays :
    (jobs : List Job) (name target : Str)
    → replaces jobs name target ≡ true
    → Stays jobs target name
    → ⊥
unfolding replaces
replaces-Stays [] name target h stays = absurd (cc h)
replaces-Stays (j ∷ jobs) name target h stays =
    elim (Bool-cases (j.name == name && j.target == target)) [
      | inl same ↦
          stays j (inl refl) ((list_beq_iff j.target target).0 (ground arith))
            ((list_beq_iff j.name name).0 (ground arith))
      | inr apart ↦ replaces-Stays jobs name target (ground arith) (λ o there. stays o (inr there))
    ]

module _ (d : Disk) (root : Str) (jobs : List Job) where
  Lists-Grows :
      (o o' : Owners) (target name : Str)
      → Grows o o'
      → Lists d root (Owned o) target name
      → Lists d root (Owned o') target name
  Lists-Grows o o' target name grows (rec, e, all) =
      (rec, e, All-imp _ _ rec.manifest (λ x h leaf. grows x.path (h leaf)) all)

  owners_in-Lists :
      (target : Str) (names : List Str) (owner : Owners) {out : Owners}
      → owners_in d root jobs target names owner ≡ ok out
      → Grows owner out
        × All (λ name. Stays jobs target name → Lists d root (Owned out) target name) names
  unfolding owners_in
  owners_in-Lists target [] owner h = (subst (Grows owner) (ok-injective h) (λ p o. o), tt)
  owners_in-Lists target (name ∷ names) owner {out} h =
      elim (Bool-cases (replaces jobs name target)) [
        | inl replaced ↦
            let (grows, all) = owners_in-Lists target names owner (rw (replaced, owners_in) at h) in
            (grows, (λ stays. absurd (replaces-Stays jobs name target replaced stays), all))
        | inr kept ↦
            let (rec, e0, e1) =
              >>=-eq-ok (Record.read d root target name) _ (rw (kept, owners_in) at h) in
            let (grows, all) = owners_in-Lists target names (owned_by name rec.manifest owner) e1 in
            let (grew, owned) = owned_by-Takes name rec.manifest owner in
            (
              λ p o. grows p (grew p o),
              (λ stays. Lists-Grows _ out target name grows (rec, e0, owned), all),
            )
      ]

  pub owners_of-Stayers :
      (targets : List Str) (owner : Owners) {out : Owners}
      → owners_of d root jobs targets owner ≡ ok out
      → Grows owner out × All (Stayers d root jobs (Owned out)) targets
  unfolding owners_of
  owners_of-Stayers [] owner h = (subst (Grows owner) (ok-injective h) (λ p o. o), tt)
  owners_of-Stayers (t ∷ ts) owner {out} h =
      let (names, e0, e1) = >>=-eq-ok (Record.installed d root t) _ h in
      let (owner', e2, e3) = >>=-eq-ok (owners_in d root jobs t names owner) _ e1 in
      let (grew, lists) = owners_in-Lists t names owner e2 in
      let (grows, all) = owners_of-Stayers ts owner' e3 in
      (
        λ p o. grows p (grew p o),
        (
          (
            names,
            e0,
            All-imp _ _ names (λ n l stays. Lists-Grows owner' out t n grows (l stays)) lists,
          ),
          all,
        ),
      )
