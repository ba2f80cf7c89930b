-- ===== src/Install/Remove/Needed.antt =====
-- crates/kiry-core/src/install.rs, `remove`: what is removed is needed by no package that stays.
use kiry.Base.{
  ◌≡◌, refl, ◌⊎◌, inl, inr, List, [], ◌∷◌, true, false, not, ◌&&◌, nat_eq, list_eq, Option, none,
  some, Bool-cases, contains, Result, ok, err, >>=-eq-ok,
}
use kiry.Base.Text.{Str}
use kiry.Error.{Error}
use kiry.Disk.{Disk}
use kiry.Pkg.{Dep}
use kiry.Db.Record
use kiry.Db.Record.{Installed}
use kiry.Install.Os.{Os}
use kiry.Install.Remove.{Removed, needed_by, check_needed, check_unless, read_all, remove}

-- A package that needs none of the names at run time.
abbrev pub NeedsNone : List Str → List Dep → Type 0
NeedsNone names [] = Unit
NeedsNone names (d ∷ ds) = ((not d.make && contains names d.name) ≡ false) × NeedsNone names ds

-- Each of the packages is named itself, or its record says that it needs none of the names.
abbrev pub AllNeedNone : Disk → Str → Str → List Str → List Str → Type 0
AllNeedNone d root target names [] = Unit
AllNeedNone d root target names (o ∷ others) =
    ((contains names o ≡ true)
      ⊎ ((rec : Installed) × (Record.read d root target o ≡ ok rec) × NeedsNone names rec.depends))
    × AllNeedNone d root target names others

needed_by-none : (names : List Str) (ds : List Dep) → needed_by names ds ≡ none → NeedsNone names ds
unfolding needed_by
needed_by-none names [] h = tt
needed_by-none names (d ∷ ds) h = elim (Bool-cases (not d.make && contains names d.name)) [
  | inl needs ↦ absurd (cc (rw (needs, needed_by) at h))
  | inr free ↦ (free, needed_by-none names ds (rw (free, needed_by) at h))
]

-- What the search for a dependency found lets the loop go on only if it found none.
stopped_or_went_on :
    (o : Str) (rest : Result Error (Unit {0})) (found : Option Dep)
    → elim found [ some dep ↦ err (Error.needed dep.name o) | none ↦ rest ] ≡ ok tt
    → (found ≡ none) × (rest ≡ ok tt)
stopped_or_went_on o rest none h = (refl, h)
stopped_or_went_on o rest (some dep) h = absurd (cc h)

check_needed-AllNeedNone :
    (d : Disk) (root target : Str) (names others : List Str)
    → check_needed d root target names others ≡ ok tt
    → AllNeedNone d root target names others
unfolding check_needed
check_needed-AllNeedNone d root target names [] h = tt
check_needed-AllNeedNone d root target names (o ∷ others) h = elim (Bool-cases (contains names o)) [
  | inl named ↦ (
    inl named,
    check_needed-AllNeedNone d root target names others (rw (named, check_needed) at h),
  )
  | inr stays ↦
      let (rec, e0, e1) =
        >>=-eq-ok (Record.read d root target o) _ (rw (stays, check_needed) at h) in
      let (e2, e3) =
        stopped_or_went_on o (check_needed d root target names others) (needed_by names rec.depends)
          e1 in
      (
        inr (rec, e0, needed_by-none names rec.depends e2),
        check_needed-AllNeedNone d root target names others e3,
      )
]

-- When a removal without force succeeds, the list of the installed packages could be read, and each
-- package on it is named for removal itself or has a record with no run-time dependency on a named one.
pub remove-AllNeedNone :
    (os : Os) (root target : Str) (names : List Str) (d : Disk) (s : os.State)
    {out : List (Str × Removed) × Disk × os.State}
    → remove os root target names false d s ≡ ok out
    → (others : List Str) × (Record.installed d root target ≡ ok others)
      × AllNeedNone d root target names others
unfolding remove check_unless
remove-AllNeedNone os root target names d s h =
    let (recs, e0, e1) = >>=-eq-ok (read_all d root target names) _ h in
    let (u, e2, e3) = >>=-eq-ok (check_unless false d root target names) _ e1 in
    let (others, e4, e5) = >>=-eq-ok (Record.installed d root target) _ e2 in
    (others, e4, check_needed-AllNeedNone d root target names others e5)
