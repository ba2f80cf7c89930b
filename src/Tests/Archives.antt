-- ===== src/Tests/Archives.antt =====
-- Runs of the resolver and of the walk over an archive, crates/kiry-core/src/archive.rs.
use kiry.Base.{
  ℕ, ◌≤◌, ◌≡◌, refl, List, [], ◌∷◌, ◌++◌, Bool, true, false, Option, some, none, All, Result, ok,
  err, lookup, list_eq, nat_eq, map, reverse,
}
use kiry.Base.Text.{Str, codes}
use kiry.Error.{Error, IoError}
use kiry.Archive.Resolve.{resolve, spell, target_of}
use kiry.Archive.Resolve.Beneath.{IsBeneath, Landed, resolve-IsBeneath, resolve-Landed}
use kiry.Archive.Resolve.Fixed.{resolve-resolve}
use kiry.Archive.Ends.{read_all, tail_zeros, stream, read_all_lem}
use kiry.Archive.Walk.{
  EntryType, regular, directory, symlink, hard_link, other_type, Header, file, dir, link, hard,
  Member, View, what_is_dir, walk, plan_reader,
}
use kiry.Archive.Walk.Safety.{IsSafe}
use kiry.Archive.Walk.Laws.{Walked, walk-Walked, plan_reader-IsSafe}

-- Links on disk.
abbrev on_disk : Str → Option Str
on_disk p = lookup p (
    (codes "lib", codes "usr/lib")
    ∷ (codes "usr/lib/here", codes ".")
    ∷ (codes "out", codes "/../etc")
    ∷ [])

-- A link that the archive made.
abbrev made : List (Str × Str)
made = (codes "opt", codes "/lib") ∷ []

resolve_opt : resolve on_disk (codes "srv/../opt//here/z.so") false made ≡ ok (codes "usr/lib/z.so")
unfolding resolve
resolve_opt = refl

resolve_last : resolve on_disk (codes "./lib") false made ≡ ok (codes "lib")
unfolding resolve
resolve_last = refl

resolve_followed : resolve on_disk (codes "./lib") true made ≡ ok (codes "usr/lib")
unfolding resolve
resolve_followed = refl

resolve_out : resolve on_disk (codes "usr/../../etc") false made ≡ err "would climb out of the root"
unfolding resolve
resolve_out = refl

resolve_out_by_link :
    resolve on_disk (codes "out/passwd") false made ≡ err "would climb out of the root"
unfolding resolve
resolve_out_by_link = refl

resolve_loop :
    resolve (λ p. some (codes "a/b")) (codes "a/b") false [] ≡ err "too many symlinks on the way"
unfolding resolve
resolve_loop = refl

resolve-IsBeneath_example : IsBeneath (codes "usr/lib/z.so")
resolve-IsBeneath_example =
    resolve-IsBeneath on_disk (codes "srv/../opt//here/z.so") false made resolve_opt

resolve-Landed_example :
    (out : List Str) × (codes "usr/lib/z.so" ≡ spell out)
    × Landed (target_of made on_disk) false out
resolve-Landed_example =
    resolve-Landed on_disk (codes "srv/../opt//here/z.so") false made resolve_opt

resolve-resolve_example :
    resolve on_disk (codes "usr/lib/z.so") false made ≡ ok (codes "usr/lib/z.so")
resolve-resolve_example =
    resolve-resolve on_disk (codes "srv/../opt//here/z.so") false made resolve_opt

abbrev reads : List (List ℕ)
reads = (1 ∷ 0 ∷ []) ∷ [] ∷ (0 ∷ 0 ∷ []) ∷ []

read_three : read_all 0 reads ≡ 3
unfolding read_all
read_three = refl

read_all_lem_example : read_all 0 reads ≡ tail_zeros (stream reads)
read_all_lem_example = read_all_lem reads

abbrev header : EntryType → Str → Option Str → Header
header t p l = record {
  entry_type = t;
  raw_path = ok p;
  pax_keys = ok (ok (codes "mtime") ∷ []);
  mode = ok 493;
  link_name = ok l;
}

abbrev headers : List (Result IoError Header)
headers =
    ok (header directory (codes "./") none)
    ∷ ok (header directory (codes "usr/lib/") none)
    ∷ ok (header symlink (codes "lib64") (some (codes "usr/lib")))
    ∷ ok (header regular (codes "lib64/z.so") none)
    ∷ ok (header hard_link (codes "lib/y.so") (some (codes "lib64/z.so")))
    ∷ []

abbrev view : View
view = record { read_link = on_disk; is_dir = λ p. lookup p ((codes "usr/lib", true) ∷ []) }

abbrev members : List Member
members =
    record { what = dir; mode = 493; path = codes "usr/lib" }
    ∷ record { what = link (codes "usr/lib"); mode = 493; path = codes "lib64" }
    ∷ record { what = file; mode = 493; path = codes "usr/lib/z.so" }
    ∷ record { what = hard (codes "usr/lib/z.so"); mode = 493; path = codes "usr/lib/y.so" }
    ∷ []

plan_members : plan_reader view headers 1024 ≡ ok members
unfolding plan_reader kiry.Archive.Walk.member_of kiry.Archive.Resolve.tidy kiry.Base.Text.has
    kiry.Archive.Walk.what_of kiry.Archive.Walk.place kiry.Archive.Walk.resolve_or resolve
plan_members = refl

plan_cut :
    plan_reader view headers 511
    ≡ err (Error.archive (codes "usr/lib/y.so") "the tar stops here with no end block, cut off")
unfolding plan_reader kiry.Archive.Walk.member_of kiry.Archive.Resolve.tidy kiry.Base.Text.has
    kiry.Archive.Walk.what_of kiry.Archive.Walk.place kiry.Archive.Walk.resolve_or resolve
plan_cut = refl

plan_device :
    plan_reader view (ok (header other_type (codes "dev/null") none) ∷ []) 1024
    ≡ err (Error.archive (codes "dev/null") "not a file, directory, symlink or hard link")
unfolding plan_reader kiry.Archive.Walk.member_of kiry.Archive.Resolve.tidy kiry.Base.Text.has
    kiry.Archive.Walk.what_of
plan_device = refl

plan_trade :
    plan_reader view
      (ok (header regular (codes "lib64") none) ∷ ok (header regular (codes "usr/lib") none) ∷ [])
      1024
    ≡ err (Error.archive (codes "usr/lib") "a directory and a non-directory would trade places")
unfolding plan_reader kiry.Archive.Walk.member_of kiry.Archive.Resolve.tidy kiry.Base.Text.has
    kiry.Archive.Walk.what_of kiry.Archive.Walk.place kiry.Archive.Walk.resolve_or resolve
plan_trade = refl

plan_reader-IsSafe_example : All (IsSafe view) members × (512 ≤ 1024)
plan_reader-IsSafe_example = plan_reader-IsSafe view headers 1024 plan_members

-- What was extracted so far, the newest first, is what stands on disk.
abbrev view_after : List Member → View
view_after done = record {
  read_link = λ p. elim (lookup p (links done)) [ some t ↦ some t | none ↦ on_disk p ];
  is_dir = λ p. lookup p (map (λ (m : Member). (m.path, what_is_dir m.what)) done);
}
  where
    links : List Member → List (Str × Str)
    links [] = []
    links (m ∷ ms) = elim m.what [
      | file ↦ links ms
      | dir ↦ links ms
      | link t ↦ (m.path, t) ∷ links ms
      | hard t ↦ links ms
    ]

abbrev extract : List Member → Header → Member → Result Error (List Member)
extract done h m = ok (m ∷ done)

walk_members : walk view_after extract headers 1024 [] ≡ ok (members, reverse members)
unfolding walk kiry.Archive.Walk.member_of kiry.Archive.Resolve.tidy kiry.Base.Text.has
    kiry.Archive.Walk.what_of kiry.Archive.Walk.place kiry.Archive.Walk.resolve_or resolve
walk_members = refl

-- A directory that was extracted is not replaced by a file behind it.
walk_trade :
    walk view_after extract
      (ok (header directory (codes "opt") none) ∷ ok (header regular (codes "opt") none) ∷ [])
      1024
      []
    ≡ err (Error.archive (codes "opt") "a directory and a non-directory would trade places")
unfolding walk kiry.Archive.Walk.member_of kiry.Archive.Resolve.tidy kiry.Base.Text.has
    kiry.Archive.Walk.what_of kiry.Archive.Walk.place kiry.Archive.Walk.resolve_or resolve
walk_trade = refl

walk-Walked_example : Walked view_after extract headers [] members (reverse members) × (512 ≤ 1024)
walk-Walked_example = walk-Walked view_after extract headers 1024 [] walk_members
