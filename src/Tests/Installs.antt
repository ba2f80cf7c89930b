-- ===== src/Tests/Installs.antt =====
-- Runs of the checks of a batch and of a removal, crates/kiry-core/src/install.rs.
use kiry.Base.{
  ℕ, ◌+◌, ◌≤◌, ◌≡◌, refl, ◌↔◌, ◌⊎◌, ap, List, [], ◌∷◌, ◌++◌, Bool, true, false, Option, some, none,
  All, Among, Result, ok, err, lookup, take, keep, not, list_eq, nat_eq, ◌==◌, list_beq_iff, arith,
  ◌≢◌, length, contains, subst, sym, ◌∙◌,
}
use kiry.Base.Text.{Str, codes, slash}
use kiry.Error.{Error, IoError}
use kiry.Disk.{Disk, Node, file, folder}
use kiry.Pkg.{Version, Dep}
use kiry.Db.Manifest.{Entry}
use kiry.Db.Manifest
use kiry.Db.Record
use kiry.Archive.Walk.{EntryType, regular, directory, Header, Member, View}
use kiry.Archive.Walk
use kiry.Install.Check.{Job, Owners, collisions, plan, Unpack}
use kiry.Install.Check.Laws.{Free, collisions_iff}
use kiry.Install.Check.Findings.{IsFinding, collisions_iff_finding}
use kiry.Install.Check.Promise.{IsSound}
use kiry.Install.Check.Sound.{plan-IsSound}
use kiry.Install.Os.{Os, Errno, noent, errno, hash, parent_of, leaf_of}
use kiry.Install.Remove.{Removed, unlink, remove}
use kiry.Install.Remove.Laws.{unlink_inv, unlink-total, total, things}
use kiry.Install.Remove.Needed.{AllNeedNone, remove-AllNeedNone}

abbrev owner : Owners
owner = (codes "usr/bin/curl", codes "curl") ∷ []

abbrev claimed : List (Str × Str)
claimed =
    (codes "usr/bin/wget", codes "wget")
    ∷ (codes "usr/bin/curl", codes "wget")
    ∷ (codes "usr/bin/wget", codes "other")
    ∷ []

two_collide :
    collisions owner claimed
    ≡ (codes "usr/bin/curl", codes "curl") ∷ (codes "usr/bin/wget", codes "wget") ∷ []
unfolding collisions
two_collide = refl

collisions_iff_finding_example :
    Among (codes "usr/bin/wget", codes "wget") (collisions owner claimed)
    ↔ IsFinding owner claimed (codes "usr/bin/wget", codes "wget")
collisions_iff_finding_example =
    collisions_iff_finding owner claimed (codes "usr/bin/wget", codes "wget")

collisions_iff_example : (collisions owner claimed ≡ []) ↔ Free owner claimed
collisions_iff_example = collisions_iff owner claimed

-- A root with one package, zlib, and an archive of another, curl, that needs it.
abbrev db : Str → Str
db p = codes "r/usr/lib/kiry/db/installed" ++ p

abbrev digest_text : Str
digest_text = codes "4100000000000000000000000000000000000000000000000000000000000000"

abbrev zlib_record : Disk
zlib_record =
    (db (codes "/musl/zlib"), folder)
    ∷ (db (codes "/musl/zlib/version"), file (codes "1.3 1\n"))
    ∷ (
      db (codes "/musl/zlib/manifest"),
      file (codes "d 0755 - usr\nd 0755 - opt\nf 0644 " ++ digest_text ++ codes " opt/z\n"),
    )
    ∷ []

abbrev others : Disk
others =
    (db [], folder)
    ∷ (db (codes "/musl"), folder)
    ∷ (db (codes "/musl/make"), folder)
    ∷ (db (codes "/musl/make/version"), file (codes "4 1\n"))
    ∷ (db (codes "/musl/make/depends"), file (codes "zlib build\n"))
    ∷ (db (codes "/musl/make/manifest"), file (codes "d 0755 - usr\n"))
    ∷ []

abbrev sidecar : Disk
sidecar =
    (codes "curl.tar.zst.meta/name", file (codes "curl\n"))
    ∷ (codes "curl.tar.zst.meta/version", file (codes "8.11.0 2\n"))
    ∷ (codes "curl.tar.zst.meta/depends", file (codes "zlib\nperl make\n"))
    ∷ (codes "curl.tar.zst.meta/targets", file (codes "musl\n"))
    ∷ []

abbrev disk : Disk
disk = zlib_record ++ (others ++ sidecar)

abbrev curl_member : Member
curl_member = record { what = Walk.file; mode = 493; path = codes "usr/bin/curl" }

abbrev unpack : Unpack
unpack a = ok (
  ok (record {
    entry_type = regular;
    raw_path = ok (codes "./usr/bin/curl");
    pax_keys = ok [];
    mode = ok 493;
    link_name = ok none;
  })
      ∷ [],
  1024,
)

abbrev view : View
view = record { read_link = λ p. none; is_dir = λ p. none }

abbrev job : Job
job = record {
  name = codes "curl";
  target = codes "musl";
  version = record { upstream = codes "8.11.0"; rev = 2 };
  depends =
      record { name = codes "zlib"; make = false; host = false; only = none }
      ∷ record { name = codes "perl"; make = true; host = true; only = none }
      ∷ [];
  archive = codes "curl.tar.zst";
  members = curl_member ∷ [];
  hash = [];
  users = [];
  flags = [];
}

plan_curl : plan disk (codes "r") unpack view (codes "curl.tar.zst" ∷ []) false ≡ ok (job ∷ [])
unfolding plan kiry.Pkg.required kiry.Disk.read_to_string kiry.Disk.path_join kiry.Pkg.parse_version
    kiry.Base.Text.split_whitespace kiry.Base.Text.Radix.from_str_radix kiry.Pkg.lines
    kiry.Base.Text.lines kiry.Base.Text.trim Walk.plan_reader Walk.member_of
    kiry.Archive.Resolve.tidy kiry.Base.Text.has Walk.what_of Walk.place Walk.resolve_or
    kiry.Archive.Resolve.resolve lookup kiry.Base.Text.join kiry.Base.Text.rcut kiry.Base.Text.split
    kiry.Base.Text.splitn kiry.Base.Text.starts_with kiry.Base.Text.strip_cr Manifest.parse_manifest
    Record.installed Record.read Record.targets kiry.Disk.is_dir kiry.Disk.read_dir
    kiry.Disk.sort_names kiry.Pkg.depends_from kiry.Pkg.entries Manifest.parse_entry Walk.plan
plan_curl = refl

plan_refused :
    plan (others ++ sidecar) (codes "r") unpack view (codes "curl.tar.zst" ∷ []) false
    ≡ err (Error.refused [] ((codes "curl", codes "zlib") ∷ []))
unfolding plan kiry.Pkg.required kiry.Disk.read_to_string kiry.Disk.path_join kiry.Pkg.parse_version
    kiry.Base.Text.split_whitespace kiry.Base.Text.Radix.from_str_radix kiry.Pkg.lines
    kiry.Base.Text.lines kiry.Base.Text.trim Walk.plan_reader Walk.member_of
    kiry.Archive.Resolve.tidy kiry.Base.Text.has Walk.what_of Walk.place Walk.resolve_or
    kiry.Archive.Resolve.resolve lookup kiry.Base.Text.join kiry.Base.Text.rcut kiry.Base.Text.split
    kiry.Base.Text.splitn kiry.Base.Text.starts_with kiry.Base.Text.strip_cr Manifest.parse_manifest
    Record.installed Record.read Record.targets kiry.Disk.is_dir kiry.Disk.read_dir
    kiry.Disk.sort_names kiry.Pkg.depends_from kiry.Pkg.entries Manifest.parse_entry Walk.plan
plan_refused = refl

plan-IsSound_example : IsSound disk (codes "r") (codes "curl.tar.zst" ∷ []) (job ∷ [])
plan-IsSound_example =
    plan-IsSound disk (codes "r") unpack view (codes "curl.tar.zst" ∷ []) plan_curl

-- Files by path; a directory opens at every path, and nothing is a link.
abbrev Files : Type 0
Files = List (Str × List ℕ)

abbrev at : Str → Str → Str
at fd leaf = fd ++ (slash ∷ leaf)

abbrev zeros : List ℕ
zeros = 0 ∷ 0 ∷ 0 ∷ 0 ∷ 0 ∷ 0 ∷ 0 ∷ 0 ∷ 0 ∷ 0 ∷ 0 ∷ 0 ∷ 0 ∷ 0 ∷ 0 ∷ 0 ∷ []

-- In place of a digest, the first 32 bytes of a text that is made long enough.
abbrev first_bytes : List ℕ → List ℕ
first_bytes bytes = take 32 (bytes ++ (zeros ++ zeros))

abbrev small : Os
small = record {
  State = Files;
  Fd = Str;
  open_root = λ s. ok tt;
  beneath = λ s p. some p;
  openat =
      λ s fd leaf. elim (lookup (at fd leaf) s) [ none ↦ err noent | some bytes ↦ ok (ok bytes) ];
  readlinkat = λ s fd leaf. err (errno 22);
  unlinkat = λ s fd leaf as_dir. keep (λ f. not (f.0 == at fd leaf)) s;
  digest = first_bytes;
}

abbrev edited : List ℕ
edited = codes "B"

abbrev files : Files
files =
    (codes "opt/z", codes "A") ∷ (codes "opt/conf", edited) ∷ (codes "opt/other", codes "C") ∷ []

abbrev manifest : List Entry
manifest =
    record { mode = 493; kind = Manifest.dir; path = codes "usr" }
    ∷ record { mode = 420; kind = Manifest.file digest_text; path = codes "opt/z" }
    ∷ record { mode = 420; kind = Manifest.file digest_text; path = codes "opt/conf" }
    ∷ record { mode = 420; kind = Manifest.file digest_text; path = codes "opt/lost" }
    ∷ []

unlink_four : unlink small files manifest manifest ≡ (
  (codes "opt/conf", edited) ∷ (codes "opt/other", codes "C") ∷ [],
  record { gone = 1; missing = 1; kept = 1 },
)
unfolding unlink kiry.Install.Os.split
unlink_four = refl

unlink-total_example :
    (things manifest ≤ total (unlink small files manifest manifest).1)
    × (total (unlink small files manifest manifest).1 ≤ length manifest)
unlink-total_example = unlink-total small files manifest manifest

abbrev removed_zlib : List (Str × Removed)
removed_zlib = (codes "zlib", record { gone = 1; missing = 0; kept = 0 }) ∷ []

remove_zlib :
    remove small (codes "r") (codes "musl") (codes "zlib" ∷ []) false (zlib_record ++ others) files
    ≡ ok (removed_zlib, others, (codes "opt/conf", edited) ∷ (codes "opt/other", codes "C") ∷ [])
unfolding remove Record.read kiry.Base.Text.split_whitespace kiry.Base.Text.Radix.from_str_radix
    kiry.Base.Text.lines Manifest.parse_entry kiry.Base.Text.splitn Record.installed Record.forget
    kiry.Install.Os.split
remove_zlib = refl

remove-AllNeedNone_example :
    (names : List Str) × (Record.installed (zlib_record ++ others) (codes "r") (codes "musl")
      ≡ ok names)
    × AllNeedNone (zlib_record ++ others) (codes "r") (codes "musl") (codes "zlib" ∷ []) names
remove-AllNeedNone_example =
    remove-AllNeedNone small (codes "r") (codes "musl") (codes "zlib" ∷ []) (zlib_record ++ others)
      files remove_zlib

abbrev ConfKept : Files → Type 0
ConfKept s = lookup (codes "opt/conf") s ≡ some edited

lookup-keep :
    (name q : Str) (bytes : List ℕ) (s : Files)
    → (name == q) ≡ false
    → lookup name s ≡ some bytes
    → lookup name (keep (λ f. not (f.0 == q)) s) ≡ some bytes
unfolding lookup
lookup-keep name q bytes [] apart h = h
lookup-keep name q bytes ((p, b) ∷ s) apart h = ground (
  arith,
  list_beq_iff p q,
  list_beq_iff p name,
  list_beq_iff name q,
  lookup-keep name q bytes s apart,
)

ConfKept-without :
    (q : Str) (s : Files)
    → (codes "opt/conf" == q) ≡ false
    → ConfKept s
    → ConfKept (keep (λ f. not (f.0 == q)) s)
ConfKept-without q s apart h = lookup-keep (codes "opt/conf") q edited s apart h

has_digest : Result Errno Str → Bool
has_digest (ok t) = t == digest_text
has_digest (err e) = false

conf_differs : (s : Files) → ConfKept s → hash small s (codes "opt") (codes "conf") ≢ ok digest_text
unfolding hash kiry.Error.hex has_digest
conf_differs s h e =
    let found : hash small s (codes "opt") (codes "conf")
        ≡ ok (kiry.Error.hex (first_bytes edited)) =
      rw (h, hash) in
    let differs : false ≡ true = ap has_digest (sym found ∙ e) in cc differs

same_fd : {a b : Str} → ◌≡◌ {A = Option Str} (some a) (some b) → a ≡ b
same_fd h = cc

-- A file that was edited after it was installed is still there, as it was edited.
unlink_inv_example : ConfKept (unlink small files manifest manifest).0
unfolding kiry.Install.Os.split lookup
unlink_inv_example =
    unlink_inv small ConfKept files manifest manifest
      (
        λ s fd opened by_right h. absurd (cc (by_right)),
        (
          λ s fd opened by_right h.
              subst (λ d. ConfKept (keep (λ f. not (f.0 == at d (codes "z"))) s)) (same_fd opened)
                (ConfKept-without (codes "opt/z") s refl h),
          (
            λ s fd opened by_right h. absurd (
                conf_differs s h (
                  subst (λ d. hash small s d (codes "conf") ≡ ok digest_text) (sym (same_fd opened))
                    by_right)),
            (
              λ s fd opened by_right h.
                  subst (λ d. ConfKept (keep (λ f. not (f.0 == at d (codes "lost"))) s))
                    (same_fd opened) (ConfKept-without (codes "opt/lost") s refl h),
              tt,
            ),
          ),
        ),
      )
      refl
