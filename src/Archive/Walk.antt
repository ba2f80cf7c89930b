-- ===== src/Archive/Walk.antt =====
-- crates/kiry-core/src/archive.rs, `walk` and `plan_reader`: one pass over the members of an archive.
-- What the crate tar reads off each header is the input, errors of its own included.
pub mod Safety
pub mod Laws
use kiry.Base.{
  ℕ, ◌++◌, List, [], ◌∷◌, Bool, true, false, not, ◌&&◌, ◌||◌, Option, none, some, ◌==◌, nat_eq,
  list_eq, is_empty, ltb, if◌then◌else◌, Result, ok, err, map_err, ok_or, ◌>>=◌, ◌>>◌, String,
}
use kiry.Base.Text.{Str, codes, starts_with}
use kiry.Error
use kiry.Error.{Error, IoError}
use kiry.Archive.Resolve.{tidy, resolve}

-- `tar::EntryType`; the types that `walk` does not name are one case.
pub data EntryType : Type 0 where
  regular continuous directory symlink hard_link : EntryType
  xheader xglobal_header gnu_long_name gnu_long_link : EntryType
  other_type : EntryType

-- A member as the crate gives it. The keys are those of its pax records, "" for one that is no text.
pub record Header : Type 0 where
  pub entry_type : EntryType
  pub raw_path : Result IoError Str
  pub pax_keys : Result IoError (List (Result IoError Str))
  pub mode : Result IoError ℕ
  pub link_name : Result IoError (Option Str)

pub data What : Type 0 where
  file : What
  dir : What
  link : Str → What
  hard : Str → What

pub record Member : Type 0 where
  pub what : What
  pub mode : ℕ
  pub path : Str

-- What stands on disk below the root: links with their targets, and whether a path is a directory.
pub record View : Type 0 where
  pub read_link : Str → Option Str
  pub is_dir : Str → Option Bool

-- `anon`: an error with no path, which `plan` fills in.
abbrev pub anon {ℓ} : {A : Type ℓ} → Result IoError A → Result Error A
anon r = map_err (λ e. Error.io [] e) r

abbrev pub refuse {ℓ} : {A : Type ℓ} → Str → String → Result Error A
refuse path why = err (Error.archive path why)

abbrev pub Made : Type 0
Made = List (Str × Str)

unfoldable pub resolve_or : View → Str → Bool → Made → Str → Result Error Str
resolve_or v path follow_final made blame =
    map_err (λ why. Error.archive blame why) (resolve v.read_link path follow_final made)

if_xattr {ℓ} : {A : Type ℓ} → Str → A → A → A
unfolding starts_with
if_xattr key refused rest =
    if starts_with key (codes "SCHILY.xattr.") || starts_with key (codes "LIBARCHIVE.xattr.")
    then refused
    else rest

-- The loop over the pax records.
unfoldable pub check_pax : Str → List (Result IoError Str) → Result Error (Unit {0})
unfolding if_xattr
check_pax path [] = ok tt
check_pax path (k ∷ ks) = do
  key ← anon k
  if_xattr key (refuse path "carries an xattr record") (check_pax path ks)

link_of : Str → Header → Result Error Str
link_of path h = do t ← anon h.link_name; ok_or t (Error.archive path "link with no target")

hard_of : View → Made → Str → Header → Result Error What
unfolding link_of
hard_of v made path h = do
  t ← link_of path h
  tidied ← map_err (λ why. Error.archive path why) (tidy t)
  t' ← ok_or tidied (Error.archive path "hard link with an empty target")
  landed ← resolve_or v t' false made t'
  ok (hard landed)

-- The `match kind`: nothing for a header that only carries names, else what to make, and whether a
-- link at the last component is followed.
unfoldable pub what_of :
    View → Made → Str → Header → EntryType → Result Error (Option (What × Bool))
unfolding link_of hard_of
what_of v made path h regular = ok (some (file, false))
what_of v made path h continuous = ok (some (file, false))
what_of v made path h directory = ok (some (dir, true))
what_of v made path h symlink = do t ← link_of path h; ok (some (link t, false))
what_of v made path h hard_link = do w ← hard_of v made path h; ok (some (w, false))
what_of v made path h xheader = ok none
what_of v made path h xglobal_header = ok none
what_of v made path h gnu_long_name = ok none
what_of v made path h gnu_long_link = ok none
what_of v made path h other_type = refuse path "not a file, directory, symlink or hard link"

abbrev pub what_is_dir : What → Bool
what_is_dir file = false
what_is_dir dir = true
what_is_dir (link t) = false
what_is_dir (hard t) = false

-- Rename puts nothing over a directory, and mkdir none over a file.
unfoldable pub check_trade : View → What → Str → Result Error (Unit {0})
check_trade v w landed = elim (v.is_dir landed) [
  | none ↦ ok tt
  | some d ↦
      if (if d then not (what_is_dir w) else what_is_dir w)
      then refuse landed "a directory and a non-directory would trade places"
      else ok tt
]

unfoldable pub place : View → Made → Str → ℕ → Option (What × Bool) → Result Error (Option Member)
unfolding check_trade
place v made path mode none = ok none
place v made path mode (some (w, follow_final)) = do
  landed ← resolve_or v path follow_final made path
  check_trade v w landed
  ok (some (record { what = w; mode = mode; path = landed }))

-- A header with a path.
unfoldable pub named_member : View → Made → Header → Str → Result Error (Option Member)
unfolding check_pax
named_member v made h path = do
  keys ← anon h.pax_keys
  check_pax path keys
  mode ← anon h.mode
  w ← what_of v made path h h.entry_type
  place v made path mode w

-- `tar c .` emits ./ for the tree root.
unfoldable pub root_member : EntryType → Str → Result Error (Option Member)
root_member directory raw = ok none
root_member _ raw = refuse raw "empty path"

-- One round of the loop, up to the call of `each`.
unfoldable pub member_of : View → Made → Header → Result Error (Option Member)
unfolding root_member named_member
member_of v made h = do
  raw ← anon h.raw_path
  tidied ← map_err (λ why. Error.archive raw why) (tidy raw)
  elim tidied [ none ↦ root_member h.entry_type raw | some path ↦ named_member v made h path ]

-- The links that the archive makes, before they exist on disk.
abbrev pub remember : Member → Made → Made
remember m made = elim m.what [
  | file ↦ made
  | dir ↦ made
  | link t ↦ (m.path, t) ∷ made
  | hard t ↦ made
]

-- One walk, two callers: `each` changes what is on disk.
module _ {S : Type 0} (view : S → View) (each : S → Header → Member → Result Error S) where
  unfoldable pub walk_entries :
      List (Result IoError Header) → Made → S → Result Error (List Member × S)
  walk_entries [] made s = ok ([], s)
  walk_entries (e ∷ es) made s = do
    h ← anon e
    m ← member_of (view s) made h
    elim m [
      | none ↦ walk_entries es made s
      | some m' ↦ do
        s' ← each s h m'
        (ms, s'') ← walk_entries es (remember m' made) s'
        ok (m' ∷ ms, s'')
    ]

last_path : List Member → Str
last_path [] = []
last_path (m ∷ []) = m.path
last_path (m ∷ n ∷ ms) = last_path (n ∷ ms)

-- A tar ends in a block of zeros; one that was cut at a boundary does not.
unfoldable pub check_end : ℕ → List Member → Result Error (Unit {0})
unfolding last_path
check_end end_zeros ms =
    if ltb end_zeros 512
    then refuse (last_path ms) "the tar stops here with no end block, cut off"
    else ok tt

-- `walk`, where `end_zeros` is what `Ends` counted by the end.
module _ {S : Type 0} (view : S → View) (each : S → Header → Member → Result Error S) where
  unfoldable pub walk : List (Result IoError Header) → ℕ → S → Result Error (List Member × S)
  unfolding check_end walk_entries
  walk es end_zeros s = do
    (ms, s') ← walk_entries view each es [] s
    check_end end_zeros ms
    ok (ms, s')

-- `plan_reader`: nothing is applied.
unfoldable pub plan_reader : View → List (Result IoError Header) → ℕ → Result Error (List Member)
unfolding walk
plan_reader v es end_zeros = do
  (ms, u) ← walk {S = Unit {0}} (λ _. v) (λ s _ _. ok s) es end_zeros tt
  ok ms

-- `plan`: what the crates ruzstd and tar unpack, or the error of opening it; an error with no path gets
-- the archive's.
abbrev pub blamed : Str → Error → Error
blamed archive (Error.io [] e) = Error.io archive e
blamed archive e = e

unfoldable pub plan :
    View → Result Error (List (Result IoError Header) × ℕ) → Str → Result Error (List Member)
unfolding plan_reader
plan v unpacked archive = do
  (headers, end_zeros) ← unpacked
  map_err (blamed archive) (plan_reader v headers end_zeros)
