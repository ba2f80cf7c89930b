-- ===== src/Install/Os.antt =====
-- What the operating system does for crates/kiry-core/src/install.rs through the crate rustix, and the
-- digest of the crate sha2: parameters of the model, over a state of the installed files.
use kiry.Base.{
  ℕ, List, Bool, Option, none, some, [], Result, ok, err, map_err, if◌then◌else◌, is_empty,
}
use kiry.Base.Text.{Str, codes, slash, rcut}
use kiry.Error.{IoError, hex}

pub data Errno : Type 0 where
  noent : Errno
  errno : ℕ → Errno

-- An opened file, as what a read to its end gives.
abbrev pub Handle : Type 0
Handle = Result IoError (List ℕ)

pub record Os : Type 1 where
  pub State : Type 0
  pub Fd : Type 0
  -- `rustix::fs::open` of the root.
  pub open_root : State → Result IoError (Unit {0})
  -- `archive::beneath`: a directory opened below the root.
  pub beneath : State → Str → Option Fd
  -- `openat` with NOFOLLOW.
  pub openat : State → Fd → Str → Result Errno Handle
  pub readlinkat : State → Fd → Str → Result Errno Str
  -- `unlinkat`, as a directory or not; it may fail, and the state is then the same.
  pub unlinkat : State → Fd → Str → Bool → State
  -- `Sha256::digest`
  pub digest : List ℕ → List ℕ

-- The parent and the last component of a path below the root.
unfoldable pub split : Str → Str × Str
unfolding rcut
split path = elim (rcut slash path) [ none ↦ ([], path) | some (before, behind) ↦ (before, behind) ]

-- The directory in which the last component stands; the root itself is ".".
abbrev pub parent_of : Str → Str
parent_of path = if is_empty (split path).0 then codes "." else (split path).0

abbrev pub leaf_of : Str → Str
leaf_of path = (split path).1

module _ (os : Os) where
  open os use {State, Fd, openat, digest}

  -- `sha256`
  unfoldable pub sha256 : Handle → Result IoError Str
  unfolding hex
  sha256 (ok bytes) = ok (hex (digest bytes))
  sha256 (err e) = err e

  unfoldable pub hash : State → Fd → Str → Result Errno Str
  unfolding sha256
  hash s fd name = elim (openat s fd name) [
    | ok f ↦ map_err (λ _. errno 5) (sha256 f)
    | err e ↦ err e
  ]
