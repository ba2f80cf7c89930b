-- ===== src/Pkg.antt =====
-- crates/kiry-core/src/pkg.rs: versions, dependencies, and the files of one line each.
pub mod Laws
use kiry.Base.{
  ℕ, zero, suc, ◌++◌, List, [], ◌∷◌, map, Bool, true, false, not, ◌&&◌, ◌||◌, Option, none, some,
  ◌==◌, nat_eq, list_eq, keep, is_empty, if◌then◌else◌, Result, ok, err, map_err, ok_or,
}
use kiry.Base.Text.{
  Str, codes, space, hash_sign, split_whitespace, is_whitespace, trim, begins, ends_with,
  lines as str_lines,
}
use kiry.Base.Text.Radix.{digits, from_str_radix, padded}
use kiry.Error
use kiry.Error.{Error, IoError}
use kiry.Disk.{Disk, read_to_string}

pub record Version : Type 0 where
  pub upstream : Str
  pub rev : ℕ

-- `Version::parse`
version_fields : Str → List Str → Result Error Version
version_fields s [] = err (Error.version (trim s))
version_fields s (u ∷ []) = err (Error.version (trim s))
version_fields s (u ∷ r ∷ more) = elim (from_str_radix 10 r) [
  | none ↦ err (Error.version (trim s))
  | some rev ↦ ok (record { upstream = u; rev = rev })
]

unfoldable pub parse_version : Str → Result Error Version
unfolding version_fields
parse_version s = version_fields s (split_whitespace s)

-- `Display for Version`
unfoldable pub show_version : Version → Str
show_version v = v.upstream ++ (space ∷ digits 10 v.rev)

pub record Dep : Type 0 where
  pub name : Str
  pub make : Bool
  pub host : Bool
  pub only : Option Str

-- `Dep::applies`
unfoldable pub applies : Dep → Str → Bool
unfolding ends_with
applies d target = elim d.only [ none ↦ true | some o ↦ ends_with target o ]

kind_word : Dep → Str
kind_word d = if d.make then (if d.host then codes " make" else codes " build") else []

only_word : Option Str → Str
only_word none = []
only_word (some o) = space ∷ o

-- `Display for Dep`
unfoldable pub show_dep : Dep → Str
unfolding kind_word only_word
show_dep d = d.name ++ (kind_word d ++ only_word d.only)

-- Not empty and not a comment, the test of `lines`.
abbrev pub is_entry : Str → Bool
is_entry l = not (is_empty l) && not (begins hash_sign l)

-- The part of `lines` behind the read.
unfoldable pub entries : Str → List Str
entries text = keep is_entry (map trim (str_lines text))

-- `lines`: a file that is not there is empty, and one that cannot be read is an error.
unfoldable pub lines : Disk → Str → Result Error (List Str)
unfolding entries
lines d p = elim (read_to_string d p) [
  | ok text ↦ ok (entries text)
  | err IoError.not_found ↦ ok []
  | err (IoError.other n) ↦ err (Error.io p (IoError.other n))
]

-- The words behind the name: the last kind and the last target that are named.
dep_words : List Str → Option Str → Option Str → Option Str × Option Str
dep_words [] kind only = (kind, only)
dep_words (w ∷ ws) kind only =
    let is_kind = w == codes "make" || w == codes "build" in
    dep_words ws (if is_kind then some w else kind) (if is_kind then only else some w)

dep_of : Str → Option Str × Option Str → Dep
dep_of name (kind, only) =
    let is_make : Bool = elim kind [ none ↦ false | some k ↦ k == codes "make" ] in
    let is_build : Bool = elim kind [ none ↦ false | some k ↦ k == codes "build" ] in
    record { name = name; make = is_make || is_build; host = is_make; only = only }

-- One round of the loop of `depends_from`; a blank line gives nothing.
dep_line : List Str → List Dep → List Dep
dep_line [] out = out
dep_line (name ∷ ws) out = dep_of name (dep_words ws none none) ∷ out

unfoldable pub depends_from : List Str → List Dep
unfolding dep_line dep_of dep_words
depends_from [] = []
depends_from (l ∷ ls) = dep_line (split_whitespace l) (depends_from ls)

unfoldable pub required : Disk → Str → Result Error Str
required d p = elim (read_to_string d p) [
  | ok text ↦ ok text
  | err IoError.not_found ↦ err (Error.required p)
  | err (IoError.other n) ↦ err (Error.io p (IoError.other n))
]
