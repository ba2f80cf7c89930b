-- ===== src/Disk.antt =====
-- The file system as `std::fs` shows it to the library: what stands at each path, newest entry
-- first. The program makes the directories above a file before it writes the file, so a write
-- does not ask for them here. A path that the system refuses carries its error.
use kiry.Base.{
  List, [], ◌∷◌, ◌++◌, Bool, true, false, not, ◌&&◌, ◌||◌, Option, none, some, ◌==◌, list_eq,
  nat_eq, ltb, lookup, if◌then◌else◌, Result, ok, err, is_empty, ◌>>=◌,
}
use kiry.Base.Text.{Str, slash, begins, rcut, starts_with, ends_with}
use kiry.Error.{IoError, not_found, other}

pub data Node : Type 0 where
  file : Str → Node
  folder : Node
  denied : IoError → Node

abbrev pub Disk : Type 0
Disk = List (Str × Node)

-- `EISDIR` and `ENOTDIR`.
abbrev pub is_a_directory : IoError
is_a_directory = other 21

abbrev pub not_a_directory : IoError
not_a_directory = other 20

unfoldable pub unset : Str → Disk → Disk
unset p [] = []
unset p ((q, n) ∷ d) = let rest = unset p d in if q == p then rest else (q, n) ∷ rest

unfoldable pub set : Str → Node → Disk → Disk
unfolding unset
set p n d = (p, n) ∷ unset p d

-- `Path::join`: an absolute path replaces what it is joined to, and a slash at the end is not doubled.
unfoldable pub path_join : Str → Str → Str
unfolding ends_with
path_join d n =
    if begins slash n
    then n
    else if is_empty d || ends_with d (slash ∷ [])
    then d ++ n
    else d ++ (slash ∷ n)

unfoldable pub read_to_string : Disk → Str → Result IoError Str
unfolding lookup
read_to_string d p = elim (lookup p d) [
  | none ↦ err not_found
  | some (file s) ↦ ok s
  | some folder ↦ err is_a_directory
  | some (denied e) ↦ err e
]

unfoldable pub write : Disk → Str → Str → Result IoError Disk
unfolding lookup set
write d p body = elim (lookup p d) [
  | none ↦ ok (set p (file body) d)
  | some (file s) ↦ ok (set p (file body) d)
  | some folder ↦ err is_a_directory
  | some (denied e) ↦ err e
]

-- `fs::rename` of a file.
unfoldable pub rename : Disk → Str → Str → Result IoError Disk
unfolding read_to_string write unset
rename d p q = do s ← read_to_string d p; d' ← write d q s; ok (unset p d')

unfoldable pub remove_file : Disk → Str → Result IoError Disk
unfolding lookup unset
remove_file d p = elim (lookup p d) [
  | none ↦ err not_found
  | some (file s) ↦ ok (unset p d)
  | some folder ↦ err is_a_directory
  | some (denied e) ↦ err e
]

-- The path and the directories above it, the highest first.
dirs_from : Str → Str → List Str
dirs_from [] cur = cur ∷ []
dirs_from (c ∷ s) cur =
    let rest = dirs_from s (cur ++ c ∷ []) in
    if c == slash && not (is_empty cur) then cur ∷ rest else rest

mkdirs : Disk → List Str → Result IoError Disk
unfolding lookup set
mkdirs d [] = ok d
mkdirs d (p ∷ ps) = elim (lookup p d) [
  | none ↦ mkdirs (set p folder d) ps
  | some (file s) ↦ err not_a_directory
  | some folder ↦ mkdirs d ps
  | some (denied e) ↦ err e
]

unfoldable pub create_dir_all : Disk → Str → Result IoError Disk
unfolding mkdirs dirs_from
create_dir_all d p = mkdirs d (dirs_from p [])

unfoldable pub is_dir : Disk → Str → Bool
unfolding lookup
is_dir d p = elim (lookup p d) [
  | none ↦ false
  | some (file s) ↦ false
  | some folder ↦ true
  | some (denied e) ↦ false
]

unfoldable pub without_tree : Str → Disk → Disk
without_tree p [] = []
without_tree p ((q, n) ∷ d) =
    let rest = without_tree p d in
    if q == p then rest else if starts_with q (p ++ (slash ∷ [])) then rest else (q, n) ∷ rest

unfoldable pub remove_dir_all : Disk → Str → Result IoError Disk
unfolding lookup without_tree starts_with
remove_dir_all d p = elim (lookup p d) [
  | none ↦ err not_found
  | some (file s) ↦ err not_a_directory
  | some folder ↦ ok (without_tree p d)
  | some (denied e) ↦ err e
]

-- Rust's order of texts.
unfoldable pub str_leb : Str → Str → Bool
str_leb [] t = true
str_leb (c ∷ s) [] = false
str_leb (c ∷ s) (e ∷ t) = if ltb c e then true else if c == e then str_leb s t else false

insert_name : Str → List Str → List Str
insert_name n [] = n ∷ []
insert_name n (m ∷ ms) = let rest = insert_name n ms in if str_leb n m then n ∷ m ∷ ms else m ∷ rest

-- `sort` of names.
unfoldable pub sort_names : List Str → List Str
unfolding insert_name str_leb
sort_names [] = []
sort_names (n ∷ ns) = insert_name n (sort_names ns)

-- The name under which a path stands in a directory, if it stands there.
name_in : Str → Str → Option Str
name_in p q = elim (rcut slash q) [
  | none ↦ none
  | some (before, behind) ↦ if before == p then some behind else none
]

names_of : Str → Disk → List Str
names_of p [] = []
names_of p ((q, n) ∷ d) = elim (name_in p q) [
  | none ↦ names_of p d
  | some name ↦ name ∷ names_of p d
]

-- `read_dir`, the names only.
unfoldable pub read_dir : Disk → Str → Result IoError (List Str)
unfolding lookup names_of name_in rcut
read_dir d p = elim (lookup p d) [
  | none ↦ err not_found
  | some (file s) ↦ err not_a_directory
  | some folder ↦ ok (names_of p d)
  | some (denied e) ↦ err e
]

unfoldable pub is_file : Disk → Str → Bool
unfolding lookup
is_file d p = elim (lookup p d) [
  | none ↦ false
  | some (file s) ↦ true
  | some folder ↦ false
  | some (denied e) ↦ false
]
