-- ===== src/Db/Manifest.antt =====
-- crates/kiry-core/src/db.rs: the manifest, one line for each thing that a package installed.
pub mod RoundTrip
pub mod Parse
pub mod CarriageReturn
use kiry.Base.{
  ℕ, ◌+◌, ◌++◌, List, [], ◌∷◌, Bool, true, false, not, ◌&&◌, ◌||◌, Option, none, some, ◌==◌, nat_eq,
  list_eq, leb, all, length, is_empty, if◌then◌else◌, Result, ok, err, ok_or, guard, ◌>>=◌, ◌>>◌,
  String,
}
use kiry.Base.Text.{Str, codes, space, newline, slash, has, begins, splitn, lines}
use kiry.Base.Text.Radix.{digits, from_str_radix, padded}
use kiry.Error
use kiry.Error.{Error}

pub data Kind : Type 0 where
  file : Str → Kind
  dir : Kind
  link : Str → Kind
  hard : Str → Kind

pub record Entry : Type 0 where
  pub mode : ℕ
  pub kind : Kind
  pub path : Str

-- `u8::is_ascii_hexdigit`
abbrev pub is_hexdigit : ℕ → Bool
is_hexdigit c =
    (leb b'0' c && leb c b'9') || (leb b'a' c && leb c b'f') || (leb b'A' c && leb c b'F')

-- A text of hexadecimal digits has as many bytes as characters.
unfoldable pub is_sha256 : Str → Bool
is_sha256 h = length h == 64 && all is_hexdigit h

abbrev pub bad {ℓ} : {A : Type ℓ} → ℕ → String → Result Error A
bad n why = err (Error.manifest n why)

-- The `match kind` of `Entry::parse`.
unfoldable pub parse_kind : ℕ → Str → Str → Result Error Kind
unfolding is_sha256
parse_kind n kind third =
    if kind == codes "f"
    then (if is_sha256 third then ok (file third) else bad n "not a sha256")
    else if kind == codes "d"
    then (if third == codes "-" then ok dir else bad n "a directory takes - in field three")
    else if kind == codes "l"
    then ok (link third)
    else if kind == codes "h"
    then ok (hard third)
    else bad n "kind is not one of f d l h"

-- The two tests of the path.
unfoldable pub parse_path : ℕ → Str → Result Error Str
parse_path n path =
    if is_empty path
    then bad n "no path"
    else if begins slash path
    then bad n "path must be relative to the root"
    else ok path

unfoldable pub parse_fields : ℕ → Str → Str → Str → Str → Result Error Entry
unfolding parse_kind parse_path
parse_fields n kind mode third path = do
  m ← ok_or (from_str_radix 8 mode) (Error.manifest n "mode is not octal")
  k ← parse_kind n kind third
  p ← parse_path n path
  ok (record { mode = m; kind = k; path = p })

-- The fields that the destructuring of four `next()` calls asks for.
unfoldable pub with_four : ℕ → List Str → Result Error Entry
unfolding parse_fields
with_four n (kind ∷ mode ∷ third ∷ path ∷ more) = parse_fields n kind mode third path
with_four n [] = bad n "wanted four fields"
with_four n (a ∷ []) = bad n "wanted four fields"
with_four n (a ∷ b ∷ []) = bad n "wanted four fields"
with_four n (a ∷ b ∷ c ∷ []) = bad n "wanted four fields"

-- `Entry::parse`
unfoldable pub parse_entry : Str → ℕ → Result Error Entry
unfolding with_four
parse_entry line n = with_four n (splitn 4 line space)

-- `Display for Entry`
unfoldable pub letter : Kind → Str
letter (file h) = codes "f"
letter dir = codes "d"
letter (link t) = codes "l"
letter (hard t) = codes "h"

unfoldable pub third_field : Kind → Str
third_field (file h) = h
third_field dir = codes "-"
third_field (link t) = t
third_field (hard t) = t

unfoldable pub show_entry : Entry → Str
unfolding letter third_field
show_entry e =
    letter e.kind
    ++ (space ∷ (padded 4 (digits 8 e.mode) ++ (space ∷ (third_field e.kind ++ (space ∷ e.path)))))

-- The loop of `parse_manifest` from line `n` on; an empty line is passed over.
unfoldable pub parse_lines : ℕ → List Str → Result Error (List Entry)
parse_lines n [] = ok []
parse_lines n (l ∷ ls) =
    let rest = parse_lines (n + 1) ls in
    let here = (do e ← parse_entry l n; es ← rest; ok (e ∷ es)) in if is_empty l then rest else here

unfoldable pub parse_manifest : Str → Result Error (List Entry)
unfolding parse_lines
parse_manifest text = parse_lines 1 (lines text)

-- What `format_manifest` asks of one entry before it writes it.
unfoldable pub check_target : Kind → Result Error (Unit {0})
check_target (file h) = ok tt
check_target dir = ok tt
check_target (link t) = if has space t || has newline t then err (Error.bad_path t) else ok tt
check_target (hard t) = if has space t || has newline t then err (Error.bad_path t) else ok tt

unfoldable pub check_entry : Entry → Result Error (Unit {0})
unfolding check_target
check_entry e =
    if is_empty e.path || begins slash e.path || has newline e.path
    then err (Error.bad_path e.path)
    else check_target e.kind

unfoldable pub format_manifest : List Entry → Result Error Str
unfolding check_entry
format_manifest [] = ok []
format_manifest (e ∷ es) = do
  check_entry e
  rest ← format_manifest es
  ok (show_entry e ++ (newline ∷ rest))
