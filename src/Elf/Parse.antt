-- ===== src/Elf/Parse.antt =====
-- crates/kiry-core/src/elf.rs, `parse`: the headers, the dynamic section and what it points at.
use kiry.Base.{
  ℕ, zero, suc, ◌+◌, ◌-◌, ◌*◌, ◌/◌, max, List, [], ◌∷◌, ◌++◌, Bool, true, false, not, ◌&&◌, Option,
  none, some, ◌==◌, nat_eq, list_eq, ltb, leb, is_empty, take, drop, get_elem?, if◌then◌else◌,
  Result, ok, ok_or, ◌>>=◌, ◌>>◌, String, guard, traverse,
}
use kiry.Base.Text.{Str}
use kiry.Elf.Words.{
  get_from, get_to, from_le_bytes, u16at, u32at, u64at, checked, at, offset_of, string,
}
use kiry.Elf.Compare.{Sym}
use kiry.Elf.Tables.{Loads, VersionName, mapped, count, versions, symbols_from}

pub record Elf : Type 0 where
  pub soname : Option Str
  pub needed : List Str
  pub rpath : Option Str
  pub runpath : Option Str
  pub exports : List Sym
  pub undefined : List Sym
  pub versioned : Bool
  pub interp : Bool

-- `Elf::default()`
abbrev pub nothing : Elf
nothing = record {
  soname = none;
  needed = [];
  rpath = none;
  runpath = none;
  exports = [];
  undefined = [];
  versioned = false;
  interp = false;
}

-- An `Option` that is looked up where it is there, as by `transpose`.
abbrev each {ℓ κ μ} :
    {A : Type ℓ} {B : Type κ} {E : Type μ} → (A → Result E B) → Option A → Result E (Option B)
each f none = ok none
each f (some a) = do b ← f a; ok (some b)

-- `symbols`
unfoldable pub symbols :
    List ℕ
    → Loads
    → List ℕ
    → List VersionName
    → Option ℕ
    → Option ℕ
    → Option ℕ
    → Option ℕ
    → Option ℕ
    → Option ℕ
    → Result String (List Sym × List Sym)
unfolding mapped count symbols_from
symbols b loads strs names none syment hash gnu versym table_end = ok ([], [])
symbols b loads strs names (some addr) syment hash gnu versym table_end = do
  entsize ← at (elim syment [ none ↦ 24 | some n ↦ n ])
  guard (leb 24 entsize) "symbol entries too small to be ones"
  offset ← offset_of loads addr
  start ← at offset
  counted ← count b loads hash gnu
  let n = max counted (elim table_end [ none ↦ 0 | some e ↦ (e - start) / entsize ])
  rest ← ok_or (get_from b start) "symbol table runs past the end of the file"
  size ← ok_or (checked (n * entsize)) "symbol table runs past the end of the file"
  table ← ok_or (get_to rest size) "symbol table runs past the end of the file"
  vers ← each (λ a. mapped b loads a "versym past the end of the file") versym
  symbols_from strs names vers entsize table 0 n

-- What the program headers say.
pub record Headers : Type 0 where
  pub loads : Loads
  pub dynamic : Option (ℕ × ℕ)
  pub interp : Bool

-- `PT_LOAD`, `PT_DYNAMIC` and `PT_INTERP`.
add_header : ℕ → ℕ → ℕ → ℕ → Headers → Headers
add_header kind offset vaddr filesz h =
    if kind == 1
    then record h { loads = h.loads ++ (vaddr, (filesz, offset)) ∷ [] }
    else if kind == 2
    then record h { dynamic = some (offset, filesz) }
    else if kind == 3
    then record h { interp = true }
    else h

-- The loop over the program headers, the next one the `i`th.
unfoldable pub headers : List ℕ → ℕ → ℕ → ℕ → ℕ → Headers → Result String Headers
unfolding add_header
headers b phoff phentsize i zero h = ok h
headers b phoff phentsize i (suc n) h = do
  start ← ok_or (checked (phoff + i * phentsize)) "program headers start past the end of memory"
  rest ← ok_or (get_from b start) "program headers run past the end of the file"
  ph ← ok_or (get_to rest phentsize) "program headers run past the end of the file"
  offset ← ok_or (u64at ph 8) "short program header"
  vaddr ← ok_or (u64at ph 16) "short program header"
  filesz ← ok_or (u64at ph 32) "short program header"
  kind ← ok_or (u32at ph 0) "short program header"
  headers b phoff phentsize (i + 1) n (add_header kind offset vaddr filesz h)

-- The entries of the dynamic section up to `DT_NULL`, by tag.
unfoldable pub tags : List ℕ → ℕ → List (ℕ × ℕ)
tags entries zero = []
tags entries (suc n) =
    let tag = from_le_bytes (take 8 entries) in
    let rest = tags (drop 16 entries) n in
    if tag == 0 then [] else (tag, from_le_bytes (take 8 (drop 8 entries))) ∷ rest

-- The last value of a tag.
unfoldable pub tagged : ℕ → List (ℕ × ℕ) → Option ℕ
tagged tag [] = none
tagged tag ((t, v) ∷ ts) = elim (tagged tag ts) [
  | some w ↦ some w
  | none ↦ if t == tag then some v else none
]

all_tagged : ℕ → List (ℕ × ℕ) → List ℕ
all_tagged tag [] = []
all_tagged tag ((t, v) ∷ ts) = let rest = all_tagged tag ts in if t == tag then v ∷ rest else rest

or_zero : Option ℕ → ℕ
or_zero none = 0
or_zero (some n) = n

abbrev missing : Option ℕ → Bool
missing none = true
missing (some v) = false

-- The least of the addresses behind the symbol table, where that must end.
unfoldable pub next_address : ℕ → List (Option ℕ) → Option ℕ
next_address s [] = none
next_address s (none ∷ addrs) = next_address s addrs
next_address s (some a ∷ addrs) = elim (next_address s addrs) [
  | none ↦ if ltb s a then some a else none
  | some m ↦ if ltb s a then some (if leb a m then a else m) else some m
]

behind : Option ℕ → List (Option ℕ) → Option ℕ
behind none addrs = none
behind (some s) addrs = next_address s addrs

-- The part of `parse` behind the loop over the dynamic section.
unfoldable pub from_tags : List ℕ → Headers → List (ℕ × ℕ) → Result String Elf
unfolding tagged all_tagged or_zero behind next_address string symbols versions
from_tags b h ts = do
  let needed = all_tagged 1 ts
  let soname = tagged 14 ts
  let rpath = tagged 15 ts
  let runpath = tagged 29 ts
  let symtab = tagged 6 ts
  let hash = tagged 4 ts
  let gnu_hash = tagged 1879047925 ts
  let versym = tagged 1879048176 ts
  let verdef = tagged 1879048188 ts
  let verneed = tagged 1879048190 ts
  elim (is_empty needed && missing soname && missing rpath && missing runpath && missing symtab) [
    | true ↦ ok nothing
    | false ↦ (do
      strtab_at ← ok_or (tagged 5 ts) "names to look up but no string table"
      strtab_offset ← offset_of h.loads strtab_at
      strtab ← at strtab_offset
      table_end ←
          each (λ a. (do offset ← offset_of h.loads a; at offset))
            (behind symtab (some strtab_at ∷ versym ∷ verdef ∷ verneed ∷ hash ∷ gnu_hash ∷ []))
      stated ← ok_or (tagged 10 ts) "a string table of no stated size"
      strsz ← at stated
      rest ← ok_or (get_from b strtab) "string table runs past the end of the file"
      strs ← ok_or (get_to rest strsz) "string table runs past the end of the file"
      names ←
          versions b h.loads strs verdef (or_zero (tagged 1879048189 ts)) verneed
            (or_zero (tagged 1879048191 ts))
      (exports, undefined) ←
          symbols b h.loads strs names symtab (tagged 11 ts) hash gnu_hash versym table_end
      soname_text ← each (string strs) soname
      needed_texts ← traverse (string strs) needed
      rpath_text ← each (string strs) rpath
      runpath_text ← each (string strs) runpath
      ok (record {
        soname = soname_text;
        needed = needed_texts;
        rpath = rpath_text;
        runpath = runpath_text;
        exports = exports;
        undefined = undefined;
        versioned = not (missing verdef);
        interp = h.interp;
      }))
  ]

-- `starts_with(&MAGIC)` and the three tests behind it.
unfoldable pub check_ident : List ℕ → Result String (Unit {0})
check_ident b = do
  guard (take 4 b == (127 ∷ b'E' ∷ b'L' ∷ b'F' ∷ [])) "not an elf"
  guard (elim (get_elem? b 4) [ none ↦ false | some c ↦ c == 2 ]) "not 64 bit"
  guard (elim (get_elem? b 5) [ none ↦ false | some c ↦ c == 1 ]) "not little endian"
  guard (elim (u16at b 18) [ none ↦ false | some m ↦ m == 62 ]) "not x86_64"

-- The dynamic section, where there is one: a static binary has none.
unfoldable pub from_headers : List ℕ → Headers → Result String Elf
unfolding tags from_tags
from_headers b h = elim h.dynamic [
  | none ↦ ok nothing
  | some (dynoff, dynsz) ↦ (do
    start ← at dynoff
    size ← at dynsz
    rest ← ok_or (get_from b start) "dynamic section runs past the end of the file"
    entries ← ok_or (get_to rest size) "dynamic section runs past the end of the file"
    from_tags b h (tags entries (size / 16)))
]

unfoldable pub parse : List ℕ → Result String Elf
unfolding check_ident headers from_headers
parse b = do
  check_ident b
  off ← ok_or (u64at b 32) "truncated elf header"
  phoff ← at off
  phentsize ← ok_or (u16at b 54) "truncated elf header"
  phnum ← ok_or (u16at b 56) "truncated elf header"
  elim (phnum == 0) [
    | true ↦ ok nothing
    | false ↦ (do
      guard (not (phnum == 65535)) "too many program headers to count here"
      guard (leb 56 phentsize) "program header is too small to be one"
      h ← headers b phoff phentsize 0 phnum (record { loads = []; dynamic = none; interp = false })
      from_headers b h)
  ]
