-- ===== src/Elf/Tables.antt =====
-- crates/kiry-core/src/elf.rs, `count`, `versions` and `symbols`: the tables that the dynamic section
-- points at.
use kiry.Base.{
  ℕ, zero, suc, ◌+◌, ◌-◌, ◌*◌, ◌/◌, ◌%◌, ◌^◌, max, List, [], ◌∷◌, ◌++◌, Bool, true, false, ◌&&◌,
  ◌||◌, Option, none, some, ◌==◌, nat_eq, ltb, leb, take, drop, get_elem?, if◌then◌else◌, Result,
  ok, err, ok_or, ◌>>=◌, String,
}
use kiry.Base.Text.{Str}
use kiry.Elf.Words.{get_from, from_le_bytes, u16at, u32at, u64at, at, offset_of, string}
use kiry.Elf.Compare.{Sym}

abbrev pub Loads : Type 0
Loads = List (ℕ × (ℕ × ℕ))

-- The file from where an address is mapped.
unfoldable pub mapped : List ℕ → Loads → ℕ → String → Result String (List ℕ)
mapped b loads addr why = do
  offset ← offset_of loads addr
  start ← at offset
  ok_or (get_from b start) why

u16_or : List ℕ → ℕ → String → Result String ℕ
u16_or t from why = ok_or (u16at t from) why

size_at : List ℕ → ℕ → String → Result String ℕ
size_at t from why = do v ← ok_or (u32at t from) why; at v

-- The largest of the buckets from `from` on.
unfoldable pub last_bucket : List ℕ → ℕ → ℕ → ℕ → Result String ℕ
unfolding size_at
last_bucket t from zero last = ok last
last_bucket t from (suc n) last = do
  v ← size_at t from "short gnu hash buckets"
  last_bucket t (from + 4) n (max last v)

-- The chain of a bucket, four bytes a symbol; the low bit of the last one is set.
unfoldable pub chain : List ℕ → ℕ → Result String ℕ
chain (a ∷ b ∷ c ∷ d ∷ rest) i =
    let later = chain rest (i + 1) in
    if from_le_bytes (a ∷ b ∷ c ∷ d ∷ []) % 2 == 1 then ok (i + 1) else later
chain [] i = err "gnu hash chain runs off the end"
chain (a ∷ []) i = err "gnu hash chain runs off the end"
chain (a ∷ b ∷ []) i = err "gnu hash chain runs off the end"
chain (a ∷ b ∷ c ∷ []) i = err "gnu hash chain runs off the end"

-- The symbols that the GNU hash table sizes; every bucket empty means none past `symoffset`.
unfoldable pub gnu_count : List ℕ → Result String ℕ
unfolding size_at last_bucket chain
gnu_count t = do
  nbuckets ← size_at t 0 "short gnu hash"
  symoffset ← size_at t 4 "short gnu hash"
  bloom ← size_at t 8 "short gnu hash"
  let buckets_at = 16 + bloom * 8
  last ← last_bucket t buckets_at nbuckets 0
  elim (ltb last symoffset) [
    | true ↦ ok symoffset
    | false ↦ chain (drop (buckets_at + nbuckets * 4 + (last - symoffset) * 4) t) last
  ]

unfoldable pub count : List ℕ → Loads → Option ℕ → Option ℕ → Result String ℕ
unfolding mapped gnu_count size_at
count b loads hash (some addr) = do t ← mapped b loads addr "gnu hash past the file"; gnu_count t
count b loads (some addr) none = do
  t ← mapped b loads addr "hash past the file"
  size_at t 4 "short hash table"
count b loads none none = err "a symbol table with no hash table to size it"

-- A version by its index, and whether this file defines it.
abbrev pub VersionName : Type 0
VersionName = ℕ × (Str × Bool)

-- The loop over the definitions; one that describes the file itself (`VER_FLG_BASE`) is no version.
unfoldable pub verdefs : List ℕ → List ℕ → ℕ → ℕ → Result String (List VersionName)
unfolding u16_or size_at
verdefs t strs from zero = ok []
verdefs t strs from (suc n) = do
  flags ← u16_or t (from + 2) "short verdef"
  ndx ← u16_or t (from + 4) "short verdef"
  aux ← size_at t (from + 12) "short verdef"
  next ← size_at t (from + 16) "short verdef"
  here ← elim (flags % 2 == 0) [
    | true ↦ (do
      name ← ok_or (u32at t (from + aux)) "short verdaux"
      s ← string strs name
      ok ((ndx, (s, true)) ∷ []))
    | false ↦ ok []
  ]
  rest ← elim (next == 0) [ true ↦ ok [] | false ↦ verdefs t strs (from + next) n ]
  ok (here ++ rest)

-- The versions that are asked of one other file.
unfoldable pub vernauxes : List ℕ → List ℕ → ℕ → ℕ → Result String (List VersionName)
unfolding u16_or size_at
vernauxes t strs a zero = ok []
vernauxes t strs a (suc n) = do
  other ← u16_or t (a + 6) "short vernaux"
  name ← ok_or (u32at t (a + 8)) "short vernaux"
  anext ← size_at t (a + 12) "short vernaux"
  s ← string strs name
  rest ← elim (anext == 0) [ true ↦ ok [] | false ↦ vernauxes t strs (a + anext) n ]
  ok ((other, (s, false)) ∷ rest)

unfoldable pub verneeds : List ℕ → List ℕ → ℕ → ℕ → Result String (List VersionName)
unfolding u16_or size_at vernauxes
verneeds t strs from zero = ok []
verneeds t strs from (suc n) = do
  cnt ← u16_or t (from + 2) "short verneed"
  aux ← size_at t (from + 8) "short verneed"
  next ← size_at t (from + 12) "short verneed"
  here ← vernauxes t strs (from + aux) cnt
  rest ← elim (next == 0) [ true ↦ ok [] | false ↦ verneeds t strs (from + next) n ]
  ok (here ++ rest)

unfoldable pub versions :
    List ℕ → Loads → List ℕ → Option ℕ → ℕ → Option ℕ → ℕ → Result String (List VersionName)
unfolding mapped verdefs verneeds
versions b loads strs verdef verdefnum verneed verneednum = do
  mine ← elim verdef [
    | none ↦ ok []
    | some addr ↦ (do
      t ← mapped b loads addr "verdef past the end of the file"
      verdefs t strs 0 verdefnum)
  ]
  others ← elim verneed [
    | none ↦ ok []
    | some addr ↦ (do
      t ← mapped b loads addr "verneed past the end of the file"
      verneeds t strs 0 verneednum)
  ]
  ok (mine ++ others)

unfoldable pub name_of : List VersionName → ℕ → Option (Str × Bool)
name_of [] ndx = none
name_of ((k, v) ∷ names) ndx = let rest = name_of names ndx in if k == ndx then some v else rest

-- The version of a symbol and whether it is the default; the high bit of the index says that it is not.
unfoldable pub version_of : List VersionName → ℕ → Option Str × Bool
unfolding name_of
version_of names raw =
    let ndx = raw % 2 ^ 15 in
    let shown = ltb raw (2 ^ 15) in
    elim (leb ndx 1) [
      | true ↦ (none, true)
      | false ↦ elim (name_of names ndx) [
        | some (v, mine) ↦ (some v, mine && shown)
        | none ↦ (none, shown)
      ]
    ]

version_at : Option (List ℕ) → List VersionName → ℕ → Result String (Option Str × Bool)
unfolding version_of u16_or
version_at none names i = ok (none, true)
version_at (some v) names i = do
  raw ← u16_or v (i * 2) "versym is shorter than the symbol table"
  ok (version_of names raw)

-- A symbol and whether it is undefined; nothing for one without a name.
unfoldable pub symbol_named :
    List ℕ
    → List VersionName
    → Option (List ℕ)
    → List ℕ
    → ℕ
    → ℕ
    → Bool
    → Result String (Option (Sym × Bool))
unfolding u16_or version_at
symbol_named strs names vers e i name true = ok none
symbol_named strs names vers e i name false = do
  info ← ok_or (get_elem? e 4) "short symbol"
  shndx ← u16_or e 6 "short symbol"
  size ← ok_or (u64at e 16) "short symbol"
  (version, default) ← version_at vers names i
  s ← string strs name
  let kind = info % 16
  ok (
      some (
        record {
          name = s;
          version = version;
          default = default;
          weak = info / 16 == 2;
          object = kind == 1 || kind == 6;
          size = size;
          kind = kind;
        },
        shndx == 0,
      ))

unfoldable pub symbol_of :
    List ℕ → List VersionName → Option (List ℕ) → List ℕ → ℕ → Result String (Option (Sym × Bool))
unfolding symbol_named
symbol_of strs names vers e i = do
  name ← ok_or (u32at e 0) "short symbol"
  symbol_named strs names vers e i name (name == 0)

put_symbol : Option (Sym × Bool) → List Sym × List Sym → List Sym × List Sym
put_symbol none (exports, undefined) = (exports, undefined)
put_symbol (some (s, true)) (exports, undefined) = (exports, s ∷ undefined)
put_symbol (some (s, false)) (exports, undefined) = (s ∷ exports, undefined)

-- The loop over the entries, of `entsize` bytes each.
unfoldable pub symbols_from :
    List ℕ
    → List VersionName
    → Option (List ℕ)
    → ℕ
    → List ℕ
    → ℕ
    → ℕ
    → Result String (List Sym × List Sym)
unfolding symbol_of put_symbol
symbols_from strs names vers entsize table i zero = ok ([], [])
symbols_from strs names vers entsize table i (suc n) = do
  s ← symbol_of strs names vers (take entsize table) i
  rest ← symbols_from strs names vers entsize (drop entsize table) (i + 1) n
  ok (put_symbol s rest)
