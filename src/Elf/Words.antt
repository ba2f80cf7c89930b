-- ===== src/Elf/Words.antt =====
-- crates/kiry-core/src/elf.rs: reads of numbers and names from the bytes of a file. Every read is
-- checked against the end of the file. The machine has 64 bits, so a `usize` holds what a `u64` holds.
pub mod Laws
use kiry.Base.{
  ℕ, ◌+◌, ◌-◌, ◌*◌, ◌^◌, List, [], ◌∷◌, Bool, true, false, ◌&&◌, ◌||◌, Option, none, some, ◌==◌,
  nat_eq, ltb, leb, length, take, drop, if◌then◌else◌, Result, ok, err, ok_or, ◌>>=◌, ◌>>◌, String,
}
use kiry.Base.Text.{Str}

-- `b.get(from..)`
unfoldable pub get_from : List ℕ → ℕ → Option (List ℕ)
get_from b from = if leb from (length b) then some (drop from b) else none

-- `b.get(..n)`
unfoldable pub get_to : List ℕ → ℕ → Option (List ℕ)
get_to b n = if leb n (length b) then some (take n b) else none

-- `from_le_bytes`
unfoldable pub from_le_bytes : List ℕ → ℕ
from_le_bytes [] = 0
from_le_bytes (c ∷ cs) = c + 256 * from_le_bytes cs

-- `b.get(from..)?.get(..n)?` as a number.
unfoldable pub word_at : ℕ → List ℕ → ℕ → Option ℕ
unfolding get_from get_to from_le_bytes
word_at n b from = elim (get_from b from) [
  | none ↦ none
  | some rest ↦ elim (get_to rest n) [ none ↦ none | some word ↦ some (from_le_bytes word) ]
]

unfoldable pub u16at : List ℕ → ℕ → Option ℕ
unfolding word_at
u16at b from = word_at 2 b from

unfoldable pub u32at : List ℕ → ℕ → Option ℕ
unfolding word_at
u32at b from = word_at 4 b from

unfoldable pub u64at : List ℕ → ℕ → Option ℕ
unfolding word_at
u64at b from = word_at 8 b from

-- What fits in 64 bits, `checked_add` and `checked_mul` among it.
unfoldable pub checked : ℕ → Option ℕ
checked v = if ltb v (2 ^ 64) then some v else none

-- `at`
unfoldable pub at : ℕ → Result String ℕ
unfolding checked
at v = ok_or (checked v) "offset does not fit in this machine"

-- The address, size and offset of each loaded segment.
unfoldable pub offset_of : List (ℕ × (ℕ × ℕ)) → ℕ → Result String ℕ
unfolding checked
offset_of [] addr = err "string table is in no loadable segment"
offset_of ((vaddr, (filesz, offset)) ∷ loads) addr =
    let rest = offset_of loads addr in
    if leb vaddr addr && ltb (addr - vaddr) filesz
    then ok_or (checked (offset + (addr - vaddr))) "segment offset past the end of memory"
    else rest

-- `std::str::from_utf8`: how many bytes of a character are to come, its bits so far, and the least
-- that a character of so many bytes may be.
is_scalar : ℕ → ℕ → Bool
is_scalar c least = leb least c && (ltb c 55296 || (leb 57344 c && leb c 1114111))

utf8_from : List ℕ → ℕ → ℕ → ℕ → Option Str
unfolding is_scalar
utf8_from [] left bits least = if left == 0 then some [] else none
utf8_from (b ∷ bs) left bits least = elim (left == 0) [
  | true ↦ elim (ltb b 128) [
    | true ↦ elim (utf8_from bs 0 0 0) [ none ↦ none | some s ↦ some (b ∷ s) ]
    | false ↦ elim (leb 194 b && ltb b 224) [
      | true ↦ utf8_from bs 1 (b - 192) 128
      | false ↦ elim (leb 224 b && ltb b 240) [
        | true ↦ utf8_from bs 2 (b - 224) 2048
        | false ↦ elim (leb 240 b && ltb b 245) [
          | true ↦ utf8_from bs 3 (b - 240) 65536
          | false ↦ none
        ]
      ]
    ]
  ]
  | false ↦
      let c = bits * 64 + (b - 128) in
      elim (leb 128 b && ltb b 192) [
        | false ↦ none
        | true ↦ elim (left == 1) [
          | false ↦ utf8_from bs (left - 1) c least
          | true ↦ elim (is_scalar c least) [
            | false ↦ none
            | true ↦ elim (utf8_from bs 0 0 0) [ none ↦ none | some s ↦ some (c ∷ s) ]
          ]
        ]
      ]
]

unfoldable pub from_utf8 : List ℕ → Option Str
unfolding utf8_from
from_utf8 b = utf8_from b 0 0 0

-- The bytes before the first zero, if there is one.
unfoldable pub until_zero : List ℕ → Option (List ℕ)
until_zero [] = none
until_zero (c ∷ cs) =
    let rest : Option (List ℕ) = elim (until_zero cs) [ none ↦ none | some s ↦ some (c ∷ s) ] in
    if c == 0 then some [] else rest

unfoldable pub string : List ℕ → ℕ → Result String Str
unfolding at get_from until_zero from_utf8
string strs from = do
  start ← at from
  rest ← ok_or (get_from strs start) "name starts past the string table"
  name ← ok_or (until_zero rest) "name runs off the end of the string table"
  ok_or (from_utf8 name) "name is not utf-8"
