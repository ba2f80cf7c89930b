-- ===== src/Error.antt =====
-- crates/kiry-core/src/lib.rs: the errors of the library, and `hex`, by which a digest becomes
-- the text that a manifest holds. The digests themselves are the crate sha2's.
use kiry.Base.{ℕ, ◌+◌, ◌-◌, ◌/◌, ◌%◌, String, List, [], ◌∷◌, ltb, if◌then◌else◌}
use kiry.Base.Text.{Str}

-- What of `std::io::Error` the program looks at: whether the kind is `NotFound`.
pub data IoError : Type 0 where
  not_found : IoError
  other : ℕ → IoError

pub data Error : Type 0 where
  io : Str → IoError → Error
  required : Str → Error
  empty : Str → Error
  version : Str → Error
  counts : ℕ → ℕ → Error
  name : Str → Error
  no_package : Str → Error
  manifest : ℕ → String → Error
  bad_path : Str → Error
  archive : Str → String → Error
  elf : Str → String → Error
  refused : List (Str × Str) → List (Str × Str) → Error
  targets : Str → Error
  needed : Str → Str → Error

hex_digit : ℕ → ℕ
hex_digit d = if ltb d 10 then b'0' + d else b'a' + (d - 10)

-- `{:02x}` of each byte.
unfoldable pub hex : List ℕ → Str
unfolding hex_digit
hex [] = []
hex (b ∷ bytes) = hex_digit (b / 16) ∷ hex_digit (b % 16) ∷ hex bytes
