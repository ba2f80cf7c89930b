-- ===== src/Base/Text/Radix.antt =====
-- Unsigned numbers in a radix up to ten: `{}` and `{:o}` with their padding, and
-- `u32::from_str_radix`.
use kiry.Base.Tests.{◌==◌, nat_eq, ltb, leb, if◌then◌else◌, ltb→lt, Bool-cases}
use kiry.Base.Lists.{is_empty, length, All}
use kiry.Base.Text.{Str, begins}
use Prim.Native.Nat.{ℕ, zero, suc, ◌+◌, ◌-◌, ◌*◌, ◌/◌, ◌%◌, ◌^◌, ◌<◌, ◌≤◌}
use mathlib.Core.Path.{◌≡◌, refl, ◌∙◌, ap}
use mathlib.Core.Bool.{false, ◌&&◌}
use mathlib.Core.List.{[], ◌∷◌}
use mathlib.Core.Logic.{◌≢◌, inl, inr}
use mathlib.Core.Option.{Option, none, some}
use native.Mathlib.Omega.{arith}
use native.Mathlib.Nat.{div-add-mod, mod-eq_of_lt, mod-lt}

-- The digits of `n` before `out`. A number below the fuel has no more digits than that.
digits_from : ℕ → ℕ → ℕ → Str → Str
digits_from r zero n out = out
digits_from r (suc f) n out =
    let digit = b'0' + n % r in
    let rest = digits_from r f (n / r) (digit ∷ out) in if ltb n r then digit ∷ out else rest

-- `{}` and `{:o}` of an unsigned number.
unfoldable pub digits : ℕ → ℕ → Str
unfolding digits_from
digits r n = digits_from r (suc n) n []

-- `{:0w}`: zeros in front, up to `w` characters.
pad_by : ℕ → Str → Str
pad_by zero s = s
pad_by (suc k) s = b'0' ∷ pad_by k s

unfoldable pub padded : ℕ → Str → Str
unfolding pad_by
padded w s = pad_by (w - length s) s

abbrev pub u32_max : ℕ
u32_max = 2 ^ 32 - 1

-- The digits of a number, with the overflow checks of `checked_mul` and `checked_add`.
scan : ℕ → Str → ℕ → Option ℕ
scan r [] n = some n
scan r (c ∷ s) n =
    if leb b'0' c && ltb (c - b'0') r
    then (if leb (n * r + (c - b'0')) u32_max then scan r s (n * r + (c - b'0')) else none)
    else none

-- `u32::from_str_radix`: one leading plus is allowed, and a digit must follow.
unfoldable pub from_str_radix : ℕ → Str → Option ℕ
unfolding scan
from_str_radix r [] = none
from_str_radix r (c ∷ s) =
    if c == b'+' then (if is_empty s then none else scan r s 0) else scan r (c ∷ s) 0

module _ (r : ℕ) (two : 2 ≤ r) (ten : r ≤ 10) where
  scan_digit :
      (d : ℕ) (s : Str) (n : ℕ)
      → d < r
      → n * r + d ≤ u32_max
      → scan r ((b'0' + d) ∷ s) n ≡ scan r s (n * r + d)
  unfolding scan
  scan_digit d s n lt fits = ground (arith)

  scan_first :
      (n : ℕ) (out : Str) → n < r → n ≤ u32_max → scan r ((b'0' + n % r) ∷ out) 0 ≡ scan r out n
  scan_first n out lt fits =
      rw (mod-eq_of_lt lt)
        (scan_digit n out 0 lt (omega arith) ∙ ap (λ (t : ℕ). scan r out t) (omega arith))

  div_twice : (n : ℕ) → 2 * (n / r) ≤ n
  div_twice n =
      let q = n / r in
      let wide : 2 * q ≤ r * q = grind arith in omega (arith, wide, div-add-mod n r)

  scan-digits_from :
      (f n : ℕ) (out : Str) → n < f → n ≤ u32_max → scan r (digits_from r f n out) 0 ≡ scan r out n
  unfolding digits_from
  scan-digits_from zero n out h fits = absurd (omega arith)
  scan-digits_from (suc f) n out h fits = elim (Bool-cases (ltb n r)) [
    | inl small ↦ rw small (scan_first n out (ltb→lt n r small) fits)
    | inr big ↦ rw big (
        scan-digits_from f (n / r) ((b'0' + n % r) ∷ out) (ground (arith, ltb→lt n r, div_twice n))
          (omega (arith, div_twice n))
        ∙ grind (arith, scan_digit (n % r) out (n / r), div-add-mod n r))
  ]

  -- What `digits` writes: digits of the radix only, and at least one.
  abbrev pub IsDigit : ℕ → Type 0
  IsDigit c = (b'0' ≤ c) × (c < b'0' + r)

  digits_from-IsDigit :
      (f n : ℕ) (out : Str) → All IsDigit out → All IsDigit (digits_from r f n out)
  unfolding digits_from
  digits_from-IsDigit zero n out h = h
  digits_from-IsDigit (suc f) n out h = elim (Bool-cases (ltb n r)) [
    | inl small ↦ rw (small, All) (grind (arith, mod-lt), h)
    | inr big ↦ rw (big, All) (digits_from-IsDigit f (n / r) _ (grind (arith, mod-lt), h))
  ]

  digits_from-cons : (f n c : ℕ) (out : Str) → digits_from r f n (c ∷ out) ≢ []
  unfolding digits_from
  digits_from-cons zero n c out = λ e. cc
  digits_from-cons (suc f) n c out = elim (Bool-cases (ltb n r)) [
    | inl small ↦ rw small (λ e. cc)
    | inr big ↦ rw big (digits_from-cons f (n / r) (b'0' + n % r) (c ∷ out))
  ]

  digits-ne-nil : (n : ℕ) → digits r n ≢ []
  unfolding digits
  digits-ne-nil n = elim (Bool-cases (ltb n r)) [
    | inl small ↦ rw small (λ e. cc)
    | inr big ↦ rw big (digits_from-cons n (n / r) (b'0' + n % r) [])
  ]

  -- A number is read back from its digits, also with zeros in front.
  pad_by-scan : (k : ℕ) (s : Str) → scan r (pad_by k s) 0 ≡ scan r s 0
  unfolding pad_by
  pad_by-scan zero s = refl
  pad_by-scan (suc k) s =
      scan_digit 0 (pad_by k s) 0 (omega arith) (omega arith)
      ∙ ap (λ (t : ℕ). scan r (pad_by k s) t) (omega arith)
      ∙ pad_by-scan k s

  from_str_radix-scan : (s : Str) → s ≢ [] → begins b'+' s ≡ false → from_str_radix r s ≡ scan r s 0
  unfolding from_str_radix
  from_str_radix-scan [] h p = absurd (h refl)
  from_str_radix-scan (c ∷ s) h p = ground arith

  scan-digits : (n : ℕ) → n ≤ u32_max → scan r (digits r n) 0 ≡ some n
  unfolding digits scan
  scan-digits n fits = scan-digits_from (suc n) n [] (omega arith) fits

  pad_by-ne-nil : (k : ℕ) (s : Str) → s ≢ [] → pad_by k s ≢ []
  unfolding pad_by
  pad_by-ne-nil zero s h = h
  pad_by-ne-nil (suc k) s h = λ e. cc

  pad_by-IsDigit : (k : ℕ) (s : Str) → All IsDigit s → All IsDigit (pad_by k s)
  unfolding pad_by
  pad_by-IsDigit zero s h = h
  pad_by-IsDigit (suc k) s h = (omega arith, pad_by-IsDigit k s h)

  begins-IsDigit : (s : Str) → All IsDigit s → begins b'+' s ≡ false
  begins-IsDigit [] h = refl
  begins-IsDigit (c ∷ s) (h, _) = ground arith

  pub digits-IsDigit : (n : ℕ) → All IsDigit (digits r n)
  unfolding digits
  digits-IsDigit n = digits_from-IsDigit (suc n) n [] tt

  pub padded-IsDigit : (w n : ℕ) → All IsDigit (padded w (digits r n))
  unfolding padded
  padded-IsDigit w n = pad_by-IsDigit _ (digits r n) (digits-IsDigit n)

  pub padded-ne-nil : (w n : ℕ) → padded w (digits r n) ≢ []
  unfolding padded
  padded-ne-nil w n = pad_by-ne-nil _ (digits r n) (digits-ne-nil n)

  -- `from_str_radix` reads a padded number back.
  pub from_str_radix-padded :
      (w n : ℕ) → n ≤ u32_max → from_str_radix r (padded w (digits r n)) ≡ some n
  unfolding padded
  from_str_radix-padded w n fits =
      from_str_radix-scan _ (padded-ne-nil w n) (begins-IsDigit _ (padded-IsDigit w n))
      ∙ pad_by-scan _ (digits r n)
      ∙ scan-digits n fits

  pub digits_word :
      (n : ℕ) → (digits r n ≢ []) × All (λ c. (b'0' ≤ c) × (c < b'0' + r)) (digits r n)
  digits_word n = (digits-ne-nil n, digits-IsDigit n)

  -- `from_str_radix` reads a number back that is written with no padding.
  pub from_str_radix-digits : (n : ℕ) → n ≤ u32_max → from_str_radix r (digits r n) ≡ some n
  from_str_radix-digits n fits =
      from_str_radix-scan _ (digits-ne-nil n) (begins-IsDigit _ (digits-IsDigit n))
      ∙ scan-digits n fits

-- What is read fits 32 bits.
scan-le : (r : ℕ) (s : Str) (n m : ℕ) → n ≤ u32_max → scan r s n ≡ some m → m ≤ u32_max
unfolding scan
scan-le r [] n m fits h = ground arith
scan-le r (c ∷ s) n m fits h = ground (arith, scan-le r s (n * r + (c - b'0')) m)

pub from_str_radix-le : (r : ℕ) (s : Str) (m : ℕ) → from_str_radix r s ≡ some m → m ≤ u32_max
unfolding from_str_radix
from_str_radix-le r [] m h = absurd (cc)
from_str_radix-le r (c ∷ s) m h =
    let signed = scan-le r s 0 m (omega arith) in
    let plain = scan-le r (c ∷ s) 0 m (omega arith) in ground (arith)
