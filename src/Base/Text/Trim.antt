-- ===== src/Base/Text/Trim.antt =====
-- `trim` leaves what is not whitespace, and leaves alone a text that begins and ends with such.
use kiry.Base.Tests.{nat_eq, Bool-cases}
use kiry.Base.Lists.{is_empty}
use kiry.Base.Text.{Str, trim, trim_start, trim_end, is_whitespace}
use kiry.Base.Text.Words.{IsWord, Solid}
use Prim.Native.Nat.{ℕ}
use mathlib.Core.Path.{◌≡◌, refl, sym, ◌∙◌, ap}
use mathlib.Core.Bool.{Bool, false}
use mathlib.Core.Logic.{inl, inr}
use mathlib.Core.List.{[], ◌∷◌, ◌++◌, append-nil, append_assoc}
use native.Mathlib.Omega.{arith}

module _ (p : ℕ → Bool) where
  trim_end-full : (a b : Str) (c : ℕ) → p c ≡ false → is_empty (trim_end p (a ++ c ∷ b)) ≡ false
  unfolding trim_end
  trim_end-full [] b c h = ground arith
  trim_end-full (d ∷ a) b c h = ground (arith, trim_end-full a b c h)

  trim_start-full :
      (a b : Str) (c : ℕ) → p c ≡ false → is_empty (trim_end p (trim_start p (a ++ c ∷ b))) ≡ false
  unfolding trim_start
  trim_start-full [] b c h = rw h (trim_end-full [] b c h)
  trim_start-full (d ∷ a) b c h = elim (Bool-cases (p d)) [
    | inl e ↦ rw e (trim_start-full a b c h)
    | inr e ↦ rw e (trim_end-full (d ∷ a) b c h)
  ]

  -- A text whose last character stays.
  trim_end-append :
      (a b : Str) → is_empty b ≡ false → trim_end p b ≡ b → trim_end p (a ++ b) ≡ a ++ b
  unfolding trim_end
  trim_end-append [] b _ h = h
  trim_end-append (d ∷ a) [] full h = absurd (cc)
  trim_end-append (d ∷ []) (c ∷ b) full h = rw h
  trim_end-append (d ∷ e ∷ a) (c ∷ b) full h = rw (trim_end-append (e ∷ a) (c ∷ b) full h)

pub trim-full : (a b : Str) (c : ℕ) → is_whitespace c ≡ false → is_empty (trim (a ++ c ∷ b)) ≡ false
unfolding trim
trim-full a b c h = trim_start-full is_whitespace a b c h

trim_end-Solid : (w : Str) → Solid w → trim_end is_whitespace w ≡ w
unfolding trim_end
trim_end-Solid [] _ = refl
trim_end-Solid (c ∷ w) (hc, hw) = rw (trim_end-Solid w hw, hc) (ground arith)

-- A text that begins with a word and ends with one.
trim_start-word : (w rest : Str) → IsWord w → trim_start is_whitespace (w ++ rest) ≡ w ++ rest
unfolding trim_start
trim_start-word [] rest h = absurd (h.0 refl)
trim_start-word (c ∷ w) rest h = rw (h.1.0)

pub trim-between : (w mid v : Str) → IsWord w → IsWord v → trim (w ++ (mid ++ v)) ≡ w ++ (mid ++ v)
unfolding trim
trim-between w mid [] h k = absurd (k.0 refl)
trim-between w mid (c ∷ v) h k =
    rw (trim_start-word w (mid ++ (c ∷ v)) h, ← append_assoc w mid (c ∷ v))
      (trim_end-append is_whitespace (w ++ mid) (c ∷ v) refl (trim_end-Solid (c ∷ v) k.1))

pub trim-word : (w : Str) → IsWord w → trim w ≡ w
unfolding trim
trim-word w h =
    ap (λ t. trim_end is_whitespace (trim_start is_whitespace t)) (sym (append-nil w))
    ∙ rw (trim_start-word w [] h, append-nil) (trim_end-Solid w h.1)
