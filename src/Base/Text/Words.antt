-- ===== src/Base/Text/Words.antt =====
-- `split_whitespace` reads back words that were written with single spaces, and gives words only.
use kiry.Base.Tests.{nat_eq, Bool-cases}
use kiry.Base.Lists.{All}
use kiry.Base.Text.{Str, space, words_from, split_whitespace, is_whitespace}
use mathlib.Core.Path.{◌≡◌, refl, sym, ◌∙◌, ap}
use mathlib.Core.Bool.{false}
use mathlib.Core.Logic.{◌≢◌, inl, inr}
use mathlib.Core.List.{[], ◌∷◌, ◌++◌, append-nil, append_assoc}

abbrev pub Solid : Str → Type 0
Solid = All (λ c. is_whitespace c ≡ false)

-- A word: not empty, and with no whitespace in it.
abbrev pub IsWord : Str → Type 0
IsWord w = (w ≢ []) × Solid w

words_from-append :
    (w rest cur : Str) → Solid w → words_from (w ++ rest) cur ≡ words_from rest (cur ++ w)
unfolding words_from
words_from-append [] rest cur h = rw append-nil
words_from-append (c ∷ w) rest cur (hc, hw) =
    rw (hc, words_from) (rw (words_from-append w rest (cur ++ c ∷ []) hw, append_assoc))

words_from-space : (w rest : Str) → w ≢ [] → words_from (space ∷ rest) w ≡ w ∷ words_from rest []
unfolding words_from
words_from-space [] rest h = absurd (h refl)
words_from-space (c ∷ w) rest h = refl

words_from_end : (w : Str) → w ≢ [] → words_from [] w ≡ w ∷ []
unfolding words_from
words_from_end [] h = absurd (h refl)
words_from_end (c ∷ w) h = refl

pub split_whitespace-cons :
    (w rest : Str) → IsWord w → split_whitespace (w ++ space ∷ rest) ≡ w ∷ split_whitespace rest
unfolding split_whitespace
split_whitespace-cons w rest (full, solid) =
    words_from-append w (space ∷ rest) [] solid ∙ words_from-space w rest full

pub split_whitespace_one : (w : Str) → IsWord w → split_whitespace w ≡ w ∷ []
unfolding split_whitespace
split_whitespace_one w (full, solid) =
    ap (λ t. words_from t []) (sym (append-nil w))
    ∙ words_from-append w [] [] solid
    ∙ words_from_end w full

Solid-append : (a b : Str) → Solid a → Solid b → Solid (a ++ b)
Solid-append [] b _ h = h
Solid-append (c ∷ a) b (hc, ha) h = (hc, Solid-append a b ha h)

words_from-IsWord : (s cur : Str) → Solid cur → All IsWord (words_from s cur)
unfolding words_from
words_from-IsWord [] [] h = tt
words_from-IsWord [] (c ∷ cur) h = ((λ e. cc, h), tt)
words_from-IsWord (c ∷ s) [] h = elim (Bool-cases (is_whitespace c)) [
  | inl e ↦ rw (e, words_from) (words_from-IsWord s [] tt)
  | inr e ↦ rw (e, words_from) (words_from-IsWord s (c ∷ []) (e, tt))
]
words_from-IsWord (c ∷ s) (d ∷ cur) h = elim (Bool-cases (is_whitespace c)) [
  | inl e ↦ rw (e, words_from) ((λ e'. cc, h), words_from-IsWord s [] tt)
  | inr e ↦
      rw (e, words_from)
        (words_from-IsWord s (d ∷ (cur ++ c ∷ [])) (h.0, Solid-append cur (c ∷ []) h.1 (e, tt)))
]

pub split_whitespace-IsWord : (s : Str) → All IsWord (split_whitespace s)
unfolding split_whitespace
split_whitespace-IsWord s = words_from-IsWord s [] tt
