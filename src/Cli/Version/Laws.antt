-- ===== src/Cli/Version/Laws.antt =====
-- What the order of two versions promises.
use kiry.Base.{
  ℕ, zero, suc, ◌+◌, ◌≡◌, refl, subst, sym, ◌↔◌, inl, inr, List, [], ◌∷◌, Bool, true, false, Option,
  none, some, not, ◌==◌, nat_eq, list_eq, list_beq_iff, arith, Bool-cases, Option-cases, ◌≢◌,
}
use kiry.Base.Text.{Str}
use kiry.Disk.{str_leb}
use kiry.Cli.Version.{
  Part, num, sep, text, Order, less, equal, greater, parts, cmp, cmp_text, leftover, decided,
  compare_parts, compare_as, compare, comps, differ, counts, moved, role, roles_of, level_by, Bump,
}

str_eq_refl : (s : Str) → (s == s) ≡ true
str_eq_refl s = (list_beq_iff s s).1 refl

str_eq_sym : (s t : Str) → (s == t) ≡ (t == s)
str_eq_sym [] [] = refl
str_eq_sym [] (d ∷ t) = refl
str_eq_sym (c ∷ s) [] = refl
str_eq_sym (c ∷ s) (d ∷ t) = ground (arith, str_eq_sym s t)

compare_parts_self : (letters : Bool) (xs : List Part) → compare_parts letters xs xs ≡ some equal
unfolding compare_parts decided leftover
compare_parts_self letters [] = refl
compare_parts_self letters (num n ∷ xs) = ground (arith, compare_parts_self letters xs)
compare_parts_self letters (sep ∷ xs) = compare_parts_self letters xs
compare_parts_self letters (text s ∷ xs) =
    ground (arith, compare_parts_self letters xs, str_eq_refl s)

pub compare_as_self : (a : Str) (letters : Bool) → compare_as a a letters ≡ some equal
unfolding compare_as
compare_as_self a letters = compare_parts_self letters (parts a)

unfoldable pub flip : Order → Order
flip less = greater
flip equal = equal
flip greater = less

unfoldable pub flipped : Option Order → Option Order
unfolding flip
flipped none = none
flipped (some o) = some (flip o)

cmp-flip : (p q : ℕ) → cmp q p ≡ flip (cmp p q)
unfolding cmp flip
cmp-flip p q = ground arith

str_leb-flip : (s t : Str) → (s == t) ≡ false → str_leb t s ≡ not (str_leb s t)
unfolding str_leb
str_leb-flip [] [] apart = ground (arith, apart)
str_leb-flip [] (d ∷ t) apart = refl
str_leb-flip (c ∷ s) [] apart = refl
str_leb-flip (c ∷ s) (d ∷ t) apart = elim (Bool-cases (s == t)) [
  | inl e ↦ ground (arith, e, apart)
  | inr e ↦ ground (arith, apart, str_leb-flip s t e)
]

cmp_text-flip : (s t : Str) → cmp_text t s ≡ flip (cmp_text s t)
unfolding cmp_text flip
cmp_text-flip s t = elim (Bool-cases (s == t)) [
  | inl e ↦ ground (arith, e, str_eq_sym s t)
  | inr e ↦ ground (arith, e, str_eq_sym s t, str_leb-flip s t e)
]

decided-flip : (b : Option Bool) → decided less b ≡ flipped (decided greater b)
unfolding decided flipped flip
decided-flip none = refl
decided-flip (some true) = refl
decided-flip (some false) = refl

decided-flip2 : (b : Option Bool) → decided greater b ≡ flipped (decided less b)
unfolding decided flipped flip
decided-flip2 none = refl
decided-flip2 (some true) = refl
decided-flip2 (some false) = refl

compare_parts-flip :
    (letters : Bool) (xs ys : List Part)
    → compare_parts letters ys xs ≡ flipped (compare_parts letters xs ys)
unfolding compare_parts flipped
compare_parts-flip letters [] [] = refl
compare_parts-flip letters [] (y ∷ ys) = decided-flip2 (leftover (y ∷ ys))
compare_parts-flip letters (x ∷ xs) [] = decided-flip (leftover (x ∷ xs))
compare_parts-flip letters (num p ∷ xs) (num q ∷ ys) =
    ground (arith, compare_parts-flip letters xs ys, cmp-flip p q)
compare_parts-flip letters (sep ∷ xs) (sep ∷ ys) = compare_parts-flip letters xs ys
compare_parts-flip letters (text p ∷ xs) (text q ∷ ys) =
    ground (arith, compare_parts-flip letters xs ys, cmp_text-flip p q, str_eq_sym p q)
compare_parts-flip letters (num p ∷ xs) (sep ∷ ys) = refl
compare_parts-flip letters (num p ∷ xs) (text q ∷ ys) = refl
compare_parts-flip letters (sep ∷ xs) (num q ∷ ys) = refl
compare_parts-flip letters (sep ∷ xs) (text q ∷ ys) = refl
compare_parts-flip letters (text p ∷ xs) (num q ∷ ys) = refl
compare_parts-flip letters (text p ∷ xs) (sep ∷ ys) = refl

-- Two versions the other way round compare the other way round, or neither way.
pub compare_as-flip :
    (a b : Str) (letters : Bool) → compare_as b a letters ≡ flipped (compare_as a b letters)
unfolding compare_as
compare_as-flip a b letters = compare_parts-flip letters (parts a) (parts b)

compare_parts-letters :
    (xs ys : List Part) {o : Order}
    → compare_parts false xs ys ≡ some o
    → compare_parts true xs ys ≡ some o
unfolding compare_parts
compare_parts-letters [] [] h = h
compare_parts-letters [] (y ∷ ys) h = h
compare_parts-letters (x ∷ xs) [] h = h
compare_parts-letters (num p ∷ xs) (num q ∷ ys) {o = o} h = elim (Bool-cases (p == q)) [
  | inl e ↦ ground (arith, e, h, compare_parts-letters xs ys {o = o})
  | inr e ↦ ground (arith, e, h)
]
compare_parts-letters (sep ∷ xs) (sep ∷ ys) h = compare_parts-letters xs ys h
compare_parts-letters (text p ∷ xs) (text q ∷ ys) {o = o} h = elim (Bool-cases (p == q)) [
  | inl e ↦ ground (arith, e, h, compare_parts-letters xs ys {o = o})
  | inr e ↦ ground (arith, e, h)
]
compare_parts-letters (num p ∷ xs) (sep ∷ ys) h = h
compare_parts-letters (num p ∷ xs) (text q ∷ ys) h = h
compare_parts-letters (sep ∷ xs) (num q ∷ ys) h = h
compare_parts-letters (sep ∷ xs) (text q ∷ ys) h = h
compare_parts-letters (text p ∷ xs) (num q ∷ ys) h = h
compare_parts-letters (text p ∷ xs) (sep ∷ ys) h = h

-- What the comparison without letters says, the one with letters says too.
pub compare-letters : (a b : Str) {o : Order} → compare a b ≡ some o → compare_as a b true ≡ some o
unfolding compare compare_as
compare-letters a b h = compare_parts-letters (parts a) (parts b) h

-- No component moved.
stays : Option ℕ → Bool
stays none = true
stays (some i) = false

is_equal : Order → Bool
is_equal less = false
is_equal equal = true
is_equal greater = false

leftover-moved_right :
    (i : ℕ) (ys : List Part) {b : Bool}
    → leftover ys ≡ some b
    → stays (moved i [] (comps ys)) ≡ not b
unfolding leftover moved comps counts stays
leftover-moved_right i [] h = ground (arith, h)
leftover-moved_right i (num n ∷ ys) {b = b} h = elim (Option-cases (leftover ys)) [
  | inl e ↦ ground (arith, e, h)
  | inr (c, e) ↦ ground (arith, e, h, leftover-moved_right (i + 1) ys {b = c})
]
leftover-moved_right i (sep ∷ ys) h = leftover-moved_right i ys h
leftover-moved_right i (text s ∷ ys) h = ground (arith, h)

leftover-moved_left :
    (i : ℕ) (xs : List Part) {b : Bool}
    → leftover xs ≡ some b
    → stays (moved i (comps xs) []) ≡ not b
unfolding leftover moved comps counts stays
leftover-moved_left i [] h = ground (arith, h)
leftover-moved_left i (num n ∷ xs) {b = b} h = elim (Option-cases (leftover xs)) [
  | inl e ↦ ground (arith, e, h)
  | inr (c, e) ↦ ground (arith, e, h, leftover-moved_left (i + 1) xs {b = c})
]
leftover-moved_left i (sep ∷ xs) h = leftover-moved_left i xs h
leftover-moved_left i (text s ∷ xs) h = ground (arith, h)

decided-is_equal :
    (o p : Order) (r : Option Bool) (m : Bool)
    → is_equal o ≡ false
    → ((b : Bool) → r ≡ some b → m ≡ not b)
    → decided o r ≡ some p
    → m ≡ is_equal p
unfolding decided is_equal
decided-is_equal o p none m apart same h = ground (arith, h)
decided-is_equal o p (some true) m apart same h = ground (arith, apart, same true refl, h)
decided-is_equal o p (some false) m apart same h = ground (arith, same false refl, h)

compare_parts-moved :
    (letters : Bool) (i : ℕ) (xs ys : List Part) {o : Order}
    → compare_parts letters xs ys ≡ some o
    → stays (moved i (comps xs) (comps ys)) ≡ is_equal o
unfolding compare_parts moved comps differ stays is_equal cmp cmp_text
compare_parts-moved letters i xs [] {o = o} h =
    decided-is_equal greater o (leftover xs) (stays (moved i (comps xs) [])) refl
      (λ b e. leftover-moved_left i xs e) h
compare_parts-moved letters i [] (y ∷ ys) {o = o} h =
    decided-is_equal less o (leftover (y ∷ ys)) (stays (moved i [] (comps (y ∷ ys)))) refl
      (λ b e. leftover-moved_right i (y ∷ ys) e) h
compare_parts-moved letters i (num p ∷ xs) (num q ∷ ys) {o = o} h = elim (Bool-cases (p == q)) [
  | inl e ↦ ground (arith, e, h, compare_parts-moved letters (i + 1) xs ys {o = o})
  | inr e ↦ ground (arith, e, h)
]
compare_parts-moved letters i (sep ∷ xs) (sep ∷ ys) h = compare_parts-moved letters i xs ys h
compare_parts-moved letters i (text p ∷ xs) (text q ∷ ys) {o = o} h = elim (Bool-cases (p == q)) [
  | inl e ↦ ground (arith, e, h, compare_parts-moved letters (i + 1) xs ys {o = o})
  | inr e ↦ ground (arith, e, h)
]
compare_parts-moved letters i (num p ∷ xs) (sep ∷ ys) h = ground (arith, h)
compare_parts-moved letters i (num p ∷ xs) (text q ∷ ys) h = ground (arith, h)
compare_parts-moved letters i (sep ∷ xs) (num q ∷ ys) h = ground (arith, h)
compare_parts-moved letters i (sep ∷ xs) (text q ∷ ys) h = ground (arith, h)
compare_parts-moved letters i (text p ∷ xs) (num q ∷ ys) h = ground (arith, h)
compare_parts-moved letters i (text p ∷ xs) (sep ∷ ys) h = ground (arith, h)

role-named : (i : ℕ) → role (roles_of none) i ≢ none
unfolding role roles_of
role-named zero h = ground (arith, h)
role-named (suc zero) h = ground (arith, h)
role-named (suc (suc zero)) h = ground (arith, h)
role-named (suc (suc (suc i))) h = ground (arith, h)

-- The level of a bump whose first moved component is known.
level_at : Option ℕ → Option Bump
level_at none = none
level_at (some i) = role (roles_of none) i

level_by-at :
    (a b : Str) → level_by false none a b ≡ level_at (moved 0 (comps (parts a)) (comps (parts b)))
unfolding level_by level_at
level_by-at a b = elim (Option-cases (moved 0 (comps (parts a)) (comps (parts b)))) [
  | inl e ↦ ground (arith, e)
  | inr (i, e) ↦ ground (arith, e)
]

level-stays : (m : Option ℕ) (o : Order) → stays m ≡ is_equal o → (level_at m ≡ none) ↔ (o ≡ equal)
unfolding stays is_equal level_at
level-stays none less h = ground (arith, h)
level-stays none equal h = (λ e. refl, λ e. refl)
level-stays none greater h = ground (arith, h)
level-stays (some i) less h = (λ e. absurd (role-named i e), λ e. ground (arith, e))
level-stays (some i) equal h = ground (arith, h)
level-stays (some i) greater h = (λ e. absurd (role-named i e), λ e. ground (arith, e))

-- Two versions that compare at all are equal exactly if no component moved: if a recipe that is not in
-- core and has no scheme finds no level of a bump between them.
pub level_by-equal :
    (a b : Str) (letters : Bool) {o : Order}
    → compare_as a b letters ≡ some o
    → (level_by false none a b ≡ none) ↔ (o ≡ equal)
unfolding compare_as
level_by-equal a b letters {o = o} h =
    subst (λ l. (l ≡ none) ↔ (o ≡ equal)) (sym (level_by-at a b))
      (level-stays (moved 0 (comps (parts a)) (comps (parts b))) o
        (compare_parts-moved letters 0 (parts a) (parts b) h))
