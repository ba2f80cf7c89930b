-- ===== src/Cli/Levels/Plans.antt =====
-- What the rounds of `levels` keep: what is not left was placed, and what is built was asked for by
-- nothing before.
use kiry.Base.{
  ℕ, zero, suc, ◌+◌, ◌≤◌, ◌<◌, ◌≡◌, refl, ap, subst, inl, inr, List, [], ◌∷◌, ◌++◌, map, Bool, true,
  false, not, ◌&&◌, ◌==◌, nat_eq, nat_beq_iff, list_eq, keep, contains, length, arith, Bool-cases,
  All, All-contains, contains-append, contains-keep, any-false, any-true,
}
use kiry.Base.Text.{Str}
use kiry.Cli.Levels.{
  Level, Planned, ordered, cycle, out_of_fuel, ready, starters, waits, without, level_of, before,
  loop, range_from,
}
use kiry.Cli.Levels.Rounds.{measure, loop-Q}

contains-range_from : (i n j : ℕ) → contains (range_from i n) j ≡ true → (i ≤ j) × (j < i + n)
unfolding range_from
contains-range_from i zero j m = absurd (cc m)
contains-range_from i (suc n) j m = elim (Bool-cases (i == j)) [
  | inl same ↦ let e = (nat_beq_iff i j).0 same in (omega (arith, e), omega (arith, e))
  | inr apart ↦
      let (low, high) = contains-range_from (i + 1) n j (ground arith) in
      (omega (arith, low), omega (arith, high))
]

pub range_from-contains : (i n j : ℕ) → i ≤ j → j < i + n → contains (range_from i n) j ≡ true
unfolding range_from
range_from-contains i zero j low high = absurd (omega (arith, low, high))
range_from-contains i (suc n) j low high = elim (Bool-cases (i == j)) [
  | inl same ↦ ground (arith, same)
  | inr apart ↦
      let above : i + 1 ≤ j = ground (arith, apart, nat_beq_iff i j) in
      ground (arith, range_from-contains (i + 1) n j above (omega (arith, high)))
]

pub length-range_from : (i n : ℕ) → length (range_from i n) ≡ n
unfolding range_from
length-range_from i zero = refl
length-range_from i (suc n) = ap suc (length-range_from (i + 1) n)

abbrev indices : Level → List ℕ
indices = map (λ (p : ℕ × Bool). p.0)

-- The packages that the levels build, those that only stand in apart.
abbrev pub built_in : List Level → List ℕ
built_in [] = []
built_in (l ∷ ls) = map (λ (p : ℕ × Bool). p.0) (keep (λ (p : ℕ × Bool). not p.1) l) ++ built_in ls

module _ (needs' : ℕ → ℕ → Bool) (n : ℕ) where
  -- What a package asks for stands in an earlier level, where it was built or stands in.
  abbrev pub AsksBefore : List ℕ → ℕ × Bool → Type 0
  AsksBefore placed (i, stands_in) =
      stands_in ≡ false
      → (j : ℕ) → j < n
      → (j == i) ≡ false
      → needs' i j ≡ true
      → contains placed j ≡ true

  abbrev pub InOrder : List ℕ → List Level → Type 0
  InOrder placed [] = Unit
  InOrder placed (l ∷ ls) =
      All (AsksBefore placed) l × InOrder (map (λ (p : ℕ × Bool). p.0) l ++ placed) ls

  -- What is left over was placed, or stands in.
  abbrev Accounted : List ℕ → List ℕ → List ℕ → Type 0
  Accounted left done placed =
      (j : ℕ)
      → j < n
      → (contains left j && not (contains done j)) ≡ false
      → contains placed j ≡ true

  abbrev pub IsPlan : List ℕ → List ℕ → Planned → Type 0
  IsPlan left done (ordered ls) =
      ((placed : List ℕ) → Accounted left done placed → InOrder placed ls)
      × ((i : ℕ) → contains left i ≡ true → contains (built_in ls) i ≡ true)
  IsPlan left done (cycle names) =
      (left' : List ℕ) × ((i : ℕ) → contains left' i ≡ true → contains left i ≡ true)
      × ((k : ℕ) × (contains left' k ≡ true))
      × ((i : ℕ)
          → contains left' i ≡ true
          → (j : ℕ) × (contains left' j ≡ true) × ((j == i) ≡ false) × (needs' i j ≡ true))
  IsPlan left done out_of_fuel = ⊥

  indices-level_of :
      (boots : ℕ → Bool) (b : Bool) (is : List ℕ) → indices (level_of needs' boots b is) ≡ is
  indices-level_of boots b [] = refl
  indices-level_of boots b (i ∷ is) = ap (λ xs. i ∷ xs) (indices-level_of boots b is)

  built-level_of :
      (boots : ℕ → Bool) (is : List ℕ)
      → indices (keep (λ (p : ℕ × Bool). not p.1) (level_of needs' boots false is)) ≡ is
  built-level_of boots [] = refl
  built-level_of boots (i ∷ is) = ap (λ xs. i ∷ xs) (built-level_of boots is)

  standing-level_of :
      (boots : ℕ → Bool) (is : List ℕ)
      → indices (keep (λ (p : ℕ × Bool). not p.1) (level_of needs' boots true is)) ≡ []
  standing-level_of boots [] = refl
  standing-level_of boots (i ∷ is) = standing-level_of boots is

  All-level_of :
      (boots : ℕ → Bool) (P : ℕ × Bool → Type 0) (b : Bool) (is : List ℕ)
      → All (λ i. P (i, b)) is
      → All P (level_of needs' boots b is)
  All-level_of boots P b [] _ = tt
  All-level_of boots P b (i ∷ is) (h, hs) = (h, All-level_of boots P b is hs)

  module _ (boots : ℕ → Bool) where
    ready-AsksBefore :
        (left done placed : List ℕ)
        → Accounted left done placed
        → All (λ i. AsksBefore placed (i, false)) (ready needs' boots left done)
    unfolding ready waits
    ready-AsksBefore left done placed acc =
        All-contains (ready needs' boots left done) (λ i m _ j below apart asks.
          let free = contains-keep (λ k. not (waits needs' boots left done k)) left i in
          let waits_not : waits needs' boots left done i ≡ false = ground (arith, free, m) in
          acc j below (elim (Bool-cases (contains left j)) [
            | inl there ↦
                let stopped =
                  any-false (λ k. not (k == i) && (not (contains done k) && needs' i k)) left j
                    waits_not there in
                ground (arith, stopped, apart, asks)
            | inr away ↦ rw away refl
          ]))

    built-IsPlan :
        (left done : List ℕ) (i : ℕ) (now : List ℕ) (r : Planned)
        → ready needs' boots left done ≡ i ∷ now
        → IsPlan (without needs' boots left (i ∷ now)) done r
        → IsPlan left done (before needs' boots (level_of needs' boots false (i ∷ now)) r)
    unfolding without
    built-IsPlan left done i now (ordered ls) e (sound, whole) = (
      λ placed acc. (
        All-level_of boots (AsksBefore placed) false (i ∷ now) (
            subst (All (λ k. AsksBefore placed (k, false))) e
              (ready-AsksBefore left done placed acc)),
        rw (indices-level_of boots false now) (
            sound ((i ∷ now) ++ placed) (λ j below gone. ground (
              arith,
              gone,
              acc j below,
              contains-keep (λ k. not (contains (i ∷ now) k)) left j,
              contains-append (i ∷ now) placed j,
            ))),
      ),
      λ k m. rw (built-level_of boots now) (
          ground (
            arith,
            m,
            whole k,
            contains-keep (λ j. not (contains (i ∷ now) j)) left k,
            contains-append (i ∷ now) (built_in ls) k,
          )),
    )
    built-IsPlan left done i now (cycle names) e (left', sub, some_left, held) = (
      left',
      λ k m. ground (arith, sub k m, contains-keep (λ j. not (contains (i ∷ now) j)) left k),
      some_left,
      held,
    )
    built-IsPlan left done i now out_of_fuel e h = h

    started-IsPlan :
        (left done : List ℕ) (i : ℕ) (boot : List ℕ) (r : Planned)
        → starters needs' boots left done ≡ i ∷ boot
        → IsPlan left (done ++ (i ∷ boot)) r
        → IsPlan left done (before needs' boots (level_of needs' boots true (i ∷ boot)) r)
    started-IsPlan left done i boot (ordered ls) e (sound, whole) = (
      λ placed acc. (
        All-level_of boots (AsksBefore placed) true (i ∷ boot)
            (All-contains (i ∷ boot) (λ k m h. absurd (cc h))),
        rw (indices-level_of boots true boot) (
            sound ((i ∷ boot) ++ placed) (λ j below gone. ground (
              arith,
              gone,
              acc j below,
              contains-append done (i ∷ boot) j,
              contains-append (i ∷ boot) placed j,
            ))),
      ),
      λ k m. rw (standing-level_of boots boot) (whole k m),
    )
    started-IsPlan left done i boot (cycle names) e h = h
    started-IsPlan left done i boot out_of_fuel e h = h

    stuck-IsPlan :
        (names : List Str) (i : ℕ) (left done : List ℕ)
        → ready needs' boots (i ∷ left) done ≡ []
        → starters needs' boots (i ∷ left) done ≡ []
        → IsPlan (i ∷ left) done (cycle names)
    unfolding ready waits
    stuck-IsPlan names i left done e f = (
      i ∷ left,
      λ k m. m,
      (i, ground (arith, (nat_beq_iff i i).1 refl)),
      λ k m.
          let kept = contains-keep (λ j. not (waits needs' boots (i ∷ left) done j)) (i ∷ left) k in
          let none_kept : contains (ready needs' boots (i ∷ left) done) k ≡ false =
            ap (λ xs. contains xs k) e in
          let waiting : waits needs' boots (i ∷ left) done k ≡ true =
            ground (arith, kept, none_kept, m) in
          let (j, (there, held)) =
            any-true (λ j. not (j == k) && (not (contains done j) && needs' k j)) (i ∷ left)
              waiting in
          (j, there, ground (arith, held), ground (arith, held)),
    )

    pub loop-IsPlan :
        (names : ℕ → Str) (fuel : ℕ) (left done : List ℕ)
        → measure needs' boots left done ≤ fuel
        → IsPlan left done (loop needs' boots names fuel left done)
    loop-IsPlan names =
        loop-Q needs' boots names IsPlan (λ done. (λ placed acc. tt, λ i m. m)) built-IsPlan
          started-IsPlan (λ i left done e f. stuck-IsPlan (map names (i ∷ left)) i left done e f)
