-- ===== src/Cli/Levels/Rounds.antt =====
-- The rule for the loop of `levels`: what each round keeps holds of the plan, and the fuel is enough.
use kiry.Base.{
  ℕ, zero, suc, ◌+◌, ◌≤◌, ◌<◌, ◌≡◌, refl, ap, inl, inr, List, [], ◌∷◌, ◌++◌, map, Bool, true, false,
  not, ◌&&◌, nat_eq, nat_beq_iff, keep, contains, length, arith, Bool-cases, contains-append,
  contains-keep, length-keep-lt, length-keep_all,
}
use kiry.Base.Text.{Str}
use kiry.Cli.Levels.{
  Planned, ordered, cycle, ready, starters, waits, without, level_of, before, round, loop,
}

contains_head : (i : ℕ) (is : List ℕ) → contains (i ∷ is) i ≡ true
contains_head i is = ground (arith, (nat_beq_iff i i).1 refl)

module _ (needs : ℕ → ℕ → Bool) (boots : ℕ → Bool) where
  -- How many rounds may still come.
  abbrev pub measure : List ℕ → List ℕ → ℕ
  measure left done = length left + length (keep (λ i. not (contains done i)) left)

  ready-left :
      (left done : List ℕ) (i : ℕ) (now : List ℕ)
      → ready needs boots left done ≡ i ∷ now
      → contains left i ≡ true
  unfolding ready
  ready-left left done i now e = ground (
    arith,
    contains-keep (λ j. not (waits needs boots left done j)) left i,
    contains_head i now,
    ap (λ xs. contains xs i) e,
  )

  starters-left :
      (left done : List ℕ) (i : ℕ) (boot : List ℕ)
      → starters needs boots left done ≡ i ∷ boot
      → (contains left i ≡ true) × (contains done i ≡ false)
  unfolding starters
  starters-left left done i boot e =
      let kept = contains-keep (λ j. not (contains done j) && boots j) left i in
      let here = contains_head i boot in
      let same = ap (λ xs. contains xs i) e in
      (ground (arith, kept, here, same), ground (arith, kept, here, same))

  without-measure :
      (left done : List ℕ) (i : ℕ) (now : List ℕ)
      → contains left i ≡ true
      → measure (without needs boots left (i ∷ now)) done < measure left done
  unfolding without
  without-measure left done i now m =
      let less =
        length-keep-lt (λ j. not (contains (i ∷ now) j)) (λ _. true) left i (λ x h. refl) m
          (ap not (contains_head i now)) refl in
      let fewer =
        keep-keep_le (λ j. not (contains done j)) (λ j. not (contains (i ∷ now) j)) left in
      omega (arith, less, fewer, length-keep_all left)
    where
      keep-keep_le :
          (p q : ℕ → Bool) (xs : List ℕ) → length (keep p (keep q xs)) ≤ length (keep p xs)
      keep-keep_le p q [] = omega arith
      keep-keep_le p q (x ∷ xs) = elim (Bool-cases (q x)) [
        | inl here ↦ elim (Bool-cases (p x)) [
          | inl both ↦ ground (arith, here, both, keep-keep_le p q xs)
          | inr one ↦ ground (arith, here, one, keep-keep_le p q xs)
        ]
        | inr stopped ↦ elim (Bool-cases (p x)) [
          | inl both ↦ ground (arith, stopped, both, keep-keep_le p q xs)
          | inr one ↦ ground (arith, stopped, one, keep-keep_le p q xs)
        ]
      ]

  started-measure :
      (left done : List ℕ) (i : ℕ) (boot : List ℕ)
      → contains left i ≡ true
      → contains done i ≡ false
      → measure left (done ++ (i ∷ boot)) < measure left done
  started-measure left done i boot m fresh =
      let less =
        length-keep-lt (λ j. not (contains (done ++ (i ∷ boot)) j)) (λ j. not (contains done j))
          left i (λ x h. ground (arith, contains-append done (i ∷ boot) x)) m
          (ground (arith, contains-append done (i ∷ boot) i, contains_head i boot))
          (ap not fresh) in
      omega (arith, less)

  module _ (name_of : ℕ → Str) (Q : List ℕ → List ℕ → Planned → Type 0)
      (at_end : (done : List ℕ) → Q [] done (ordered []))
      (built : (left done : List ℕ) (i : ℕ) (now : List ℕ) (r : Planned)
        → ready needs boots left done ≡ i ∷ now
        → Q (without needs boots left (i ∷ now)) done r
        → Q left done (before needs boots (level_of needs boots false (i ∷ now)) r))
      (started : (left done : List ℕ) (i : ℕ) (boot : List ℕ) (r : Planned)
        → starters needs boots left done ≡ i ∷ boot
        → Q left (done ++ (i ∷ boot)) r
        → Q left done (before needs boots (level_of needs boots true (i ∷ boot)) r))
      (stuck : (i : ℕ) (left done : List ℕ)
        → ready needs boots (i ∷ left) done ≡ []
        → starters needs boots (i ∷ left) done ≡ []
        → Q (i ∷ left) done (cycle (map name_of (i ∷ left)))) where
    round-Q :
        (fuel : ℕ) (k : ℕ) (left done now boot : List ℕ)
        → ((left' done' : List ℕ)
            → measure left' done' ≤ fuel
            → Q left' done' (loop needs boots name_of fuel left' done'))
        → measure (k ∷ left) done ≤ suc fuel
        → ready needs boots (k ∷ left) done ≡ now
        → starters needs boots (k ∷ left) done ≡ boot
        → Q
            (k ∷ left)
            done
            (round needs boots name_of (loop needs boots name_of fuel) (k ∷ left) done now boot)
    unfolding round
    round-Q fuel k left done (i ∷ now) boot ih few e f =
        let less = without-measure (k ∷ left) done i now (ready-left (k ∷ left) done i now e) in
        built (k ∷ left) done i now _ e
          (ih (without needs boots (k ∷ left) (i ∷ now)) done (omega (arith, less, few)))
    round-Q fuel k left done [] (i ∷ boot) ih few e f =
        let (m, fresh) = starters-left (k ∷ left) done i boot f in
        let less = started-measure (k ∷ left) done i boot m fresh in
        started (k ∷ left) done i boot _ f
          (ih (k ∷ left) (done ++ (i ∷ boot)) (omega (arith, less, few)))
    round-Q fuel k left done [] [] ih few e f = stuck k left done e f

    -- With fuel for as many rounds as may come, what the rounds keep holds of the result.
    pub loop-Q :
        (fuel : ℕ) (left done : List ℕ)
        → measure left done ≤ fuel
        → Q left done (loop needs boots name_of fuel left done)
    unfolding loop
    loop-Q fuel [] done few = at_end done
    loop-Q zero (k ∷ left) done few = absurd (omega (arith, few))
    loop-Q (suc fuel) (k ∷ left) done few =
        round-Q fuel k left done (ready needs boots (k ∷ left) done)
          (starters needs boots (k ∷ left) done) (loop-Q fuel) few refl refl
