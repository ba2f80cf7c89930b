-- ===== src/Cli/Loader/Visit.antt =====
-- What one round of the loop of `missing`, crates/kiry/src/main.rs, does to what was seen and to the queue.
use kiry.Base.{
  ℕ, ◌+◌, ◌≤◌, ◌<◌, ◌≡◌, refl, ap, List, [], ◌∷◌, ◌++◌, true, not, ◌&&◌, ◌||◌, inl, inr, ◌==◌,
  nat_eq, nat_beq_iff, contains, keep, length, arith, Bool-cases, contains-append, length-keep-lt,
}
use kiry.Cli.Levels.{range_from}
use kiry.Cli.Levels.Plans.{range_from-contains}
use kiry.Cli.Loader.Search.{State, visit}

same_at : (xs : List ℕ) (j k : ℕ) → (j == k) ≡ true → contains xs j ≡ contains xs k
same_at xs j k e = ap (contains xs) ((nat_beq_iff j k).0 e)

pub visit-seen :
    (js : List ℕ) (st : State) (k : ℕ)
    → contains (visit js st).seen k ≡ (contains st.seen k || contains js k)
unfolding visit
visit-seen [] st k = ground arith
visit-seen (j ∷ js) st k = elim (Bool-cases (contains st.seen j)) [
  | inl e ↦ elim (Bool-cases (j == k)) [
    | inl same ↦ rw (e, visit) (ground (arith, visit-seen js st k, e, same_at st.seen j k same))
    | inr apart ↦ rw (e, visit) (ground (arith, visit-seen js st k, apart))
  ]
  | inr e ↦
      rw (e, visit)
        (ground (
          arith,
          visit-seen js
              (record { seen = j ∷ st.seen; queue = j ∷ st.queue; closure = st.closure ++ j ∷ [] })
              k,
        ))
]

-- What was seen is what the closure holds.
abbrev pub Same : State → Type 0
Same st = (k : ℕ) → contains st.seen k ≡ contains st.closure k

pub visit-Same : (js : List ℕ) (st : State) → Same st → Same (visit js st)
unfolding visit
visit-Same [] st same = same
visit-Same (j ∷ js) st same = elim (Bool-cases (contains st.seen j)) [
  | inl e ↦ rw (e, visit) (visit-Same js st same)
  | inr e ↦
      rw (e, visit)
        (visit-Same js
          (record { seen = j ∷ st.seen; queue = j ∷ st.queue; closure = st.closure ++ j ∷ [] })
          (λ k. ground (arith, same k, contains-append st.closure (j ∷ []) k)))
]

pub visit-queue :
    (js : List ℕ) (st : State) (k : ℕ)
    → contains (visit js st).queue k
      ≡ (contains st.queue k || (contains js k && not (contains st.seen k)))
unfolding visit
visit-queue [] st k = ground arith
visit-queue (j ∷ js) st k = elim (Bool-cases (contains st.seen j)) [
  | inl e ↦ elim (Bool-cases (j == k)) [
    | inl same ↦ rw (e, visit) (ground (arith, visit-queue js st k, e, same_at st.seen j k same))
    | inr apart ↦ rw (e, visit) (ground (arith, visit-queue js st k, apart))
  ]
  | inr e ↦ elim (Bool-cases (j == k)) [
    | inl same ↦
        rw (e, visit)
          (ground (
            arith,
            visit-queue js
                (record {
                  seen = j ∷ st.seen;
                  queue = j ∷ st.queue;
                  closure = st.closure ++ j ∷ [];
                })
                k,
            same,
            e,
            same_at st.seen j k same,
          ))
    | inr apart ↦
        rw (e, visit)
          (ground (
            arith,
            visit-queue js
                (record {
                  seen = j ∷ st.seen;
                  queue = j ∷ st.queue;
                  closure = st.closure ++ j ∷ [];
                })
                k,
            apart,
          ))
  ]
]

-- How many of the `n` objects were not seen yet.
abbrev pub unseen : ℕ → List ℕ → ℕ
unseen n seen = length (keep (λ k. not (contains seen k)) (range_from 0 n))

-- What is put in the queue was not seen before, so the two together do not grow.
pub visit-unseen :
    (n : ℕ) (js : List ℕ) (st : State)
    → ((k : ℕ) → contains js k ≡ true → k < n)
    → length (visit js st).queue + unseen n (visit js st).seen ≤ length st.queue + unseen n st.seen
unfolding visit
visit-unseen n [] st below = omega arith
visit-unseen n (j ∷ js) st below = elim (Bool-cases (contains st.seen j)) [
  | inl e ↦ rw (e, visit) (visit-unseen n js st (λ k m. below k (ground (arith, m))))
  | inr e ↦
      let here : j < n = below j (ground (arith, (nat_beq_iff j j).1 refl)) in
      let less =
        length-keep-lt (λ k. not (contains (j ∷ st.seen) k)) (λ k. not (contains st.seen k))
          (range_from 0 n) j (λ x h. ground (arith, h))
          (range_from-contains 0 n j (omega arith) (omega (arith, here)))
          (ground (arith, (nat_beq_iff j j).1 refl)) (ground (arith, e)) in
      let onward =
        visit-unseen n js
          (record { seen = j ∷ st.seen; queue = j ∷ st.queue; closure = st.closure ++ j ∷ [] })
          (λ k m. below k (ground (arith, m))) in
      rw (e, visit) (omega (arith, less, onward))
]
