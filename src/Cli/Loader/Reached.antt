-- ===== src/Cli/Loader/Reached.antt =====
-- The loop of `missing`, crates/kiry/src/main.rs, comes to an end with what a program is linked with: the
-- objects that a chain of libraries leads to.
use kiry.Base.{
  ℕ, zero, suc, ◌+◌, ◌≤◌, ◌<◌, ◌≡◌, refl, sym, ◌∙◌, ap, subst, ◌↔◌, List, [], ◌∷◌, true, false, not,
  inl, inr, Option, some, ◌==◌, nat_eq, nat_beq_iff, contains, length, arith, Bool-cases,
  length-keep-le-length,
}
use kiry.Cli.Levels.{range_from}
use kiry.Cli.Levels.Plans.{length-range_from}
use kiry.Cli.Loader.Search.{State, visit, closed, loop, closure_of, with_libraries}
use kiry.Cli.Loader.Visit.{visit-seen, Same, visit-Same, visit-queue, unseen, visit-unseen}

module _ (next : ℕ → Option (List ℕ)) (root : ℕ) where
  -- A chain of libraries leads from the root to an object.
  pub data Reach : ℕ → Type 0 where
    start : Reach root
    further : {i j : ℕ} {js : List ℕ} → Reach i → next i ≡ some js → contains js j ≡ true → Reach j

  -- The closure holds what is reached and nothing else.
  abbrev pub IsClosure : List ℕ → Type 0
  IsClosure c = (k : ℕ) → (contains c k ≡ true) ↔ Reach k

  record Inv (q : List ℕ) (st : State) : Type 0 where
    same : Same st
    sound : (k : ℕ) → contains st.seen k ≡ true → Reach k
    queued : (k : ℕ) → contains q k ≡ true → contains st.seen k ≡ true
    gone_on :
        (i j : ℕ) (js : List ℕ)
        → contains st.seen i ≡ true
        → contains q i ≡ false
        → next i ≡ some js
        → contains js j ≡ true
        → contains st.seen j ≡ true
    begun : contains st.seen root ≡ true

  -- One round, with `i` taken off the queue.
  visit-Inv :
      (i : ℕ) (q js : List ℕ) (st : State)
      → Inv (i ∷ q) st
      → next i ≡ some js
      → Inv
          (visit js (record { seen = st.seen; queue = q; closure = st.closure })).queue
          (visit js (record { seen = st.seen; queue = q; closure = st.closure }))
  visit-Inv i q js st inv e =
      let st0 : State = record { seen = st.seen; queue = q; closure = st.closure } in
      let mine = inv.queued i (ground (arith, (nat_beq_iff i i).1 refl)) in
      record {
        same = visit-Same js st0 inv.same;
        sound = λ k h. elim (Bool-cases (contains st.seen k)) [
          | inl old ↦ inv.sound k old
          | inr fresh ↦ further (inv.sound i mine) e (ground (arith, visit-seen js st0 k, h, fresh))
        ];
        queued = λ k h. elim (Bool-cases (contains st.seen k)) [
          | inl old ↦ ground (arith, visit-seen js st0 k, old)
          | inr fresh ↦ elim (Bool-cases (contains js k)) [
            | inl among ↦ ground (arith, visit-seen js st0 k, among)
            | inr apart ↦
                let there : contains q k ≡ true = ground (arith, visit-queue js st0 k, h, apart) in
                ground (arith, inv.queued k (ground (arith, there)), fresh)
          ]
        ];
        gone_on = λ a j as_js seen waits libs among. elim (Bool-cases (contains st.seen a)) [
          | inl old ↦ elim (Bool-cases (i == a)) [
            | inl here ↦
                let found : some js ≡ some as_js =
                  sym e ∙ ap next ((nat_beq_iff i a).0 here) ∙ libs in
                let lists : js ≡ as_js = cc found in
                let m : contains js j ≡ true = ap (λ l. contains l j) lists ∙ among in
                ground (arith, visit-seen js st0 j, m)
            | inr apart ↦
                let idle : contains (i ∷ q) a ≡ false =
                  ground (arith, visit-queue js st0 a, waits, apart) in
                let known = inv.gone_on a j as_js old idle libs among in
                ground (arith, visit-seen js st0 j, known)
          ]
          | inr fresh ↦
              absurd (ground (arith, visit-seen js st0 a, visit-queue js st0 a, seen, waits, fresh))
        ];
        begun = ground (arith, visit-seen js st0 root, inv.begun);
      }

  seen_of : (st : State) → Inv [] st → {k : ℕ} → Reach k → contains st.seen k ≡ true
  seen_of st inv start = inv.begun
  seen_of st inv (further {i} {j} {js} r e among) =
      inv.gone_on i j js (seen_of st inv r) refl e among

  closed-IsClosure : (st : State) → Inv [] st → IsClosure st.closure
  closed-IsClosure st inv k =
      (λ h. inv.sound k (inv.same k ∙ h), λ r. sym (inv.same k) ∙ seen_of st inv r)

  started : Inv (root ∷ []) (record { seen = root ∷ []; queue = root ∷ []; closure = root ∷ [] })
  started = record {
    same = λ k. refl;
    sound = λ k h. subst Reach ((nat_beq_iff root k).0 (ground (arith, h))) start;
    queued = λ k h. h;
    gone_on = λ i j js seen waits libs among. absurd (ground (arith, seen, waits));
    begun = ground (arith, (nat_beq_iff root root).1 refl);
  }

  module _ (n : ℕ) (below : root < n)
      (valid : (i : ℕ)
        → i < n
        → (js : List ℕ) × (next i ≡ some js) × ((k : ℕ) → contains js k ≡ true → k < n)) where
    Reach-below : {k : ℕ} → Reach k → k < n
    Reach-below start = below
    Reach-below (further {i} {j} {js} r e among) =
        let (ks, libs, small) = valid i (Reach-below r) in
        let lists : js ≡ ks = cc (e, libs) in small j (sym (ap (λ l. contains l j) lists) ∙ among)

    loop-IsClosure :
        (f : ℕ) (q : List ℕ) (st : State)
        → Inv q st
        → length q + unseen n st.seen ≤ f
        → (c : List ℕ) × (loop next f q st ≡ closed c) × IsClosure c
    unfolding loop with_libraries
    loop-IsClosure f [] st inv fuel = (st.closure, refl, closed-IsClosure st inv)
    loop-IsClosure zero (i ∷ q) st inv fuel = absurd (omega (arith, fuel))
    loop-IsClosure (suc f) (i ∷ q) st inv fuel =
        let mine = inv.sound i (inv.queued i (ground (arith, (nat_beq_iff i i).1 refl))) in
        let (js, e, small) = valid i (Reach-below mine) in
        let st0 : State = record { seen = st.seen; queue = q; closure = st.closure } in
        let shrinks = visit-unseen n js st0 small in
        rw (e, loop)
          (loop-IsClosure f (visit js st0).queue (visit js st0) (visit-Inv i q js st inv e)
            (omega (arith, fuel, shrinks)))

    -- Where each object's libraries are objects, the loop comes to an end with what the root leads to.
    pub closure_of-IsClosure : (c : List ℕ) × (closure_of next n root ≡ closed c) × IsClosure c
    unfolding closure_of
    closure_of-IsClosure =
        let st0 : State = record { seen = root ∷ []; queue = root ∷ []; closure = root ∷ [] } in
        let few = length-keep-le-length (λ k. not (contains st0.seen k)) (range_from 0 n) in
        loop-IsClosure (n + 1) (root ∷ []) st0 started (omega (arith, few, length-range_from 0 n))
