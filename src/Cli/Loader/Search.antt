-- ===== src/Cli/Loader/Search.antt =====
-- crates/kiry/src/main.rs, the loop of `missing`: the objects that a program is linked with, directly or by
-- way of others.
use kiry.Base.{
  ℕ, zero, suc, ◌+◌, List, [], ◌∷◌, ◌++◌, true, false, Option, none, some, nat_eq, contains,
}

-- `seen`, `queue` with its end in front, and `closure`.
pub record State : Type 0 where
  pub seen : List ℕ
  pub queue : List ℕ
  pub closure : List ℕ

pub data Closure : Type 0 where
  closed : List ℕ → Closure
  panicked out_of_fuel : Closure

-- An object that was not seen before is put in the queue.
unfoldable pub visit : List ℕ → State → State
visit [] st = st
visit (j ∷ js) st = elim (contains st.seen j) [
  | true ↦ visit js st
  | false ↦
      visit js (record { seen = j ∷ st.seen; queue = j ∷ st.queue; closure = st.closure ++ j ∷ [] })
]

-- What the libraries of an object lead on to; there may be no such object.
unfoldable pub with_libraries : Option (List ℕ) → (List ℕ → Closure) → Closure
with_libraries none onward = panicked
with_libraries (some js) onward = onward js

-- `next` gives the libraries of an object.
module _ (next : ℕ → Option (List ℕ)) where
  -- The loop, on fuel, with the queue apart.
  unfoldable pub loop : ℕ → List ℕ → State → Closure
  unfolding visit with_libraries
  loop f [] st = closed st.closure
  loop zero (i ∷ q) st = out_of_fuel
  loop (suc f) (i ∷ q) st = with_libraries (next i) (λ js.
      let after = visit js (record { seen = st.seen; queue = q; closure = st.closure }) in
      loop f after.queue after)

  -- Each of the `n` objects comes to the queue once at most.
  unfoldable pub closure_of : ℕ → ℕ → Closure
  unfolding loop
  closure_of n root =
      loop (n + 1) (root ∷ []) (record { seen = root ∷ []; queue = root ∷ []; closure = root ∷ [] })
