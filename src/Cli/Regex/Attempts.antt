-- ===== src/Cli/Regex/Attempts.antt =====
-- How the tries of a search are put together, and which ends of a repeated piece are tried.
use kiry.Base.{
  ℕ, zero, suc, ◌+◌, ◌≤◌, ◌<◌, ◌≡◌, refl, subst, ◌⊎◌, inl, inr, List, [], ◌∷◌, reverse_aux, none,
  some, length, get_elem?, drop, leb, leb→le, arith, Among, Bool-cases, Option-cases,
}
use kiry.Base.Text.{Str}
use kiry.Cli.Regex.{
  Node, accepts, Caps, Attempt, one, ends_from, candidates, or_else, and_then, captured, back,
}

-- A try that ended somewhere.
abbrev pub Hits : Attempt → Type 0
Hits r = (e : ℕ) × (r.0 ≡ some e)

pub or_else-some :
    (r : Attempt) (next : Caps → Attempt) {j : ℕ}
    → (or_else r next).0 ≡ some j
    → (r.0 ≡ some j) ⊎ ((c : Caps) × ((next c).0 ≡ some j))
unfolding or_else
or_else-some (some e, c) next h = inl h
or_else-some (none, c) next h = inr (c, h)

pub or_else-Hits_first : (r : Attempt) (next : Caps → Attempt) → Hits r → Hits (or_else r next)
unfolding or_else
or_else-Hits_first (some e, c) next h = h
or_else-Hits_first (none, c) next (e, h) = ground (arith, h)

pub or_else-Hits :
    (r : Attempt) (next : Caps → Attempt) → ((c : Caps) → Hits (next c)) → Hits (or_else r next)
unfolding or_else
or_else-Hits (some e, c) next h = (e, refl)
or_else-Hits (none, c) next h = h c

pub and_then-some :
    (r : Attempt) (next : ℕ → Caps → Attempt) {j : ℕ}
    → (and_then r next).0 ≡ some j
    → (mid : ℕ) × (c : Caps) × (r.0 ≡ some mid) × ((next mid c).0 ≡ some j)
unfolding and_then
and_then-some (some e, c) next h = (e, c, refl, h)
and_then-some (none, c) next h = ground (arith, h)

pub and_then-Hits :
    (r : Attempt) (next : ℕ → Caps → Attempt) {mid : ℕ}
    → r.0 ≡ some mid
    → ((c : Caps) → Hits (next mid c))
    → Hits (and_then r next)
unfolding and_then
and_then-Hits (some e, c) next {mid = mid} h hit =
    let same : mid ≡ e = cc h in subst (λ x. Hits (next x c)) same (hit c)
and_then-Hits (none, c) next h hit = ground (arith, h)

pub captured-end : (n i mid : ℕ) (r : Attempt) → (captured n i mid r).0 ≡ r.0
unfolding captured
captured-end n i mid (some e, c) = refl
captured-end n i mid (none, c) = refl

pub back-some :
    (es : List ℕ) (next : ℕ → Caps → Attempt) (c : Caps) {j : ℕ}
    → (back es next c).0 ≡ some j
    → (e : ℕ) × Among e es × (d : Caps) × ((next e d).0 ≡ some j)
unfolding back
back-some [] next c h = ground (arith, h)
back-some (e ∷ es) next c h = elim (or_else-some (next e c) (λ d. back es next d) h) [
  | inl here ↦ (e, inl refl, c, here)
  | inr (d, later) ↦
      let (e', among, d', found) = back-some es next d later in (e', inr among, d', found)
]

pub back-Hits :
    (es : List ℕ) (next : ℕ → Caps → Attempt) (c : Caps) (e : ℕ)
    → Among e es
    → ((d : Caps) → Hits (next e d))
    → Hits (back es next c)
unfolding back
back-Hits [] next c e among hit = absurd among
back-Hits (e' ∷ es) next c e (inl same) hit =
    or_else-Hits_first (next e' c) (λ d. back es next d) (subst (λ x. Hits (next x c)) same (hit c))
back-Hits (e' ∷ es) next c e (inr among) hit =
    or_else-Hits (next e' c) (λ d. back es next d) (λ d. back-Hits es next d e among hit)

-- `k` times the node, one after another from `i` on.
abbrev pub Repeats : Node → Str → ℕ → ℕ → Type 0
Repeats n s i zero = Unit
Repeats n s i (suc k) = (one n s i ≡ some (i + 1)) × Repeats n s (i + 1) k

Among-reverse_aux : (xs ys : List ℕ) (a : ℕ) → Among a xs ⊎ Among a ys → Among a (reverse_aux xs ys)
Among-reverse_aux [] ys a (inl h) = absurd h
Among-reverse_aux [] ys a (inr h) = h
Among-reverse_aux (x ∷ xs) ys a (inl (inl h)) = Among-reverse_aux xs (x ∷ ys) a (inr (inl h))
Among-reverse_aux (x ∷ xs) ys a (inl (inr h)) = Among-reverse_aux xs (x ∷ ys) a (inl h)
Among-reverse_aux (x ∷ xs) ys a (inr h) = Among-reverse_aux xs (x ∷ ys) a (inr (inr h))

Among-reverse_aux_inv :
    (xs ys : List ℕ) (a : ℕ) → Among a (reverse_aux xs ys) → Among a xs ⊎ Among a ys
Among-reverse_aux_inv [] ys a h = inr h
Among-reverse_aux_inv (x ∷ xs) ys a h = elim (Among-reverse_aux_inv xs (x ∷ ys) a h) [
  | inl before ↦ inl (inr before)
  | inr behind ↦ elim behind [ inl here ↦ inl (inl here) | inr later ↦ inr later ]
]

one-cases : (n : Node) (s : Str) (i : ℕ) → (one n s i ≡ none) ⊎ (one n s i ≡ some (i + 1))
unfolding one
one-cases n s i = elim (Option-cases (get_elem? s i)) [
  | inl e ↦ inl (ground (arith, e))
  | inr (c, e) ↦ elim (Bool-cases (accepts n c)) [
    | inl ok ↦ inr (ground (arith, e, ok))
    | inr no_more ↦ inl (ground (arith, e, no_more))
  ]
]

ends-step :
    (f : ℕ) (n : Node) (hi : ℕ) (s : Str) (at len : ℕ)
    → len ≤ hi
    → one n s at ≡ some (at + 1)
    → ends_from (suc f) n hi s at len ≡ (at + 1) ∷ ends_from f n hi s (at + 1) (len + 1)
unfolding ends_from
ends-step f n hi s at len room e = ground (arith, room, e)

ends-cases :
    (f : ℕ) (n : Node) (hi : ℕ) (s : Str) (at len : ℕ)
    → (ends_from (suc f) n hi s at len ≡ []) ⊎ ((len ≤ hi) × (one n s at ≡ some (at + 1)))
unfolding ends_from
ends-cases f n hi s at len = elim (one-cases n s at) [
  | inl e ↦ elim (Bool-cases (leb len hi)) [
    | inl r ↦ inl (ground (arith, e, r))
    | inr r ↦ inl (ground (arith, r))
  ]
  | inr e ↦ elim (Bool-cases (leb len hi)) [
    | inl r ↦ inr (leb→le len hi r, e)
    | inr r ↦ inl (ground (arith, r))
  ]
]

drop-nil : (lo e : ℕ) → Among e (drop lo []) → ⊥
drop-nil zero e h = h
drop-nil (suc lo) e h = h

-- The end `e` is where the node stood `k` times, at least `lo` times and with the ends before it no more
-- than `hi` times.
abbrev Reached : Node → ℕ → ℕ → Str → ℕ → ℕ → ℕ → Type 0
Reached n lo hi s at len e =
    (k : ℕ) × (lo ≤ k) × (k + len ≤ hi + 1) × Repeats n s at k × (e ≡ at + k)

onward :
    (f : ℕ) (n : Node) (lo hi : ℕ) (s : Str) (at len e : ℕ)
    → (len ≤ hi
        → Among e (drop lo ((at + 1) ∷ ends_from f n hi s (at + 1) (len + 1)))
        → Reached n lo hi s (at + 1) (len + 1) e)
    → Among e (drop lo (ends_from (suc f) n hi s at len))
    → Reached n (lo + 1) hi s at len e
onward f n lo hi s at len e later among = elim (ends-cases f n hi s at len) [
  | inl stop ↦ absurd (drop-nil lo e (subst (λ es. Among e (drop lo es)) stop among))
  | inr (room, o) ↦
      let (k, low, high, rep, there) =
        later room (subst (λ es. Among e (drop lo es)) (ends-step f n hi s at len room o) among) in
      (suc k, omega (arith, low), omega (arith, high), (o, rep), omega (arith, there))
]

ends-Reached :
    (f : ℕ) (n : Node) (lo hi : ℕ) (s : Str) (at len e : ℕ)
    → len ≤ hi + 1
    → Among e (drop lo (at ∷ ends_from f n hi s at len))
    → Reached n lo hi s at len e
unfolding ends_from
ends-Reached f n zero hi s at len e room (inl here) =
    (0, omega arith, omega (arith, room), tt, omega (arith, here))
ends-Reached zero n zero hi s at len e room (inr later) = absurd later
ends-Reached zero n (suc lo) hi s at len e room among = absurd (drop-nil lo e among)
ends-Reached (suc f) n zero hi s at len e room (inr later) =
    let (k, low, high, rep, there) =
      onward f n zero hi s at len e
        (λ below. ends-Reached f n zero hi s (at + 1) (len + 1) e (omega (arith, below))) later in
    (k, omega arith, high, rep, there)
ends-Reached (suc f) n (suc lo) hi s at len e room among =
    let (k, low, high, rep, there) =
      onward f n lo hi s at len e
        (λ below. ends-Reached f n lo hi s (at + 1) (len + 1) e (omega (arith, below))) among in
    (k, omega (arith, low), high, rep, there)

ends-Among :
    (f : ℕ) (n : Node) (lo hi : ℕ) (s : Str) (at len k : ℕ)
    → lo ≤ k
    → k + len ≤ hi + 1
    → k ≤ f
    → Repeats n s at k
    → Among (at + k) (drop lo (at ∷ ends_from f n hi s at len))
ends-Among f n zero hi s at len zero low high fuel rep = inl (omega arith)
ends-Among f n (suc lo) hi s at len zero low high fuel rep = absurd (omega (arith, low))
ends-Among zero n lo hi s at len (suc k) low high fuel rep = absurd (omega (arith, fuel))
ends-Among (suc f) n zero hi s at len (suc k) low high fuel (o, rep) =
    let next =
      ends-Among f n zero hi s (at + 1) (len + 1) k (omega arith) (omega (arith, high))
        (omega (arith, fuel)) rep in
    inr (
      rw (ends-step f n hi s at len (omega (arith, high)) o) (
        subst (λ x. Among x ((at + 1) ∷ ends_from f n hi s (at + 1) (len + 1))) (omega arith) next))
ends-Among (suc f) n (suc lo) hi s at len (suc k) low high fuel (o, rep) =
    let next =
      ends-Among f n lo hi s (at + 1) (len + 1) k (omega (arith, low)) (omega (arith, high))
        (omega (arith, fuel)) rep in
    rw (ends-step f n hi s at len (omega (arith, high)) o) (
      subst (λ x. Among x (drop lo ((at + 1) ∷ ends_from f n hi s (at + 1) (len + 1))))
        (omega arith) next)

pub candidates-Reached :
    (n : Node) (lo hi : ℕ) (s : Str) (i e : ℕ)
    → Among e (candidates n (lo, hi) s i)
    → (k : ℕ) × (lo ≤ k) × (k ≤ hi) × Repeats n s i k × (e ≡ i + k)
unfolding candidates
candidates-Reached n lo hi s i e among =
    let ends : List ℕ = drop lo (i ∷ ends_from (length s) n hi s i 1) in
    elim (Among-reverse_aux_inv ends [] e among) [
      | inl there ↦
          let (k, low, high, rep, same) =
            ends-Reached (length s) n lo hi s i 1 e (omega arith) there in
          (k, low, omega (arith, high), rep, same)
      | inr nowhere ↦ absurd nowhere
    ]

get_elem?-below : (s : Str) (i c : ℕ) → get_elem? s i ≡ some c → i < length s
get_elem?-below [] i c h = ground (arith, h)
get_elem?-below (d ∷ s) zero c h = omega arith
get_elem?-below (d ∷ s) (suc i) c h = omega (arith, get_elem?-below s i c h)

pub one-below : (n : Node) (s : Str) (i e : ℕ) → one n s i ≡ some e → i < length s
unfolding one
one-below n s i e h = elim (Option-cases (get_elem? s i)) [
  | inl none_there ↦ ground (arith, none_there, h)
  | inr (c, there) ↦ get_elem?-below s i c there
]

pub Repeats-length :
    (n : Node) (s : Str) (i k : ℕ) → i ≤ length s → Repeats n s i k → i + k ≤ length s
Repeats-length n s i zero below rep = omega (arith, below)
Repeats-length n s i (suc k) below (o, rep) =
    let here = one-below n s i (i + 1) o in
    omega (arith, Repeats-length n s (i + 1) k (omega (arith, here)) rep)

pub candidates-Among :
    (n : Node) (lo hi : ℕ) (s : Str) (i k : ℕ)
    → i ≤ length s
    → lo ≤ k
    → k ≤ hi
    → Repeats n s i k
    → Among (i + k) (candidates n (lo, hi) s i)
unfolding candidates
candidates-Among n lo hi s i k below low high rep =
    let fits = Repeats-length n s i k below rep in
    Among-reverse_aux (drop lo (i ∷ ends_from (length s) n hi s i 1)) [] (i + k) (
      inl
        (ends-Among (length s) n lo hi s i 1 k low (omega (arith, high)) (omega (arith, fits)) rep))
