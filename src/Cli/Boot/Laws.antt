-- ===== src/Cli/Boot/Laws.antt =====
-- What a fallback of crates/kiry/src/main.rs may replace.
use kiry.Base.{
  ◌≡◌, refl, sym, ◌∙◌, ap, subst, ◌⊎◌, inl, inr, List, [], ◌∷◌, ◌++◌, Bool, true, false, Option,
  none, some, ◌==◌, nat_eq, list_eq, contains, Result, ok, err, ◌>>=◌, >>=-eq-ok, arith, Among,
  Bool-cases, Result-cases, if◌then◌else◌,
}
use kiry.Base.Text.{Str, slash}
use kiry.Cli.Boot.{
  BootError, roots, mounted_at, find_other, with_other, known_root, pair_of, pair, snapshot_of,
  refused_on, fled_from, fled, taking, fallback_of, Command, make_top, umount, mount, delete, mark,
  snapshot, Log, ran, attempt, marked, mounted, fallback,
}

-- A command that replaces the root `s`.
abbrev pub Replaces : Command → Str → Type 0
Replaces (delete t) s = t ≡ s
Replaces (snapshot a t) s = t ≡ s
Replaces make_top s = ⊥
Replaces umount s = ⊥
Replaces (mount t) s = ⊥
Replaces (mark t) s = ⊥

Among-append : (xs ys : List Command) (c : Command) → Among c (xs ++ ys) → Among c xs ⊎ Among c ys
Among-append [] ys c h = inr h
Among-append (x ∷ xs) ys c (inl e) = inl (inl e)
Among-append (x ∷ xs) ys c (inr h) = elim (Among-append xs ys c h) [
  | inl here ↦ inl (inr here)
  | inr there ↦ inr there
]

-- Every command of a log that replaces a root replaces `other`.
abbrev Only : Str → List Command → Type 0
Only other log = (c : Command) (s : Str) → Among c log → Replaces c s → s ≡ other

Only-append :
    (other : Str) (xs ys : List Command) → Only other xs → Only other ys → Only other (xs ++ ys)
Only-append other xs ys first behind c s h = elim (Among-append xs ys c h) [
  | inl here ↦ first c s here
  | inr there ↦ behind c s there
]

-- One command that replaces nothing but `other`.
Spares : Str → Command → Type 0
Spares other c = (s : Str) → Replaces c s → s ≡ other

ran-Only :
    (other : Str) (c : Command) (r : Result BootError (Unit {0})) (later : Log)
    → Spares other c
    → Only other later.0
    → Only other (ran c r later).0
unfolding ran Spares
ran-Only other c (err e) later spares h d s (inl same) replaces =
    spares s (subst (λ x. Replaces x s) same replaces)
ran-Only other c (err e) later spares h d s (inr there) replaces = absurd there
ran-Only other c (ok u) (log, ended) spares h d s (inl same) replaces =
    spares s (subst (λ x. Replaces x s) same replaces)
ran-Only other c (ok u) (log, ended) spares h d s (inr there) replaces = h d s there replaces

module _ (run : Command → Result BootError (Unit {0})) where
  attempt_snapshot-Only :
      (now other : Str) (there : Bool)
      → Only other
          (attempt run ((if there then delete other ∷ [] else []) ++ snapshot now other ∷ [])).0
  unfolding attempt Spares
  attempt_snapshot-Only now other true =
      ran-Only other (delete other) (run (delete other)) (attempt run (snapshot now other ∷ []))
        (λ s e. sym e)
        (ran-Only other (snapshot now other) (run (snapshot now other)) ([], ok tt) (λ s e. sym e)
          (λ c s h. absurd h))
  attempt_snapshot-Only now other false =
      ran-Only other (snapshot now other) (run (snapshot now other)) ([], ok tt) (λ s e. sym e)
        (λ c s h. absurd h)

  marked-Only :
      (other : Str) (first : Log) → Only other first.0 → Only other (marked run other first).0
  unfolding marked attempt Spares
  marked-Only other (log, err e) h =
      Only-append other log (umount ∷ []) h
        (ran-Only other umount (err e) ([], ok tt) (λ s r. absurd r) (λ c s t. absurd t))
  marked-Only other (log, ok u) h =
      Only-append other log (umount ∷ (attempt run (mark other ∷ [])).0) h (
        ran-Only other umount (ok u) (attempt run (mark other ∷ [])) (λ s r. absurd r)
          (ran-Only other (mark other) (run (mark other)) ([], ok tt) (λ s r. absurd r)
            (λ c s t. absurd t)))

  mounted-Only :
      (now other : Str) (there : Bool) (first : Log)
      → Only other first.0
      → Only other (mounted run now other there first).0
  unfolding mounted
  mounted-Only now other there (log, err e) h = h
  mounted-Only now other there (log, ok u) h =
      let second =
        attempt run ((if there then delete other ∷ [] else []) ++ snapshot now other ∷ []) in
      Only-append other log (marked run other second).0 h
        (marked-Only other second (attempt_snapshot-Only now other there))

  attempt_mount-Only : (other dev : Str) → Only other (attempt run (make_top ∷ mount dev ∷ [])).0
  unfolding attempt Spares
  attempt_mount-Only other dev =
      ran-Only other make_top (run make_top) (attempt run (mount dev ∷ [])) (λ s r. absurd r)
        (ran-Only other (mount dev) (run (mount dev)) ([], ok tt) (λ s r. absurd r)
          (λ c s t. absurd t))

find_other-apart :
    (now : Str) (rs : List Str) {other : Str}
    → find_other now rs ≡ some other
    → (other == now) ≡ false
unfolding find_other
find_other-apart now [] h = ground (arith, h)
find_other-apart now (r ∷ rs) {other = other} h = elim (Bool-cases (r == now)) [
  | inl e ↦ find_other-apart now rs (ground (arith, e, h))
  | inr e ↦ let same : r ≡ other = ground (arith, e, h) in ap (λ x. x == now) (sym same) ∙ e
]

with_other-apart :
    (d n : Str) (o : Option Str) {dev now other : Str}
    → find_other n roots ≡ o
    → with_other d n o ≡ ok (dev, now, other)
    → (other == now) ≡ false
unfolding with_other
with_other-apart d n none e h = ground (arith, h)
with_other-apart d n (some other') {now = now} {other = other} e h =
    let same : other' ≡ other = cc h in
    let here : n ≡ now = cc h in
    subst (λ x. (other == x) ≡ false) here
      (subst (λ x. (x == n) ≡ false) same (find_other-apart n roots e))

known_root-apart :
    (d n : Str) (b : Bool) {dev now other : Str}
    → known_root d n b ≡ ok (dev, now, other)
    → (other == now) ≡ false
unfolding known_root
known_root-apart d n false h = ground (arith, h)
known_root-apart d n true h = with_other-apart d n (find_other n roots) refl h

pair_of-apart :
    (m : Option (Str × Str)) {dev now other : Str}
    → pair_of m ≡ ok (dev, now, other)
    → (other == now) ≡ false
unfolding pair_of known_root
pair_of-apart none h = ground (arith, h)
pair_of-apart (some (d, n)) h = known_root-apart d n (contains roots n) h

-- A fallback may be taken: none was in this boot, and the root that runs is no snapshot of the other.
abbrev pub MayReplace : Str → Bool → Result BootError Str → Str → Type 0
MayReplace text taken list other =
    (dev : Str) × (now : Str) × (l : Str) × (pair text ≡ ok (dev, now, other))
    × ((other == now) ≡ false)
    × (taken ≡ false)
    × (list ≡ ok l)
    × (snapshot_of l now other ≡ false)

fled_from-ok :
    (now other : Str) (list : Result BootError Str) {u : Unit {0}}
    → fled_from now other false list ≡ ok u
    → (l : Str) × (list ≡ ok l) × (snapshot_of l now other ≡ false)
unfolding fled_from refused_on
fled_from-ok now other list h =
    let (l, e, fine) = >>=-eq-ok list (λ l. refused_on now (snapshot_of l now other)) h in
    (
      l,
      e,
      elim (Bool-cases (snapshot_of l now other)) [
        | inl is_one ↦ absurd (ground (arith, is_one, fine))
        | inr is_none ↦ is_none
      ],
    )

module _ (run : Command → Result BootError (Unit {0})) (text : Str)
    (list : Result BootError Str) where
  taking-MayReplace :
      (dev now other : Str) (taken there : Bool) (r : Result BootError (Unit {0})) (c : Command)
      (s : Str)
      → pair text ≡ ok (dev, now, other)
      → fled text taken list ≡ r
      → Among c (taking run dev now other taken there r).0
      → Replaces c s
      → MayReplace text taken list s
  unfolding taking fled
  taking-MayReplace dev now other taken there (err e) c s p f h replaces = absurd h
  taking-MayReplace dev now other true there (ok u) c s p f h replaces = absurd h
  taking-MayReplace dev now other false there (ok u) c s p f h replaces =
      let same : s ≡ other =
        mounted-Only run now other there (attempt run (make_top ∷ mount dev ∷ []))
          (attempt_mount-Only run other dev) c s h replaces in
      let asked : fled_from now other false list ≡ ok u =
        ap (λ m. m >>= (λ (d, n, o). fled_from n o false list)) (sym p) ∙ f in
      let (l, e, fine) = fled_from-ok now other list asked in
      subst (MayReplace text false list) (sym same)
        (dev, now, l, p, pair_of-apart (mounted_at text (slash ∷ [])) p, refl, e, fine)

  -- A fallback replaces no root but the one that does not run, and that one only if this boot took none and
  -- does not run on a snapshot of it.
  pub fallback-MayReplace :
      (taken : Bool) (there : Str → Bool) (c : Command) (s : Str)
      → Among c (fallback run text taken list there).0
      → Replaces c s
      → MayReplace text taken list s
  unfolding fallback
  fallback-MayReplace taken there c s h replaces = elim (Result-cases (pair text)) [
    | inl ((dev, now, other), e) ↦
        taking-MayReplace dev now other taken (there other) (fled text taken list) c s e refl
          (subst (λ p. Among c (fallback_of run text taken list there p).0) e h) replaces
    | inr (why, e) ↦ absurd (subst (λ p. Among c (fallback_of run text taken list there p).0) e h)
  ]
