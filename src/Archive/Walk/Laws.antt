-- ===== src/Archive/Walk/Laws.antt =====
-- What an archive that `walk` and `plan_reader` of crates/kiry-core/src/archive.rs accept can hold.
use kiry.Base.{
  ℕ, ◌≤◌, ◌≡◌, sym, subst, List, [], ◌∷◌, Option, none, some, All, arith, Result, ok, ◌>>=◌,
  >>=-eq-ok, map_err-eq-ok, ok-injective,
}
use kiry.Error.{Error, IoError}
use kiry.Archive.Walk.{
  Header, Member, View, Made, anon, member_of, remember, walk_entries, walk, check_end, plan_reader,
}
use kiry.Archive.Walk.Safety.{IsSafe, NoMember, Good, member_of-Good}

check_end_lem :
    (end_zeros : ℕ) (ms : List Member) {u : Unit {0}}
    → check_end end_zeros ms ≡ ok u
    → 512 ≤ end_zeros
unfolding check_end
check_end_lem end_zeros ms h = ground arith

module _ {S : Type 0} (view : S → View) (each : S → Header → Member → Result Error S) where
  -- A run over the headers from one state to another: a header is no member, or its member is safe on
  -- the disk as it is in the state that the run has come to, and `each` gives the next state.
  pub data Walked : List (Result IoError Header) → S → List Member → S → Type 0 where
    done : {s : S} → Walked [] s [] s
    pass :
        {es : List (Result IoError Header)} {s t : S} {ms : List Member} (h : Header)
        → NoMember h
        → Walked es s ms t
        → Walked (ok h ∷ es) s ms t
    step :
        {es : List (Result IoError Header)} {s s' t : S} {ms : List Member} (h : Header)
        (m : Member)
        → IsSafe (view s) m
        → each s h m ≡ ok s'
        → Walked es s' ms t
        → Walked (ok h ∷ es) s (m ∷ ms) t

  walk_entries-Walked :
      (es : List (Result IoError Header)) (made : Made) (s : S) {ms : List Member} {t : S}
      → walk_entries view each es made s ≡ ok (ms, t)
      → Walked es s ms t
  unfolding walk_entries
  walk_entries-Walked [] made s h =
      subst (λ (o : List Member × S). Walked [] s o.0 o.1) (ok-injective h) done
  walk_entries-Walked (e ∷ es) made s {ms} {t} h =
      let (hd, e0, e1) = >>=-eq-ok (anon e) _ h in
      let (m, e2, e3) = >>=-eq-ok (member_of (view s) made hd) _ e1 in
      subst (λ r. Walked (r ∷ es) s ms t) (sym (map_err-eq-ok _ e e0))
        (by_member hd m (member_of-Good (view s) made hd e2) e3
          (λ made' s' ms' t' e'. walk_entries-Walked es made' s' {ms = ms'} {t = t'} e'))
    where
      by_member :
          (hd : Header) (m : Option Member)
          → Good (view s) made hd m
          → ◌≡◌ {A = Result Error (List Member × S)}
              (elim m [
                | none ↦ walk_entries view each es made s
                | some m' ↦ do
                  s' ← each s hd m'
                  (ms, s'') ← walk_entries view each es (remember m' made) s'
                  ok (m' ∷ ms, s'')
              ])
              (ok (ms, t))
          → ((made' : Made) (s' : S) (ms' : List Member) (t' : S)
              → walk_entries view each es made' s' ≡ ok (ms', t')
              → Walked es s' ms' t')
          → Walked (ok hd ∷ es) s ms t
      by_member hd none good e' rest = pass hd good (rest made s ms t e')
      by_member hd (some m) good e' rest =
          let (s', f0, f1) = >>=-eq-ok (each s hd m) _ e' in
          let (o, f2, f3) = >>=-eq-ok (walk_entries view each es (remember m made) s') _ f1 in
          subst (λ (p : List Member × S). Walked (ok hd ∷ es) s p.0 p.1) (ok-injective f3)
            (step hd m good f0 (rest (remember m made) s' o.0 o.1 f2))

  -- Whatever `each` does, an archive that is walked to its end is a run from the first state to the
  -- last one: each header is no member, or its member landed below the root, as did what a hard link
  -- names, and was no directory in another thing's place nor the other way round, on the disk as it was
  -- when the walk came to it; and the tar ended in 512 zero bytes.
  pub walk-Walked :
      (es : List (Result IoError Header)) (end_zeros : ℕ) (s : S) {ms : List Member} {t : S}
      → walk view each es end_zeros s ≡ ok (ms, t)
      → Walked es s ms t × (512 ≤ end_zeros)
  unfolding walk
  walk-Walked es end_zeros s {ms} {t} h =
      let (o, e0, e1) = >>=-eq-ok (walk_entries view each es [] s) _ h in
      let (u, e2, e3) = >>=-eq-ok (check_end end_zeros o.0) _ e1 in
      (
        subst (λ (p : List Member × S). Walked es s p.0 p.1) (ok-injective e3)
            (walk_entries-Walked es [] s e0),
        check_end_lem end_zeros o.0 e2,
      )

-- A run with one disk all along.
Walked-IsSafe :
    (v : View) {es : List (Result IoError Header)} {s t : Unit {0}} {ms : List Member}
    → Walked {S = Unit {0}} (λ _. v) (λ s _ _. ok s) es s ms t
    → All (IsSafe v) ms
Walked-IsSafe v done = tt
Walked-IsSafe v (pass h none_here w) = Walked-IsSafe v w
Walked-IsSafe v (step h m safe e w) = (safe, Walked-IsSafe v w)

-- Each member of a plan lands below the root, as does what a hard link names, none makes a directory
-- where the disk has another thing nor the other way round, and the tar ended in 512 zero bytes.
pub plan_reader-IsSafe :
    (v : View) (es : List (Result IoError Header)) (end_zeros : ℕ) {ms : List Member}
    → plan_reader v es end_zeros ≡ ok ms
    → All (IsSafe v) ms × (512 ≤ end_zeros)
unfolding plan_reader
plan_reader-IsSafe v es end_zeros {ms} h =
    let (o, e0, e1) =
      >>=-eq-ok (walk {S = Unit {0}} (λ _. v) (λ s _ _. ok s) es end_zeros tt) _ h in
    let (run, whole) = walk-Walked (λ _. v) (λ s _ _. ok s) es end_zeros tt e0 in
    (subst (All (IsSafe v)) (ok-injective e1) (Walked-IsSafe v run), whole)
