-- ===== src/Cli/Failures/Laws.antt =====
-- What the failure table of crates/kiry/src/main.rs promises: the first rule that matches decides.
use kiry.Base.{
  ◌≡◌, refl, sym, ◌∙◌, ap, subst, inl, inr, List, [], ◌∷◌, Option, none, some, nat_eq, list_eq,
  arith, Among, Option-cases,
}
use kiry.Base.Text.{Str, lines}
use kiry.Cli.Regex.{find}
use kiry.Cli.Failures.{Rule, Fix, fix_of, scan_lines, scan_rules, scan}

-- A rule that finds nothing in any of the lines.
abbrev pub Misses : Rule → List Str → Type 0
Misses r ls = (l : Str) → Among l ls → find r.rx l ≡ none

scan_lines-none : (r : Rule) (ls : List Str) → scan_lines r ls ≡ none → Misses r ls
unfolding scan_lines
scan_lines-none r [] h l there = absurd there
scan_lines-none r (m ∷ ls) h l there = elim (Option-cases (find r.rx m)) [
  | inr (caps, e) ↦ absurd (ground (arith, e, h))
  | inl e ↦ elim there [
    | inl here ↦ ap (find r.rx) here ∙ e
    | inr later ↦ scan_lines-none r ls (ground (arith, e, h)) l later
  ]
]

-- A fix for a line that the rule matches.
abbrev pub IsFix : Rule → List Str → Fix → Type 0
IsFix r ls f =
    (l : Str) × (caps : List Str) × Among l ls × (find r.rx l ≡ some caps) × (f ≡ fix_of r l caps)

scan_lines-first :
    (r : Rule) (m : Str) (ls : List Str) (caps : List Str)
    → find r.rx m ≡ some caps
    → scan_lines r (m ∷ ls) ≡ some (fix_of r m caps)
unfolding scan_lines
scan_lines-first r m ls caps e = ground (arith, e)

scan_lines-IsFix : (r : Rule) (ls : List Str) {f : Fix} → scan_lines r ls ≡ some f → IsFix r ls f
unfolding scan_lines
scan_lines-IsFix r [] h = absurd (ground (arith, h))
scan_lines-IsFix r (m ∷ ls) {f = f} h = elim (Option-cases (find r.rx m)) [
  | inr (caps, e) ↦ (m, caps, inl refl, e, cc (h, scan_lines-first r m ls caps e))
  | inl e ↦
      let (l, caps, there, found, same) = scan_lines-IsFix r ls (ground (arith, e, h)) in
      (l, caps, inr there, found, same)
]

-- The rules before the one that decides miss the whole log.
pub data Decides (ls : List Str) (f : Fix) : List Rule → Type 0 where
  here : {r : Rule} {rs : List Rule} → IsFix r ls f → Decides ls f (r ∷ rs)
  later : {r : Rule} {rs : List Rule} → Misses r ls → Decides ls f rs → Decides ls f (r ∷ rs)

-- No rule matches a line, or the first that does decides.
abbrev pub IsAnswer : List Rule → List Str → Option Fix → Type 0
IsAnswer rs ls none = (r : Rule) → Among r rs → Misses r ls
IsAnswer rs ls (some f) = Decides ls f rs

scan_rules-none :
    (rs : List Rule) (ls : List Str)
    → scan_rules rs ls ≡ none
    → (r : Rule) → Among r rs
    → Misses r ls
unfolding scan_rules
scan_rules-none [] ls h r there = absurd there
scan_rules-none (q ∷ rs) ls h r there = elim (Option-cases (scan_lines q ls)) [
  | inr (g, e) ↦ absurd (ground (arith, e, h))
  | inl e ↦ elim there [
    | inl same ↦ subst (λ x. Misses x ls) (sym same) (scan_lines-none q ls e)
    | inr behind ↦ scan_rules-none rs ls (ground (arith, e, h)) r behind
  ]
]

scan_rules-Decides :
    (rs : List Rule) (ls : List Str) {f : Fix} → scan_rules rs ls ≡ some f → Decides ls f rs
unfolding scan_rules
scan_rules-Decides [] ls h = absurd (ground (arith, h))
scan_rules-Decides (r ∷ rs) ls {f = f} h = elim (Option-cases (scan_lines r ls)) [
  | inr (g, e) ↦
      let same : g ≡ f = ground (arith, e, h) in here (scan_lines-IsFix r ls (e ∙ ap some same))
  | inl e ↦ later (scan_lines-none r ls e) (scan_rules-Decides rs ls (ground (arith, e, h)))
]

-- A log has the fix of the first rule that matches a line of it, and none if no rule does.
pub scan-IsAnswer : (rs : List Rule) (log : Str) → IsAnswer rs (lines log) (scan rs log)
unfolding scan
scan-IsAnswer rs log = answer (scan_rules rs (lines log)) refl
  where
    -- With a fix, or without.
    answer : (o : Option Fix) → scan_rules rs (lines log) ≡ o → IsAnswer rs (lines log) o
    answer none e = scan_rules-none rs (lines log) e
    answer (some f) e = scan_rules-Decides rs (lines log) e
