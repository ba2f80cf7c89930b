-- ===== src/Cli/Failures/Written.antt =====
-- The lines of the text that `write_fix` of crates/kiry/src/main.rs writes.
use kiry.Base.{
  ◌≡◌, refl, ◌∙◌, ap, subst, inl, inr, List, [], ◌∷◌, ◌++◌, Bool, true, false, ◌||◌, none, some,
  ◌==◌, nat_eq, list_eq, is_empty, if◌then◌else◌, append_assoc, append-nil, arith, Bool-cases,
  Option-cases,
}
use kiry.Base.Text.{
  Str, codes, newline, hash_sign, has, lines, lines_from, strip_cr, join, ends_with,
}
use kiry.Base.Text.Split.{Lacks, has-append}
use kiry.Base.Text.Lines.{lines-unlines, lines_from-append}
use kiry.Cli.Failures.{Fix, phase_of, phase_from, phase}
use kiry.Cli.Failures.Notes.{origin, body}
use kiry.Cli.Failures.Once.{IsSetting}

-- What stands behind a newline starts a line.
lines_from-whole :
    (s t cur : Str)
    → ends_with s (newline ∷ []) ≡ true
    → lines_from (s ++ t) cur ≡ lines_from s cur ++ lines_from t []
unfolding lines_from ends_with
lines_from-whole [] t cur h = absurd (cc h)
lines_from-whole (c ∷ []) t cur h =
    let e : (c == newline) ≡ true = ground arith in rw (e, lines_from) refl
lines_from-whole (c ∷ d ∷ s) t cur h =
    let h' : ends_with (d ∷ s) (newline ∷ []) ≡ true = ground arith in
    elim (Bool-cases (c == newline)) [
      | inl e ↦ rw (e, lines_from) (ap (λ ls. strip_cr cur ∷ ls) (lines_from-whole (d ∷ s) t [] h'))
      | inr e ↦ rw (e, lines_from) (lines_from-whole (d ∷ s) t (cur ++ c ∷ []) h')
    ]

-- A text that is empty or ends in a newline.
abbrev pub IsWhole : Str → Type 0
IsWhole s = (is_empty s || ends_with s (newline ∷ [])) ≡ true

lines-whole : (s t : Str) → IsWhole s → lines (s ++ t) ≡ lines s ++ lines t
unfolding lines
lines-whole [] t h = refl
lines-whole (c ∷ s) t h = lines_from-whole (c ∷ s) t [] h

one_of :
    (a b c : Bool) (q : Str)
    → (if a
        then some (codes "configure")
        else if b
        then some (codes "link")
        else if c
        then some (codes "check")
        else none)
      ≡ some q
    → Lacks newline q
unfolding has
one_of true b c q e = let same : codes "configure" ≡ q = cc e in subst (Lacks newline) same refl
one_of false true c q e = let same : codes "link" ≡ q = cc e in subst (Lacks newline) same refl
one_of false false true q e = let same : codes "check" ≡ q = cc e in subst (Lacks newline) same refl
one_of false false false q e = absurd (cc e)

phase_of-Lacks : (l q : Str) → phase_of l ≡ some q → Lacks newline q
unfolding phase_of
phase_of-Lacks l q e = one_of _ _ _ q e

phase_from-Lacks :
    (ls : List Str) (seen : Str) → Lacks newline seen → Lacks newline (phase_from seen ls)
unfolding phase_from
phase_from-Lacks [] seen h = h
phase_from-Lacks (l ∷ ls) seen h = elim (Option-cases (phase_of l)) [
  | inl e ↦ rw (e, phase_from) (phase_from-Lacks ls seen h)
  | inr (q, e) ↦ rw (e, phase_from) (phase_from-Lacks ls q (phase_of-Lacks l q e))
]

phase-Lacks : (log : Str) → Lacks newline (phase log)
unfolding phase has
phase-Lacks log = phase_from-Lacks (lines log) (codes "compile") refl

-- The two lines of comment.
abbrev pub first : Str → Str → Fix → Str
first day seen f =
    hash_sign ∷ b' ' ∷ (day ++ (codes " " ++ (seen ++ (codes " failed, " ++ f.rule))))

abbrev pub second : Fix → Str
second f = hash_sign ∷ (codes "   " ++ f.line)

origin-lines :
    (day seen : Str) (f : Fix) → origin day seen f ≡ first day seen f ++ newline ∷ second f
unfolding origin join
origin-lines day seen f = simp append_assoc

-- What a fix says of itself is on one line each.
pub record IsPlain (day : Str) (f : Fix) : Type 0 where
  pub day_line : Lacks newline day
  pub rule_line : Lacks newline f.rule
  pub line_line : Lacks newline f.line

first-Lacks :
    (day seen : Str) (f : Fix)
    → IsPlain day f
    → Lacks newline seen
    → Lacks newline (first day seen f)
unfolding has
first-Lacks day seen f is h =
    let a = has-append newline (codes " failed, ") f.rule refl is.rule_line in
    let b = has-append newline seen (codes " failed, " ++ f.rule) h a in
    let c = has-append newline (codes " ") (seen ++ (codes " failed, " ++ f.rule)) refl b in
    let e =
      has-append newline day (codes " " ++ (seen ++ (codes " failed, " ++ f.rule))) is.day_line c in
    ground (arith, e)

second-Lacks : (day : Str) (f : Fix) → IsPlain day f → Lacks newline (second f)
unfolding has
second-Lacks day f is =
    let e = has-append newline (codes "   ") f.line refl is.line_line in ground (arith, e)

comment-lines :
    (day log : Str) (f : Fix) (line : Str)
    → IsPlain day f
    → IsSetting line
    → lines (origin day (phase log) f ++ newline ∷ (line ++ newline ∷ []))
      ≡ strip_cr (first day (phase log) f) ∷ strip_cr (second f) ∷ line ∷ []
unfolding lines
comment-lines day log f line plain is =
    ap (λ t. lines (t ++ newline ∷ (line ++ newline ∷ []))) (origin-lines day (phase log) f)
    ∙ ap lines (
        append_assoc (first day (phase log) f) (newline ∷ second f)
          (newline ∷ (line ++ newline ∷ [])))
    ∙ lines_from-append (first day (phase log) f) (second f ++ newline ∷ (line ++ newline ∷ [])) []
        (first-Lacks day (phase log) f plain (phase-Lacks log))
    ∙ ap (λ ls. strip_cr (first day (phase log) f) ∷ ls)
        (lines_from-append (second f) (line ++ newline ∷ []) [] (second-Lacks day f plain)
          ∙ ap (λ ls. strip_cr (second f) ∷ ls) (lines-unlines (line ∷ []) (is.line, tt)))

pub body-lines :
    (had day log : Str) (f : Fix) (line : Str)
    → IsWhole had
    → IsPlain day f
    → IsSetting line
    → lines (body had day (phase log) f line)
      ≡ lines had ++ strip_cr (first day (phase log) f) ∷ strip_cr (second f) ∷ line ∷ []
unfolding body
body-lines had day log f line whole plain is =
    rw (whole, append-nil)
      (lines-whole had (origin day (phase log) f ++ newline ∷ (line ++ newline ∷ [])) whole
        ∙ ap (λ ls. lines had ++ ls) (comment-lines day log f line plain is))
