-- ===== src/Cli/Failures/Once.antt =====
-- A second call of `write_fix`, crates/kiry/src/main.rs, with the line that the first one wrote.
use kiry.Base.{
  ℕ, ◌≡◌, refl, sym, ◌∙◌, ap, subst, ◌⊎◌, inl, inr, List, [], ◌∷◌, ◌++◌, Bool, true, false, not,
  ◌||◌, Option, none, some, ◌==◌, nat_eq, list_eq, list_beq_iff, any, lookup, is_empty,
  if◌then◌else◌, append_assoc, Result, ok, err, ◌>>=◌, >>=-eq-ok, arith, Among, Bool-cases,
  Option-cases, Result-cases,
}
use kiry.Base.Text.{Str, newline, hash_sign, lines, lines_from, strip_cr, trim, ends_with}
use kiry.Base.Text.Split.{Lacks, cut_from-none}
use kiry.Base.Text.Lines.{IsLine, lines-unlines}
use kiry.Error.{IoError}
use kiry.Disk.{Disk, Node, file, folder, denied, read_to_string, write, set}
use kiry.Cli.Failures.{Fix, phase}
use kiry.Cli.Failures.Notes.{
  uncommented, has_line, origin, body, read_or_default, parent_made, written, noted_new, noted,
}

write-set :
    (d : Disk) (at s : Str) {after : Disk} → write d at s ≡ ok after → after ≡ set at (file s) d
unfolding write
write-set d at s {after = after} h = by_node (lookup at d) refl
  where
    -- What stood there.
    by_node : (o : Option Node) → lookup at d ≡ o → after ≡ set at (file s) d
    by_node none e = ground (arith, e, h)
    by_node (some (file t)) e = ground (arith, e, h)
    by_node (some folder) e = absurd (ground (arith, e, h))
    by_node (some (denied why)) e = absurd (ground (arith, e, h))

read_to_string-set : (d : Disk) (at s : Str) → read_to_string (set at (file s) d) at ≡ ok s
unfolding read_to_string set kiry.Base.lookup
read_to_string-set d at s = ground (arith, (list_beq_iff at at).1 refl)

lines_from-behind :
    (a b cur : Str)
    → (before : List Str) × (lines_from (a ++ newline ∷ b) cur ≡ before ++ lines_from b [])
unfolding lines_from
lines_from-behind [] b cur = (strip_cr cur ∷ [], refl)
lines_from-behind (c ∷ a) b cur = elim (Bool-cases (c == newline)) [
  | inl e ↦
      let (before, same) = lines_from-behind a b [] in
      (strip_cr cur ∷ before, rw (e, lines_from) (ap (λ x. strip_cr cur ∷ x) same))
  | inr e ↦
      let (before, same) = lines_from-behind a b (cur ++ c ∷ []) in
      (before, rw (e, lines_from) same)
]

any-last :
    (p : Str → Bool) (before : List Str) (l : Str) → p l ≡ true → any p (before ++ l ∷ []) ≡ true
any-last p [] l h = ground (arith, h)
any-last p (b ∷ before) l h = ground (arith, any-last p before l h)

-- A line of a settings file: no comment in it, no newline, and no space at its ends.
pub record IsSetting (l : Str) : Type 0 where
  pub line : IsLine l
  pub plain : Lacks hash_sign l
  pub tight : trim l ≡ l

uncommented-setting : (line : Str) → IsSetting line → uncommented line ≡ line
unfolding uncommented
uncommented-setting line is = rw (cut_from-none hash_sign line [] is.plain) is.tight

body-has_line :
    (had day seen : Str) (f : Fix) (line : Str)
    → IsSetting line
    → has_line (body had day seen f line) line ≡ true
unfolding has_line body lines uncommented
body-has_line had day seen f line is =
    let gap : Str = if is_empty had || ends_with had (newline ∷ []) then [] else newline ∷ [] in
    let (before, same) =
      lines_from-behind ((had ++ gap) ++ origin day seen f) (line ++ newline ∷ []) [] in
    let last : lines (line ++ newline ∷ []) ≡ line ∷ [] = lines-unlines (line ∷ []) (is.line, tt) in
    let whole : lines (body had day seen f line) ≡ before ++ line ∷ [] =
      ap lines
        (sym (append_assoc (had ++ gap) (origin day seen f) (newline ∷ (line ++ newline ∷ []))))
      ∙ same
      ∙ ap (λ x. before ++ x) last in
    let bare : uncommented line ≡ line = uncommented-setting line is in
    ap (any (λ l. uncommented l == line)) whole
    ∙ any-last (λ l. uncommented l == line) before line
        ((list_beq_iff (uncommented line) line).1 bare)

written-some :
    (at line : Str) (r : Result IoError Disk) {said : Str} {after : Disk}
    → written at line r ≡ ok (some said, after)
    → r ≡ ok after
unfolding written
written-some at line (ok d) {after = after} h = let same : d ≡ after = cc h in ap (λ x. ok x) same
written-some at line (err why) h = absurd (ground (arith, h))

-- The text that stands there after a fix is written.
pub noted_new-body :
    (d after : Disk) (day log : Str) (f : Fix) (at line said : Str)
    → noted_new d day log f at line ≡ ok (some said, after)
    → read_to_string after at ≡ ok (body (read_or_default d at) day (phase log) f line)
unfolding noted_new
noted_new-body d after day log f at line said h =
    let text : Str = body (read_or_default d at) day (phase log) f line in
    let (e, made, w) = >>=-eq-ok (parent_made d at) (λ e. written at line (write e at text)) h in
    let same = write-set e at text (written-some at line (write e at text) w) in
    ap (λ x. read_to_string x at) same ∙ read_to_string-set e at text

noted_new-has_line :
    (d after : Disk) (day log : Str) (f : Fix) (at line said : Str)
    → IsSetting line
    → noted_new d day log f at line ≡ ok (some said, after)
    → has_line (read_or_default after at) line ≡ true
unfolding read_or_default
noted_new-has_line d after day log f at line said is h =
    let text : Str = body (read_or_default d at) day (phase log) f line in
    let there = noted_new-body d after day log f at line said h in
    let read : read_or_default after at ≡ text = ground (arith, there) in
    ap (λ t. has_line t line) read ∙ body-has_line (read_or_default d at) day (phase log) f line is

noted_there :
    (d : Disk) (day log : Str) (f : Fix) (at line : Str)
    → has_line (read_or_default d at) line ≡ true
    → noted d day log f at line ≡ ok (none, d)
unfolding noted
noted_there d day log f at line e = ground (arith, e)

-- A fix that was written is not written again, on whatever later day and for whatever later log, if its
-- line holds no comment and no newline and has no space at its ends.
pub noted-noted :
    (d after : Disk) (day day2 log log2 : Str) (f g : Fix) (at line said : Str)
    → IsSetting line
    → noted d day log f at line ≡ ok (some said, after)
    → noted after day2 log2 g at line ≡ ok (none, after)
unfolding noted
noted-noted d after day day2 log log2 f g at line said is h =
    elim (Bool-cases (has_line (read_or_default d at) line)) [
      | inl e ↦ absurd (ground (arith, e, h))
      | inr e ↦
          let new : noted_new d day log f at line ≡ ok (some said, after) = ground (arith, e, h) in
          noted_there after day2 log2 g at line
            (noted_new-has_line d after day log f at line said is new)
    ]
