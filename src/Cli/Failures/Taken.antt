-- ===== src/Cli/Failures/Taken.antt =====
-- The filter file of a recipe, as `write_fix` of crates/kiry/src/main.rs writes it and as `filters` reads
-- it.
use kiry.Base.{
  ℕ, ◌+◌, ◌≡◌, refl, ◌∙◌, ap, inl, inr, List, [], ◌∷◌, ◌++◌, Bool, true, false, some, nat_eq,
  list_eq, contains, is_empty, Result, ok, err, >>=-eq-ok, ok-injective, arith, Bool-cases,
}
use kiry.Base.Text.{Str, codes, hash_sign, lines, strip_cr, trim, cut_from}
use kiry.Base.Text.Split.{cut_from-none}
use kiry.Error.{IoError, not_found, other}
use kiry.Disk.{Disk, path_join, read_to_string}
use kiry.Cli.Failures.{Fix, phase}
use kiry.Cli.Failures.Notes.{read_or_default, has_line, noted_new, noted}
use kiry.Cli.Failures.Once.{IsSetting, noted_new-body}
use kiry.Cli.Flags
use kiry.Cli.Flags.{Setting, FlagError, key_value, uncommented, row, rows, rows_of, verbs, filters}
use kiry.Cli.Failures.Written.{IsWhole, IsPlain, first, second, body-lines}

-- A comment is no row.
comment-empty : (s : Str) → uncommented (strip_cr (hash_sign ∷ s)) ≡ []
unfolding uncommented strip_cr cut_from trim
comment-empty [] = refl
comment-empty (c ∷ s) = refl

-- The phase that a log names is one word.
module _ (known : Str → Bool) (refuse : ℕ → Str → FlagError) (from : Str) where
  row-known :
      (n m : ℕ) (kv : Str × Str) {s : Setting}
      → row known refuse from n kv ≡ ok s
      → row known refuse from m kv ≡ ok s
  unfolding row
  row-known n m (k, v) h = elim (Bool-cases (known k)) [
    | inl e ↦ rw (e, row) (rw (e, row) at h)
    | inr e ↦ absurd (cc (rw (e, row) at h))
  ]

  row-ok :
      (n : ℕ) (kv : Str × Str)
      → known kv.0 ≡ true
      → row known refuse from n kv ≡ ok (record { from = from; key = kv.0; value = trim kv.1 })
  unfolding row
  row-ok n kv h = rw (h, row) refl

  -- Rows that are read are read behind others too.
  rows-append :
      (n m : ℕ) (a b : List Str) {x y : List Setting}
      → rows known refuse from n a ≡ ok x
      → ((k : ℕ) → rows known refuse from k b ≡ ok y)
      → rows known refuse from m (a ++ b) ≡ ok (x ++ y)
  unfolding rows
  rows-append n m [] b {x} {y} h k = k m ∙ ap (λ (z : List Setting). ok (z ++ y)) (ok-injective h)
  rows-append n m (l ∷ a) b {x} {y} h k = elim (Bool-cases (is_empty (uncommented l))) [
    | inl e ↦ rw (e, rows) (rows-append (n + 1) (m + 1) a b (rw (e, rows) at h) k)
    | inr e ↦
        let (s, h0, h1) =
          >>=-eq-ok (row known refuse from n (key_value (uncommented l))) _ (rw (e, rows) at h) in
        let (more, h2, h3) = >>=-eq-ok (rows known refuse from (n + 1) a) _ h1 in
        rw
          (
            e,
            rows,
            row-known n m (key_value (uncommented l)) h0,
            rows-append (n + 1) (m + 1) a b h2 k,
          )
          (ap (λ (z : List Setting). ok (z ++ y)) (ok-injective h3))
  ]

-- What a row of a filter file says.
abbrev pub setting_of : Str → Str → Setting
setting_of at line = record { from = at; key = (key_value line).0; value = trim (key_value line).1 }

abbrev pub filter_path : Str → Str
filter_path dir = path_join dir (codes "filter")

uncommented-bare : (line : Str) → IsSetting line → uncommented line ≡ line
unfolding uncommented
uncommented-bare line is = rw (cut_from-none hash_sign line [] is.plain) is.tight

-- The line of a fix is one row.
row-line :
    (at line : Str) (refuse : ℕ → Str → FlagError) (n : ℕ)
    → IsSetting line
    → contains verbs (key_value line).0 ≡ true
    → rows (contains verbs) refuse at n (line ∷ []) ≡ ok (setting_of at line ∷ [])
unfolding rows row
row-line at [] refuse n is verb = absurd (cc verb)
row-line at (c ∷ line) refuse n is verb =
    let bare = uncommented-bare (c ∷ line) is in
    let full : is_empty (uncommented (c ∷ line)) ≡ false = ap is_empty bare in
    let read : row (contains verbs) refuse at n (key_value (uncommented (c ∷ line)))
        ≡ ok (setting_of at (c ∷ line)) =
      ap (λ l. row (contains verbs) refuse at n (key_value l)) bare
      ∙ row-ok (contains verbs) refuse at n (key_value (c ∷ line)) verb in
    rw (full, rows, read) refl

-- The rows of a file that is not there are those of an empty one.
filters-rows :
    (at : Str) (refuse : ℕ → Str → FlagError) (r : Result IoError Str) {old : List Setting}
    → rows_of (contains verbs) refuse at at r ≡ ok old
    → rows (contains verbs) refuse at 1 (lines (elim r [ ok t ↦ t | err e ↦ [] ])) ≡ ok old
unfolding rows_of rows lines
filters-rows at refuse (ok t) h = h
filters-rows at refuse (err not_found) h = h
filters-rows at refuse (err (other n)) h = absurd (cc h)

comment-rows :
    (at line a b : Str) (refuse : ℕ → Str → FlagError) (n : ℕ)
    → IsSetting line
    → contains verbs (key_value line).0 ≡ true
    → rows
        (contains verbs)
        refuse
        at
        n
        (strip_cr (hash_sign ∷ a) ∷ strip_cr (hash_sign ∷ b) ∷ line ∷ [])
      ≡ ok (setting_of at line ∷ [])
unfolding rows
comment-rows at line a b refuse n is verb =
    let ea : is_empty (uncommented (strip_cr (hash_sign ∷ a))) ≡ true =
      ap is_empty (comment-empty a) in
    let eb : is_empty (uncommented (strip_cr (hash_sign ∷ b))) ≡ true =
      ap is_empty (comment-empty b) in
    rw (ea, rows, eb) (row-line at line refuse (n + 1 + 1) is verb)

-- A fix whose line starts with a verb, noted in the filter file of a recipe, is what `filters` reads
-- there behind what it read before, if the file was empty or ended in a newline, the line holds no
-- comment and no newline and has no space at its ends, and the day, the rule and the line of the log
-- hold no newline.
pub filters-noted :
    (d after : Disk) (day log : Str) (f : Fix) (dir line said : Str) {old : List Setting}
    → IsSetting line
    → contains verbs (key_value line).0 ≡ true
    → IsPlain day f
    → IsWhole (read_or_default d (filter_path dir))
    → filters d dir ≡ ok old
    → noted d day log f (filter_path dir) line ≡ ok (some said, after)
    → filters after dir ≡ ok (old ++ setting_of (filter_path dir) line ∷ [])
unfolding filters noted read_or_default rows_of
filters-noted d after day log f dir line said {old} is verb plain whole before h =
    elim (Bool-cases (has_line (read_or_default d at) line)) [
      | inl e ↦ absurd (ground (arith, e, h))
      | inr e ↦
          let new : noted_new d day log f at line ≡ ok (some said, after) = ground (arith, e, h) in
          ap (rows_of (contains verbs) refuse at at)
            (noted_new-body d after day log f at line said new)
          ∙ ap (rows (contains verbs) refuse at 1)
              (body-lines (read_or_default d at) day log f line whole plain is)
          ∙ rows-append (contains verbs) refuse at 1 1 (lines (read_or_default d at))
              (strip_cr (first day (phase log) f) ∷ strip_cr (second f) ∷ line ∷ [])
              (filters-rows at refuse (read_to_string d at) before)
              (λ n.
                comment-rows at line
                  (b' ' ∷ (day ++ (codes " " ++ (phase log ++ (codes " failed, " ++ f.rule)))))
                  (codes "   " ++ f.line) refuse n is verb)
    ]
  where
    at : Str
    at = filter_path dir

    refuse : ℕ → Str → FlagError
    refuse = Flags.not_a_verb at
