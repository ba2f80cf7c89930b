-- ===== src/Tests/Patterns.antt =====
-- Runs of the patterns of the failure table, crates/kiry/src/main.rs.
use kiry.Base.{
  ℕ, ◌≡◌, refl, List, [], ◌∷◌, Option, none, some, Result, ok, err, ◌>>=◌, ◌≤◌, ◌<◌, ◌≢◌, ◌↔◌,
}
use kiry.Base.Text.{Str, codes}
use kiry.Cli.Regex.{
  Rx, find, Pieces, done, piece, lit, any, class, group, alt, no_alt, usize_max, seq, texts,
  no_caps,
}
use kiry.Cli.Regex.Meaning.{Matches}
use kiry.Cli.Regex.Reading.{Numbered}
use kiry.Cli.Regex.New.{new_total, new-Numbered}
use kiry.Cli.Regex.Find.{AreTaken, find-Matches, find-none, find-Leftmost}
use kiry.Cli.Regex.Parse.{
  new, ParseError, out_of_fuel, group_quantified, unclosed_class, nothing_before,
}

abbrev found : Str → Str → Result ParseError (Option (List Str))
unfolding new find
found pattern line = new pattern >>= (λ rx. ok (find rx line))

drop_flag :
    found (codes "argument: '(-[fm][\\w=-]+)'") (codes "unknown argument: '-fx=1'")
    ≡ ok (some (codes "-fx=1" ∷ []))
unfolding found kiry.Cli.Regex.Parse.range_end
drop_flag = refl

gives_back : found (codes "o.*lto") (codes "of memory in lto: lt") ≡ ok (some [])
unfolding found
gives_back = refl

second_alternative :
    found (codes "no (template|member) named") (codes "no member named")
    ≡ ok (some (codes "member" ∷ []))
unfolding found
second_alternative = refl

no_hit : found (codes "__\\w+_chk") (codes "__x_ch") ≡ ok none
unfolding found
no_hit = refl

no_quantifier : found (codes "(a|b)+") [] ≡ err group_quantified
unfolding found
no_quantifier = refl

nothing_to_repeat : found (codes "*a") [] ≡ err (nothing_before b'*')
unfolding found
nothing_to_repeat = refl

class_is_open : found (codes "[a") [] ≡ err unclosed_class
unfolding found kiry.Cli.Regex.Parse.range_end
class_is_open = refl

-- A group within a group is read, and takes what it took.
nested : found (codes "(x(a|b))c") (codes "xbc") ≡ ok (some (codes "xb" ∷ codes "b" ∷ []))
unfolding found
nested = refl

-- Only the first end of a group is tried.
first_end : found (codes "(a+)a") (codes "aaa") ≡ ok none
unfolding found
first_end = refl

abbrev word_fault : Rx
word_fault = record {
  prog =
      piece any (0, usize_max)
        (piece
          (group 0 (alt (piece (lit b'k') (1, 1) done) (alt (piece (lit b'j') (1, 1) done) no_alt)))
          (1, 1) done);
  groups = 1;
  src = codes ".*(k|j)";
}

reads_word_fault : new (codes ".*(k|j)") ≡ ok word_fault
unfolding new
reads_word_fault = refl

finds_word_fault : find word_fault (codes "a jk!") ≡ some (codes "k" ∷ [])
unfolding find
finds_word_fault = refl

find-Matches_example :
    (i : ℕ) × (j : ℕ) × (i ≤ 5)
    × Matches (codes "a jk!") word_fault.prog i j
    × AreTaken word_fault.prog (codes "a jk!") 0 (codes "k" ∷ [])
find-Matches_example = find-Matches word_fault (codes "a jk!") finds_word_fault

find-none_example :
    (find word_fault (codes "a!") ≡ none)
    ↔ ((i j : ℕ) → i ≤ 2 → ¬ (Matches (codes "a!") word_fault.prog i j))
find-none_example = find-none word_fault (codes "a!") (((refl, tt), ((refl, tt), tt)), tt)

find-Leftmost_example :
    (i : ℕ) × (j : ℕ) × ((codes "k" ∷ [])
      ≡ texts (codes "a jk!") (seq word_fault.prog (codes "a jk!") i (no_caps 1)).1)
    × Matches (codes "a jk!") word_fault.prog i j
    × ((m k : ℕ) → m < i → ¬ (Matches (codes "a jk!") word_fault.prog m k))
find-Leftmost_example =
    find-Leftmost word_fault (codes "a jk!") (((refl, tt), ((refl, tt), tt)), tt) finds_word_fault

new_total_example : new (codes "(((a|b") ≢ err out_of_fuel
new_total_example = new_total (codes "(((a|b")

new-Numbered_example : Numbered 0 1 word_fault.prog
new-Numbered_example = new-Numbered (codes ".*(k|j)") reads_word_fault
