-- ===== src/Db/Provides.antt =====
-- crates/kiry-core/src/db.rs: the sonames that a package hands to what links against it.
use kiry.Base.{
  ℕ, ◌+◌, ◌≡◌, refl, ◌∙◌, ap, sym, List, [], ◌∷◌, ◌++◌, map, Bool, true, false, ◌||◌, ◌==◌, nat_eq,
  list_eq, All, any, is_empty, arith, if◌then◌else◌, Bool-cases, inl, inr, append_assoc, ◌<◌,
  Result, ok, err, ◌>>=◌, ◌>>◌, >>=-eq-ok, ok-injective,
}
use kiry.Base.Text.{
  Str, codes, space, newline, slash, has, begins, splitn, lines, trim, is_whitespace, strip_cr,
}
use kiry.Base.Text.Split.{Lacks, splitn-append}
use kiry.Base.Text.Trim.{trim-full}
use kiry.Base.Text.Lines.{unlines, IsLine, lines-unlines}
use kiry.Error.{Error}
use kiry.Db.Manifest.{bad}
use kiry.Db.Manifest.RoundTrip.{strip_cr-field, newline-field}

pub record Provide : Type 0 where
  pub soname : Str
  pub versioned : Bool
  pub path : Str

flag : Bool → Str
flag v = if v then codes "v" else codes "-"

show_provide : Provide → Str
unfolding flag
show_provide p = p.soname ++ (space ∷ (flag p.versioned ++ (space ∷ p.path)))

check_provide : Provide → Result Error (Unit {0})
check_provide p =
    if any is_whitespace p.soname
    then err (Error.bad_path p.soname)
    else if has newline p.path || begins slash p.path
    then err (Error.bad_path p.path)
    else ok tt

unfoldable pub format_provides : List Provide → Result Error Str
unfolding check_provide show_provide
format_provides [] = ok []
format_provides (p ∷ ps) = do
  check_provide p
  rest ← format_provides ps
  ok (show_provide p ++ (newline ∷ rest))

parse_flag : ℕ → Str → Result Error Bool
parse_flag n v =
    if v == codes "v" then ok true else if v == codes "-" then ok false else bad n "flag is v or -"

with_three : ℕ → List Str → Result Error Provide
with_three n (soname ∷ v ∷ path ∷ more) = do
  versioned ← parse_flag n v
  ok (record { soname = soname; versioned = versioned; path = path })
with_three n [] = bad n "wants soname, flag, path"
with_three n (a ∷ []) = bad n "wants soname, flag, path"
with_three n (a ∷ b ∷ []) = bad n "wants soname, flag, path"

-- The loop of `parse_provides` from line `n` on; a blank line is passed over.
parse_lines : ℕ → List Str → Result Error (List Provide)
parse_lines n [] = ok []
parse_lines n (l ∷ ls) =
    let rest = parse_lines (n + 1) ls in
    let here = (do p ← with_three n (splitn 3 l space); ps ← rest; ok (p ∷ ps)) in
    if is_empty (trim l) then rest else here

unfoldable pub parse_provides : Str → Result Error (List Provide)
unfolding parse_lines with_three parse_flag
parse_provides text = parse_lines 1 (lines text)

-- A path that does not end in a carriage return.
abbrev pub IsProvide : Provide → Type 0
IsProvide p = strip_cr p.path ≡ p.path

abbrev IsChecked : Provide → Type 0
IsChecked p = check_provide p ≡ ok tt

solid-Lacks : (c : ℕ) (s : Str) → is_whitespace c ≡ true → any is_whitespace s ≡ false → Lacks c s
unfolding has
solid-Lacks c [] _ _ = refl
solid-Lacks c (d ∷ s) w h = ground (arith, solid-Lacks c s w)

flag-Lacks : (c : ℕ) (v : Bool) → c < 45 → Lacks c (flag v)
unfolding has flag
flag-Lacks c true lt = ground arith
flag-Lacks c false lt = ground arith

soname-Lacks : (c : ℕ) (p : Provide) → is_whitespace c ≡ true → IsChecked p → Lacks c p.soname
unfolding check_provide
soname-Lacks c p w h = solid-Lacks c p.soname w (ground arith)

path-Lacks : (p : Provide) → IsChecked p → Lacks newline p.path
unfolding check_provide
path-Lacks p h = ground arith

parse_flag-flag : (n : ℕ) (v : Bool) → parse_flag n (flag v) ≡ ok v
unfolding parse_flag flag
parse_flag-flag n true = refl
parse_flag-flag n false = refl

splitn-show_provide :
    (p : Provide)
    → IsChecked p
    → splitn 3 (show_provide p) space ≡ p.soname ∷ flag p.versioned ∷ p.path ∷ []
unfolding show_provide splitn
splitn-show_provide p h =
    splitn-append space 1 p.soname _ (soname-Lacks space p refl h)
    ∙ ap (λ t. p.soname ∷ t)
        (splitn-append space 0 (flag p.versioned) p.path
          (flag-Lacks space p.versioned (omega arith)))

show_provide-IsLine : (p : Provide) → IsChecked p → IsProvide p → IsLine (show_provide p)
unfolding show_provide
show_provide-IsLine p h e = (
  newline-field _ _ (soname-Lacks newline p refl h)
      (newline-field _ _ (flag-Lacks newline p.versioned (omega arith)) (path-Lacks p h)),
  strip_cr-field _ _ ∙ rw (strip_cr-field (flag p.versioned) p.path, e),
)

show_provide-full : (p : Provide) → is_empty (trim (show_provide p)) ≡ false
unfolding show_provide flag
show_provide-full p = elim (Bool-cases p.versioned) [
  | inl e ↦
      rw (e, ← append_assoc p.soname (space ∷ []) (b'v' ∷ space ∷ p.path))
        (trim-full (p.soname ++ (space ∷ [])) (space ∷ p.path) b'v' refl)
  | inr e ↦
      rw (e, ← append_assoc p.soname (space ∷ []) (b'-' ∷ space ∷ p.path))
        (trim-full (p.soname ++ (space ∷ [])) (space ∷ p.path) b'-' refl)
]

format_provides-ok :
    (ps : List Provide) {text : Str}
    → format_provides ps ≡ ok text
    → All IsChecked ps × (text ≡ unlines (map show_provide ps))
unfolding format_provides
format_provides-ok [] h = (tt, sym (ok-injective h))
format_provides-ok (p ∷ ps) h =
    let (u, checked, h') = >>=-eq-ok (check_provide p) _ h in
    let (rest, more, last) = >>=-eq-ok (format_provides ps) _ h' in
    let (cs, same) = format_provides-ok ps more in
    ((checked, cs), sym (ok-injective last) ∙ ap (λ t. show_provide p ++ (newline ∷ t)) same)

map-IsLine :
    (ps : List Provide) → All IsChecked ps → All IsProvide ps → All IsLine (map show_provide ps)
map-IsLine [] _ _ = tt
map-IsLine (p ∷ ps) (h, hs) (e, es) = (show_provide-IsLine p h e, map-IsLine ps hs es)

parse_lines-show_provide :
    (ps : List Provide) (n : ℕ) → All IsChecked ps → parse_lines n (map show_provide ps) ≡ ok ps
unfolding parse_lines with_three
parse_lines-show_provide [] n _ = refl
parse_lines-show_provide (p ∷ ps) n (h, hs) =
    rw
      (
        show_provide-full p,
        splitn-show_provide p h,
        parse_lines-show_provide ps (n + 1) hs,
        with_three,
      )
      (rw (parse_flag-flag n p.versioned))

-- What `format_provides` writes, `parse_provides` reads back, if no path ends in a carriage return.
pub parse_provides-format_provides :
    (ps : List Provide) {text : Str}
    → All IsProvide ps
    → format_provides ps ≡ ok text
    → parse_provides text ≡ ok ps
unfolding parse_provides
parse_provides-format_provides ps es h =
    let (cs, same) = format_provides-ok ps h in
    ap parse_provides same
    ∙ ap (parse_lines 1) (lines-unlines (map show_provide ps) (map-IsLine ps cs es))
    ∙ parse_lines-show_provide ps 1 cs
