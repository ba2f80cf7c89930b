-- ===== src/Db/Manifest/Parse.antt =====
-- What a manifest that is read holds, and which line an error names.
use kiry.Base.{
  ℕ, ◌+◌, ◌≤◌, ◌≡◌, refl, ap, inl, inr, ◌⊎◌, List, [], ◌∷◌, ◌++◌, true, false, list_eq, nat_eq, All,
  Bool-cases, arith, ok, err, subst, is_empty, ok-injective, >>=-eq-ok, ok_or-eq-ok, Result-cases,
  length, ok_or,
}
use kiry.Base.Text.{Str, space, slash, begins, splitn, lines}
use kiry.Base.Text.Radix.{u32_max, from_str_radix, from_str_radix-le}
use native.Mathlib.Nat.{add-zero}
use kiry.Error.{Error}
use kiry.Db.Manifest.{
  Kind, file, dir, link, hard, Entry, parse_kind, parse_path, parse_fields, with_four, parse_entry,
  parse_lines, parse_manifest,
}
use kiry.Db.Manifest.RoundTrip.{HoldsDigest}

-- An entry as a manifest gives it: its path is below the root.
pub record IsRead (e : Entry) : Type 0 where
  pub mode_fits : e.mode ≤ u32_max
  pub digest : HoldsDigest e.kind
  pub path_full : is_empty e.path ≡ false
  pub path_relative : begins slash e.path ≡ false

parse_kind-HoldsDigest :
    (n : ℕ) (kind third : Str) (k : Kind) → parse_kind n kind third ≡ ok k → HoldsDigest k
unfolding parse_kind
parse_kind-HoldsDigest n kind third (file h) e = ground arith
parse_kind-HoldsDigest n kind third dir e = tt
parse_kind-HoldsDigest n kind third (link t) e = tt
parse_kind-HoldsDigest n kind third (hard t) e = tt

parse_path-IsRead :
    (n : ℕ) (path p : Str)
    → parse_path n path ≡ ok p
    → (is_empty p ≡ false) × (begins slash p ≡ false)
unfolding parse_path
parse_path-IsRead n path p e = ground arith

parse_fields-IsRead :
    (n : ℕ) (kind mode third path : Str) {e : Entry}
    → parse_fields n kind mode third path ≡ ok e
    → IsRead e
unfolding parse_fields
parse_fields-IsRead n kind mode third path h =
    let (m, hm, h1) =
      >>=-eq-ok (ok_or (from_str_radix 8 mode) (Error.manifest n "mode is not octal")) _ h in
    let (k, hk, h2) = >>=-eq-ok (parse_kind n kind third) _ h1 in
    let (p, hp, h3) = >>=-eq-ok (parse_path n path) _ h2 in
    let (full, relative) = parse_path-IsRead n path p hp in
    subst IsRead (ok-injective h3) (record {
      mode_fits = from_str_radix-le 8 mode m (ok_or-eq-ok (from_str_radix 8 mode) _ hm);
      digest = parse_kind-HoldsDigest n kind third k hk;
      path_full = full;
      path_relative = relative;
    })

with_four-IsRead : (n : ℕ) (ws : List Str) {e : Entry} → with_four n ws ≡ ok e → IsRead e
unfolding with_four
with_four-IsRead n (kind ∷ mode ∷ third ∷ path ∷ more) h =
    parse_fields-IsRead n kind mode third path h
with_four-IsRead n [] h = absurd (cc)
with_four-IsRead n (a ∷ []) h = absurd (cc)
with_four-IsRead n (a ∷ b ∷ []) h = absurd (cc)
with_four-IsRead n (a ∷ b ∷ c ∷ []) h = absurd (cc)

parse_lines-IsRead :
    (n : ℕ) (ls : List Str) {es : List Entry} → parse_lines n ls ≡ ok es → All IsRead es
unfolding parse_lines parse_entry
parse_lines-IsRead n [] h = subst (All IsRead) (ok-injective h) tt
parse_lines-IsRead n (l ∷ ls) {es} h = elim (Bool-cases (is_empty l)) [
  | inl blank ↦ parse_lines-IsRead (n + 1) ls (rw blank at h)
  | inr full ↦
      let (e, he, h1) = >>=-eq-ok (parse_entry l n) _ (rw full at h) in
      let (rest, hrest, h2) = >>=-eq-ok (parse_lines (n + 1) ls) _ h1 in
      subst (All IsRead) (ok-injective h2)
        (with_four-IsRead n (splitn 4 l space) he, parse_lines-IsRead (n + 1) ls hrest)
]

-- Every entry of a manifest that is read has a mode of 32 bits and a path that is neither empty nor
-- absolute, and the third field of a file is 64 hexadecimal digits.
pub parse_manifest-IsRead :
    (text : Str) {es : List Entry} → parse_manifest text ≡ ok es → All IsRead es
unfolding parse_manifest
parse_manifest-IsRead text h = parse_lines-IsRead 1 (lines text) h

-- A line that gives an entry or is passed over.
abbrev pub IsFine : ℕ → Str → Type 0
IsFine n l = (is_empty l ≡ true) ⊎ ((e : Entry) × (parse_entry l n ≡ ok e))

abbrev pub AllFine : ℕ → List Str → Type 0
AllFine n [] = Unit
AllFine n (l ∷ ls) = IsFine n l × AllFine (n + 1) ls

-- The first line that does not parse, where an error came from.
pub record FirstBad (n : ℕ) (ls : List Str) (why : Error) : Type 0 where
  pub before : List Str
  pub line : Str
  pub after : List Str
  pub cut : ls ≡ before ++ line ∷ after
  pub fine : AllFine n before
  pub full : is_empty line ≡ false
  pub fails : parse_entry line (n + length before) ≡ err why

later :
    {n : ℕ} {l : Str} {ls : List Str} {why : Error}
    → IsFine n l
    → FirstBad (n + 1) ls why
    → FirstBad n (l ∷ ls) why
later {n} {l} {why = why} fine b = record {
  before = l ∷ b.before;
  line = b.line;
  after = b.after;
  cut = ap (λ t. l ∷ t) b.cut;
  fine = (fine, b.fine);
  full = b.full;
  fails = subst (λ k. parse_entry b.line k ≡ err why) (omega arith) b.fails;
}

parse_lines-FirstBad :
    (n : ℕ) (ls : List Str) {why : Error} → parse_lines n ls ≡ err why → FirstBad n ls why
unfolding parse_lines
parse_lines-FirstBad n [] h = absurd (cc)
parse_lines-FirstBad n (l ∷ ls) {why} h = elim (Bool-cases (is_empty l)) [
  | inl blank ↦ later (inl blank) (parse_lines-FirstBad (n + 1) ls (rw blank at h))
  | inr full ↦ elim (Result-cases (parse_entry l n)) [
    | inl (e, fine) ↦ later (inr (e, fine)) (parse_lines-FirstBad (n + 1) ls (ground arith))
    | inr (w, bad_line) ↦ record {
      before = [];
      line = l;
      after = ls;
      cut = refl;
      fine = tt;
      full = full;
      fails = let here : parse_entry l n ≡ err why = ground arith in rw add-zero here;
    }
  ]
]

-- If a manifest is refused, the error is that of its first line that does not parse, and it was
-- given that line's number, counted from 1 over all lines, the empty ones too.
pub parse_manifest-FirstBad :
    (text : Str) {why : Error} → parse_manifest text ≡ err why → FirstBad 1 (lines text) why
unfolding parse_manifest
parse_manifest-FirstBad text h = parse_lines-FirstBad 1 (lines text) h
