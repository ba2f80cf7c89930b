-- ===== src/Db/Manifest/RoundTrip.antt =====
-- A manifest is read back as it was written.
use kiry.Base.{
  ℕ, ◌+◌, ◌≤◌, ◌<◌, ◌≡◌, refl, ◌∙◌, ap, inl, inr, ◌⊎◌, List, [], ◌∷◌, ◌++◌, map, true, false,
  list_eq, nat_eq, All, all, arith, ok, is_empty, sym, ok-injective, >>=-eq-ok,
}
use kiry.Base.Text.{Str, space, newline, slash, has, begins, splitn, strip_cr}
use kiry.Base.Text.Split.{Lacks, splitn-append, has-append}
use kiry.Base.Text.Lines.{unlines, IsLine, lines-unlines}
use kiry.Base.Text.Radix
use kiry.Base.Text.Radix.{u32_max, digits, padded}
use kiry.Db.Manifest.{
  Kind, file, dir, link, hard, Entry, is_hexdigit, is_sha256, parse_kind, parse_path, with_four,
  parse_entry, letter, third_field, show_entry, parse_lines, parse_manifest, check_target,
  check_entry, format_manifest,
}

-- A digest is what a file's entry holds.
abbrev pub HoldsDigest : Kind → Type 0
HoldsDigest (file h) = is_sha256 h ≡ true
HoldsDigest dir = Unit
HoldsDigest (link t) = Unit
HoldsDigest (hard t) = Unit

-- What an entry of the program holds: a mode of 32 bits, for a file a digest, and a path that does
-- not end in a carriage return.
pub record IsEntry (e : Entry) : Type 0 where
  pub mode_fits : e.mode ≤ u32_max
  pub digest : HoldsDigest e.kind
  pub path_end : strip_cr e.path ≡ e.path

-- What `format_manifest` tests of an entry.
pub record IsWritable (e : Entry) : Type 0 where
  pub path_full : is_empty e.path ≡ false
  pub path_relative : begins slash e.path ≡ false
  pub path_line : Lacks newline e.path
  pub target_solid : check_target e.kind ≡ ok tt

pub check_entry-IsWritable : (e : Entry) → check_entry e ≡ ok tt → IsWritable e
unfolding check_entry
check_entry-IsWritable e h = record {
  path_full = ground arith;
  path_relative = ground arith;
  path_line = ground arith;
  target_solid = ground arith;
}

-- No field in front of the path holds a space or a newline.
all_hex-Lacks : (c : ℕ) (h : Str) → is_hexdigit c ≡ false → all is_hexdigit h ≡ true → Lacks c h
unfolding has
all_hex-Lacks c [] _ _ = refl
all_hex-Lacks c (d ∷ h) out all_hex = ground (arith, all_hex-Lacks c h out)

digits-Lacks : (c : ℕ) (s : Str) → c < 48 → All (λ d. (48 ≤ d) × (d < 48 + 8)) s → Lacks c s
unfolding has
digits-Lacks c [] _ _ = refl
digits-Lacks c (d ∷ s) lt (h, hs) = ground (arith, digits-Lacks c s lt hs)

pub third_field-Lacks :
    (k : Kind) (c : ℕ)
    → (c ≡ space) ⊎ (c ≡ newline)
    → HoldsDigest k
    → check_target k ≡ ok tt
    → Lacks c (third_field k)
unfolding third_field check_target is_sha256 has
third_field-Lacks (file h) c w d _ = all_hex-Lacks c h (ground arith) (ground arith)
third_field-Lacks dir c w _ _ = ground arith
third_field-Lacks (link t) c (inl e) _ ok_t = rw e (ground arith)
third_field-Lacks (link t) c (inr e) _ ok_t = rw e (ground arith)
third_field-Lacks (hard t) c (inl e) _ ok_t = rw e (ground arith)
third_field-Lacks (hard t) c (inr e) _ ok_t = rw e (ground arith)

pub letter-Lacks : (k : Kind) (c : ℕ) → c < 48 → Lacks c (letter k)
unfolding letter has
letter-Lacks (file h) c lt = ground arith
letter-Lacks dir c lt = ground arith
letter-Lacks (link t) c lt = ground arith
letter-Lacks (hard t) c lt = ground arith

pub mode-Lacks : (c n : ℕ) → c < 48 → Lacks c (padded 4 (digits 8 n))
mode-Lacks c n lt = digits-Lacks c _ lt (Radix.padded-IsDigit 8 (omega arith) (omega arith) 4 n)

parse_kind-third_field :
    (n : ℕ) (k : Kind) → HoldsDigest k → parse_kind n (letter k) (third_field k) ≡ ok k
unfolding parse_kind letter third_field
parse_kind-third_field n (file h) d = rw d
parse_kind-third_field n dir d = refl
parse_kind-third_field n (link t) d = refl
parse_kind-third_field n (hard t) d = refl

-- The four fields of a printed line.
splitn-show_entry :
    (e : Entry)
    → IsEntry e
    → IsWritable e
    → splitn 4 (show_entry e) space
      ≡ letter e.kind ∷ padded 4 (digits 8 e.mode) ∷ third_field e.kind ∷ e.path ∷ []
unfolding show_entry splitn
splitn-show_entry e h w =
    splitn-append space 2 (letter e.kind) _ (letter-Lacks e.kind space (omega arith))
    ∙ ap (λ t. letter e.kind ∷ t)
        (splitn-append space 1 (padded 4 (digits 8 e.mode)) _
            (mode-Lacks space e.mode (omega arith))
          ∙ ap (λ t. padded 4 (digits 8 e.mode) ∷ t)
              (splitn-append space 0 (third_field e.kind) e.path
                (third_field-Lacks e.kind space (inl refl) h.digest w.target_solid)))

-- One line is read back.
pub parse_entry-show_entry :
    (e : Entry) (n : ℕ) → IsEntry e → IsWritable e → parse_entry (show_entry e) n ≡ ok e
unfolding parse_entry parse_path
parse_entry-show_entry e n h w =
    rw (splitn-show_entry e h w, with_four)
      (rw (
        Radix.from_str_radix-padded 8 (omega arith) (omega arith) 4 e.mode h.mode_fits,
        parse_kind-third_field n e.kind h.digest,
        w.path_full,
        w.path_relative,
      ))

-- A line that is printed survives `lines`.
pub strip_cr-append : (a b : Str) → is_empty b ≡ false → strip_cr (a ++ b) ≡ a ++ strip_cr b
unfolding strip_cr
strip_cr-append [] b h = refl
strip_cr-append (c ∷ []) [] h = absurd (cc)
strip_cr-append (c ∷ []) (d ∷ b) h = refl
strip_cr-append (c ∷ d ∷ a) b h = ap (λ t. c ∷ t) (strip_cr-append (d ∷ a) b h)

-- A field with a space behind it, in front of the rest.
pub strip_cr-field : (a b : Str) → strip_cr (a ++ (space ∷ b)) ≡ a ++ (space ∷ strip_cr b)
unfolding strip_cr
strip_cr-field a [] = strip_cr-append a (space ∷ []) refl
strip_cr-field a (c ∷ b) = strip_cr-append a (space ∷ c ∷ b) refl

pub newline-field :
    (a b : Str) → Lacks newline a → Lacks newline b → Lacks newline (a ++ (space ∷ b))
unfolding has
newline-field a b ha hb = has-append newline a (space ∷ b) ha (ground arith)

field-full : (a b : Str) → is_empty (a ++ (space ∷ b)) ≡ false
field-full [] b = refl
field-full (c ∷ a) b = refl

pub show_entry-IsLine : (e : Entry) → IsEntry e → IsWritable e → IsLine (show_entry e)
unfolding show_entry
show_entry-IsLine e h w = (
  newline-field _ _ (letter-Lacks e.kind newline (omega arith)) (
      newline-field _ _ (mode-Lacks newline e.mode (omega arith)) (
        newline-field _ _ (third_field-Lacks e.kind newline (inr refl) h.digest w.target_solid)
          w.path_line)),
  strip_cr-field _ _
      ∙ rw (strip_cr-field (padded 4 (digits 8 e.mode)) _)
          (rw (strip_cr-field (third_field e.kind) e.path, h.path_end)),
)

pub show_entry-full : (e : Entry) → is_empty (show_entry e) ≡ false
unfolding show_entry
show_entry-full e = field-full _ _

-- What a successful `format_manifest` writes.
format_manifest-ok :
    (es : List Entry) {text : Str}
    → format_manifest es ≡ ok text
    → All IsWritable es × (text ≡ unlines (map show_entry es))
unfolding format_manifest
format_manifest-ok [] h = ground arith
format_manifest-ok (e ∷ es) {text} h =
    let (u, checked, h') = >>=-eq-ok (check_entry e) _ h in
    let (rest, more, last) = >>=-eq-ok (format_manifest es) _ h' in
    let (ws, same) = format_manifest-ok es more in
    (
      (check_entry-IsWritable e checked, ws),
      sym (ok-injective last) ∙ ap (λ t. show_entry e ++ (newline ∷ t)) same,
    )

pub parse_lines-show_entry :
    (es : List Entry) (n : ℕ)
    → All IsEntry es
    → All IsWritable es
    → parse_lines n (map show_entry es) ≡ ok es
unfolding parse_lines
parse_lines-show_entry [] n _ _ = refl
parse_lines-show_entry (e ∷ es) n (h, hs) (w, ws) =
    rw (show_entry-full e, parse_entry-show_entry e n h w, parse_lines-show_entry es (n + 1) hs ws)

map-IsLine : (es : List Entry) → All IsEntry es → All IsWritable es → All IsLine (map show_entry es)
map-IsLine [] _ _ = tt
map-IsLine (e ∷ es) (h, hs) (w, ws) = (show_entry-IsLine e h w, map-IsLine es hs ws)

-- What `format_manifest` writes, `parse_manifest` reads back entry for entry, if each entry has a
-- mode of 32 bits, a file's digest is 64 hexadecimal digits and no path ends in a carriage return.
pub parse_manifest-format_manifest :
    (es : List Entry) {text : Str}
    → All IsEntry es
    → format_manifest es ≡ ok text
    → parse_manifest text ≡ ok es
unfolding parse_manifest
parse_manifest-format_manifest es hs h =
    let (ws, same) = format_manifest-ok es h in
    ap parse_manifest same
    ∙ ap (parse_lines 1) (lines-unlines (map show_entry es) (map-IsLine es hs ws))
    ∙ parse_lines-show_entry es 1 hs ws
