-- ===== src/Db/Manifest/CarriageReturn.antt =====
-- A path that ends in a carriage return: `format_manifest` writes it, and `str::lines`, which ends a
-- line at "\r\n" too, takes the last character off when the manifest is read.
use kiry.Base.{
  ◌≡◌, refl, ◌∙◌, ap, [], ◌∷◌, ◌++◌, false, nat_eq, arith, inr, append-nil, ok, is_empty,
}
use kiry.Base.Text.{Str, newline, carriage_return, slash, has, begins, strip_cr}
use kiry.Base.Text.Split.{Lacks, has-append}
use kiry.Base.Text.Lines.{lines_one}
use kiry.Base.Text.Radix.{digits, padded}
use kiry.Db.Manifest.{
  Entry, show_entry, third_field, check_entry, format_manifest, parse_manifest, parse_lines,
}
use kiry.Db.Manifest.RoundTrip.{
  IsEntry, IsWritable, strip_cr-field, newline-field, strip_cr-append, letter-Lacks, mode-Lacks,
  third_field-Lacks, parse_lines-show_entry,
}

abbrev cr : Str
cr = carriage_return ∷ []

abbrev pub with_cr : Entry → Entry
with_cr e = record e { path = e.path ++ cr }

strip_cr_behind : (p : Str) → strip_cr (p ++ cr) ≡ p
strip_cr_behind p = strip_cr-append p cr refl ∙ unfold strip_cr in append-nil p

full_behind : (p : Str) → is_empty (p ++ cr) ≡ false
full_behind [] = refl
full_behind (c ∷ p) = refl

relative_behind : (p : Str) → begins slash p ≡ false → begins slash (p ++ cr) ≡ false
relative_behind [] _ = refl
relative_behind (c ∷ p) h = h

strip_cr-show_entry : (e : Entry) → strip_cr (show_entry (with_cr e)) ≡ show_entry e
unfolding show_entry
strip_cr-show_entry e =
    strip_cr-field _ _
    ∙ rw (strip_cr-field (padded 4 (digits 8 e.mode)) _)
        (rw (strip_cr-field (third_field e.kind) (e.path ++ cr), strip_cr_behind e.path))

newline-show_entry : (e : Entry) → IsEntry e → IsWritable e → Lacks newline (show_entry (with_cr e))
unfolding show_entry
newline-show_entry e h w = newline-field _ _ (letter-Lacks e.kind newline (omega arith)) (
    newline-field _ _ (mode-Lacks newline e.mode (omega arith)) (
      newline-field _ _ (third_field-Lacks e.kind newline (inr refl) h.digest w.target_solid)
        (has-append newline e.path cr w.path_line (unfold has in refl))))

check_entry-with_cr : (e : Entry) → IsWritable e → check_entry (with_cr e) ≡ ok tt
unfolding check_entry
check_entry-with_cr e w =
    rw
      (
        full_behind e.path,
        relative_behind e.path w.path_relative,
        has-append newline e.path cr w.path_line (unfold has in refl),
      )
      w.target_solid

-- For each entry that the manifest can hold: with a carriage return behind its path it is still
-- written with no error, and what is read back is the entry without the carriage return.
pub carriage_return_lost :
    (e : Entry)
    → IsEntry e
    → IsWritable e
    → (text : Str) × (format_manifest (with_cr e ∷ []) ≡ ok text)
      × (parse_manifest text ≡ ok (e ∷ []))
unfolding parse_manifest format_manifest
carriage_return_lost e h w = (
  show_entry (with_cr e) ++ (newline ∷ []),
  rw (check_entry-with_cr e w),
  ap (parse_lines 1)
        (lines_one _ (newline-show_entry e h w) ∙ ap (λ l. l ∷ []) (strip_cr-show_entry e))
      ∙ parse_lines-show_entry (e ∷ []) 1 (h, tt) (w, tt),
)
