-- ===== src/Tests/Records.antt =====
-- Runs of the files of the database, crates/kiry-core/src/db.rs.
use kiry.Base.{
  ◌≡◌, refl, List, [], ◌∷◌, ◌++◌, map, true, false, some, none, All, Result, ok, err, arith,
}
use kiry.Base.Text.{Str, codes, lines}
use kiry.Error.{Error}
use kiry.Db.Manifest.{Entry, file, dir, link, hard, parse_manifest, format_manifest}
use kiry.Db.Manifest.RoundTrip.{IsEntry, IsWritable, parse_manifest-format_manifest}
use kiry.Db.Manifest.Parse.{IsRead, FirstBad, parse_manifest-IsRead, parse_manifest-FirstBad}
use kiry.Db.Manifest.CarriageReturn.{carriage_return_lost, with_cr}
use kiry.Db.Provides.{
  Provide, IsProvide, format_provides, parse_provides, parse_provides-format_provides,
}

abbrev digest : Str
digest = codes "e3b0c44298fc1c149afbf4c8996fb92427ae41e4649b934ca495991b7852b855"

abbrev tool : Entry
tool = record { mode = 493; kind = file digest; path = codes "usr/bin/curl" }

abbrev entries : List Entry
entries =
    record { mode = 493; kind = dir; path = codes "usr/bin" }
    ∷ tool
    ∷ record {
      mode = 511;
      kind = link (codes "../lib/libz.so.1.3");
      path = codes "usr/lib/libz so";
    }
    ∷ record { mode = 493; kind = hard (codes "usr/bin/curl"); path = codes "usr/bin/curl2" }
    ∷ []

abbrev text : Str
text =
    codes
      "d 0755 - usr/bin\nf 0755 e3b0c44298fc1c149afbf4c8996fb92427ae41e4649b934ca495991b7852b855 usr/bin/curl\nl 0777 ../lib/libz.so.1.3 usr/lib/libz so\nh 0755 usr/bin/curl usr/bin/curl2\n"

entries-IsEntry : All IsEntry entries
unfolding kiry.Base.Text.strip_cr kiry.Db.Manifest.is_sha256
entries-IsEntry = (
  record { mode_fits = omega arith; digest = tt; path_end = refl },
  (
    record { mode_fits = omega arith; digest = refl; path_end = refl },
    (
      record { mode_fits = omega arith; digest = tt; path_end = refl },
      (record { mode_fits = omega arith; digest = tt; path_end = refl }, tt),
    ),
  ),
)

format_entries : format_manifest entries ≡ ok text
unfolding format_manifest kiry.Base.Text.has kiry.Db.Manifest.show_entry kiry.Base.Text.Radix.padded
    kiry.Base.Text.Radix.digits
format_entries = refl

parse_manifest-format_manifest_example : parse_manifest text ≡ ok entries
parse_manifest-format_manifest_example =
    parse_manifest-format_manifest entries entries-IsEntry format_entries

parse_manifest-IsRead_example : All IsRead entries
parse_manifest-IsRead_example =
    parse_manifest-IsRead text
      (parse_manifest-format_manifest entries entries-IsEntry format_entries)

abbrev bad_text : Str
bad_text = codes "d 0755 - usr/bin\n\nf 0799 - usr/bin/curl\nx\n"

bad_line_three : parse_manifest bad_text ≡ err (Error.manifest 3 "mode is not octal")
unfolding parse_manifest lines kiry.Db.Manifest.parse_entry kiry.Base.Text.splitn
    kiry.Base.Text.Radix.from_str_radix
bad_line_three = refl

parse_manifest-FirstBad_example : FirstBad 1 (lines bad_text) (Error.manifest 3 "mode is not octal")
parse_manifest-FirstBad_example = parse_manifest-FirstBad bad_text bad_line_three

tool-IsEntry : IsEntry tool
unfolding kiry.Db.Manifest.is_sha256 kiry.Base.Text.strip_cr
tool-IsEntry = record { mode_fits = omega arith; digest = refl; path_end = refl }

tool-IsWritable : IsWritable tool
unfolding kiry.Base.Text.has kiry.Db.Manifest.check_target
tool-IsWritable = record {
  path_full = refl;
  path_relative = refl;
  path_line = refl;
  target_solid = refl;
}

carriage_return_lost_example :
    (t : Str) × (format_manifest (with_cr tool ∷ []) ≡ ok t) × (parse_manifest t ≡ ok (tool ∷ []))
carriage_return_lost_example = carriage_return_lost tool tool-IsEntry tool-IsWritable

abbrev provides : List Provide
provides =
    record { soname = codes "libz.so.1"; versioned = true; path = codes "usr/lib/libz.so.1" }
    ∷ record { soname = codes "libm.so"; versioned = false; path = codes "usr/lib/lib m.so" }
    ∷ []

provides-IsProvide : All IsProvide provides
unfolding kiry.Base.Text.strip_cr
provides-IsProvide = (refl, (refl, tt))

format_two :
    format_provides provides
    ≡ ok (codes "libz.so.1 v usr/lib/libz.so.1\nlibm.so - usr/lib/lib m.so\n")
unfolding format_provides kiry.Base.Text.has
format_two = refl

parse_provides-format_provides_example :
    parse_provides (codes "libz.so.1 v usr/lib/libz.so.1\nlibm.so - usr/lib/lib m.so\n")
    ≡ ok provides
parse_provides-format_provides_example =
    parse_provides-format_provides provides provides-IsProvide format_two
