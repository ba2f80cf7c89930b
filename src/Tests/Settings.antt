-- ===== src/Tests/Settings.antt =====
-- Runs of the settings and of a recipe's filters, crates/kiry/src/main.rs.
use kiry.Base.{◌≡◌, refl, [], ◌∷◌, true, false, ok, err}
use kiry.Base.Text.{Str, codes, newline, join}
use kiry.Disk.{Disk, file}
use kiry.Cli.Flags.{
  Setting, not_a_verb, not_a_setting, two_flags, settings, like, filters, Flags, filtered,
}

stars : like (codes "-march=*") (codes "-march=native") ≡ true
unfolding like
stars = refl

whole : like (codes "-flto") (codes "-flto=thin") ≡ false
unfolding like
whole = refl

abbrev filter_file : Disk
filter_file =
    (
      codes "core/x/filter",
      file (
          join (newline ∷ []) (
            codes "# a reason"
            ∷ codes "filter-flags -flto* -g  # here"
            ∷ codes "append-flags -O1"
            ∷ [])),
    )
    ∷ []

abbrev row : Str → Str → Setting
row k v = record { from = codes "core/x/filter"; key = k; value = v }

reads_filters :
    filters filter_file (codes "core/x")
    ≡ ok (
        row (codes "filter-flags") (codes "-flto* -g")
        ∷ row (codes "append-flags") (codes "-O1")
        ∷ [])
unfolding filters join
reads_filters = refl

no_filters : filters [] (codes "core/x") ≡ ok []
unfolding filters
no_filters = refl

second_row :
    filters
      ((codes "d/filter", file (join (newline ∷ []) (codes "filter-lto" ∷ codes "lto-off" ∷ [])))
        ∷ [])
      (codes "d")
    ≡ err (not_a_verb (codes "d/filter") 2 (codes "lto-off"))
unfolding filters join
second_row = refl

unknown_setting :
    settings ((codes "etc/kiry/config", file (codes "CFLAG -O3")) ∷ []) [] (codes "x")
    ≡ err (not_a_setting (codes "/etc/kiry/config") 1 (codes "CFLAG"))
unfolding settings
unknown_setting = refl

abbrev flags : Flags
flags = record {
  c = codes "-O2" ∷ codes "-flto=thin" ∷ codes "-g0" ∷ [];
  cxx = codes "-O2" ∷ [];
  ld = codes "-flto=thin" ∷ [];
}

-- What a recipe takes out and what it appends, in its order.
taken_out :
    filtered
      (row (codes "filter-flags") (codes "-flto* -g")
        ∷ row (codes "append-flags") (codes "-O1")
        ∷ [])
      flags
    ≡ ok (record {
      c = codes "-O2" ∷ codes "-g0" ∷ codes "-O1" ∷ [];
      cxx = codes "-O2" ∷ codes "-O1" ∷ [];
      ld = codes "-flto=thin" ∷ [];
    })
unfolding filtered
taken_out = refl

no_lto :
    filtered (row (codes "filter-lto") [] ∷ []) flags
    ≡ ok (record { c = codes "-O2" ∷ codes "-g0" ∷ []; cxx = codes "-O2" ∷ []; ld = [] })
unfolding filtered
no_lto = refl

two_wanted :
    filtered (row (codes "replace-flags") (codes "-O2") ∷ []) flags
    ≡ err (two_flags (codes "core/x/filter") (codes "-O2"))
unfolding filtered
two_wanted = refl
