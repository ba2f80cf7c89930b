-- ===== src/Tests/Packages.antt =====
-- Runs of the package file formats of crates/kiry-core/src/pkg.rs.
use kiry.Base.{◌≡◌, refl, List, [], ◌∷◌, map, true, false, some, none, Result, ok, err, arith}
use kiry.Base.Text.{Str, codes}
use kiry.Pkg.{Version, parse_version, show_version, depends_from, show_dep}
use kiry.Pkg.Laws.{IsVersion, parse_version-show_version, depends_from-canonical}

abbrev curl : Version
curl = record { upstream = codes "8.11.0"; rev = 2 }

curl-IsVersion : IsVersion curl
curl-IsVersion = record {
  upstream_word = (λ e. cc, (refl, (refl, (refl, (refl, (refl, (refl, tt)))))));
  rev_fits = omega arith;
}

parse_version-show_version_example : parse_version (show_version curl) ≡ ok curl
parse_version-show_version_example = parse_version-show_version curl curl-IsVersion

parse_curl : parse_version (codes " 8.11.0\t2 ") ≡ ok curl
unfolding parse_version kiry.Base.Text.split_whitespace kiry.Base.Text.Radix.from_str_radix
parse_curl = refl

abbrev depends_lines : List Str
depends_lines =
    codes "zlib" ∷ codes "cmake make glibc" ∷ codes "meson build" ∷ codes "openssl musl" ∷ []

depends_read :
    depends_from depends_lines
    ≡ record { name = codes "zlib"; make = false; host = false; only = none }
      ∷ record { name = codes "cmake"; make = true; host = true; only = some (codes "glibc") }
      ∷ record { name = codes "meson"; make = true; host = false; only = none }
      ∷ record { name = codes "openssl"; make = false; host = false; only = some (codes "musl") }
      ∷ []
unfolding depends_from kiry.Base.Text.split_whitespace
depends_read = refl

depends_from-canonical_example :
    depends_from (map show_dep (depends_from depends_lines)) ≡ depends_from depends_lines
depends_from-canonical_example = depends_from-canonical depends_lines
