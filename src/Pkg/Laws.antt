-- ===== src/Pkg/Laws.antt =====
-- Versions and dependency lines are read back as they were written.
use kiry.Base.{
  ℕ, ◌≤◌, ◌≡◌, refl, inl, inr, List, [], ◌∷◌, ◌++◌, append-nil, map, Bool, true, false, ◌||◌,
  Option, none, some, ◌==◌, list_eq, nat_eq, All, All-imp, Bool-cases, arith, ok,
}
use kiry.Base.Text.{Str, codes, space, split_whitespace, is_whitespace}
use kiry.Base.Text.Words.{
  IsWord, Solid, split_whitespace-cons, split_whitespace_one, split_whitespace-IsWord,
}
use kiry.Base.Text.Radix
use kiry.Base.Text.Radix.{u32_max}
use kiry.Pkg.{
  Version, parse_version, version_fields, show_version, Dep, show_dep, depends_from, dep_line,
  dep_of, dep_words,
}

-- A version that `parse` can give.
pub record IsVersion (v : Version) : Type 0 where
  pub upstream_word : IsWord v.upstream
  pub rev_fits : v.rev ≤ u32_max

digits-Solid : (n : ℕ) → Solid (Radix.digits 10 n)
digits-Solid n =
    All-imp _ (λ c. is_whitespace c ≡ false) (Radix.digits 10 n) (λ c h. ground arith)
      (Radix.digits_word 10 (omega arith) (omega arith) n).1

digits-IsWord : (n : ℕ) → IsWord (Radix.digits 10 n)
digits-IsWord n = ((Radix.digits_word 10 (omega arith) (omega arith) n).0, digits-Solid n)

-- A version that is printed is read back as it was.
pub parse_version-show_version : (v : Version) → IsVersion v → parse_version (show_version v) ≡ ok v
unfolding parse_version show_version
parse_version-show_version v h =
    rw
      (
        split_whitespace-cons v.upstream _ h.upstream_word,
        split_whitespace_one _ (digits-IsWord v.rev),
        version_fields,
      )
      (rw (Radix.from_str_radix-digits 10 (omega arith) (omega arith) v.rev h.rev_fits))

-- The target that a line is restricted to is a word and is not one of the two kinds.
abbrev pub OnlyIsWord : Option Str → Type 0
OnlyIsWord none = Unit
OnlyIsWord (some o) = IsWord o × ((o == codes "make" || o == codes "build") ≡ false)

-- A dependency that a line can stand for.
pub record IsDep (d : Dep) : Type 0 where
  pub name_word : IsWord d.name
  pub only_word : OnlyIsWord d.only
  pub host_make : d.host ≡ true → d.make ≡ true

make-IsWord : IsWord (codes "make")
make-IsWord = (λ e. cc, (refl, (refl, (refl, (refl, tt)))))

build-IsWord : IsWord (codes "build")
build-IsWord = (λ e. cc, (refl, (refl, (refl, (refl, (refl, tt))))))

-- The words of a printed line, by the shape of the dependency.
module _ (name : Str) (word : IsWord name) where
  plain_words : split_whitespace (name ++ []) ≡ name ∷ []
  plain_words = rw append-nil (split_whitespace_one name word)

  two_words : (w : Str) → IsWord w → split_whitespace (name ++ (space ∷ w)) ≡ name ∷ w ∷ []
  two_words w h = rw (split_whitespace-cons name w word, split_whitespace_one w h)

  three_words :
      (w o : Str)
      → IsWord w
      → IsWord o
      → split_whitespace (name ++ (space ∷ (w ++ (space ∷ o)))) ≡ name ∷ w ∷ o ∷ []
  three_words w o h k =
      rw (split_whitespace-cons name _ word, split_whitespace-cons w o h, split_whitespace_one o k)

dep_line-show_dep :
    (name : Str) (make host : Bool) (only : Option Str) (out : List Dep)
    → let d : Dep = record { name = name; make = make; host = host; only = only } in
      IsDep d → dep_line (split_whitespace (show_dep d)) out ≡ d ∷ out
unfolding dep_line show_dep dep_of dep_words
dep_line-show_dep name false false none out h = rw (plain_words name h.name_word)
dep_line-show_dep name false true none out h = absurd (cc (h.host_make refl))
dep_line-show_dep name true false none out h =
    rw (append-nil, two_words name h.name_word (codes "build") build-IsWord)
dep_line-show_dep name true true none out h =
    rw (append-nil, two_words name h.name_word (codes "make") make-IsWord)
dep_line-show_dep name false false (some o) out h =
    rw (two_words name h.name_word o h.only_word.0, dep_words) (rw (h.only_word.1))
dep_line-show_dep name false true (some o) out h = absurd (cc (h.host_make refl))
dep_line-show_dep name true false (some o) out h =
    rw (three_words name h.name_word (codes "build") o build-IsWord h.only_word.0, dep_words)
      (rw (h.only_word.1))
dep_line-show_dep name true true (some o) out h =
    rw (three_words name h.name_word (codes "make") o make-IsWord h.only_word.0, dep_words)
      (rw (h.only_word.1))

pub depends_from-show_dep : (ds : List Dep) → All IsDep ds → depends_from (map show_dep ds) ≡ ds
unfolding depends_from
depends_from-show_dep [] _ = refl
depends_from-show_dep (d ∷ ds) (h, hs) =
    rw (depends_from-show_dep ds hs) (dep_line-show_dep d.name d.make d.host d.only ds h)

dep_words-OnlyIsWord :
    (ws : List Str) (kind only : Option Str)
    → All IsWord ws
    → OnlyIsWord only
    → OnlyIsWord (dep_words ws kind only).1
unfolding dep_words
dep_words-OnlyIsWord [] kind only _ h = h
dep_words-OnlyIsWord (w ∷ ws) kind only (hw, hws) h =
    elim (Bool-cases (w == codes "make" || w == codes "build")) [
      | inl e ↦ rw (e, OnlyIsWord) (dep_words-OnlyIsWord ws (some w) only hws h)
      | inr e ↦ rw (e, OnlyIsWord) (dep_words-OnlyIsWord ws kind (some w) hws (hw, e))
    ]

dep_of-IsDep :
    (name : Str) (kind only : Option Str)
    → IsWord name
    → OnlyIsWord only
    → IsDep (dep_of name (kind, only))
unfolding dep_of
dep_of-IsDep name kind only hn ho = record {
  name_word = hn;
  only_word = ho;
  host_make = λ e. ground arith;
}

dep_line-IsDep :
    (ws : List Str) (out : List Dep) → All IsWord ws → All IsDep out → All IsDep (dep_line ws out)
unfolding dep_line
dep_line-IsDep [] out _ h = h
dep_line-IsDep (name ∷ ws) out (hn, hws) h =
    (dep_of-IsDep name _ _ hn (dep_words-OnlyIsWord ws none none hws tt), h)

depends_from-IsDep : (ls : List Str) → All IsDep (depends_from ls)
unfolding depends_from
depends_from-IsDep [] = tt
depends_from-IsDep (l ∷ ls) =
    dep_line-IsDep (split_whitespace l) _ (split_whitespace-IsWord l) (depends_from-IsDep ls)

-- Whatever lines the dependencies were read from, printing them and reading the print gives the
-- same dependencies, in the same order.
pub depends_from-canonical :
    (ls : List Str) → depends_from (map show_dep (depends_from ls)) ≡ depends_from ls
depends_from-canonical ls = depends_from-show_dep (depends_from ls) (depends_from-IsDep ls)
