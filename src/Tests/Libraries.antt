-- ===== src/Tests/Libraries.antt =====
-- Runs of the comparison of two builds of a library, crates/kiry-core/src/elf.rs.
use kiry.Base.{
  ◌≡◌, refl, ap, inl, inr, List, [], ◌∷◌, true, false, Option, none, some, ◌==◌, nat_eq, list_eq,
  list_beq_iff, Bool-cases, if◌then◌else◌, All, Among, sym, ◌∙◌, ◌≢◌,
}
use kiry.Base.Text.{Str, codes}
use kiry.Elf.Compare.{Sym, gone, weakened, grew, retyped, undefaulted, Search, compare, key}
use kiry.Base.{ℕ, ◌++◌, ok, err, ◌<◌, ◌^◌}
use kiry.Elf.Words.{offset_of}
use kiry.Elf.Words.Laws.{Holds, offset_of-Holds}
use kiry.Elf.Tables.{symbols_from, chain}
use kiry.Elf.Parse.{parse}
use kiry.Elf.Compare.Laws.{IsSearch, Served, Keyed, compare-Served, compare_self}

-- The first symbol of a key.
unfoldable first : Search
first [] k = none
first ((j, s) ∷ now) k = let later = first now k in if j == k then some s else later

some_sym : {s t : Sym} → ◌≡◌ {A = Option Sym} (some s) (some t) → s ≡ t
some_sym h = cc

first-found :
    (now : List (Str × Sym)) (k : Str) (s : Sym)
    → first now k ≡ some s
    → Among {A = Str × Sym} (k, s) now
unfolding first
first-found [] k s h = absurd (cc h)
first-found ((j, t) ∷ now) k s h = elim (Bool-cases (j == k)) [
  | inl same ↦
      let e : j ≡ k = (list_beq_iff j k).0 same in
      let e' : t ≡ s = some_sym (rw same at h) in inl (cc (e, e'))
  | inr apart ↦ inr (first-found now k s (rw apart at h))
]

first-missed :
    (now : List (Str × Sym)) (k : Str) (s : Sym)
    → first now k ≡ none
    → Among {A = Str × Sym} (k, s) now
    → ⊥
unfolding first
first-missed [] k s h there = elim there [ ]
first-missed ((j, t) ∷ now) k s h (inl e) =
    let same : (j == k) ≡ true = (list_beq_iff j k).1 (ap (λ (p : Str × Sym). p.0) (sym e)) in
    cc (rw same at h)
first-missed ((j, t) ∷ now) k s h (inr there) = elim (Bool-cases (j == k)) [
  | inl same ↦ cc (rw same at h)
  | inr apart ↦ first-missed now k s (rw apart at h) there
]

first-IsSearch : IsSearch first
first-IsSearch = record { found = first-found; missed = first-missed }

abbrev open_v1 : Sym
open_v1 = record {
  name = codes "open";
  version = some (codes "V1");
  default = true;
  weak = false;
  object = false;
  size = 40;
  kind = 2;
}

abbrev table : Sym
table = record {
  name = codes "table";
  version = none;
  default = true;
  weak = false;
  object = true;
  size = 64;
  kind = 1;
}

abbrev open_longer : Sym
open_longer = record open_v1 { size = 96 }

abbrev old : List Sym
old = open_v1 ∷ table ∷ []

abbrev new : List Sym
new = table ∷ open_longer ∷ []

nothing_changed : compare first old new true ≡ []
unfolding compare first
nothing_changed = refl

all_changed :
    compare first old
      (record open_v1 { weak = true; default = false; kind = 1 } ∷ record table { size = 72 } ∷ [])
      true
    ≡ weakened (codes "open@V1")
      ∷ retyped (codes "open@V1")
      ∷ undefaulted (codes "open@V1")
      ∷ grew (codes "table")
      ∷ []
unfolding compare first
all_changed = refl

version_gone :
    compare first old (record open_v1 { version = some (codes "V2") } ∷ table ∷ []) true
    ≡ gone (codes "open@V1") ∷ []
unfolding compare first
version_gone = refl

version_ignored :
    compare first old (record open_v1 { version = some (codes "V2") } ∷ table ∷ []) false ≡ []
unfolding compare first
version_ignored = refl

compare-Served_example : All (Served true new) old
compare-Served_example = compare-Served first first-IsSearch old new true nothing_changed

keys_differ : key true open_v1 ≢ key true table
unfolding key
keys_differ h =
    let same : false ≡ true = (list_beq_iff (key true open_v1) (key true table)).1 h in cc same

old-Keyed : Keyed true old
old-Keyed s t (inl e) (inl f) h = cc (e, f)
old-Keyed s t (inl e) (inr (inl f)) h =
    absurd (keys_differ (ap (key true) (sym e) ∙ h ∙ ap (key true) f))
old-Keyed s t (inr (inl e)) (inl f) h =
    absurd (keys_differ (ap (key true) (sym f) ∙ sym h ∙ ap (key true) e))
old-Keyed s t (inr (inl e)) (inr (inl f)) h = cc (e, f)
old-Keyed s t (inl e) (inr (inr none_there)) h = elim none_there [ ]
old-Keyed s t (inr (inl e)) (inr (inr none_there)) h = elim none_there [ ]
old-Keyed s t (inr (inr none_there)) f h = elim none_there [ ]

compare_self_example : compare first old old true ≡ []
compare_self_example = compare_self first first-IsSearch old true old-Keyed

abbrev segments : List (ℕ × (ℕ × ℕ))
segments = (4096, (256, 0)) ∷ (8192, (512, 1024)) ∷ []

mapped_second : offset_of segments 8200 ≡ ok 1032
unfolding offset_of
mapped_second = refl

offset_of-Holds_example :
    (1032 < 2 ^ 64) × ((load : ℕ × (ℕ × ℕ)) × (Among load segments × Holds 8200 1032 load))
offset_of-Holds_example = offset_of-Holds segments 8200 mapped_second

-- A string table with one name, and a symbol table of a null entry and a weak function of that name.
abbrev strings : List ℕ
strings = 0 ∷ codes "open" ++ (0 ∷ [])

abbrev empty_entry : List ℕ
empty_entry =
    0 ∷ 0 ∷ 0 ∷ 0 ∷ 0 ∷ 0 ∷ 0 ∷ 0 ∷ 0 ∷ 0 ∷ 0 ∷ 0 ∷ 0 ∷ 0 ∷ 0 ∷ 0 ∷ 0 ∷ 0 ∷ 0 ∷ 0 ∷ 0 ∷ 0 ∷ 0 ∷ 0
    ∷ []

abbrev open_entry : List ℕ
open_entry =
    1 ∷ 0 ∷ 0 ∷ 0 ∷ 34 ∷ 0 ∷ 1 ∷ 0 ∷ 0 ∷ 0 ∷ 0 ∷ 0 ∷ 0 ∷ 0 ∷ 0 ∷ 0 ∷ 40 ∷ 1 ∷ 0 ∷ 0 ∷ 0 ∷ 0 ∷ 0 ∷ 0
    ∷ []

abbrev open_read : Sym
open_read = record {
  name = codes "open";
  version = none;
  default = true;
  weak = true;
  object = false;
  size = 296;
  kind = 2;
}

read_two : symbols_from strings [] none 24 (empty_entry ++ open_entry) 0 2 ≡ ok (open_read ∷ [], [])
unfolding symbols_from kiry.Elf.Words.u32at kiry.Elf.Words.u16at kiry.Elf.Words.u64at
    kiry.Elf.Words.string
read_two = refl

not_an_elf : parse (codes "#!/bin/sh") ≡ err "not an elf"
unfolding parse
not_an_elf = refl

-- One bucket whose chain is three symbols long, from symbol 5 on.
chain_of_three : chain (2 ∷ 0 ∷ 0 ∷ 0 ∷ 4 ∷ 0 ∷ 0 ∷ 0 ∷ 9 ∷ 0 ∷ 0 ∷ 0 ∷ []) 5 ≡ ok 8
unfolding chain kiry.Elf.Words.from_le_bytes
chain_of_three = refl
