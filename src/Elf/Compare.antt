-- ===== src/Elf/Compare.antt =====
-- crates/kiry-core/src/elf.rs, `compare`: the changes between two builds of a library that break what
-- was linked to the first. The sort of the new symbols with the binary search in them is a parameter:
-- among symbols of one key it may find any.
pub mod Laws
use kiry.Base.{
  ℕ, List, [], ◌∷◌, ◌++◌, map, Bool, true, false, not, ◌&&◌, ◌||◌, Option, none, some, ◌==◌, nat_eq,
  if◌then◌else◌,
}
use kiry.Base.Text.{Str}

pub record Sym : Type 0 where
  pub name : Str
  pub version : Option Str
  pub default : Bool
  pub weak : Bool
  pub object : Bool
  pub size : ℕ
  pub kind : ℕ

pub data Change : Type 0 where
  gone weakened grew retyped undefaulted : Str → Change

-- `Change::symbol`
unfoldable pub symbol : Change → Str
symbol (gone s) = s
symbol (weakened s) = s
symbol (grew s) = s
symbol (retyped s) = s
symbol (undefaulted s) = s

unfoldable pub key : Bool → Sym → Str
key true s = elim s.version [ some v ↦ s.name ++ (b'@' ∷ v) | none ↦ s.name ]
key false s = s.name

-- `STT_OBJECT`, `STT_TLS`, `STT_FUNC` and `STT_GNU_IFUNC`.
unfoldable pub class : ℕ → Option ℕ
class kind =
    if kind == 1
    then some 1
    else if kind == 6
    then some 2
    else if kind == 2 || kind == 10
    then some 3
    else none

unfoldable pub when : Bool → Change → List Change
when b c = if b then c ∷ [] else []

unfoldable pub differ : Option ℕ → Option ℕ → Bool
differ (some a) (some b) = not (a == b)
differ (some a) none = false
differ none b = false

-- The four tests of a symbol that is still there.
unfoldable pub changes : Bool → Str → Sym → Sym → List Change
unfolding when differ class
changes versions k was is =
    when (not was.weak && is.weak) (weakened k)
    ++ (when ((was.object && is.object) && not (was.size == is.size)) (grew k)
        ++ (when (differ (class was.kind) (class is.kind)) (retyped k)
            ++ when ((versions && was.default) && not is.default) (undefaulted k)))

abbrev pub Search : Type 0
Search = List (Str × Sym) → Str → Option Sym

module _ (search : Search) where
  -- One round of the loop.
  unfoldable pub compare_one : Bool → List (Str × Sym) → Sym → List Change
  unfolding changes key
  compare_one versions now was = elim (search now (key versions was)) [
    | none ↦ gone (key versions was) ∷ []
    | some is ↦ changes versions (key versions was) was is
  ]

  unfoldable pub compare_all : Bool → List (Str × Sym) → List Sym → List Change
  unfolding compare_one
  compare_all versions now [] = []
  compare_all versions now (was ∷ old) =
      compare_one versions now was ++ compare_all versions now old

  -- `compare`
  unfoldable pub compare : List Sym → List Sym → Bool → List Change
  unfolding compare_all key
  compare old new versions = compare_all versions (map (λ s. (key versions s, s)) new) old
