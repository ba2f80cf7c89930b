-- ===== src/Archive/Resolve.antt =====
-- crates/kiry-core/src/archive.rs, `tidy` and `resolve`: where the name of an archive member lands,
-- with the symbolic links that stand on disk or that the archive made before.
pub mod Beneath
pub mod Fixed
use kiry.Base.{
  ℕ, zero, suc, ◌++◌, List, [], ◌∷◌, reverse, Bool, true, false, not, ◌&&◌, ◌||◌, Option, none,
  some, ◌==◌, nat_eq, list_eq, is_empty, lookup, if◌then◌else◌, Result, ok, err, String,
}
use kiry.Base.Text.{Str, codes, slash, newline, has, begins, split, join, trim_end}

abbrev pub max_hops : ℕ
max_hops = 40

-- `tidy`: `none` is the root of the tree.
unfoldable pub tidy : Str → Result String (Option Str)
unfolding trim_end
tidy p =
    let s = trim_end (λ c. c == slash) p in
    if begins slash s
    then err "absolute path"
    else if has newline s
    then err "newline in the path"
    else if is_empty s || s == codes "."
    then ok none
    else ok (some s)

-- The components as one path. The newest component stands first.
unfoldable pub spell : List Str → Str
unfolding join
spell out = join (slash ∷ []) (reverse out)

-- Links by path: those that the archive made, then those on disk. A link on disk that cannot be read
-- or is no text counts as none.
unfoldable pub target_of : List (Str × Str) → (Str → Option Str) → Str → Option Str
unfolding lookup
target_of made read_link cand = elim (lookup cand made) [ some t ↦ some t | none ↦ read_link cand ]

abbrev pub is_skipped : Str → Bool
is_skipped c = is_empty c || c == codes "."

abbrev pub is_up : Str → Bool
is_up c = c == codes ".."

-- The loop of `resolve`: the components to come with the next one first, those that have landed
-- with the newest first, and how many links may still be followed.
module _ (target : Str → Option Str) (follow_final : Bool) where
  -- A component that goes up: a loop step, given how the loop goes on with the rest of the queue.
  go_up : (List Str → Result String (List Str)) → List Str → Result String (List Str)
  go_up next [] = err "would climb out of the root"
  go_up next (d ∷ out) = next out

  -- One round. `next` goes on with the rest of the queue, `hop` with the parts of a link in front.
  unfoldable pub round :
      (List Str → Result String (List Str))
      → (List Str → List Str → Result String (List Str))
      → Str
      → List Str
      → List Str
      → Result String (List Str)
  unfolding spell split go_up
  round next hop c queue out = elim (is_skipped c) [
    | true ↦ next out
    | false ↦ elim (is_up c) [
      | true ↦ go_up next out
      | false ↦ elim (is_empty queue && not follow_final) [
        | true ↦ ok (c ∷ out)
        | false ↦ elim (target (spell (c ∷ out))) [
          | some t ↦ hop (split t slash ++ queue) (if begins slash t then [] else out)
          | none ↦ next (c ∷ out)
        ]
      ]
    ]
  ]

  unfoldable pub walk : ℕ → List Str → List Str → Result String (List Str)
  unfolding round
  walk hops [] out = ok out
  walk zero (c ∷ queue) out =
      round (walk zero queue) (λ q o. err "too many symlinks on the way") c queue out
  walk (suc hops) (c ∷ queue) out = round (walk (suc hops) queue) (walk hops) c queue out

unfoldable pub resolve : (Str → Option Str) → Str → Bool → List (Str × Str) → Result String Str
unfolding walk target_of
resolve read_link path follow_final made =
    elim (walk (target_of made read_link) follow_final max_hops (split path slash) []) [
      | ok out ↦ ok (spell out)
      | err why ↦ err why
    ]
