-- ===== src/Cli/Boot.antt =====
-- crates/kiry/src/main.rs, `mounted_at`, `pair`, `snapshot_of`, `fled` and `fallback`: which of the two roots
-- runs, and whether a fallback may be taken. What /proc/mounts and btrfs print are arguments.
pub mod Laws
pub mod Efi
pub mod Commit
use kiry.Base.{
  ℕ, zero, suc, ◌+◌, ◌-◌, List, [], ◌∷◌, ◌++◌, map, reverse, Bool, true, false, not, ◌&&◌, ◌||◌,
  Option, none, some, ◌==◌, nat_eq, list_eq, ltb, leb, is_empty, contains, keep, all, take, drop,
  length, if◌then◌else◌, Result, ok, err, ◌>>=◌,
}
use kiry.Base.Text.{
  Str, codes, space, slash, comma, begins, split, split_whitespace, lines, trim, trim_start,
  strip_prefix, cut_from,
}
use kiry.Db.Manifest.{is_hexdigit}

pub data BootError : Type 0 where
  no_root one_root : BootError
  not_of_the_pair on_the_fallback no_entry another_root : Str → BootError
  no_subvol : BootError
  failed : Str → BootError
  split_character : BootError

-- `ROOTS`
abbrev pub roots : List Str
roots = codes "@root-a" ∷ codes "@root-b" ∷ []

-- The first of a list for which `f` has an answer: `find_map`.
unfoldable pub find_map {ℓ} : {B : Type ℓ} → (Str → Option B) → List Str → Option B
find_map f [] = none
find_map f (x ∷ xs) = let rest = find_map f xs in elim (f x) [ some b ↦ some b | none ↦ rest ]

unfoldable pub subvol_of : Str → Option Str
unfolding find_map strip_prefix split
subvol_of opts = find_map (λ o. strip_prefix o (codes "subvol=")) (split opts comma)

-- One line of /proc/mounts: the device and the subvolume, if it is mounted at `at`.
unfoldable pub mount_line : Str → List Str → Option (Str × Str)
unfolding subvol_of trim_start
mount_line at (dev ∷ on ∷ fs ∷ opts ∷ more) =
    if not (on == at) then none else (elim (subvol_of opts) [
      | none ↦ none
      | some sub ↦ some (dev, trim_start (λ c. c == slash) sub)
    ])
mount_line at [] = none
mount_line at (dev ∷ []) = none
mount_line at (dev ∷ on ∷ []) = none
mount_line at (dev ∷ on ∷ fs ∷ []) = none

unfoldable pub mounted_at : Str → Str → Option (Str × Str)
unfolding find_map mount_line lines split_whitespace
mounted_at text at = find_map (λ l. mount_line at (split_whitespace l)) (lines text)

unfoldable pub find_other : Str → List Str → Option Str
find_other now [] = none
find_other now (r ∷ rs) = let rest = find_other now rs in if r == now then rest else some r

unfoldable pub with_other : Str → Str → Option Str → Result BootError (Str × Str × Str)
with_other dev now none = err one_root
with_other dev now (some other) = ok (dev, now, other)

-- A root that is not one of the pair has no other half.
unfoldable pub known_root : Str → Str → Bool → Result BootError (Str × Str × Str)
unfolding with_other find_other
known_root dev now false = err (not_of_the_pair now)
known_root dev now true = with_other dev now (find_other now roots)

unfoldable pub pair_of : Option (Str × Str) → Result BootError (Str × Str × Str)
unfolding known_root
pair_of none = err no_root
pair_of (some (dev, now)) = known_root dev now (contains roots now)

-- `pair`: the device, the root that runs and the other.
unfoldable pub pair : Str → Result BootError (Str × Str × Str)
unfolding mounted_at pair_of
pair text = pair_of (mounted_at text (slash ∷ []))

-- The word behind the first `k` of a line.
unfoldable pub word_after : Str → List Str → Option Str
word_after k [] = none
word_after k (w ∷ []) = none
word_after k (w ∷ v ∷ ws) = let rest = word_after k (v ∷ ws) in if w == k then some v else rest

same_path : Str → Option Str → Bool
same_path sub none = false
same_path sub (some p) = p == sub

unfoldable pub field_in : Str → Str → List Str → Option Str
unfolding word_after same_path
field_in sub key ws =
    if same_path sub (word_after (codes "path") ws) then word_after key ws else none

unfoldable pub field : Str → Str → Str → Option Str
unfolding find_map field_in lines split_whitespace
field list sub key = find_map (λ l. field_in sub key (split_whitespace l)) (lines list)

unfoldable pub snapshot_of : Str → Str → Str → Bool
unfolding field
snapshot_of list sub of = elim (field list sub (codes "parent_uuid")) [
  | none ↦ false
  | some p ↦ elim (field list of (codes "uuid")) [ none ↦ false | some u ↦ u == p ]
]

unfoldable pub refused_on : Str → Bool → Result BootError (Unit {0})
refused_on now true = err (on_the_fallback now)
refused_on now false = ok tt

-- `fled`, with whether this boot took its fallback already and what btrfs lists.
unfoldable pub fled_from : Str → Str → Bool → Result BootError Str → Result BootError (Unit {0})
unfolding snapshot_of refused_on
fled_from now other true list = ok tt
fled_from now other false list = list >>= (λ l. refused_on now (snapshot_of l now other))

unfoldable pub fled : Str → Bool → Result BootError Str → Result BootError (Unit {0})
unfolding pair fled_from
fled text taken list = pair text >>= (λ (dev, now, other). fled_from now other taken list)

-- What a fallback runs. `delete` and `snapshot` are btrfs in the mounted top, `mark` the file of this boot.
pub data Command : Type 0 where
  make_top umount : Command
  mount delete mark : Str → Command
  snapshot : Str → Str → Command

-- What was run, and how it ended.
abbrev pub Log : Type 0
Log = List Command × Result BootError (Unit {0})

-- A command with its result, before those that are run if it was one.
unfoldable pub ran : Command → Result BootError (Unit {0}) → Log → Log
ran c (err e) later = (c ∷ [], err e)
ran c (ok u) (log, ended) = (c ∷ log, ended)

module _ (run : Command → Result BootError (Unit {0})) where
  -- Commands with `?`: up to the first that fails.
  unfoldable pub attempt : List Command → Log
  unfolding ran
  attempt [] = ([], ok tt)
  attempt (c ∷ cs) = ran c (run c) (attempt cs)

  -- After the first commands: the snapshot, then the umount whatever came of it, then the mark.
  unfoldable pub marked : Str → Log → Log
  unfolding attempt
  marked other (log, err e) = (log ++ umount ∷ [], err e)
  marked other (log, ok u) =
      let (more, ended) = attempt (mark other ∷ []) in (log ++ umount ∷ more, ended)

  unfoldable pub mounted : Str → Str → Bool → Log → Log
  unfolding attempt marked
  mounted now other there (log, err e) = (log, err e)
  mounted now other there (log, ok u) =
      let (more, ended) =
        marked other
          (attempt ((if there then delete other ∷ [] else []) ++ snapshot now other ∷ [])) in
      (log ++ more, ended)

  unfoldable pub taking : Str → Str → Str → Bool → Bool → Result BootError (Unit {0}) → Log
  unfolding attempt mounted
  taking dev now other taken there (err e) = ([], err e)
  taking dev now other true there (ok u) = ([], ok tt)
  taking dev now other false there (ok u) =
      mounted now other there (attempt (make_top ∷ mount dev ∷ []))

  unfoldable pub fallback_of :
      Str → Bool → Result BootError Str → (Str → Bool) → Result BootError (Str × Str × Str) → Log
  unfolding fled taking
  fallback_of text taken list there (err e) = ([], err e)
  fallback_of text taken list there (ok (dev, now, other)) =
      taking dev now other taken (there other) (fled text taken list)

  -- `fallback`, with whether the other root is there.
  unfoldable pub fallback : Str → Bool → Result BootError Str → (Str → Bool) → Log
  unfolding pair fallback_of
  fallback text taken list there = fallback_of text taken list there (pair text)
