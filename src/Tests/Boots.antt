-- ===== src/Tests/Boots.antt =====
-- Runs of the choice of the root, crates/kiry/src/main.rs.
use kiry.Base.{
  ◌≡◌, refl, List, [], ◌∷◌, ◌++◌, Bool, true, false, Option, none, some, Result, ok, err, inl, inr,
}
use kiry.Base.Text.{Str, codes, newline, join}
use kiry.Cli.Boot.{
  BootError, pair, snapshot_of, fled, on_the_fallback, fallback, Command, make_top, mount, delete,
  snapshot, umount, mark, another_root, split_character, failed,
}
use kiry.Cli.Boot.Efi.{entry, booted, order, keeps, reorder}
use kiry.Cli.Boot.Laws.{MayReplace, fallback-MayReplace}

abbrev mounts : Str
mounts = codes "/dev/nvme0n1p2 / btrfs rw,noatime,subvol=/@root-a 0 0"

runs_on_a : pair mounts ≡ ok (codes "/dev/nvme0n1p2", codes "@root-a", codes "@root-b")
unfolding pair
runs_on_a = refl

abbrev listed : Str
listed = join (newline ∷ []) (
    codes "ID 256 parent_uuid - uuid 11 path @root-a"
    ∷ codes "ID 257 parent_uuid 11 uuid 22 path @root-b"
    ∷ [])

b_of_a : snapshot_of listed (codes "@root-b") (codes "@root-a") ≡ true
unfolding snapshot_of join
b_of_a = refl

a_of_b : snapshot_of listed (codes "@root-a") (codes "@root-b") ≡ false
unfolding snapshot_of join
a_of_b = refl

from_the_fallback :
    fled (codes "dev / btrfs rw,subvol=@root-b 0 0") false (ok listed)
    ≡ err (on_the_fallback (codes "@root-b"))
unfolding fled join
from_the_fallback = refl

abbrev all_well : Command → Result BootError (Unit {0})
all_well c = ok tt

takes_one : fallback all_well mounts false (ok listed) (λ r. true) ≡ (
  make_top
      ∷ mount (codes "/dev/nvme0n1p2")
      ∷ delete (codes "@root-b")
      ∷ snapshot (codes "@root-a") (codes "@root-b")
      ∷ umount
      ∷ mark (codes "@root-b")
      ∷ [],
  ok tt,
)
unfolding fallback join
takes_one = refl

abbrev no_snapshot : Command → Result BootError (Unit {0})
no_snapshot (snapshot a b) = err (failed a)
no_snapshot c = ok tt

-- The top is unmounted also when the snapshot fails, and no mark is made.
snapshot_fails : fallback no_snapshot mounts false (ok listed) (λ r. false) ≡ (
  make_top
      ∷ mount (codes "/dev/nvme0n1p2")
      ∷ snapshot (codes "@root-a") (codes "@root-b")
      ∷ umount
      ∷ [],
  err (failed (codes "@root-a")),
)
unfolding fallback join
snapshot_fails = refl

fallback-MayReplace_example : MayReplace mounts false (ok listed) (codes "@root-b")
unfolding fallback join
fallback-MayReplace_example =
    fallback-MayReplace all_well mounts (ok listed) false (λ r. true) (delete (codes "@root-b"))
      (codes "@root-b") (inr (inr (inl refl))) refl

abbrev tab : Str
tab = 9 ∷ []

abbrev efi : Str → Str
efi o = join (newline ∷ []) (
    (codes "BootCurrent: 0000"
      ∷ (codes "BootOrder: " ++ o)
      ∷ (codes "Boot0003* kiry @root-a" ++ (tab ++ codes "HD(1)"))
      ∷ []))

entry_three :
    entry (codes "Boot0003* kiry @root-a" ++ (tab ++ codes "HD(1)"))
    ≡ ok (some (codes "0003", codes "kiry @root-a"))
unfolding entry kiry.Base.Text.cut_from
entry_three = refl

no_header : entry (codes "BootCurrent: 0000") ≡ ok none
unfolding entry
no_header = refl

-- A character of two bytes from the third byte on is cut through.
cut_through : entry (codes "Boot000éx") ≡ err split_character
unfolding entry
cut_through = refl

last_flags :
    booted (codes "rootflags=subvol=@root-b ro rootflags=subvol=/@root-a") ≡ some (codes "@root-a")
unfolding booted
last_flags = refl

abbrev cmdline : Str
cmdline = codes "ro rootflags=subvol=/@root-a"

to_commit : keeps (codes "@root-a") cmdline (efi (codes "0000, 0003")) ≡ ok (some (codes "0003"))
unfolding keeps join kiry.Base.Text.cut_from
to_commit = refl

elsewhere :
    keeps (codes "@root-a") (codes "rootflags=subvol=@root-b") (efi (codes "0000"))
    ≡ err (another_root (codes "@root-b"))
unfolding keeps join kiry.Base.Text.cut_from
elsewhere = refl

reordered :
    order (efi (codes "0003,0000")) ≡ reorder (codes "0003") (order (efi (codes "0000, 0003")))
unfolding reorder order join
reordered = refl

committed_once : keeps (codes "@root-a") cmdline (efi (codes "0003,0000")) ≡ ok none
unfolding keeps join kiry.Base.Text.cut_from
committed_once = refl
