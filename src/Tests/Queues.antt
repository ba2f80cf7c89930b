-- ===== src/Tests/Queues.antt =====
-- Runs of the rebuild queue, crates/kiry-core/src/db.rs, and of parts of `apply`, install.rs.
use kiry.Base.{◌≡◌, refl, List, [], ◌∷◌, some, none, ok, err}
use kiry.Base.Text.{codes}
use kiry.Error.{Error}
use kiry.Db.Queue.{Queued, parse_queue, format_queue, sort, dedup}
use kiry.Install.Apply.{beside}

abbrev curl : Queued
curl = record {
  target = codes "musl";
  name = codes "curl";
  soname = codes "libz.so.1";
  changed = codes "open" ∷ codes "close" ∷ [];
}

abbrev apk : Queued
apk = record { target = codes "musl"; name = codes "apk"; soname = codes "libz.so.1"; changed = [] }

read_two :
    parse_queue (codes "# later\n\nmusl libz.so.1 curl open,,close\n  musl libz.so.1 apk\n")
    ≡ ok (curl ∷ apk ∷ [])
unfolding parse_queue kiry.Base.Text.lines kiry.Base.Text.trim kiry.Base.Text.splitn
    kiry.Base.Text.split
read_two = refl

write_two :
    format_queue (dedup (sort (curl ∷ apk ∷ curl ∷ [])))
    ≡ codes "musl libz.so.1 apk\nmusl libz.so.1 curl open,close\n"
unfolding format_queue dedup sort kiry.Db.Queue.queued_leb kiry.Disk.str_leb kiry.Db.Queue.queued_eq
    kiry.Base.Text.join
write_two = refl

line_two :
    parse_queue (codes "\nmusl libz.so.1\n")
    ≡ err (Error.manifest 2 "wants target, soname, package")
unfolding parse_queue kiry.Base.Text.lines kiry.Base.Text.trim kiry.Base.Text.splitn
line_two = refl

beside_two :
    beside (codes "usr/lib/libz.so.1") (codes "libz.so.1.3") ≡ some (codes "usr/lib/libz.so.1.3")
unfolding beside
beside_two = refl
