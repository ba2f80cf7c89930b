-- ===== src/Db/Queue.antt =====
-- crates/kiry-core/src/db.rs, `read_queue` and `write_queue`: the packages that wait for a rebuild.
use kiry.Base.{
  ℕ, ◌+◌, ◌++◌, List, [], ◌∷◌, Bool, true, false, not, ◌&&◌, ◌||◌, ◌==◌, nat_eq, list_eq, is_empty,
  keep, if◌then◌else◌, Result, ok, ◌>>=◌,
}
use kiry.Base.Text.{Str, codes, space, newline, hash_sign, begins, splitn, split, lines, trim, join}
use kiry.Error.{Error}
use kiry.Disk.{Disk, path_join, str_leb, create_dir_all}
use kiry.Db.Manifest.{bad}
use kiry.Db.Record.{db_dir, parent_or, put, rm, at, read_or_empty}

pub record Queued : Type 0 where
  pub target : Str
  pub name : Str
  pub soname : Str
  pub changed : List Str

unfoldable pub queue : Str → Str
unfolding path_join
queue root = path_join (path_join root db_dir) (codes "queue")

unfoldable pub changed_from : List Str → List Str
changed_from [] = []
changed_from (c ∷ more) = keep (λ x. not (is_empty x)) (split c b',')

-- The fields of one line: target, soname, package and what changed.
unfoldable pub queued_from : ℕ → List Str → Result Error Queued
unfolding changed_from
queued_from n (t ∷ so ∷ name ∷ more) =
    ok (record { target = t; name = name; soname = so; changed = changed_from more })
queued_from n [] = bad n "wants target, soname, package"
queued_from n (a ∷ []) = bad n "wants target, soname, package"
queued_from n (a ∷ b ∷ []) = bad n "wants target, soname, package"

-- The loop from line `n` on; blank lines and comments are passed over.
unfoldable pub queue_lines : ℕ → List Str → Result Error (List Queued)
unfolding queued_from
queue_lines n [] = ok []
queue_lines n (l ∷ ls) =
    let rest = queue_lines (n + 1) ls in
    let here = (do q ← queued_from n (splitn 4 (trim l) space); qs ← rest; ok (q ∷ qs)) in
    if is_empty (trim l) || begins hash_sign (trim l) then rest else here

unfoldable pub parse_queue : Str → Result Error (List Queued)
unfolding queue_lines
parse_queue text = queue_lines 1 (lines text)

unfoldable pub read_queue : Disk → Str → Result Error (List Queued)
unfolding queue parse_queue read_or_empty
read_queue d root = read_or_empty d (queue root) [] parse_queue

-- The derived order: field by field, a list before any that goes on from it.
texts_leb : List Str → List Str → Bool
texts_leb [] ts = true
texts_leb (s ∷ ss) [] = false
texts_leb (s ∷ ss) (t ∷ ts) = if s == t then texts_leb ss ts else str_leb s t

unfoldable pub queued_leb : Queued → Queued → Bool
unfolding texts_leb
queued_leb p q =
    if p.target == q.target
    then (if p.name == q.name
        then (if p.soname == q.soname
            then texts_leb p.changed q.changed
            else str_leb p.soname q.soname)
        else str_leb p.name q.name)
    else str_leb p.target q.target

unfoldable pub queued_eq : Queued → Queued → Bool
queued_eq p q =
    p.target == q.target && (p.name == q.name && (p.soname == q.soname && p.changed == q.changed))

insert : Queued → List Queued → List Queued
insert q [] = q ∷ []
insert q (r ∷ rs) = let rest = insert q rs in if queued_leb q r then q ∷ r ∷ rs else r ∷ rest

-- `sort` and `dedup`
unfoldable pub sort : List Queued → List Queued
unfolding insert
sort [] = []
sort (q ∷ qs) = insert q (sort qs)

put_new : Queued → List Queued → List Queued
put_new q [] = q ∷ []
put_new q (r ∷ rs) = if queued_eq q r then r ∷ rs else q ∷ r ∷ rs

unfoldable pub dedup : List Queued → List Queued
unfolding put_new
dedup [] = []
dedup (q ∷ qs) = put_new q (dedup qs)

show_queued : Queued → Str
show_queued q =
    q.target
    ++ (space
        ∷ (q.soname
            ++ (space
                ∷ (q.name
                    ++ (if is_empty q.changed then [] else space ∷ join (b',' ∷ []) q.changed)))))

unfoldable pub format_queue : List Queued → Str
unfolding show_queued
format_queue [] = []
format_queue (q ∷ qs) = show_queued q ++ (newline ∷ format_queue qs)

write_some : Disk → Str → List Queued → Result Error Disk
unfolding format_queue put create_dir_all parent_or
write_some d p qs = do
  d' ← at (parent_or p) (create_dir_all d (parent_or p))
  put d' p (format_queue qs)

unfoldable pub write_queue : Disk → Str → List Queued → Result Error Disk
unfolding queue sort dedup rm write_some
write_queue d root q =
    let qs = dedup (sort q) in
    if is_empty qs then rm d (queue root) else write_some d (queue root) qs
