-- ===== src/Install/Remove/Laws.antt =====
-- A removal deletes what is still as it was installed, counts every entry, and leaves what others need.
use kiry.Base.{
  ℕ, ◌+◌, ◌≤◌, ◌≡◌, refl, ◌∙◌, ap, sym, inl, inr, List, [], ◌∷◌, reverse, reverse_aux, Bool, false,
  Option, none, some, ◌==◌, nat_eq, list_eq, All, Bool-cases, Option-cases, arith, contains, length,
  lookup, list_beq_iff, if◌then◌else◌, Result, ok, err,
}
use kiry.Base.Text.{Str}
use kiry.Db.Manifest.{Kind, file, dir, link, hard, Entry}
use kiry.Install.Check.{is_dir_kind}
use kiry.Install.Os.{Os, Errno, noent, errno, hash, parent_of, leaf_of}
use kiry.Install.Remove.{
  protected, Removed, nothing, sums_from, by_content, unlink_at, unlink_entry, unlink_all, unlink,
}

All-reverse_aux :
    (P : Entry → Type 0) (xs ys : List Entry) → All P xs → All P ys → All P (reverse_aux xs ys)
All-reverse_aux P [] ys _ h = h
All-reverse_aux P (x ∷ xs) ys (px, pxs) h = All-reverse_aux P xs (x ∷ ys) pxs (px, h)

same_text : {a b : Str} → ◌≡◌ {A = Option Str} (some a) (some b) → a ≡ b
same_text h = cc

-- How many entries were counted.
abbrev pub total : Removed → ℕ
total r = r.gone + r.missing + r.kept

-- How many entries are no directories.
abbrev pub things : List Entry → ℕ
things [] = 0
things (e ∷ es) = (if is_dir_kind e.kind then 0 else 1) + things es

module _ (os : Os) where
  open os use {State, Fd, beneath, readlinkat, unlinkat}

  -- What entitles the program to delete the last component of a path in an opened directory.
  abbrev pub Entitled : List (Str × Str) → State → Fd → Kind → Str → Type 0
  Entitled sums s fd dir path = contains protected path ≡ false
  Entitled sums s fd (link t) path = readlinkat s fd (leaf_of path) ≡ ok t
  Entitled sums s fd (file h) path = hash os s fd (leaf_of path) ≡ ok h
  Entitled sums s fd (hard to) path =
      (h : Str) × (lookup to sums ≡ some h) × (hash os s fd (leaf_of path) ≡ ok h)

  module _ (P : State → Type 0) (sums : List (Str × Str)) where
    by_content-P :
        (s : State) (fd : Fd) (leaf : Str) (r : Removed) (found : Result Errno Str) (w : Option Str)
        → ((h : Str) → w ≡ some h → found ≡ ok h → P (unlinkat s fd leaf false))
        → P s
        → P (by_content os s fd leaf r found w).0
    unfolding by_content
    by_content-P s fd leaf r (ok got) (some wanted) f p = elim (Bool-cases (got == wanted)) [
      | inl same ↦ rw same (f wanted refl (ap ok ((list_beq_iff got wanted).0 same)))
      | inr apart ↦ rw apart p
    ]
    by_content-P s fd leaf r (ok got) none f p = p
    by_content-P s fd leaf r (err noent) w f p = p
    by_content-P s fd leaf r (err (errno n)) w f p = p

    unlink_at-P :
        (s : State) (fd : Fd) (r : Removed) (k : Kind) (path : Str)
        → (Entitled sums s fd k path → P (unlinkat s fd (leaf_of path) (is_dir_kind k)))
        → P s
        → P (unlink_at os sums s fd r k path).0
    unfolding unlink_at
    unlink_at-P s fd r dir path keeps p = elim (Bool-cases (contains protected path)) [
      | inl kept ↦ rw kept p
      | inr open_to ↦ rw open_to (keeps open_to)
    ]
    unlink_at-P s fd r (link t) path keeps p =
        by_content-P s fd (leaf_of path) r _ (some t)
          (λ h w f. keeps (f ∙ ap ok (sym (same_text w)))) p
    unlink_at-P s fd r (file h) path keeps p =
        by_content-P s fd (leaf_of path) r _ (some h)
          (λ h' w f. keeps (f ∙ ap ok (sym (same_text w)))) p
    unlink_at-P s fd r (hard to) path keeps p =
        by_content-P s fd (leaf_of path) r _ (lookup to sums) (λ h w f. keeps (h, w, f)) p

    -- What is kept when an entry of the record is deleted by right.
    abbrev Keeps : Entry → Type 0
    Keeps e =
        (s : State) (fd : Fd)
        → beneath s (parent_of e.path) ≡ some fd
        → Entitled sums s fd e.kind e.path
        → P s
        → P (unlinkat s fd (leaf_of e.path) (is_dir_kind e.kind))

    unlink_entry-P :
        (s : State) (r : Removed) (e : Entry) → Keeps e → P s → P (unlink_entry os sums s r e).0
    unfolding unlink_entry
    unlink_entry-P s r e keeps p = elim (Option-cases (beneath s (parent_of e.path))) [
      | inl none_there ↦ rw (none_there, unlink_entry) p
      | inr (fd, opened) ↦
          rw (opened, unlink_entry)
            (unlink_at-P s fd r e.kind e.path (λ t. keeps s fd opened t p) p)
    ]

    unlink_all-P :
        (s : State) (r : Removed) (es : List Entry)
        → All Keeps es
        → P s
        → P (unlink_all os sums s r es).0
    unfolding unlink_all
    unlink_all-P s r [] keeps p = p
    unlink_all-P s r (e ∷ es) (keeps, later) p =
        unlink_all-P (unlink_entry os sums s r e).0 (unlink_entry os sums s r e).1 es later
          (unlink_entry-P s r e keeps p)

  -- A property of the installed files holds after a record was unlinked if it held before and, for each
  -- entry of the record, is kept when that entry is deleted while it is still as the record says: a file
  -- or hard link with the digest on record, a link with its target, a directory that is not protected.
  -- So nothing else is deleted.
  pub unlink_inv :
      (P : State → Type 0) (s : State) (manifest all_entries : List Entry)
      → All
          (λ e.
            (s' : State) (fd : Fd)
            → beneath s' (parent_of e.path) ≡ some fd
            → Entitled (sums_from all_entries []) s' fd e.kind e.path
            → P s'
            → P (unlinkat s' fd (leaf_of e.path) (is_dir_kind e.kind)))
          manifest
      → P s
      → P (unlink os s manifest all_entries).0
  unfolding unlink
  unlink_inv P s manifest all_entries keeps p =
      unlink_all-P P (sums_from all_entries []) s nothing (reverse manifest)
        (All-reverse_aux (Keeps P (sums_from all_entries [])) manifest [] keeps tt) p

  by_content-total :
      (s : State) (fd : Fd) (leaf : Str) (r : Removed) (found : Result Errno Str) (w : Option Str)
      → total (by_content os s fd leaf r found w).1 ≡ total r + 1
  unfolding by_content
  by_content-total s fd leaf r (ok got) (some wanted) = ground arith
  by_content-total s fd leaf r (ok got) none = omega arith
  by_content-total s fd leaf r (err noent) w = omega arith
  by_content-total s fd leaf r (err (errno n)) w = omega arith

  abbrev Counted : Bool → ℕ → ℕ → Type 0
  Counted is_directory before after =
      (before + (if is_directory then 0 else 1) ≤ after) × (after ≤ before + 1)

  unlink_at-total :
      (sums : List (Str × Str)) (s : State) (fd : Fd) (r : Removed) (k : Kind) (path : Str)
      → Counted (is_dir_kind k) (total r) (total (unlink_at os sums s fd r k path).1)
  unfolding unlink_at
  unlink_at-total sums s fd r dir path = omega arith
  unlink_at-total sums s fd r (link t) path =
      omega
        (arith, by_content-total s fd (leaf_of path) r (readlinkat s fd (leaf_of path)) (some t))
  unlink_at-total sums s fd r (file h) path =
      omega (arith, by_content-total s fd (leaf_of path) r (hash os s fd (leaf_of path)) (some h))
  unlink_at-total sums s fd r (hard to) path =
      omega (
        arith,
        by_content-total s fd (leaf_of path) r (hash os s fd (leaf_of path)) (lookup to sums),
      )

  unlink_entry-total :
      (sums : List (Str × Str)) (s : State) (r : Removed) (e : Entry)
      → Counted (is_dir_kind e.kind) (total r) (total (unlink_entry os sums s r e).1)
  unfolding unlink_entry
  unlink_entry-total sums s r e = elim (Option-cases (beneath s (parent_of e.path))) [
    | inl none_there ↦ rw (none_there, unlink_entry) (ground arith)
    | inr (fd, opened) ↦ rw (opened, unlink_entry) (unlink_at-total sums s fd r e.kind e.path)
  ]

  unlink_all-total :
      (sums : List (Str × Str)) (s : State) (r : Removed) (es : List Entry)
      → (total r + things es ≤ total (unlink_all os sums s r es).1)
        × (total (unlink_all os sums s r es).1 ≤ total r + length es)
  unfolding unlink_all
  unlink_all-total sums s r [] = omega arith
  unlink_all-total sums s r (e ∷ es) =
      let (s', r') = unlink_entry os sums s r e in
      omega (arith, unlink_entry-total sums s r e, unlink_all-total sums s' r' es)

  things-reverse_aux : (es fs : List Entry) → things (reverse_aux es fs) ≡ things es + things fs
  things-reverse_aux [] fs = omega arith
  things-reverse_aux (e ∷ es) fs = omega (arith, things-reverse_aux es (e ∷ fs))

  length-reverse_aux : (es fs : List Entry) → length (reverse_aux es fs) ≡ length es + length fs
  length-reverse_aux [] fs = omega arith
  length-reverse_aux (e ∷ es) fs = omega (arith, length-reverse_aux es (e ∷ fs))

  -- The entries counted as gone, missing or kept are together at least those that are no directories
  -- and at most all entries of the record.
  pub unlink-total :
      (s : State) (manifest all_entries : List Entry)
      → (things manifest ≤ total (unlink os s manifest all_entries).1)
        × (total (unlink os s manifest all_entries).1 ≤ length manifest)
  unfolding unlink
  unlink-total s manifest all_entries = omega (
    arith,
    unlink_all-total (sums_from all_entries []) s nothing (reverse manifest),
    things-reverse_aux manifest [],
    length-reverse_aux manifest [],
  )
