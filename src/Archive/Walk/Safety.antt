-- ===== src/Archive/Walk/Safety.antt =====
-- What a member is that one round of `walk` of crates/kiry-core/src/archive.rs accepts.
use kiry.Base.{
  ℕ, ◌≡◌, refl, subst, ◌⊎◌, Bool, true, false, Option, none, some, inl, inr, Result, ok, err,
  map_err, map_err-eq-ok, ok_or, >>=-eq-ok, ok-injective, Result-cases, if◌then◌else◌, not,
}
use kiry.Base.Text.{Str}
use kiry.Error.{Error}
use kiry.Archive.Resolve.{tidy, resolve}
use kiry.Archive.Resolve.Beneath.{IsBeneath, resolve-IsBeneath}
use kiry.Archive.Walk.{
  EntryType, regular, continuous, directory, symlink, hard_link, xheader, xglobal_header,
  gnu_long_name, gnu_long_link, other_type, Header, What, file, dir, link, hard, Member, View, Made,
  anon, resolve_or, link_of, hard_of, what_of, what_is_dir, check_trade, check_pax, place,
  named_member, root_member, member_of,
}

-- The path that a hard link names lies below the root.
abbrev pub TargetBeneath : What → Type 0
TargetBeneath file = Unit
TargetBeneath dir = Unit
TargetBeneath (link t) = Unit
TargetBeneath (hard t) = IsBeneath t

-- A member that can do no harm on a disk as seen: what it makes and what a hard link names lie below
-- the root, and a directory takes no other thing's place nor the other way round.
pub record IsSafe (v : View) (m : Member) : Type 0 where
  pub beneath : IsBeneath m.path
  pub target : TargetBeneath m.what
  pub no_trade : (d : Bool) → v.is_dir m.path ≡ some d → d ≡ what_is_dir m.what

-- The headers that only carry names.
abbrev pub carries_names : EntryType → Bool
carries_names xheader = true
carries_names xglobal_header = true
carries_names gnu_long_name = true
carries_names gnu_long_link = true
carries_names _ = false

-- A header that is no member: it only carries names, or is the root of the tree as a directory.
abbrev pub NoMember : Header → Type 0
NoMember h =
    (carries_names h.entry_type ≡ true)
    ⊎ ((h.entry_type ≡ directory) × (raw : Str) × (h.raw_path ≡ ok raw) × (tidy raw ≡ ok none))

module _ (v : View) (made : Made) where
  resolve_or-IsBeneath :
      (path : Str) (f : Bool) (blame : Str) {p : Str}
      → resolve_or v path f made blame ≡ ok p
      → IsBeneath p
  unfolding resolve_or
  resolve_or-IsBeneath path f blame {p} h = elim (Result-cases (resolve v.read_link path f made)) [
    | inl (q, e) ↦
        subst IsBeneath (ok-injective (rw e at h)) (resolve-IsBeneath v.read_link path f made e)
    | inr (why, e) ↦ absurd (cc (rw e at h))
  ]

  hard_of-TargetBeneath :
      (path : Str) (h : Header) {w : What} → hard_of v made path h ≡ ok w → TargetBeneath w
  unfolding hard_of
  hard_of-TargetBeneath path h {w} e =
      let (t, e0, e1) = >>=-eq-ok (link_of path h) _ e in
      let (tidied, e2, e3) = >>=-eq-ok (map_err (λ why. Error.archive path why) (tidy t)) _ e1 in
      let (t', e4, e5) =
        >>=-eq-ok (ok_or tidied (Error.archive path "hard link with an empty target")) _ e3 in
      let (landed, e6, e7) = >>=-eq-ok (resolve_or v t' false made t') _ e5 in
      subst TargetBeneath (ok-injective e7) (resolve_or-IsBeneath t' false t' e6)

  abbrev Fit : EntryType → Option (What × Bool) → Type 0
  Fit t none = carries_names t ≡ true
  Fit t (some (w, f)) = TargetBeneath w

  what_of-Fit :
      (path : Str) (h : Header) (t : EntryType) {w : Option (What × Bool)}
      → what_of v made path h t ≡ ok w
      → Fit t w
  unfolding what_of
  what_of-Fit path h regular e = subst (Fit regular) (ok-injective e) tt
  what_of-Fit path h continuous e = subst (Fit continuous) (ok-injective e) tt
  what_of-Fit path h directory e = subst (Fit directory) (ok-injective e) tt
  what_of-Fit path h symlink e =
      let (t, e0, e1) = >>=-eq-ok (link_of path h) _ e in subst (Fit symlink) (ok-injective e1) tt
  what_of-Fit path h hard_link e =
      let (w, e0, e1) = >>=-eq-ok (hard_of v made path h) _ e in
      subst (Fit hard_link) (ok-injective e1) (hard_of-TargetBeneath path h e0)
  what_of-Fit path h xheader e = subst (Fit xheader) (ok-injective e) refl
  what_of-Fit path h xglobal_header e = subst (Fit xglobal_header) (ok-injective e) refl
  what_of-Fit path h gnu_long_name e = subst (Fit gnu_long_name) (ok-injective e) refl
  what_of-Fit path h gnu_long_link e = subst (Fit gnu_long_link) (ok-injective e) refl
  what_of-Fit path h other_type e = absurd (cc)

  check_trade_lem :
      (w : What) (landed : Str)
      → check_trade v w landed ≡ ok tt
      → (d : Bool) → v.is_dir landed ≡ some d
      → d ≡ what_is_dir w
  unfolding check_trade
  check_trade_lem w landed h d e = trade d (what_is_dir w) (rw (e, check_trade) at h)
    where
      trade :
          (d b : Bool)
          → ◌≡◌ {A = Result Error (Unit {0})}
              (if (if d then not b else b)
                then err (Error.archive landed "a directory and a non-directory would trade places")
                else ok tt)
              (ok tt)
          → d ≡ b
      trade true true e = refl
      trade true false e = absurd (cc)
      trade false true e = absurd (cc)
      trade false false e = refl

  abbrev pub Good : Header → Option Member → Type 0
  Good h none = NoMember h
  Good h (some m) = IsSafe v m

  place-Good :
      (h : Header) (path : Str) (mode : ℕ) (w : Option (What × Bool)) {m : Option Member}
      → Fit h.entry_type w
      → place v made path mode w ≡ ok m
      → Good h m
  unfolding place
  place-Good h path mode none fit e = subst (Good h) (ok-injective e) (inl fit)
  place-Good h path mode (some (w, f)) fit e =
      let (landed, e0, e1) = >>=-eq-ok (resolve_or v path f made path) _ e in
      let (u, e2, e3) = >>=-eq-ok (check_trade v w landed) _ e1 in
      subst (Good h) (ok-injective e3) (record {
        beneath = resolve_or-IsBeneath path f path e0;
        target = fit;
        no_trade = check_trade_lem w landed e2;
      })

  named_member-Good :
      (h : Header) (path : Str) {m : Option Member} → named_member v made h path ≡ ok m → Good h m
  unfolding named_member
  named_member-Good h path e =
      let (keys, e0, e1) = >>=-eq-ok (anon h.pax_keys) _ e in
      let (u, e2, e3) = >>=-eq-ok (check_pax path keys) _ e1 in
      let (mode, e4, e5) = >>=-eq-ok (anon h.mode) _ e3 in
      let (w, e6, e7) = >>=-eq-ok (what_of v made path h h.entry_type) _ e5 in
      place-Good h path mode w (what_of-Fit path h h.entry_type e6) e7

  root_member-Good :
      (h : Header) (raw : Str) {m : Option Member}
      → h.raw_path ≡ ok raw
      → tidy raw ≡ ok none
      → root_member h.entry_type raw ≡ ok m
      → Good h m
  unfolding root_member
  root_member-Good h raw {m} e0 e2 e = by_type h.entry_type refl e
    where
      by_type : (t : EntryType) → h.entry_type ≡ t → root_member t raw ≡ ok m → Good h m
      by_type directory at e' = subst (Good h) (ok-injective e') (inr (at, raw, e0, e2))
      by_type _ at e' = absurd (cc)

  pub member_of-Good : (h : Header) {m : Option Member} → member_of v made h ≡ ok m → Good h m
  unfolding member_of
  member_of-Good h {m} e =
      let (raw, e0, e1) = >>=-eq-ok (anon h.raw_path) _ e in
      let (tidied, e2, e3) = >>=-eq-ok (map_err (λ why. Error.archive raw why) (tidy raw)) _ e1 in
      by_path tidied raw (map_err-eq-ok _ h.raw_path e0) (map_err-eq-ok _ (tidy raw) e2) e3
    where
      by_path :
          (tidied : Option Str) (raw : Str)
          → h.raw_path ≡ ok raw
          → tidy raw ≡ ok tidied
          → ◌≡◌ {A = Result Error (Option Member)}
              (elim tidied [
                | none ↦ root_member h.entry_type raw
                | some path ↦ named_member v made h path
              ])
              (ok m)
          → Good h m
      by_path none raw e0 e2 e = root_member-Good h raw e0 e2 e
      by_path (some path) raw e0 e2 e = named_member-Good h path e
