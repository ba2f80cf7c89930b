-- ===== src/Cli/Boot/Commit.antt =====
-- A commit of crates/kiry/src/main.rs is made once.
use kiry.Base.{
  ◌≡◌, sym, ◌∙◌, ap, inl, inr, List, Option, none, some, ◌==◌, nat_eq, list_eq, ok, ◌>>=◌,
  >>=-eq-ok, arith, Bool-cases, list_beq_iff,
}
use kiry.Base.Text.{Str}
use kiry.Cli.Boot.Efi.{entry_for, booted, order, is_first, commit_of, keeps, reorder}

committed :
    (now : Str) (cmd : Option Str) (was : List Str) (found : Option Str) {num : Str}
    → commit_of now cmd was found ≡ ok (some num)
    → commit_of now cmd (reorder num was) found ≡ ok none
unfolding commit_of is_first reorder
committed now cmd was none h = absurd (ground (arith, h))
committed now none was (some n) h = ground (arith, h)
committed now (some b) was (some n) {num = num} h = elim (Bool-cases (b == now)) [
  | inr e ↦ absurd (ground (arith, e, h))
  | inl e ↦ elim (Bool-cases (is_first n was)) [
    | inl f ↦ absurd (ground (arith, e, f, h))
    | inr f ↦
        let same : n ≡ num = ground (arith, e, f, h) in
        ground (arith, e, (list_beq_iff num n).1 (sym same))
  ]
]

-- Once the entry is first in the order, there is nothing left to commit, if the firmware keeps its entries.
pub keeps-reorder :
    (now cmdline seen after : Str) {num : Str}
    → keeps now cmdline seen ≡ ok (some num)
    → entry_for after now ≡ entry_for seen now
    → order after ≡ reorder num (order seen)
    → keeps now cmdline after ≡ ok none
unfolding keeps
keeps-reorder now cmdline seen after {num = num} h same ordered =
    let (found, e, before) =
      >>=-eq-ok (entry_for seen now) (λ n. commit_of now (booted cmdline) (order seen) n) h in
    ap (λ m. m >>= (λ n. commit_of now (booted cmdline) (order after) n)) (same ∙ e)
    ∙ ap (λ o. commit_of now (booted cmdline) o found) ordered
    ∙ committed now (booted cmdline) (order seen) found before
