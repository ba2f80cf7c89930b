-- ===== src/Elf/Words/Laws.antt =====
-- Where an address that is mapped lies in the file, and how large a number that is read can be.
use kiry.Base.{
  ℕ, ◌+◌, ◌-◌, ◌^◌, ◌≤◌, ◌<◌, ◌≡◌, refl, sym, inl, inr, List, [], ◌∷◌, ◌&&◌, some, ltb, leb, Among,
  Bool-cases, arith, ok, ok_or-eq-ok,
}
use kiry.Elf.Words.{offset_of, checked}

-- An offset is that of a loaded segment which holds the address.
pub record Holds (addr offset : ℕ) (load : ℕ × (ℕ × ℕ)) : Type 0 where
  pub from_start : load.0 ≤ addr
  pub before_end : addr < load.0 + load.1.0
  pub distance : offset ≡ load.1.1 + (addr - load.0)

checked_lem : (v : ℕ) {w : ℕ} → checked v ≡ some w → (v ≡ w) × (v < 2 ^ 64)
unfolding checked
checked_lem v h = ground arith

-- An address is mapped only by a loaded segment that holds it, to the place in the file that is as far
-- from the segment's offset, and that place fits in 64 bits.
pub offset_of-Holds :
    (loads : List (ℕ × (ℕ × ℕ))) (addr : ℕ) {offset : ℕ}
    → offset_of loads addr ≡ ok offset
    → (offset < 2 ^ 64) × ((load : ℕ × (ℕ × ℕ)) × (Among load loads × Holds addr offset load))
unfolding offset_of
offset_of-Holds [] addr h = absurd (cc h)
offset_of-Holds ((vaddr, (filesz, start)) ∷ loads) addr {offset} h =
    elim (Bool-cases (leb vaddr addr && ltb (addr - vaddr) filesz)) [
      | inl holds ↦
          let fits =
            ok_or-eq-ok (checked (start + (addr - vaddr))) "segment offset past the end of memory"
              (rw holds at h) in
          let (same, bound) = checked_lem (start + (addr - vaddr)) fits in
          (
            ground arith,
            (
              (vaddr, (filesz, start)),
              (
                inl refl,
                record {
                  from_start = ground arith;
                  before_end = ground arith;
                  distance = sym same;
                },
              ),
            ),
          )
      | inr apart ↦
          let (bound, (load, (among, holds))) =
            offset_of-Holds loads addr {offset = offset} (rw apart at h) in
          (bound, (load, (inr among, holds)))
    ]
