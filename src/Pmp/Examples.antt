-- ===== src/Pmp/Examples.antt =====
-- The check of physical memory protection on two entries.
use riscmulator.Pmp.Region.{pmpaddr_match-napot, napot}
use riscmulator.Base.{
  ◌==◌, ◌>>>◌, zero, suc, true, suc, ◌<◌, ℕ, ◌≡◌, false, not64, replicate, ◌∷◌, refl, arith,
}
use riscmulator.Pmp.{pmpaddr_match, pmp_check, last_byte}
use riscmulator.Pmp.Check.{pmp_check-decided, decides, outcome}
use riscmulator.Cpu.{Cpu, zero_cpu}

-- Entry 0 is off; entry 1 grants reads of the 4 KiB at 0x80000000.
abbrev guarded : Cpu
guarded = record (zero_cpu) {
  csr = record (zero_cpu.csr) {
    pmpcfg = 0 ∷ 0x19 ∷ replicate 62 0;
    pmpaddr = 0 ∷ 0x200001ff ∷ replicate 62 0;
  };
}

grants_read : pmp_check guarded 0x80000ffc 4 false ≡ 1
unfolding pmp_check pmpaddr_match not64
grants_read = refl

-- An access that leaves the region is refused.
refuses_edge : pmp_check guarded 0x80000ffe 4 false ≡ 0
unfolding pmp_check pmpaddr_match not64
refuses_edge = refl

pmp_check-decided_example :
    pmp_check guarded 0x80000ffe 4 false
    ≡ outcome guarded 0x80000ffe (last_byte 0x80000ffe 4) false 1
unfolding pmpaddr_match not64
pmp_check-decided_example = pmp_check-decided guarded 0x80000ffe 4 false 1 (omega arith) off on
  where
    off : (j : ℕ) → j < 1 → decides guarded 0x80000ffe 0x80001001 false j ≡ false
    off zero h = refl
    off (suc j) h = absurd (omega arith)

    on : decides guarded 0x80000ffe 0x80001001 false 1 ≡ true
    on = refl

-- The address register of `guarded`: 9 ones after a zero, a region of 4 KiB.
pmpaddr_match-napot_example :
    pmpaddr_match 0x80000ffe (napot 0x80000 9) ≡ (0x80000ffe >>> 12 == 0x80000)
unfolding napot
pmpaddr_match-napot_example =
    pmpaddr_match-napot 0x80000ffe 0x80000 9 (omega arith) (omega arith) (omega arith)
