-- ===== src/Paging/Granted.antt =====
-- The page walk of emulator/src/cpu/rv_paging.c gives out only what the page table permits.
use riscmulator.Paging.Entries.{IsLeaf, IsGranted, MayUse}
use riscmulator.Base.{true, ℕ, ◌≡◌, ◌≤◌, ◌<◌}
use riscmulator.Base.Bits.{bit}
use riscmulator.Paging.{pmp_check, Lookup, pmp_bit, pte_bit}
use riscmulator.Pmp.{pmp_check}
use riscmulator.Cpu.{Cpu, TlbEntry}
use riscmulator.Memory.{is_ok, Access}
use riscmulator.Machine.Phys.{pmp_bit}
use riscmulator.Machine.{Machine}

-- A lookup whose entry, if there is no fault, may be used.
record IsGuarded {D : Type 0} (cpu : Cpu) (vaddr : ℕ) (mode : Access) (l : Lookup D) : Type 0 where
  granted : is_ok l.result ≡ true → IsGranted cpu vaddr mode l.entry

-- What the walk knows of the entry of a leaf PTE before it sets the flags.
record IsPermitted (cpu : Cpu) (vaddr pte : ℕ) (mode : Access) (entry : TlbEntry) : Type 0 where
  valid : bit pte 0 ≡ 1
  low : (k : ℕ) → k < 10 → bit pte k ≤ bit entry.pte k
  permitted : bit entry.pte (pte_bit mode) ≡ 1
  user : MayUse cpu (bit entry.pte 4)
  protected : bit entry.vma (pmp_bit mode) ≡ 1
  leaf_of : IsLeaf cpu vaddr mode entry
