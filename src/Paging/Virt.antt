-- ===== src/Paging/Virt.antt =====
-- emulator/src/cpu/rv_paging.c: the accesses to virtual memory.
use riscmulator.Tlb.{is_canon_vaddr}
use riscmulator.Base.{
  not, false, sub64, ◌++◌, ◌*◌, ◌-◌, ◌>>>◌, bit_and, some, ◌+◌, ◌/◌, u64, ◌%◌, ◌||◌, if◌then◌else◌,
  ◌<<<◌, ◌==◌, ◌^◌,
}
use riscmulator.Memory.{take, is_ok, drop, Access, fetch, amo, load, store, page_fault}
use riscmulator.Paging.{
  if◌then◌else◌, true, ◌<<<◌, ◌==◌, ◌^◌, Bool, List, bit_or, Cpu, TlbEntry, ℕ, lookup, Lookup,
  bytes_of, pte_ppn,
}
use riscmulator.Cpu.{Cpu, TlbEntry}
use riscmulator.Machine.{Machine, Accessed, done, hart_of}
use riscmulator.Machine.Phys.{access_phys, access_phys_partial}

-- The physical address of a virtual one, by the entry of its page.
abbrev pub paddr_of : TlbEntry → ℕ → ℕ
paddr_of entry vaddr = bit_or (pte_ppn entry.pte <<< 12) (vaddr % 4096)

-- The second part of an access across pages, behind the bytes of the first.
unfoldable pub second_part : {D : Type 0} → ℕ → ℕ → ℕ → ℕ → Access → Accessed D → Accessed D
second_part h paddr size0 size1 mode first =
    let bytes = bytes_of first.bytes in
    let second = access_phys_partial first.machine h paddr (drop size0 bytes) size1 mode true in
    if is_ok first.result
    then record second { bytes = some (take size0 bytes ++ bytes_of second.bytes) }
    else first

-- `rv_access_virt_pageboundary`.
unfoldable pub access_virt_pageboundary :
    {D : Type 0} → Machine D → ℕ → ℕ → List ℕ → ℕ → Access → Accessed D
unfolding second_part
access_virt_pageboundary machine h vaddr bytes size_exp mode =
    let size = 2 ^ size_exp in
    let vaddr1 = u64 ((vaddr / 4096 + 1) * 4096) in
    let size0 = sub64 vaddr1 vaddr in
    let size1 = sub64 (u64 (vaddr + size)) vaddr1 in
    let result0 = lookup machine h vaddr mode in
    let result1 = lookup result0.machine h vaddr1 mode in
    if not (is_canon_vaddr (hart_of machine h) vaddr1)
    then done page_fault (some bytes) machine
    else if not (is_ok result0.result)
    then done result0.result (some bytes) result0.machine
    else if not (is_ok result1.result)
    then done result1.result (some bytes) result1.machine
    else second_part h (paddr_of result1.entry vaddr1) size0 size1 mode
        (access_phys_partial result1.machine h (paddr_of result0.entry vaddr) bytes size0 mode true)

-- The access behind the translation of its page.
unfoldable pub translated : {D : Type 0} → ℕ → ℕ → List ℕ → ℕ → Access → Lookup D → Accessed D
translated h vaddr bytes size_exp mode looked =
    if is_ok looked.result
    then access_phys looked.machine h (paddr_of looked.entry vaddr) bytes size_exp mode true
    else done looked.result (some bytes) looked.machine

-- `eff_priv`.
abbrev pub eff_priv : Cpu → Access → ℕ
eff_priv cpu fetch = cpu.privilege
eff_priv cpu amo = cpu.mem_privilege
eff_priv cpu load = cpu.mem_privilege
eff_priv cpu store = cpu.mem_privilege

-- Whether an access goes to physical memory directly.
unfoldable pub is_bare : Cpu → Access → Bool
is_bare cpu mode = (eff_priv cpu mode == 3) || (bit_and cpu.csr.satp 0xf000000000000000 >>> 60 == 0)

-- `rv_access_virt`.
unfoldable pub access_virt : {D : Type 0} → Machine D → ℕ → ℕ → List ℕ → ℕ → Access → Accessed D
unfolding is_bare translated access_virt_pageboundary
access_virt machine h vaddr bytes size_exp mode =
    let vaddr1 = u64 (vaddr + 2 ^ size_exp - 1) in
    if is_bare (hart_of machine h) mode
    then access_phys machine h vaddr bytes size_exp mode false
    else if not (is_canon_vaddr (hart_of machine h) vaddr)
    then done page_fault (some bytes) machine
    else if not (vaddr / 4096 == vaddr1 / 4096)
    then access_virt_pageboundary machine h vaddr bytes size_exp mode
    else translated h vaddr bytes size_exp mode (lookup machine h vaddr mode)
