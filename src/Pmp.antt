-- ===== src/Pmp.antt =====
-- emulator/src/cpu/rv_pmp.c: the permissions that physical memory protection grants.
pub mod Region
pub mod Check
mod Examples
use riscmulator.Base.{
  ℕ, zero, suc, ◌+◌, ◌-◌, ◌*◌, ◌/◌, ◌%◌, ◌^◌, ◌<<<◌, ◌>>>◌, bit_and, bit_or, bit_xor, Bool, true,
  false, ◌&&◌, ◌||◌, not, truth, ◌==◌, if◌then◌else◌, get_or, u64, not64,
}
use riscmulator.Cpu.{Cpu}

-- `pmpaddr_match`: the mask of the region's size, and the comparison.
unfoldable pub region_mask : ℕ → ℕ
region_mask pmpaddr = bit_xor pmpaddr (u64 (pmpaddr + 1))

unfoldable pub pmpaddr_match : ℕ → ℕ → Bool
unfolding region_mask
pmpaddr_match paddr pmpaddr =
    let qmask = region_mask pmpaddr in
    let bmask = bit_or (u64 (qmask <<< 2)) 3 in
    let base = u64 (bit_and pmpaddr (not64 qmask) <<< 2) in bit_and paddr (not64 bmask) == base

-- The loop of `rv_pmp_check` from entry `i`, with `left` entries to go.
unfoldable pub check_from : ℕ → ℕ → Cpu → ℕ → ℕ → Bool → ℕ
check_from zero i cpu paddr paddr1 m_mode = if m_mode then 7 else 0
check_from (suc left) i cpu paddr paddr1 m_mode =
    let cfg = get_or cpu.csr.pmpcfg i 0 in
    let locked = truth (bit_and cfg (2 ^ 7)) in
    let enabled = truth (bit_and cfg (2 ^ 4)) in
    let match0 = pmpaddr_match paddr (get_or cpu.csr.pmpaddr i 0) in
    let match1 = pmpaddr_match paddr1 (get_or cpu.csr.pmpaddr i 0) in
    let rest = check_from left (i + 1) cpu paddr paddr1 m_mode in
    if not enabled || (m_mode && not locked)
    then rest
    else if match0
    then (if match1 then bit_and cfg 7 else 0)
    else if match1
    then 0
    else rest

-- `paddr1`.
abbrev pub last_byte : ℕ → ℕ → ℕ
last_byte paddr size = u64 (u64 (paddr + size) + 2 ^ 64 - 1)

-- `rv_pmp_check`.
unfoldable pub pmp_check : Cpu → ℕ → ℕ → Bool → ℕ
unfolding check_from
pmp_check cpu paddr size m_mode = check_from 64 0 cpu paddr (last_byte paddr size) m_mode
