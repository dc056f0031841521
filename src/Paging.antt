-- ===== src/Paging.antt =====
-- emulator/src/cpu/rv_paging.c: the check of a page's permissions, the page walk, the lookup through
-- the TLB, and the accesses to virtual memory.
pub mod Virt
pub mod Flush
pub mod Frame
mod Examples
pub mod Cache
pub mod Granted
pub mod Pages
pub mod Entries
use riscmulator.Memory.{
  le_value, le_bytes, dirties, is_ok, Access, MemResult, fetch, amo, load, store, ok, access_fault,
  page_fault,
}
use riscmulator.Base.{
  zero, suc, ltb, replicate, true, u16, ◌<<<◌, false, u8, ◌-◌, bit_or, none, not32, some, ◌%◌, ◌&&◌,
  ◌*◌, ◌+◌, ◌||◌, Option, [], get_or, not, set, suc, truth, ◌/◌, ◌==◌, ◌>>>◌, ◌^◌, Bool, List,
  bit_and, ℕ, if◌then◌else◌,
}
use riscmulator.Tlb.{asid_of, vpn_mask}
use riscmulator.Pmp.{pmp_check}
use riscmulator.Machine.{Machine, Accessed, Buffer, hart_of, on_hart}
use riscmulator.Machine.Phys.{access_phys, pmp_bit}
use riscmulator.Cpu.{Cpu, Tlb, TlbEntry, sum_bit}

-- The bit of a PTE that an access needs.
abbrev pub pte_bit : Access → ℕ
pte_bit fetch = 3
pte_bit amo = 2
pte_bit load = 1
pte_bit store = 2

-- `setfl`: the flags A, and D for an access that writes.
abbrev pub set_flags : Access → ℕ
set_flags mode = if dirties mode then 0xc0 else 0x40

-- `check_access`.
unfoldable pub user_refused : Cpu → TlbEntry → Bool
user_refused cpu entry =
    let user_pte = truth (bit_and entry.pte (2 ^ 4)) in
    let sum = truth (bit_and cpu.csr.mstatus (2 ^ sum_bit)) in
    if cpu.mem_privilege == 0 then not user_pte else user_pte && not sum

unfoldable pub check_access : Cpu → TlbEntry → Access → MemResult
unfolding user_refused
check_access cpu entry mode =
    if user_refused cpu entry
    then page_fault
    else if bit_and entry.pte (2 ^ pte_bit mode) == 0
    then page_fault
    else if bit_and entry.vma (2 ^ pmp_bit mode) == 0
    then access_fault
    else ok

-- What a lookup returns: its result, the entry (of use only if the result is `ok`), the machine.
pub record Lookup (D : Type 0) : Type 0 where
  pub result : MemResult
  pub entry : TlbEntry
  pub machine : Machine D

abbrev zero_entry : TlbEntry
zero_entry = record { vma = 0; pte = 0 }

abbrev pub failed : {D : Type 0} → MemResult → Machine D → Lookup D
failed result machine = record { result = result; entry = zero_entry; machine = machine }

abbrev pub found : {D : Type 0} → TlbEntry → Machine D → Lookup D
found entry machine = record { result = ok; entry = entry; machine = machine }

abbrev pub bytes_of : Buffer → List ℕ
bytes_of none = []
bytes_of (some bytes) = bytes

-- `RV_PTE_PPN_MASK` and the page that a PTE names.
abbrev pub pte_ppn_mask : ℕ
pte_ppn_mask = 0x003ffffffffffc00

abbrev pub pte_ppn : ℕ → ℕ
pte_ppn pte = bit_and pte pte_ppn_mask >>> 10

abbrev pub satp_asid : Cpu → ℕ
satp_asid cpu = bit_and cpu.csr.satp 0x0ffff00000000000 >>> 44

abbrev pub satp_ppn : Cpu → ℕ
satp_ppn cpu = bit_and cpu.csr.satp 0x00000fffffffffff

-- The entry for a leaf PTE of a level; the page's low bits are those of the address.
unfoldable pub leaf_entry : Cpu → ℕ → ℕ → ℕ → TlbEntry
leaf_entry cpu vaddr level pte =
    let next_pmp = pmp_check cpu (pte_ppn pte * 4096) 4096 false in
    let offset = bit_and (vaddr >>> 12) (2 ^ (9 * level) - 1) in
    record {
      vma = bit_or (bit_or (satp_asid cpu <<< 48) (bit_and vaddr vpn_mask)) next_pmp;
      pte = bit_or pte (offset <<< 10);
    }

-- After the store of the PTE with its flags set.
unfoldable pub flags_stored : {D : Type 0} → TlbEntry → Accessed D → Lookup D
flags_stored entry stored =
    if is_ok stored.result then found entry stored.machine else failed stored.result stored.machine

-- The flags of a permitted leaf PTE: set in memory where they are not.
unfoldable pub set_leaf : {D : Type 0} → Machine D → ℕ → ℕ → ℕ → ℕ → TlbEntry → Access → Lookup D
unfolding flags_stored
set_leaf machine h pte_paddr pte pte_pmp entry mode =
    let setfl = set_flags mode in
    if bit_and pte setfl == setfl
    then found entry machine
    else if bit_and pte_pmp 2 == 0
    then failed access_fault machine
    else flags_stored (record entry { pte = bit_or entry.pte setfl })
        (access_phys machine h pte_paddr (le_bytes 8 (bit_or pte setfl)) 3 store true)

-- A leaf PTE of a level.
unfoldable pub leaf : {D : Type 0} → Machine D → ℕ → ℕ → ℕ → ℕ → ℕ → ℕ → Access → Lookup D
unfolding leaf_entry set_leaf
leaf machine h vaddr level pte_paddr pte pte_pmp mode =
    let entry = leaf_entry (hart_of machine h) vaddr level pte in
    let access = check_access (hart_of machine h) entry mode in
    if truth (bit_and (pte_ppn pte) (2 ^ (9 * level) - 1))
    then failed page_fault machine
    else if is_ok access
    then set_leaf machine h pte_paddr pte pte_pmp entry mode
    else failed access machine

-- The loop of `rv_paging_raw_lookup` over the levels; `left` is one more than the level.
unfoldable pub walk : {D : Type 0} → ℕ → Machine D → ℕ → ℕ → ℕ → Access → Lookup D
unfolding leaf
walk zero machine h vaddr ppn mode = failed page_fault machine
walk (suc level) machine h vaddr ppn mode =
    let vpn_part = bit_and (vaddr / 4096 >>> (9 * level)) 0x1ff in
    let pte_paddr = ppn * 4096 + vpn_part * 8 in
    let pte_pmp = pmp_check (hart_of machine h) pte_paddr 8 false in
    let read = access_phys machine h pte_paddr (replicate 8 0) 3 load true in
    let pte = le_value (bytes_of read.bytes) in
    let rest = walk level read.machine h vaddr (pte_ppn pte) mode in
    if bit_and pte_pmp 1 == 0
    then failed access_fault machine
    else if not (is_ok read.result)
    then failed read.result read.machine
    else if bit_and pte 1 == 0
    then failed page_fault read.machine
    else if truth (bit_and pte 0x1e)
    then leaf read.machine h vaddr level pte_paddr pte pte_pmp mode
    else rest

-- `rv_paging_raw_lookup`.
unfoldable pub raw_lookup : {D : Type 0} → Machine D → ℕ → ℕ → Access → Lookup D
raw_lookup machine h vaddr mode = walk 3 machine h vaddr (satp_ppn (hart_of machine h)) mode

-- What the scan of a row of the TLB finds: an entry to use, a column whose entry lacks a flag, or
-- nothing.
pub data Probe : Type 0 where
  hit : TlbEntry → Probe
  stale : ℕ → Probe
  miss : Probe

abbrev pub tlb_entry : Cpu → ℕ → ℕ → TlbEntry
tlb_entry cpu row col = get_or cpu.tlb.entries (row * 16 + col) zero_entry

abbrev pub is_valid : Cpu → ℕ → ℕ → Bool
is_valid cpu row col = truth (bit_and (get_or cpu.tlb.valid row 0) (2 ^ col))

-- Whether an entry is for an address in the current address space.
unfoldable pub is_for : Cpu → ℕ → TlbEntry → Bool
is_for cpu vaddr entry =
    (bit_and entry.vma vpn_mask == bit_and vaddr vpn_mask)
    && (truth (bit_and entry.pte (2 ^ 5)) || (asid_of entry.vma == u16 (satp_asid cpu)))

-- The loop over the columns of the row, from `col` on with `left` to go.
unfoldable pub probe : ℕ → ℕ → Cpu → ℕ → ℕ → Access → Probe
unfolding is_for
probe zero col cpu row vaddr mode = miss
probe (suc left) col cpu row vaddr mode =
    let rest = probe left (col + 1) cpu row vaddr mode in
    let entry = tlb_entry cpu row col in
    if is_valid cpu row col && is_for cpu vaddr entry
    then (if bit_and entry.pte (set_flags mode) == set_flags mode then hit entry else stale col)
    else rest

abbrev pub set_valid : Cpu → ℕ → ℕ → Cpu
set_valid cpu row bits = record cpu {
  tlb = record (cpu.tlb) { valid = set cpu.tlb.valid row bits };
}

-- The first column of a row that is not valid.
unfoldable pub free_column : ℕ → ℕ → ℕ → Option ℕ
free_column zero col bits = none
free_column (suc left) col bits =
    let rest = free_column left (col + 1) bits in
    if bit_and bits (2 ^ col) == 0 then some col else rest

-- The insertion of an entry: in a free column, or in place of another. `next_column` is a byte
-- that nothing keeps below the number of columns.
unfoldable pub put : Cpu → ℕ → TlbEntry → Option ℕ → Cpu
put cpu row entry (some col) = record cpu {
  tlb = record (cpu.tlb) {
    entries = set cpu.tlb.entries (row * 16 + col) entry;
    valid = set cpu.tlb.valid row (bit_or (get_or cpu.tlb.valid row 0) (2 ^ col));
  };
}
put cpu row entry none = record cpu {
  tlb = record (cpu.tlb) {
    entries = set cpu.tlb.entries (row * 16 + cpu.tlb.next_column) entry;
    next_column = u8 (cpu.tlb.next_column + 1);
  };
}

unfoldable pub insert : Cpu → ℕ → TlbEntry → Cpu
unfolding put free_column
insert cpu row entry = put cpu row entry (free_column 16 0 (get_or cpu.tlb.valid row 0))

-- Whether the insertion writes behind the 256 entries.
unfoldable pub evicts_beyond : Cpu → ℕ → Bool
unfolding free_column
evicts_beyond cpu row = elim (free_column 16 0 (get_or cpu.tlb.valid row 0)) [
  | some col ↦ false
  | none ↦ not (ltb (row * 16 + cpu.tlb.next_column) 256)
]

-- The walk behind a TLB that has no entry to use, and the insertion of what it finds.
unfoldable pub refill : {D : Type 0} → ℕ → ℕ → Lookup D → Lookup D
unfolding insert evicts_beyond
refill h row walked =
    if not (is_ok walked.result)
    then failed walked.result walked.machine
    else if bit_and walked.entry.pte 1 == 0
    then walked
    else (let beyond = evicts_beyond (hart_of walked.machine h) row in
        let machine = on_hart walked.machine h (λ cpu. insert cpu row walked.entry) in
        found walked.entry (record machine { overran = machine.overran || beyond }))

unfoldable pub drop_stale : ℕ → ℕ → Cpu → Cpu
drop_stale row col cpu = set_valid cpu row (bit_and (get_or cpu.tlb.valid row 0) (not32 (2 ^ col)))

unfoldable pub after_probe : {D : Type 0} → Machine D → ℕ → ℕ → ℕ → Access → Probe → Lookup D
unfolding refill raw_lookup drop_stale
after_probe machine h row vaddr mode (hit entry) = found entry machine
after_probe machine h row vaddr mode (stale col) =
    refill h row (raw_lookup (on_hart machine h (drop_stale row col)) h vaddr mode)
after_probe machine h row vaddr mode miss = refill h row (raw_lookup machine h vaddr mode)

-- `rv_paging_lookup`.
unfoldable pub lookup : {D : Type 0} → Machine D → ℕ → ℕ → Access → Lookup D
unfolding probe after_probe
lookup machine h vaddr mode =
    let row = vaddr / 4096 % 16 in
    after_probe machine h row vaddr mode (probe 16 0 (hart_of machine h) row vaddr mode)
