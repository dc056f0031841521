-- ===== src/Tlb.antt =====
-- emulator/src/cpu/rv_paging.c: the operations of the translation lookaside buffer that need no
-- memory.
pub mod Invalidation
use riscmulator.Base.{
  ℕ, zero, suc, ◌+◌, ◌*◌, ◌/◌, ◌%◌, ◌^◌, ◌-◌, List, set, get_or, bit_and, bit_or, Bool, true, false,
  not, ◌&&◌, ◌==◌, if◌then◌else◌, ◌<<<◌, ◌>>>◌, u16, not32, sign_extend,
}
use riscmulator.Cpu.{Cpu, TlbEntry}

-- The loop of `rv_flush_tlb` over the rows.
unfoldable pub flush_rows : ℕ → ℕ → List ℕ → List ℕ
flush_rows zero row valid = valid
flush_rows (suc left) row valid = flush_rows left (row + 1) (set valid row 0)

-- `rv_flush_tlb`.
unfoldable pub flush_tlb : Cpu → Cpu
unfolding flush_rows
flush_tlb cpu = record cpu { tlb = record (cpu.tlb) { valid = flush_rows 16 0 cpu.tlb.valid } }

-- `RV_TLB_VPN_MASK` and `RV_TLB_ASID_MASK`.
abbrev pub vpn_mask : ℕ
vpn_mask = 0x0000003ffffff000

abbrev pub asid_mask : ℕ
asid_mask = 0xffff000000000000

abbrev zero_entry : TlbEntry
zero_entry = record { vma = 0; pte = 0 }

-- The entry in a row and a column, and its ASID.
abbrev pub entry_vma : Cpu → ℕ → ℕ → ℕ
entry_vma cpu row col = (get_or cpu.tlb.entries (row * 16 + col) zero_entry).vma

abbrev pub asid_of : ℕ → ℕ
asid_of vma = u16 (bit_and vma asid_mask >>> 48)

-- The loop over the columns of a row: the valid bits without those whose entry is to go. `left`
-- columns are to be done from `col` on.
unfoldable pub drop_columns : (ℕ → Bool) → Cpu → ℕ → ℕ → ℕ → ℕ → ℕ
drop_columns hit cpu row zero col valid = valid
drop_columns hit cpu row (suc left) col valid =
    drop_columns hit cpu row left (col + 1)
      (if hit (entry_vma cpu row col) then bit_and valid (not32 (2 ^ col)) else valid)

unfoldable pub drop_row : (ℕ → Bool) → Cpu → ℕ → Cpu
unfolding drop_columns
drop_row hit cpu row = record cpu {
  tlb = record (cpu.tlb) {
    valid = set cpu.tlb.valid row (drop_columns hit cpu row 16 0 (get_or cpu.tlb.valid row 0));
  };
}

unfoldable pub drop_rows : (ℕ → Bool) → ℕ → ℕ → Cpu → Cpu
drop_rows hit zero row cpu = cpu
drop_rows hit (suc left) row cpu = drop_rows hit left (row + 1) (drop_row hit cpu row)

-- `rv_inval_tlb_asid`.
unfoldable pub inval_tlb_asid : Cpu → ℕ → Cpu
unfolding drop_rows drop_row
inval_tlb_asid cpu asid = drop_rows (λ vma. asid_of vma == asid) 16 0 cpu

-- `rv_inval_tlb_vaddr`.
unfoldable pub inval_tlb_vaddr : Cpu → ℕ → ℕ → Bool → Cpu
unfolding drop_row
inval_tlb_vaddr cpu vaddr asid with_asid =
    let row = vaddr / 4096 % 16 in
    let mask = if with_asid then bit_or vpn_mask asid_mask else vpn_mask in
    let match =
      if with_asid then bit_or (bit_and vaddr vpn_mask) (asid <<< 48) else bit_and vaddr vpn_mask in
    drop_row (λ vma. bit_and vma mask == match) cpu row

-- `rv_is_canon_vaddr`.
unfoldable pub is_canon_vaddr : Cpu → ℕ → Bool
unfolding sign_extend
is_canon_vaddr cpu vaddr =
    if bit_and cpu.csr.satp 0xf000000000000000 >>> 60 == 8
    then sign_extend 39 vaddr == vaddr
    else false

-- `rv_inval_tlb`.
unfoldable pub inval_tlb : Cpu → ℕ → ℕ → Bool → Bool → Cpu
unfolding inval_tlb_asid inval_tlb_vaddr is_canon_vaddr flush_tlb
inval_tlb cpu vaddr asid with_vaddr with_asid =
    if with_vaddr && not (is_canon_vaddr cpu vaddr)
    then cpu
    else if with_vaddr
    then inval_tlb_vaddr cpu vaddr asid with_asid
    else if with_asid
    then inval_tlb_asid cpu asid
    else flush_tlb cpu
