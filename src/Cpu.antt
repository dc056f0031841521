-- ===== src/Cpu.antt =====
-- emulator/include/cpu/rv_cpu.h, rv_csr.h and rv_paging.h: the state of one hart.
-- Every register is the number that its word holds, below 2 ^ 64. The vector registers are left
-- out: no code reads or writes them.
pub mod Update
use riscmulator.Base.{
  ℕ, zero, suc, ◌+◌, ◌-◌, ◌*◌, ◌/◌, ◌%◌, ◌^◌, bit_and, Bool, true, false, List, [], ◌∷◌, truth,
  ◌==◌, if◌then◌else◌, get_or, set, replicate, ◌>>>◌, u8,
}

-- `struct rv_tlb_entry` and `struct rv_tlb`: 16 rows of 16 columns.
pub record TlbEntry : Type 0 where
  pub vma : ℕ
  pub pte : ℕ

pub record Tlb : Type 0 where
  pub entries : List TlbEntry
  pub valid : List ℕ
  pub next_column : ℕ

-- `struct rv_csr_state`. `pmpcfg` is the `unpacked` view of `union rv_pmpcfg`.
pub record CsrState : Type 0 where
  pub mhartid : ℕ
  pub marchid : ℕ
  pub mimpid : ℕ
  pub mvendorid : ℕ
  pub mstatus : ℕ
  pub mie : ℕ
  pub mideleg : ℕ
  pub medeleg : ℕ
  pub mtvec : ℕ
  pub mcause : ℕ
  pub mtval : ℕ
  pub mepc : ℕ
  pub mtinst : ℕ
  pub pmpcfg : List ℕ
  pub pmpaddr : List ℕ
  pub sie : ℕ
  pub stvec : ℕ
  pub scause : ℕ
  pub stval : ℕ
  pub sepc : ℕ
  pub sscratch : ℕ
  pub mscratch : ℕ
  pub satp : ℕ
  pub fcsr : ℕ

-- `struct rv_cpu`.
pub record Cpu : Type 0 where
  pub tlb : Tlb
  pub xregs : List ℕ
  pub fregs : List ℕ
  pub csr : CsrState
  pub pc : ℕ
  pub epc : ℕ
  pub privilege : ℕ
  pub mem_privilege : ℕ
  pub halted : Bool
  pub clint_timer_armed : Bool
  pub irq_pending : ℕ

-- The all-zero state that `calloc` gives.
abbrev pub zero_tlb : Tlb
zero_tlb = record {
  entries = replicate 256 (record { vma = 0; pte = 0 });
  valid = replicate 16 0;
  next_column = 0;
}

abbrev pub zero_csr : CsrState
zero_csr = record {
  mhartid = 0;
  marchid = 0;
  mimpid = 0;
  mvendorid = 0;
  mstatus = 0;
  mie = 0;
  mideleg = 0;
  medeleg = 0;
  mtvec = 0;
  mcause = 0;
  mtval = 0;
  mepc = 0;
  mtinst = 0;
  pmpcfg = replicate 64 0;
  pmpaddr = replicate 64 0;
  sie = 0;
  stvec = 0;
  scause = 0;
  stval = 0;
  sepc = 0;
  sscratch = 0;
  mscratch = 0;
  satp = 0;
  fcsr = 0;
}

abbrev pub zero_cpu : Cpu
zero_cpu = record {
  tlb = zero_tlb;
  xregs = replicate 32 0;
  fregs = replicate 32 0;
  csr = zero_csr;
  pc = 0;
  epc = 0;
  privilege = 0;
  mem_privilege = 0;
  halted = false;
  clint_timer_armed = false;
  irq_pending = 0;
}

-- The bit positions of `mstatus`.
abbrev pub sie_bit : ℕ
sie_bit = 1

abbrev pub mie_bit : ℕ
mie_bit = 3

abbrev pub spie_bit : ℕ
spie_bit = 5

abbrev pub mpie_bit : ℕ
mpie_bit = 7

abbrev pub spp_bit : ℕ
spp_bit = 8

abbrev pub mpp_base_bit : ℕ
mpp_base_bit = 11

abbrev pub fs_base_bit : ℕ
fs_base_bit = 13

abbrev pub mprv_bit : ℕ
mprv_bit = 17

abbrev pub sum_bit : ℕ
sum_bit = 18

abbrev pub tvm_bit : ℕ
tvm_bit = 20

abbrev pub tw_bit : ℕ
tw_bit = 21

abbrev pub tsr_bit : ℕ
tsr_bit = 22

-- `rv_sync_mem_privilege`.
unfoldable pub sync_mem_privilege : Cpu → Cpu
sync_mem_privilege cpu =
    let mprv = truth (bit_and (cpu.csr.mstatus >>> mprv_bit) 1) in
    record cpu {
      mem_privilege =
          if mprv then u8 (bit_and (cpu.csr.mstatus >>> mpp_base_bit) 3) else cpu.privilege;
    }

-- `rv_xreg_read`, `rv_xreg_write`, `rv_freg_read` and `rv_freg_write`.
unfoldable pub xreg_read : Cpu → ℕ → ℕ
xreg_read cpu index = get_or cpu.xregs index 0

unfoldable pub xreg_write : Cpu → ℕ → ℕ → Cpu
xreg_write cpu index value =
    if index == 0 then cpu else record cpu { xregs = set cpu.xregs index value }

unfoldable pub freg_read : Cpu → ℕ → ℕ
freg_read cpu index = get_or cpu.fregs index 0

unfoldable pub freg_write : Cpu → ℕ → ℕ → Cpu
freg_write cpu index value = record cpu { fregs = set cpu.fregs index value }
