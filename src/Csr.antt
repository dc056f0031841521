-- ===== src/Csr.antt =====
-- emulator/src/cpu/rv_csr.c and emulator/include/cpu/rv_defs/csr.h: the control and status
-- registers. A failed access, the `false` of the C functions, is `none`.
pub mod Number
pub mod Write
pub mod Access
pub mod Mstatus
mod Examples
use riscmulator.Base.{
  ℕ, zero, suc, ◌+◌, ◌-◌, ◌*◌, ◌/◌, ◌%◌, ◌^◌, bit_and, bit_or, Bool, true, false, ◌&&◌, not, List,
  Option, none, some, truth, ltb, ◌==◌, if◌then◌else◌, get_or, set, ◌<<<◌, ◌>>>◌, u8, u64, not64,
}
use Number.{
  Csr, csr_of_index, misa, mhartid, marchid, mvendorid, mimpid, mstatus, mie, mip, mideleg, medeleg,
  mtvec, mcause, mtval, mepc, mtinst, mscratch, sstatus, sie, sip, stvec, scause, stval, sepc,
  sscratch, satp, fcsr, fflags, frm, pmpcfg, pmpaddr,
}
use mathlib.Core.Option
use riscmulator.Cpu.{Cpu, CsrState, sync_mem_privilege, tvm_bit, fs_base_bit, mpp_base_bit}
use riscmulator.Tlb.{flush_tlb}

-- `RV_MISA_VALUE`: RV64 with the extensions I, M, A, F, D and C.
abbrev pub misa_value : ℕ
misa_value = 2 ^ 63 + 2 ^ 8 + 2 ^ 12 + 2 ^ 0 + 2 ^ 5 + 2 ^ 3 + 2 ^ 2

-- `RV_MSTATUS_HARDWIRED`, `RV_SSTATUS_HARDWIRED`: UXL and SXL read as 2.
abbrev pub mstatus_hardwired : ℕ
mstatus_hardwired = 2 * 2 ^ 32 + 2 * 2 ^ 34

abbrev pub sstatus_hardwired : ℕ
sstatus_hardwired = 2 * 2 ^ 32

-- `RV_MSTATUS_MASK`: SIE, MIE, SPIE, UBE, MPIE, SPP, VS, MPP, FS, XS, MPRV, SUM, MXR, TVM, TW, TSR.
abbrev pub mstatus_mask : ℕ
mstatus_mask =
    2 ^ 1
    + 2 ^ 3
    + 2 ^ 5
    + 2 ^ 6
    + 2 ^ 7
    + 2 ^ 8
    + 3 * 2 ^ 9
    + 3 * 2 ^ 11
    + 3 * 2 ^ 13
    + 3 * 2 ^ 15
    + 2 ^ 17
    + 2 ^ 18
    + 2 ^ 19
    + 2 ^ 20
    + 2 ^ 21
    + 2 ^ 22

-- `RV_SSTATUS_MASK`: SIE, SPIE, UBE, SPP, VS, FS, XS, SUM, MXR.
abbrev pub sstatus_mask : ℕ
sstatus_mask = 2 ^ 1 + 2 ^ 5 + 2 ^ 6 + 2 ^ 8 + 3 * 2 ^ 9 + 3 * 2 ^ 13 + 3 * 2 ^ 15 + 2 ^ 18 + 2 ^ 19

-- `RV_SIP_WMASK`: SSIP, STIP and SEIP.
abbrev pub sip_wmask : ℕ
sip_wmask = 2 ^ 1 + 2 ^ 5 + 2 ^ 9

-- `RV_FFLAGS_MASK`, `RV_FRM_MASK` and `RV_FCSR_MASK`.
abbrev pub fflags_mask : ℕ
fflags_mask = 0x1f

abbrev pub frm_mask : ℕ
frm_mask = 0x7

abbrev pub fcsr_mask : ℕ
fcsr_mask = 0xff

-- `RV_CHECK_XS(mstatus, RV_STATUS_FS_BASE_BIT)`: the floating-point unit is not off.
unfoldable pub fs_on : Cpu → Bool
fs_on cpu = truth (bit_and (cpu.csr.mstatus >>> fs_base_bit) 3)

-- S-mode with `mstatus.TVM` set, where `satp` may not be accessed.
unfoldable pub tvm_trap : Cpu → Bool
tvm_trap cpu = (cpu.privilege == 1) && truth (bit_and (cpu.csr.mstatus >>> tvm_bit) 1)

-- `pmpcfg.packed[i]` of a little-endian host, from the `count` bytes at `i * 8 + b` on.
unfoldable pub packed_from : List ℕ → ℕ → ℕ → ℕ
packed_from bytes zero at = 0
packed_from bytes (suc count) at = get_or bytes at 0 + 256 * packed_from bytes count (at + 1)

unfoldable pub packed : List ℕ → ℕ → ℕ
unfolding packed_from
packed bytes i = packed_from bytes 8 (i * 8)

-- A store of `pmpcfg.packed[i]`.
unfoldable pub store_packed_from : ℕ → ℕ → ℕ → List ℕ → List ℕ
store_packed_from zero at value bytes = bytes
store_packed_from (suc count) at value bytes =
    store_packed_from count (at + 1) (value / 256) (set bytes at (u8 value))

unfoldable pub store_packed : List ℕ → ℕ → ℕ → List ℕ
unfolding store_packed_from
store_packed bytes i value = store_packed_from 8 (i * 8) value bytes

-- The address matching mode of a configuration byte.
abbrev pub match_mode : ℕ → ℕ
match_mode cfg = bit_and (cfg >>> 3) 3

-- `RV_PMPGRAIN_NAPOT_MASK` and `RV_PMPGRAIN_OFF_MASK`, for a grain of 12.
abbrev pub grain_napot_mask : ℕ
grain_napot_mask = 2 ^ 11 - 1

abbrev pub grain_off_mask : ℕ
grain_off_mask = 2 ^ 12 - 1

-- The branches of `rv_csr_read`.
unfoldable pub read_csr : Cpu → Csr → Option ℕ
unfolding fs_on tvm_trap packed
read_csr cpu misa = some misa_value
read_csr cpu mhartid = some cpu.csr.mhartid
read_csr cpu marchid = some cpu.csr.marchid
read_csr cpu mvendorid = some cpu.csr.mvendorid
read_csr cpu mimpid = some cpu.csr.mimpid
read_csr cpu mstatus = some (bit_or cpu.csr.mstatus mstatus_hardwired)
read_csr cpu mie = some cpu.csr.mie
read_csr cpu mip = some cpu.irq_pending
read_csr cpu mideleg = some cpu.csr.mideleg
read_csr cpu medeleg = some cpu.csr.medeleg
read_csr cpu mtvec = some cpu.csr.mtvec
read_csr cpu mcause = some cpu.csr.mcause
read_csr cpu mtval = some cpu.csr.mtval
read_csr cpu mepc = some cpu.csr.mepc
read_csr cpu mtinst = some cpu.csr.mtinst
read_csr cpu mscratch = some cpu.csr.mscratch
read_csr cpu sstatus = some (bit_or (bit_and cpu.csr.mstatus sstatus_mask) sstatus_hardwired)
read_csr cpu sie = some cpu.csr.sie
read_csr cpu sip = some (bit_and cpu.irq_pending cpu.csr.mideleg)
read_csr cpu stvec = some cpu.csr.stvec
read_csr cpu scause = some cpu.csr.scause
read_csr cpu stval = some cpu.csr.stval
read_csr cpu sepc = some cpu.csr.sepc
read_csr cpu sscratch = some cpu.csr.sscratch
read_csr cpu satp = if tvm_trap cpu then none else some cpu.csr.satp
read_csr cpu fcsr = if fs_on cpu then some cpu.csr.fcsr else none
read_csr cpu fflags = if fs_on cpu then some (bit_and cpu.csr.fcsr fflags_mask) else none
read_csr cpu frm = if fs_on cpu then some (bit_and (cpu.csr.fcsr >>> 5) frm_mask) else none
read_csr cpu (pmpcfg i) = if truth (bit_and i 1) then none else some (packed cpu.csr.pmpcfg (i / 2))
read_csr cpu (pmpaddr i) =
    if match_mode (get_or cpu.csr.pmpcfg i 0) == 3
    then some (bit_or (get_or cpu.csr.pmpaddr i 0) grain_napot_mask)
    else some (bit_and (get_or cpu.csr.pmpaddr i 0) (not64 grain_off_mask))

-- The privilege that a CSR's number asks for.
abbrev pub csr_priv : ℕ → ℕ
csr_priv index = bit_and (index >>> 8) 3

-- `rv_csr_read`.
unfoldable pub csr_read : Cpu → ℕ → Option ℕ
unfolding read_csr csr_of_index Option.bind
csr_read cpu index =
    if ltb cpu.privilege (csr_priv index)
    then none
    else Option.bind (csr_of_index index) (read_csr cpu)
