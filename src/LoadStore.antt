-- ===== src/LoadStore.antt =====
-- emulator/src/cpu/rv_impl/base.c: loads, stores and fences.
pub mod Frame
mod Examples
pub mod RoundTrip
use riscmulator.Base.{
  replicate, ◌+◌, ◌&&◌, ◌>>>◌, ◌||◌, bit_and, sign_extend, ◌==◌, bit_or, if◌then◌else◌, not, truth,
  u64, ℕ, Bool, Option, none, some,
}
use riscmulator.Memory.{le_bytes, is_ok, le_value, mem_cause, Access, load, store}
use riscmulator.Insn.{rs2_of, imm12, rd_of, op_maj, rs1_of, field, funct3_of}
use riscmulator.Paging.Virt.{access_virt}
use riscmulator.Cpu.{freg_read, xreg_write, freg_write, xreg_read, Cpu}
use riscmulator.Csr.{fs_on}
use riscmulator.Machine.{Machine, Accessed, hart_of, on_hart}
use riscmulator.Paging.{bytes_of}
use riscmulator.Trap.{do_trap, do_iillegal}

-- Traps of the hart that runs.
abbrev pub illegal : {D : Type 0} → Machine D → ℕ → ℕ → Machine D
illegal machine h insn = on_hart machine h (λ cpu. do_iillegal machine.trap_hook cpu insn)

abbrev pub mem_fault : {D : Type 0} → Accessed D → ℕ → ℕ → Access → Machine D
mem_fault accessed h addr mode = on_hart accessed.machine h (λ cpu.
    do_trap accessed.machine.trap_hook cpu
      (record { cause = mem_cause accessed.result mode; epc = cpu.epc; tval = addr }))

-- The address of a load.
unfoldable pub load_addr : Cpu → ℕ → ℕ
load_addr cpu insn = u64 (xreg_read cpu (rs1_of insn) + imm12 insn)

-- The exponent of the size of a load, by `funct3`.
abbrev pub load_size : ℕ → Option ℕ
load_size funct3 = if funct3 == 7 then none else some (bit_and funct3 3)

-- The value of a load from the zero-extended one, and the boxing of a 32-bit float.
unfoldable pub extend : ℕ → ℕ → ℕ
extend funct3 rdata =
    if funct3 == 0
    then sign_extend 8 rdata
    else if funct3 == 1
    then sign_extend 16 rdata
    else if funct3 == 2
    then sign_extend 32 rdata
    else rdata

unfoldable pub write_loaded : ℕ → Bool → ℕ → Cpu → Cpu
unfolding extend
write_loaded insn is_fp rdata cpu =
    let val = extend (funct3_of insn) rdata in
    let boxed = if funct3_of insn == 2 then bit_or val 0xffffffff00000000 else val in
    if is_fp then freg_write cpu (rd_of insn) boxed else xreg_write cpu (rd_of insn) val

-- Whether a floating-point load or store is refused.
unfoldable pub fp_refused : Cpu → ℕ → Bool
fp_refused cpu insn = not (fs_on cpu) || not (bit_and (funct3_of insn) 0x6 == 0x2)

-- After the access of a load.
unfoldable pub loaded : {D : Type 0} → ℕ → ℕ → ℕ → Accessed D → Machine D
unfolding write_loaded
loaded h insn addr accessed =
    let rdata = le_value (bytes_of accessed.bytes) in
    if is_ok accessed.result
    then on_hart accessed.machine h (write_loaded insn (truth (bit_and (op_maj insn) 1)) rdata)
    else mem_fault accessed h addr load

unfoldable pub load_from : {D : Type 0} → Machine D → ℕ → ℕ → Option ℕ → Machine D
unfolding loaded load_addr
load_from machine h insn none = illegal machine h insn
load_from machine h insn (some size_exp) =
    let addr = load_addr (hart_of machine h) insn in
    loaded h insn addr (access_virt machine h addr (replicate 8 0) size_exp load)

-- `rv_base_load`.
unfoldable pub base_load : {D : Type 0} → Machine D → ℕ → ℕ → Machine D
unfolding fp_refused load_from
base_load machine h insn =
    if truth (bit_and (op_maj insn) 1) && fp_refused (hart_of machine h) insn
    then illegal machine h insn
    else load_from machine h insn (load_size (funct3_of insn))

-- `RV_INSN_S_IMM12`, sign-extended to 64 bits.
unfoldable pub s_imm12 : ℕ → ℕ
s_imm12 insn = bit_or (sign_extend 12 (bit_and insn 0xfe000000 >>> 20)) (bit_and insn 0xf80 >>> 7)

unfoldable pub store_addr : Cpu → ℕ → ℕ
unfolding s_imm12
store_addr cpu insn = u64 (xreg_read cpu (rs1_of insn) + s_imm12 insn)

-- After the access of a store.
unfoldable pub stored : {D : Type 0} → ℕ → ℕ → Accessed D → Machine D
stored h addr accessed =
    if is_ok accessed.result then accessed.machine else mem_fault accessed h addr store

-- `rv_base_store`.
unfoldable pub base_store : {D : Type 0} → Machine D → ℕ → ℕ → Machine D
unfolding fp_refused store_addr stored
base_store machine h insn =
    let cpu = hart_of machine h in
    let is_fp = truth (bit_and (op_maj insn) 1) in
    let addr = store_addr cpu insn in
    let wdata = if is_fp then freg_read cpu (rs2_of insn) else xreg_read cpu (rs2_of insn) in
    if is_fp && fp_refused cpu insn
    then illegal machine h insn
    else stored h addr
        (access_virt machine h addr (le_bytes 8 wdata) (bit_and (funct3_of insn) 3) store)

-- The memory order that `rv_base_miscmem` asks of the host.
pub data Fence : Type 0 where
  no_fence acquire release acq_rel seq_cst yield_cpu : Fence

unfoldable pub fence_of : ℕ → Fence
fence_of insn =
    let pred = field insn 24 0x3 in
    let succ = field insn 20 0x3 in
    let fm = field insn 28 0xf in
    if funct3_of insn == 1
    then acquire
    else if insn == 0x0100000f
    then yield_cpu
    else if (pred == 1) && (succ == 3)
    then acquire
    else if (pred == 3) && (succ == 2)
    then release
    else if (pred == 3) && ((succ == 3) && (fm == 8))
    then acq_rel
    else if truth pred && truth succ
    then seq_cst
    else no_fence
