-- ===== src/System.antt =====
-- emulator/src/cpu/rv_impl/base.c: the instructions of the SYSTEM major opcode.
pub mod Outcome
mod Examples
use riscmulator.Base.{
  ℕ, ◌+◌, ◌-◌, ◌*◌, ◌/◌, ◌%◌, ◌^◌, ◌<<<◌, ◌>>>◌, bit_and, bit_or, bit_xor, Bool, true, false, ◌&&◌,
  ◌||◌, not, Option, none, some, truth, to_nat, ltb, leb, ◌==◌, if◌then◌else◌, u16, u32, u64, sub64,
  not64, sign_extend,
}
use riscmulator.Cpu.{Cpu, xreg_read, xreg_write, tw_bit, tvm_bit}
use riscmulator.Insn.{field, op_maj, rs1_of, rs2_of, rd_of, funct3_of, uimm12}
use riscmulator.Trap.{Trap, Hooks, do_trap, do_iillegal, mret, sret, sret_refused, cause_iillegal}
use riscmulator.Csr.{csr_read}
use riscmulator.Csr.Write.{csr_write}
use riscmulator.Tlb.{inval_tlb}

-- The operand of a CSR instruction and whether it writes.
unfoldable pub csr_operand : Cpu → ℕ → ℕ
csr_operand cpu insn =
    if truth (bit_and (funct3_of insn) 4) then rs1_of insn else xreg_read cpu (rs1_of insn)

unfoldable pub csr_writes : ℕ → Bool
csr_writes insn =
    truth (bit_and (funct3_of insn) 4)
    || ((bit_and (funct3_of insn) 3 == 1) || not (rs1_of insn == 0))

-- What the instruction reads: 0, where it needs nothing.
unfoldable pub csr_rdata : Cpu → ℕ → Option ℕ
csr_rdata cpu insn =
    if not (rd_of insn == 0) || not (bit_and (funct3_of insn) 3 == 1)
    then csr_read cpu (uimm12 insn)
    else some 0

-- What it writes, by its operation; none for operation 0.
unfoldable pub csr_wdata : Cpu → ℕ → ℕ → Option ℕ
unfolding csr_operand
csr_wdata cpu insn rdata =
    let op = bit_and (funct3_of insn) 3 in
    if op == 0
    then none
    else if op == 1
    then some (csr_operand cpu insn)
    else if op == 2
    then some (bit_or rdata (csr_operand cpu insn))
    else some (bit_and rdata (not64 (csr_operand cpu insn)))

unfoldable pub csr_finish : Hooks → Cpu → ℕ → ℕ → Option Cpu → Cpu
csr_finish hooks cpu insn rdata none = do_iillegal hooks cpu insn
csr_finish hooks cpu insn rdata (some after) = xreg_write after (rd_of insn) rdata

unfoldable pub csr_commit : Hooks → Cpu → ℕ → ℕ → Option ℕ → Cpu
unfolding csr_finish csr_writes
csr_commit hooks cpu insn rdata none = do_iillegal hooks cpu insn
csr_commit hooks cpu insn rdata (some wdata) =
    csr_finish hooks cpu insn rdata
      (if csr_writes insn then csr_write cpu (uimm12 insn) wdata else some cpu)

unfoldable pub csr_modify : Hooks → Cpu → ℕ → Option ℕ → Cpu
unfolding csr_commit csr_wdata
csr_modify hooks cpu insn none = do_iillegal hooks cpu insn
csr_modify hooks cpu insn (some rdata) = csr_commit hooks cpu insn rdata (csr_wdata cpu insn rdata)

-- `do_csr`.
unfoldable pub do_csr : Hooks → Cpu → ℕ → Cpu
unfolding csr_modify csr_rdata
do_csr hooks cpu insn = csr_modify hooks cpu insn (csr_rdata cpu insn)

-- An exception of the current instruction.
abbrev pub raise : Hooks → Cpu → ℕ → ℕ → Cpu
raise hooks cpu cause tval =
    do_trap hooks cpu (record { epc = cpu.epc; cause = cause; tval = tval })

-- The cause of ECALL, by the privilege, which is 0, 1 or 3.
abbrev pub ecall_cause : ℕ → ℕ
ecall_cause privilege = if privilege == 0 then 8 else if privilege == 1 then 9 else 11

-- SFENCE.VMA.
unfoldable pub sfence_refused : Cpu → Bool
sfence_refused cpu =
    ltb cpu.privilege 1 || ((cpu.privilege == 1) && truth (bit_and (cpu.csr.mstatus >>> tvm_bit) 1))

unfoldable pub sfence : Hooks → Cpu → ℕ → Cpu
sfence hooks cpu insn =
    if sfence_refused cpu
    then do_iillegal hooks cpu insn
    else inval_tlb cpu (xreg_read cpu (rs1_of insn)) (u16 (xreg_read cpu (rs2_of insn)))
        (truth (rs1_of insn)) (truth (rs2_of insn))

-- `rv_base_system`. WFI only yields the host's processor.
unfoldable pub base_system : Hooks → Cpu → ℕ → Cpu
base_system hooks cpu insn =
    if truth (funct3_of insn)
    then do_csr hooks cpu insn
    else if (insn == 0x30200073) && (cpu.privilege == 3)
    then mret cpu
    else if insn == 0x10200073
    then (if sret_refused cpu then do_iillegal hooks cpu insn else sret cpu)
    else if insn == 0x10500073
    then (if ltb cpu.privilege 3 && truth (bit_and (cpu.csr.mstatus >>> tw_bit) 1)
        then do_iillegal hooks cpu insn
        else cpu)
    else if insn >>> 25 == 0x09
    then sfence hooks cpu insn
    else if insn == 0x00000073
    then raise hooks cpu (ecall_cause cpu.privilege) 0
    else if insn == 0x00100073
    then raise hooks cpu 3 0
    else raise hooks cpu cause_iillegal insn
