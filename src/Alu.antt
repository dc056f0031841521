-- ===== src/Alu.antt =====
-- emulator/src/cpu/rv_impl/base.c: arithmetic, jumps and branches. A signed value is its word in
-- two's complement.
pub mod Words
pub mod Jumps
mod Examples
use riscmulator.Base.{
  ℕ, ◌+◌, ◌-◌, ◌*◌, ◌/◌, ◌%◌, ◌^◌, ◌<<<◌, ◌>>>◌, bit_and, bit_or, bit_xor, Bool, true, false, ◌&&◌,
  not, Option, none, some, truth, to_nat, ltb, leb, ◌==◌, if◌then◌else◌, u32, u64, sub64, not64,
  sign_extend,
}
use riscmulator.Cpu.{Cpu, xreg_read, xreg_write}
use riscmulator.Insn.{field, op_maj, rs1_of, rs2_of, rd_of, funct3_of, funct7_of, imm12}
use riscmulator.Trap.{Hooks, do_iillegal}
use riscmulator.MulDiv.{muldiv_op}

-- `<` of two `int64_t`.
unfoldable pub signed_lt : ℕ → ℕ → Bool
signed_lt x y = ltb (u64 (x + 2 ^ 63)) (u64 (y + 2 ^ 63))

-- `>>` of an `int64_t`, which copies the sign.
unfoldable pub shift_signed : ℕ → ℕ → ℕ
unfolding not64
shift_signed x k = if ltb x (2 ^ 63) then x >>> k else not64 (not64 x >>> k)

-- The `switch` of `rv_base_op`; `alt` is bit 30 of the instruction.
unfoldable pub alu_switch : Bool → Bool → ℕ → ℕ → ℕ → ℕ → ℕ → ℕ → ℕ
unfolding signed_lt shift_signed
alu_switch is_reg alt funct3 shamt lhs rhs lhs_s rhs_s =
    if funct3 == 0
    then (if alt && is_reg then sub64 lhs rhs else u64 (lhs + rhs))
    else if funct3 == 1
    then u64 (lhs <<< shamt)
    else if funct3 == 2
    then to_nat (signed_lt lhs_s rhs_s)
    else if funct3 == 3
    then to_nat (ltb lhs rhs)
    else if funct3 == 4
    then bit_xor lhs rhs
    else if funct3 == 5
    then (if alt then shift_signed lhs_s shamt else lhs >>> shamt)
    else if funct3 == 6
    then bit_or lhs rhs
    else bit_and lhs rhs

-- The result of an operation on two registers or on a register and an immediate.
unfoldable pub alu : Bool → Bool → Bool → ℕ → ℕ → ℕ → ℕ
unfolding alu_switch
alu is_reg is_32 alt funct3 lhs rhs =
    if is_32
    then sign_extend 32 (
        alu_switch is_reg alt funct3 (bit_and (u32 rhs) 0x1f) (u32 lhs) (u32 rhs)
          (sign_extend 32 lhs) (sign_extend 32 rhs))
    else alu_switch is_reg alt funct3 (bit_and rhs 0x3f) lhs rhs lhs rhs

-- `rv_base_op`.
unfoldable pub base_op : Hooks → Cpu → ℕ → Cpu
unfolding alu
base_op hooks cpu insn =
    let is_reg = truth (bit_and (op_maj insn) 0b01000) in
    let is_32 = truth (bit_and (op_maj insn) 0b00010) in
    let rhs = if is_reg then xreg_read cpu (rs2_of insn) else imm12 insn in
    if is_reg && (funct7_of insn == 0x01)
    then muldiv_op hooks cpu insn
    else xreg_write cpu (rd_of insn) (
        alu is_reg is_32 (truth (bit_and insn (2 ^ 30))) (funct3_of insn)
          (xreg_read cpu (rs1_of insn)) rhs)

-- The offset of JAL.
unfoldable pub jal_imm : ℕ → ℕ
unfolding sign_extend
jal_imm insn = sign_extend 21 (
    bit_or
      (bit_or (bit_or (field insn 12 0xff <<< 12) (field insn 20 0x1 <<< 11))
        (field insn 21 0x3ff <<< 1))
      ((insn >>> 31) <<< 20))

-- `rv_base_jal`, `rv_base_jalr` and `rv_base_lui`. `pc` is already the next instruction's.
unfoldable pub base_jal : Cpu → ℕ → Cpu
unfolding jal_imm
base_jal cpu insn = record (xreg_write cpu (rd_of insn) cpu.pc) {
  pc = u64 (cpu.epc + jal_imm insn);
}

unfoldable pub base_jalr : Cpu → ℕ → Cpu
base_jalr cpu insn =
    let target = bit_and (u64 (xreg_read cpu (rs1_of insn) + imm12 insn)) (not64 1) in
    record (xreg_write cpu (rd_of insn) cpu.pc) { pc = target }

unfoldable pub base_lui : Cpu → ℕ → Cpu
base_lui cpu insn =
    let res = sign_extend 32 (bit_and insn 0xfffff000) in
    let auipc = not (truth (bit_and (op_maj insn) 0b01000)) in
    xreg_write cpu (rd_of insn) (if auipc then u64 (res + cpu.epc) else res)

-- The offset of a branch.
unfoldable pub branch_imm : ℕ → ℕ
unfolding sign_extend
branch_imm insn = sign_extend 13 (
    bit_or
      (bit_or
        (bit_or ((bit_and insn 0x00000f00 >>> 8) <<< 1) ((bit_and insn 0x7e000000 >>> 25) <<< 5))
        ((bit_and insn 0x00000080 >>> 7) <<< 11))
      ((insn >>> 31) <<< 12))

-- Whether a branch is taken; none for an unknown condition.
unfoldable pub condition : ℕ → ℕ → ℕ → Option Bool
unfolding signed_lt
condition funct3 lhs rhs =
    if funct3 == 0
    then some (lhs == rhs)
    else if funct3 == 1
    then some (not (lhs == rhs))
    else if funct3 == 4
    then some (signed_lt lhs rhs)
    else if funct3 == 5
    then some (not (signed_lt lhs rhs))
    else if funct3 == 6
    then some (ltb lhs rhs)
    else if funct3 == 7
    then some (leb rhs lhs)
    else none

unfoldable pub branch_to : Hooks → Cpu → ℕ → Option Bool → Cpu
unfolding branch_imm
branch_to hooks cpu insn none = do_iillegal hooks cpu insn
branch_to hooks cpu insn (some false) = cpu
branch_to hooks cpu insn (some true) = record cpu { pc = u64 (branch_imm insn + cpu.epc) }

-- `rv_base_branch`.
unfoldable pub base_branch : Hooks → Cpu → ℕ → Cpu
unfolding condition branch_to
base_branch hooks cpu insn =
    branch_to hooks cpu insn
      (condition (funct3_of insn) (xreg_read cpu (rs1_of insn)) (xreg_read cpu (rs2_of insn)))
