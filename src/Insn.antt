-- ===== src/Insn.antt =====
-- emulator/include/cpu/rv_insn.h and the encoders of emulator/include/cpu/rv_decompress.h: the
-- fields of a 32-bit instruction.
pub mod Encode
use riscmulator.Base.{
  ℕ, ◌+◌, ◌-◌, ◌*◌, ◌/◌, ◌%◌, ◌^◌, bit_and, bit_or, ◌<<<◌, ◌>>>◌, u32, sign_extend,
}

-- `RV_INSN_BITFIELD` and the fields that it reads.
abbrev pub field : ℕ → ℕ → ℕ → ℕ
field insn pos mask = bit_and (insn >>> pos) mask

abbrev pub op_maj : ℕ → ℕ
op_maj insn = field insn 2 0x1f

abbrev pub rs1_of : ℕ → ℕ
rs1_of insn = field insn 15 0x1f

abbrev pub rs2_of : ℕ → ℕ
rs2_of insn = field insn 20 0x1f

abbrev pub rd_of : ℕ → ℕ
rd_of insn = field insn 7 0x1f

abbrev pub funct3_of : ℕ → ℕ
funct3_of insn = field insn 12 0x7

abbrev pub funct7_of : ℕ → ℕ
funct7_of insn = field insn 25 0x7f

-- `RV_INSN_UIMM12`; and `RV_INSN_IMM12`, sign-extended to the 64 bits that its uses need.
abbrev pub uimm12 : ℕ → ℕ
uimm12 insn = insn >>> 20

abbrev pub imm12 : ℕ → ℕ
imm12 insn = sign_extend 12 (insn >>> 20)

-- `OP`: the full opcode of a major opcode.
abbrev pub opcode : ℕ → ℕ
opcode maj = bit_or (maj <<< 2) 3

-- `rv_enc_r`, `rv_enc_i`, `rv_enc_s`, `rv_enc_u`, `rv_enc_b` and `rv_enc_j`. A signed immediate
-- is its 32-bit word.
unfoldable pub enc_r : ℕ → ℕ → ℕ → ℕ → ℕ → ℕ → ℕ
enc_r funct7 rs2 rs1 funct3 rd op = u32 (
    bit_or
      (bit_or (bit_or (bit_or (bit_or (funct7 <<< 25) (rs2 <<< 20)) (rs1 <<< 15)) (funct3 <<< 12))
        (rd <<< 7))
      op)

unfoldable pub enc_i : ℕ → ℕ → ℕ → ℕ → ℕ → ℕ
enc_i imm rs1 funct3 rd op = u32 (
    bit_or
      (bit_or (bit_or (bit_or (bit_and imm 0xfff <<< 20) (rs1 <<< 15)) (funct3 <<< 12)) (rd <<< 7))
      op)

unfoldable pub enc_s : ℕ → ℕ → ℕ → ℕ → ℕ → ℕ
enc_s imm rs2 rs1 funct3 op = u32 (
    bit_or
      (bit_or
        (bit_or (bit_or (bit_or (bit_and (imm >>> 5) 0x7f <<< 25) (rs2 <<< 20)) (rs1 <<< 15))
          (funct3 <<< 12))
        (bit_and imm 0x1f <<< 7))
      op)

unfoldable pub enc_u : ℕ → ℕ → ℕ → ℕ
enc_u imm rd op = u32 (bit_or (bit_or (bit_and imm 0xfffff <<< 12) (rd <<< 7)) op)

unfoldable pub enc_b : ℕ → ℕ → ℕ → ℕ → ℕ → ℕ
enc_b imm rs2 rs1 funct3 op = u32 (
    bit_or
      (bit_or
        (bit_or
          (bit_or
            (bit_or
              (bit_or (bit_or (bit_and (imm >>> 12) 1 <<< 31) (bit_and (imm >>> 5) 0x3f <<< 25))
                (rs2 <<< 20))
              (rs1 <<< 15))
            (funct3 <<< 12))
          (bit_and (imm >>> 1) 0xf <<< 8))
        (bit_and (imm >>> 11) 1 <<< 7))
      op)

unfoldable pub enc_j : ℕ → ℕ → ℕ → ℕ
enc_j imm rd op = u32 (
    bit_or
      (bit_or
        (bit_or
          (bit_or (bit_or (bit_and (imm >>> 20) 1 <<< 31) (bit_and (imm >>> 1) 0x3ff <<< 21))
            (bit_and (imm >>> 11) 1 <<< 20))
          (bit_and (imm >>> 12) 0xff <<< 12))
        (rd <<< 7))
      op)
