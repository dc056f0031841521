-- ===== src/Decompress/Quadrant1.antt =====
-- `decompress_q1`. A signed immediate is its 32-bit word.
use riscmulator.Base.{
  ℕ, ◌^◌, bit_and, bit_or, Option, none, some, ◌==◌, if◌then◌else◌, ◌<<<◌, ◌>>>◌, u32, sign_extend,
}
use riscmulator.Insn.{field, opcode, enc_i, enc_u, enc_r, enc_b, enc_j}
use riscmulator.Decompress.Quadrant0.{creg}

-- `(x << (32 - w)) >> (32 - w)` of an `int32_t`.
unfoldable pub signed32 : ℕ → ℕ → ℕ
unfolding sign_extend
signed32 w x = u32 (sign_extend w x)

-- The 6-bit immediate, not extended and extended.
unfoldable pub imm6 : ℕ → ℕ
imm6 in16 = bit_or (bit_and (in16 >>> 7) 0x20) (field in16 2 0x1f)

unfoldable pub simm6 : ℕ → ℕ
unfolding signed32 imm6
simm6 in16 = signed32 6 (imm6 in16)

unfoldable pub addi16sp_imm : ℕ → ℕ
unfolding signed32
addi16sp_imm in16 = signed32 10 (
    bit_or
      (bit_or
        (bit_or (bit_or (field in16 12 0x1 <<< 9) (field in16 6 0x1 <<< 4))
          (field in16 5 0x1 <<< 6))
        (field in16 3 0x3 <<< 7))
      (field in16 2 0x1 <<< 5))

unfoldable pub lui_imm : ℕ → ℕ
unfolding signed32
lui_imm in16 = signed32 6 (bit_or (field in16 12 0x1 <<< 5) (field in16 2 0x1f))

unfoldable pub jump_imm : ℕ → ℕ
unfolding signed32
jump_imm in16 = signed32 12 (
    bit_or
      (bit_or
        (bit_or
          (bit_or
            (bit_or
              (bit_or (bit_or (field in16 12 0x1 <<< 11) (field in16 11 0x1 <<< 4))
                (field in16 9 0x3 <<< 8))
              (field in16 8 0x1 <<< 10))
            (field in16 7 0x1 <<< 6))
          (field in16 6 0x1 <<< 7))
        (field in16 3 0x7 <<< 1))
      (field in16 2 0x1 <<< 5))

unfoldable pub branch_imm : ℕ → ℕ
unfolding signed32
branch_imm in16 = signed32 9 (
    bit_or
      (bit_or
        (bit_or (bit_or (field in16 12 0x1 <<< 8) (field in16 10 0x3 <<< 3))
          (field in16 5 0x3 <<< 6))
        (field in16 3 0x3 <<< 1))
      (field in16 2 0x1 <<< 5))

-- C.ADDI16SP and C.LUI.
unfoldable pub q1_lui : ℕ → Option ℕ
unfolding addi16sp_imm lui_imm enc_i enc_u
q1_lui in16 =
    let rd = field in16 7 0x1f in
    if rd == 2
    then (if addi16sp_imm in16 == 0
        then none
        else some (enc_i (addi16sp_imm in16) 2 0 2 (opcode 0b00100)))
    else if rd == 0
    then none
    else if lui_imm in16 == 0
    then none
    else some (enc_u (lui_imm in16) rd (opcode 0b01101))

-- C.SUB, C.XOR, C.OR, C.AND, C.SUBW and C.ADDW.
unfoldable pub q1_register : ℕ → Option ℕ
unfolding enc_r
q1_register in16 =
    let rdp = creg (field in16 7 0x7) in
    let rs2p = creg (field in16 2 0x7) in
    let op2 = field in16 5 0x3 in
    if field in16 12 0x1 == 0
    then (if op2 == 0
        then some (enc_r 0x20 rs2p rdp 0 rdp (opcode 0b01100))
        else if op2 == 1
        then some (enc_r 0x00 rs2p rdp 4 rdp (opcode 0b01100))
        else if op2 == 2
        then some (enc_r 0x00 rs2p rdp 6 rdp (opcode 0b01100))
        else if op2 == 3
        then some (enc_r 0x00 rs2p rdp 7 rdp (opcode 0b01100))
        else none)
    else if op2 == 0
    then some (enc_r 0x20 rs2p rdp 0 rdp (opcode 0b01110))
    else if op2 == 1
    then some (enc_r 0x00 rs2p rdp 0 rdp (opcode 0b01110))
    else none

-- C.SRLI, C.SRAI, C.ANDI and the register operations.
unfoldable pub q1_alu : ℕ → Option ℕ
unfolding enc_i imm6 simm6 q1_register
q1_alu in16 =
    let funct2 = field in16 10 0x3 in
    let rdp = creg (field in16 7 0x7) in
    if funct2 == 0
    then some (enc_i (bit_and (imm6 in16) 0x3f) rdp 5 rdp (opcode 0b00100))
    else if funct2 == 1
    then some (enc_i (bit_or (2 ^ 10) (bit_and (imm6 in16) 0x3f)) rdp 5 rdp (opcode 0b00100))
    else if funct2 == 2
    then some (enc_i (simm6 in16) rdp 7 rdp (opcode 0b00100))
    else if funct2 == 3
    then q1_register in16
    else none

unfoldable pub decompress_q1 : ℕ → Option ℕ
unfolding enc_i enc_b enc_j simm6 branch_imm jump_imm q1_lui q1_alu
decompress_q1 in16 =
    let funct3 = field in16 13 0x7 in
    let rd = field in16 7 0x1f in
    let rs1p = creg (field in16 7 0x7) in
    if funct3 == 0
    then some (enc_i (simm6 in16) rd 0 rd (opcode 0b00100))
    else if funct3 == 1
    then (if rd == 0 then none else some (enc_i (simm6 in16) rd 0 rd (opcode 0b00110)))
    else if funct3 == 2
    then some (enc_i (simm6 in16) 0 0 rd (opcode 0b00100))
    else if funct3 == 3
    then q1_lui in16
    else if funct3 == 4
    then q1_alu in16
    else if funct3 == 5
    then some (enc_j (jump_imm in16) 0 (opcode 0b11011))
    else if funct3 == 6
    then some (enc_b (branch_imm in16) 0 rs1p 0 (opcode 0b11000))
    else if funct3 == 7
    then some (enc_b (branch_imm in16) 0 rs1p 1 (opcode 0b11000))
    else none
