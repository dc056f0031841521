-- ===== src/Decompress/Quadrant0.antt =====
-- `decompress_q0`.
use riscmulator.Base.{ℕ, ◌+◌, bit_or, Option, none, some, ◌==◌, if◌then◌else◌, ◌<<<◌}
use riscmulator.Insn.{field, opcode, enc_i, enc_s}

-- `CREG`.
abbrev pub creg : ℕ → ℕ
creg x = 8 + x

-- nzuimm[5:4|9:6|2|3] of C.ADDI4SPN.
unfoldable pub addi4spn_imm : ℕ → ℕ
addi4spn_imm in16 =
    bit_or
      (bit_or (bit_or (field in16 11 0x3 <<< 4) (field in16 7 0xf <<< 6)) (field in16 6 0x1 <<< 2))
      (field in16 5 0x1 <<< 3)

-- The offset of a doubleword and of a word.
unfoldable pub double_imm : ℕ → ℕ
double_imm in16 = bit_or (field in16 10 0x7 <<< 3) (field in16 5 0x3 <<< 6)

unfoldable pub word_imm : ℕ → ℕ
word_imm in16 =
    bit_or (bit_or (field in16 10 0x7 <<< 3) (field in16 6 0x1 <<< 2)) (field in16 5 0x1 <<< 6)

unfoldable pub decompress_q0 : ℕ → Option ℕ
unfolding enc_i enc_s addi4spn_imm double_imm word_imm
decompress_q0 in16 =
    let funct3 = field in16 13 0x7 in
    let rs1p = creg (field in16 7 0x7) in
    let rdp = creg (field in16 2 0x7) in
    if funct3 == 0
    then (if addi4spn_imm in16 == 0
        then none
        else some (enc_i (addi4spn_imm in16) 2 0 rdp (opcode 0b00100)))
    else if funct3 == 1
    then some (enc_i (double_imm in16) rs1p 3 rdp (opcode 0b00001))
    else if funct3 == 2
    then some (enc_i (word_imm in16) rs1p 2 rdp (opcode 0b00000))
    else if funct3 == 3
    then some (enc_i (double_imm in16) rs1p 3 rdp (opcode 0b00000))
    else if funct3 == 4
    then none
    else if funct3 == 5
    then some (enc_s (double_imm in16) rdp rs1p 3 (opcode 0b01001))
    else if funct3 == 6
    then some (enc_s (word_imm in16) rdp rs1p 2 (opcode 0b01000))
    else if funct3 == 7
    then some (enc_s (double_imm in16) rdp rs1p 3 (opcode 0b01000))
    else none
