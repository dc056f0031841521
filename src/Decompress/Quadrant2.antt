-- ===== src/Decompress/Quadrant2.antt =====
-- `decompress_q2`.
use riscmulator.Base.{ℕ, ◌^◌, bit_and, bit_or, Option, none, some, ◌==◌, if◌then◌else◌, ◌<<<◌, ◌&&◌}
use riscmulator.Insn.{field, opcode, enc_i, enc_s, enc_r}
use riscmulator.Decompress.Quadrant1.{imm6}

-- The offsets from the stack pointer, of loads and of stores.
unfoldable pub ldsp_imm : ℕ → ℕ
ldsp_imm in16 =
    bit_or (bit_or (field in16 12 0x1 <<< 5) (field in16 5 0x3 <<< 3)) (field in16 2 0x7 <<< 6)

unfoldable pub lwsp_imm : ℕ → ℕ
lwsp_imm in16 =
    bit_or (bit_or (field in16 12 0x1 <<< 5) (field in16 4 0x7 <<< 2)) (field in16 2 0x3 <<< 6)

unfoldable pub sdsp_imm : ℕ → ℕ
sdsp_imm in16 = bit_or (field in16 10 0x7 <<< 3) (field in16 7 0x7 <<< 6)

unfoldable pub swsp_imm : ℕ → ℕ
swsp_imm in16 = bit_or (field in16 9 0xf <<< 2) (field in16 7 0x3 <<< 6)

-- C.JR, C.MV, C.EBREAK, C.JALR and C.ADD.
unfoldable pub q2_register : ℕ → Option ℕ
unfolding enc_i enc_r
q2_register in16 =
    let rs1_rd = field in16 7 0x1f in
    let rs2 = field in16 2 0x1f in
    if field in16 12 0x1 == 0
    then (if rs2 == 0
        then (if rs1_rd == 0 then none else some (enc_i 0 rs1_rd 0 0 (opcode 0b11001)))
        else some (enc_r 0 rs2 0 0 rs1_rd (opcode 0b01100)))
    else if (rs2 == 0) && (rs1_rd == 0)
    then some (bit_or (2 ^ 20) (opcode 0b11100))
    else if rs2 == 0
    then some (enc_i 0 rs1_rd 0 1 (opcode 0b11001))
    else some (enc_r 0 rs2 rs1_rd 0 rs1_rd (opcode 0b01100))

unfoldable pub decompress_q2 : ℕ → Option ℕ
unfolding enc_i enc_s imm6 ldsp_imm lwsp_imm sdsp_imm swsp_imm q2_register
decompress_q2 in16 =
    let funct3 = field in16 13 0x7 in
    let rd = field in16 7 0x1f in
    let rs2 = field in16 2 0x1f in
    if funct3 == 0
    then (if rd == 0
        then none
        else some (enc_i (bit_and (imm6 in16) 0x3f) rd 1 rd (opcode 0b00100)))
    else if funct3 == 1
    then some (enc_i (ldsp_imm in16) 2 3 rd (opcode 0b00001))
    else if funct3 == 2
    then (if rd == 0 then none else some (enc_i (lwsp_imm in16) 2 2 rd (opcode 0b00000)))
    else if funct3 == 3
    then (if rd == 0 then none else some (enc_i (ldsp_imm in16) 2 3 rd (opcode 0b00000)))
    else if funct3 == 4
    then q2_register in16
    else if funct3 == 5
    then some (enc_s (sdsp_imm in16) rs2 2 3 (opcode 0b01001))
    else if funct3 == 6
    then some (enc_s (swsp_imm in16) rs2 2 2 (opcode 0b01000))
    else if funct3 == 7
    then some (enc_s (sdsp_imm in16) rs2 2 3 (opcode 0b01000))
    else none
