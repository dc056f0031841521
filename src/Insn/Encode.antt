-- ===== src/Insn/Encode.antt =====
-- The fields of an encoded instruction are those that were encoded.
use riscmulator.Insn.{
  funct7_of, rs2_of, enc_r, enc_s, enc_i, opcode, rs1_of, rd_of, funct3_of, op_maj,
}
use riscmulator.Base.{◌∙◌, refl, ◌%◌, ◌^◌, ℕ, ◌+◌, ◌*◌, ◌<◌, ◌≡◌, arith, bit_or, ◌>>>◌, ◌<<<◌}
use riscmulator.Base.Bits.{bit_and-mask, bit_or-join}

pub opcode-sum : (maj : ℕ) → opcode maj ≡ maj * 4 + 3
opcode-sum maj = bit_or-join 2 maj (maj <<< 2) 3 refl (omega arith)

-- An instruction's six places, from the top.
abbrev placed : ℕ → ℕ → ℕ → ℕ → ℕ → ℕ
placed high rs1 funct3 rd maj =
    high * 2 ^ 20 + rs1 * 2 ^ 15 + funct3 * 2 ^ 12 + rd * 2 ^ 7 + maj * 4 + 3

module _ (high rs1 funct3 rd maj : ℕ) (h : high < 2 ^ 12) (a : rs1 < 32) (b : funct3 < 8)
    (c : rd < 32) (d : maj < 32) where
  placed-sum :
      bit_or
        (bit_or (bit_or (bit_or (high <<< 20) (rs1 <<< 15)) (funct3 <<< 12)) (rd <<< 7))
        (opcode maj)
      ≡ placed high rs1 funct3 rd maj
  placed-sum =
      rw
        (
          opcode-sum maj,
          bit_or-join 20 high (high <<< 20) (rs1 <<< 15) refl (omega arith),
          bit_or-join 15 (high * 32 + rs1) (high * 2 ^ 20 + rs1 * 2 ^ 15) (funct3 <<< 12)
              (omega arith) (omega arith),
          bit_or-join 12 (high * 256 + rs1 * 8 + funct3)
              (high * 2 ^ 20 + rs1 * 2 ^ 15 + funct3 * 2 ^ 12) (rd <<< 7) (omega arith)
              (omega arith),
          bit_or-join 7 (high * 2 ^ 13 + rs1 * 256 + funct3 * 32 + rd)
              (high * 2 ^ 20 + rs1 * 2 ^ 15 + funct3 * 2 ^ 12 + rd * 2 ^ 7) (maj * 4 + 3)
              (omega arith) (omega arith),
        )
        (omega arith)

  -- The fields below the top twelve bits.
  placed-fields :
      (insn : ℕ)
      → insn ≡ placed high rs1 funct3 rd maj
      → (rs1_of insn ≡ rs1)
        × (funct3_of insn ≡ funct3)
        × (rd_of insn ≡ rd)
        × (op_maj insn ≡ maj)
        × (insn >>> 20 ≡ high)
  placed-fields insn e = (
    omega (arith, e, bit_and-mask 5 (insn >>> 15)),
    omega (arith, e, bit_and-mask 3 (insn >>> 12)),
    omega (arith, e, bit_and-mask 5 (insn >>> 7)),
    omega (arith, e, bit_and-mask 5 (insn >>> 2)),
    omega (arith, e),
  )

-- The fields of an I-type instruction, the immediate cut to 12 bits.
pub fields-enc_i :
    (imm rs1 funct3 rd maj : ℕ)
    → rs1 < 32
    → funct3 < 8
    → rd < 32
    → maj < 32
    → (rs1_of (enc_i imm rs1 funct3 rd (opcode maj)) ≡ rs1)
      × (funct3_of (enc_i imm rs1 funct3 rd (opcode maj)) ≡ funct3)
      × (rd_of (enc_i imm rs1 funct3 rd (opcode maj)) ≡ rd)
      × (op_maj (enc_i imm rs1 funct3 rd (opcode maj)) ≡ maj)
      × (enc_i imm rs1 funct3 rd (opcode maj) >>> 20 ≡ imm % 2 ^ 12)
unfolding enc_i
fields-enc_i imm rs1 funct3 rd maj a b c d =
    placed-fields (imm % 2 ^ 12) rs1 funct3 rd maj (omega arith) a b c d _ (
      rw (bit_and-mask 12 imm, placed-sum (imm % 2 ^ 12) rs1 funct3 rd maj (omega arith) a b c d)
        (omega arith))

top-fields : (top rs2 : ℕ) → rs2 < 32 → bit_or (top <<< 25) (rs2 <<< 20) ≡ (top * 32 + rs2) <<< 20
top-fields top rs2 h = bit_or-join 25 top (top <<< 25) (rs2 <<< 20) refl (omega arith) ∙ omega arith

-- The fields of an R-type instruction.
pub fields-enc_r :
    (funct7 rs2 rs1 funct3 rd maj : ℕ)
    → funct7 < 128
    → rs2 < 32
    → rs1 < 32
    → funct3 < 8
    → rd < 32
    → maj < 32
    → (funct7_of (enc_r funct7 rs2 rs1 funct3 rd (opcode maj)) ≡ funct7)
      × (rs2_of (enc_r funct7 rs2 rs1 funct3 rd (opcode maj)) ≡ rs2)
      × (rs1_of (enc_r funct7 rs2 rs1 funct3 rd (opcode maj)) ≡ rs1)
      × (funct3_of (enc_r funct7 rs2 rs1 funct3 rd (opcode maj)) ≡ funct3)
      × (rd_of (enc_r funct7 rs2 rs1 funct3 rd (opcode maj)) ≡ rd)
      × (op_maj (enc_r funct7 rs2 rs1 funct3 rd (opcode maj)) ≡ maj)
unfolding enc_r
fields-enc_r funct7 rs2 rs1 funct3 rd maj f e a b c d =
    let high = funct7 * 32 + rs2 in
    let sum = placed-sum high rs1 funct3 rd maj (omega arith) a b c d in
    let whole : enc_r funct7 rs2 rs1 funct3 rd (opcode maj) ≡ placed high rs1 funct3 rd maj =
      rw (top-fields funct7 rs2 e, sum) (omega arith) in
    let (rs1-eq, funct3-eq, rd-eq, maj-eq, high-eq) =
      placed-fields high rs1 funct3 rd maj (omega arith) a b c d _ whole in
    (
      omega (arith, bit_and-mask 7 (enc_r funct7 rs2 rs1 funct3 rd (opcode maj) >>> 25), whole),
      omega (arith, bit_and-mask 5 (enc_r funct7 rs2 rs1 funct3 rd (opcode maj) >>> 20), whole),
      rs1-eq,
      funct3-eq,
      rd-eq,
      maj-eq,
    )

-- The fields of an S-type instruction; the two parts of the immediate are its low 12 bits.
pub fields-enc_s :
    (imm rs2 rs1 funct3 maj : ℕ)
    → rs2 < 32
    → rs1 < 32
    → funct3 < 8
    → maj < 32
    → (rs2_of (enc_s imm rs2 rs1 funct3 (opcode maj)) ≡ rs2)
      × (rs1_of (enc_s imm rs2 rs1 funct3 (opcode maj)) ≡ rs1)
      × (funct3_of (enc_s imm rs2 rs1 funct3 (opcode maj)) ≡ funct3)
      × (op_maj (enc_s imm rs2 rs1 funct3 (opcode maj)) ≡ maj)
      × (funct7_of (enc_s imm rs2 rs1 funct3 (opcode maj)) * 32
            + rd_of (enc_s imm rs2 rs1 funct3 (opcode maj))
          ≡ imm % 2 ^ 12)
unfolding enc_s
fields-enc_s imm rs2 rs1 funct3 maj e a b d =
    let top = (imm >>> 5) % 2 ^ 7 in
    let low = imm % 2 ^ 5 in
    let high = top * 32 + rs2 in
    let sum = placed-sum high rs1 funct3 low maj (omega arith) a b (omega arith) d in
    let whole : enc_s imm rs2 rs1 funct3 (opcode maj) ≡ placed high rs1 funct3 low maj =
      rw (bit_and-mask 7 (imm >>> 5), bit_and-mask 5 imm, top-fields top rs2 e, sum)
        (omega arith) in
    let (rs1-eq, funct3-eq, rd-eq, maj-eq, high-eq) =
      placed-fields high rs1 funct3 low maj (omega arith) a b (omega arith) d _ whole in
    (
      omega (arith, bit_and-mask 5 (enc_s imm rs2 rs1 funct3 (opcode maj) >>> 20), whole),
      rs1-eq,
      funct3-eq,
      maj-eq,
      omega (arith, bit_and-mask 7 (enc_s imm rs2 rs1 funct3 (opcode maj) >>> 25), whole, rd-eq),
    )
