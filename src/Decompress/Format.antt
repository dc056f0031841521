-- ===== src/Decompress/Format.antt =====
-- Every decompressed instruction is a 32-bit one.
use riscmulator.Base.{
  refl, true, false, if◌then◌else◌, Bool, ◌%◌, u32, ◌^◌, ℕ, ◌<◌, ◌≡◌, arith, bit_and, bit_or,
  Option, none, some,
}
use riscmulator.Base.Bits.{bit_and-mask, bit-bit_or, bit_lem, bit_le_one}
use riscmulator.Insn.Encode.{opcode-sum}
use riscmulator.Insn.{enc_i, enc_r, enc_s, enc_u, enc_b, enc_j, opcode}
use riscmulator.Decompress.{decompress}
use riscmulator.Decompress.Quadrant0.{decompress_q0}
use riscmulator.Decompress.Quadrant1.{decompress_q1, q1_lui, q1_alu, q1_register}
use riscmulator.Decompress.Quadrant2.{decompress_q2, q2_register}

-- A result, if there is one, is a word of 32 bits whose two lowest are set.
pub record IsFull (o : Option ℕ) : Type 0 where
  pub full : (out : ℕ) → o ≡ some out → (out < 2 ^ 32) × (out % 4 ≡ 3)

none-IsFull : IsFull none
none-IsFull = record { full = λ out e. absurd cc }

-- Whatever is or-ed in before the opcode.
opcode-low : (x maj : ℕ) → bit_or x (opcode maj) % 4 ≡ 3
opcode-low x maj =
    let whole = bit_or x (opcode maj) in
    omega (
      arith,
      bit-bit_or x (opcode maj) 0,
      bit-bit_or x (opcode maj) 1,
      bit_lem whole 0,
      bit_lem whole 1,
      bit_lem (opcode maj) 0,
      bit_lem (opcode maj) 1,
      opcode-sum maj,
      bit_le_one x 0,
      bit_le_one x 1,
    )

opcode-IsFull : (x maj : ℕ) → IsFull (some (u32 (bit_or x (opcode maj))))
opcode-IsFull x maj = record { full = λ out e. let low = opcode-low x maj in ground (arith, e) }

enc_r-IsFull : (f7 rs2 rs1 f3 rd maj : ℕ) → IsFull (some (enc_r f7 rs2 rs1 f3 rd (opcode maj)))
unfolding enc_r
enc_r-IsFull f7 rs2 rs1 f3 rd maj = opcode-IsFull _ maj

enc_i-IsFull : (imm rs1 f3 rd maj : ℕ) → IsFull (some (enc_i imm rs1 f3 rd (opcode maj)))
unfolding enc_i
enc_i-IsFull imm rs1 f3 rd maj = opcode-IsFull _ maj

enc_s-IsFull : (imm rs2 rs1 f3 maj : ℕ) → IsFull (some (enc_s imm rs2 rs1 f3 (opcode maj)))
unfolding enc_s
enc_s-IsFull imm rs2 rs1 f3 maj = opcode-IsFull _ maj

enc_u-IsFull : (imm rd maj : ℕ) → IsFull (some (enc_u imm rd (opcode maj)))
unfolding enc_u
enc_u-IsFull imm rd maj = opcode-IsFull _ maj

enc_b-IsFull : (imm rs2 rs1 f3 maj : ℕ) → IsFull (some (enc_b imm rs2 rs1 f3 (opcode maj)))
unfolding enc_b
enc_b-IsFull imm rs2 rs1 f3 maj = opcode-IsFull _ maj

enc_j-IsFull : (imm rd maj : ℕ) → IsFull (some (enc_j imm rd (opcode maj)))
unfolding enc_j
enc_j-IsFull imm rd maj = opcode-IsFull _ maj

-- A test keeps the property.
if-IsFull : (b : Bool) (x y : Option ℕ) → IsFull x → IsFull y → IsFull (if b then x else y)
if-IsFull true x y p q = p
if-IsFull false x y p q = q

-- The formats, and the tests between them.
ruleset full = (
  if-IsFull, none-IsFull, enc_r-IsFull, enc_i-IsFull, enc_s-IsFull, enc_u-IsFull, enc_b-IsFull,
  enc_j-IsFull,
)

decompress_q0-IsFull : (in16 : ℕ) → IsFull (decompress_q0 in16)
unfolding decompress_q0
decompress_q0-IsFull in16 = search full depth 14

q1_lui-IsFull : (in16 : ℕ) → IsFull (q1_lui in16)
unfolding q1_lui
q1_lui-IsFull in16 = search full depth 14

q1_register-IsFull : (in16 : ℕ) → IsFull (q1_register in16)
unfolding q1_register
q1_register-IsFull in16 = search full depth 14

q1_alu-IsFull : (in16 : ℕ) → IsFull (q1_alu in16)
unfolding q1_alu
q1_alu-IsFull in16 = search (full, q1_register-IsFull) depth 14

decompress_q1-IsFull : (in16 : ℕ) → IsFull (decompress_q1 in16)
unfolding decompress_q1
decompress_q1-IsFull in16 = search (full, q1_lui-IsFull, q1_alu-IsFull) depth 14

ebreak-IsFull : IsFull (some (bit_or (2 ^ 20) (opcode 0b11100)))
ebreak-IsFull = record { full = λ out e. ground (arith, e) }

q2_register-IsFull : (in16 : ℕ) → IsFull (q2_register in16)
unfolding q2_register
q2_register-IsFull in16 = search (full, ebreak-IsFull) depth 14

decompress_q2-IsFull : (in16 : ℕ) → IsFull (decompress_q2 in16)
unfolding decompress_q2
decompress_q2-IsFull in16 = search (full, q2_register-IsFull) depth 14

decompress-IsFull : (in16 : ℕ) → IsFull (decompress in16)
unfolding decompress
decompress-IsFull in16 =
    search (full, decompress_q0-IsFull, decompress_q1-IsFull, decompress_q2-IsFull) depth 14

-- The fourth quadrant is that of the 32-bit instructions.
decompress-quadrant3 : (in16 : ℕ) → bit_and in16 0x3 ≡ 3 → decompress in16 ≡ none
unfolding decompress
decompress-quadrant3 in16 e = rw e refl

-- What `rv_decompress` returns is a 32-bit word with its two lowest bits set, as an instruction
-- that is not compressed has them: so it is never decompressed again.
decompress-full :
    (in16 out : ℕ)
    → decompress in16 ≡ some out
    → (out < 2 ^ 32) × (out % 4 ≡ 3) × (decompress (out % 2 ^ 16) ≡ none)
decompress-full in16 out e =
    let (small, low) = (decompress-IsFull in16).full out e in
    (small, low, decompress-quadrant3 (out % 2 ^ 16) (omega (arith, bit_and-mask 2 (out % 2 ^ 16))))
