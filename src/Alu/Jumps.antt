-- ===== src/Alu/Jumps.antt =====
-- Jumps: the target of JALR, and the offset of JAL.
use riscmulator.Base.{
  ◌∙◌, ◌*◌, ◌<<<◌, ◌>>>◌, ℕ, ◌+◌, ◌%◌, ◌^◌, ◌<◌, ◌≡◌, arith, sign_extend, refl, bit_or,
}
use riscmulator.Base.Bits.{bit_or-join, bit_or-fields, bit_and-mask}
use riscmulator.Insn.{enc_j, opcode, field}
use riscmulator.Insn.Encode.{opcode-sum}
use riscmulator.Alu.{jal_imm}

-- The places of a J-type instruction.
abbrev placed_j : ℕ → ℕ → ℕ → ℕ → ℕ → ℕ → ℕ
placed_j i20 i10 i11 i19 rd maj =
    i20 * 2 ^ 31 + i10 * 2 ^ 21 + i11 * 2 ^ 20 + i19 * 2 ^ 12 + rd * 2 ^ 7 + maj * 4 + 3

module _ (i20 i10 i11 i19 rd maj : ℕ) (a : i20 < 2) (b : i10 < 1024) (c : i11 < 2) (d : i19 < 256)
    (e : rd < 32) (f : maj < 32) where
  placed_j-sum :
      bit_or
        (bit_or
          (bit_or (bit_or (bit_or (i20 <<< 31) (i10 <<< 21)) (i11 <<< 20)) (i19 <<< 12))
          (rd <<< 7))
        (opcode maj)
      ≡ placed_j i20 i10 i11 i19 rd maj
  placed_j-sum =
      rw
        (
          opcode-sum maj,
          bit_or-join 31 i20 (i20 <<< 31) (i10 <<< 21) refl (omega arith),
          bit_or-join 21 (i20 * 1024 + i10) (i20 * 2 ^ 31 + i10 * 2 ^ 21) (i11 <<< 20) (omega arith)
              (omega arith),
          bit_or-join 20 (i20 * 2048 + i10 * 2 + i11) (i20 * 2 ^ 31 + i10 * 2 ^ 21 + i11 * 2 ^ 20)
              (i19 <<< 12) (omega arith) (omega arith),
          bit_or-join 12 (i20 * 2 ^ 19 + i10 * 2 ^ 9 + i11 * 2 ^ 8 + i19)
              (i20 * 2 ^ 31 + i10 * 2 ^ 21 + i11 * 2 ^ 20 + i19 * 2 ^ 12) (rd <<< 7) (omega arith)
              (omega arith),
          bit_or-join 7 (i20 * 2 ^ 24 + i10 * 2 ^ 14 + i11 * 2 ^ 13 + i19 * 2 ^ 5 + rd)
              (i20 * 2 ^ 31 + i10 * 2 ^ 21 + i11 * 2 ^ 20 + i19 * 2 ^ 12 + rd * 2 ^ 7) (maj * 4 + 3)
              (omega arith) (omega arith),
        )
        (omega arith)

  -- What the jump reads of it.
  jal_imm-placed :
      (insn : ℕ)
      → insn ≡ placed_j i20 i10 i11 i19 rd maj
      → jal_imm insn ≡ sign_extend 21 (i19 * 2 ^ 12 + i11 * 2 ^ 11 + i10 * 2 + i20 * 2 ^ 20)
  unfolding jal_imm
  jal_imm-placed insn g =
      let f19 : field insn 12 0xff ≡ i19 = omega (arith, bit_and-mask 8 (insn >>> 12)) in
      let f11 : field insn 20 0x1 ≡ i11 = omega (arith, bit_and-mask 1 (insn >>> 20)) in
      let f10 : field insn 21 0x3ff ≡ i10 = omega (arith, bit_and-mask 10 (insn >>> 21)) in
      let f20 : insn >>> 31 ≡ i20 = omega arith in
      rw
        (
          f19,
          f11,
          f10,
          f20,
          bit_or-join 12 i19 (i19 <<< 12) (i11 <<< 11) refl (omega arith),
          bit_or-join 11 (i19 * 2 + i11) (i19 * 2 ^ 12 + i11 * 2 ^ 11) (i10 <<< 1) (omega arith)
              (omega arith),
          bit_or-fields 20 i20 (i19 * 2 ^ 12 + i11 * 2 ^ 11 + i10 * 2) (omega arith),
        )
        refl

-- The offset that JAL reads from an instruction encoded with an even immediate is the sign
-- extension of the immediate's 21 bits.
pub jal_imm-enc_j :
    (imm rd maj : ℕ)
    → imm % 2 ≡ 0
    → rd < 32
    → maj < 32
    → jal_imm (enc_j imm rd (opcode maj)) ≡ sign_extend 21 imm
unfolding enc_j
jal_imm-enc_j imm rd maj even a b =
    let i20 = (imm >>> 20) % 2 ^ 1 in
    let i10 = (imm >>> 1) % 2 ^ 10 in
    let i11 = (imm >>> 11) % 2 ^ 1 in
    let i19 = (imm >>> 12) % 2 ^ 8 in
    let whole : enc_j imm rd (opcode maj) ≡ placed_j i20 i10 i11 i19 rd maj =
      rw
        (
          bit_and-mask 1 (imm >>> 20),
          bit_and-mask 10 (imm >>> 1),
          bit_and-mask 1 (imm >>> 11),
          bit_and-mask 8 (imm >>> 12),
          placed_j-sum i20 i10 i11 i19 rd maj (omega arith) (omega arith) (omega arith)
              (omega arith) a b,
        )
        (omega arith) in
    jal_imm-placed i20 i10 i11 i19 rd maj (omega arith) (omega arith) (omega arith) (omega arith) a
      b _ whole
    ∙ sign_extend-low (i19 * 2 ^ 12 + i11 * 2 ^ 11 + i10 * 2 + i20 * 2 ^ 20) imm (omega arith)
  where
    sign_extend-low : (x y : ℕ) → x % 2 ^ 21 ≡ y % 2 ^ 21 → sign_extend 21 x ≡ sign_extend 21 y
    sign_extend-low x y e = unfold sign_extend in rw e refl
