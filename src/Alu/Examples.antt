-- ===== src/Alu/Examples.antt =====
-- Arithmetic, jumps and division on concrete words.
use riscmulator.MulDiv.Signed.{muldiv_result-signed, opposite, HasSign}
use riscmulator.MulDiv.{negative, magnitude, muldiv_result}
use riscmulator.Base.{◌<◌, ◌+◌, ◌*◌, ◌⊎◌, sign_extend, ◌-◌, ◌^◌, ◌≡◌, refl, arith, true, false}
use riscmulator.Alu.{ℕ, sign_extend, alu, jal_imm}
use riscmulator.Alu.Jumps.{jal_imm-enc_j}
use riscmulator.Insn.{enc_j, opcode}

-- `addw` of the largest positive word and one.
alu-addw : alu true true false 0 0x7fffffff 1 ≡ 2 ^ 64 - 2 ^ 31
unfolding alu sign_extend
alu-addw = refl

-- -7 divided by 2, rounded towards zero, and the remainder -1.
muldiv_result-negative :
    (muldiv_result false 4 (2 ^ 64 - 7) 2 ≡ 2 ^ 64 - 3)
    × (muldiv_result false 6 (2 ^ 64 - 7) 2 ≡ 2 ^ 64 - 1)
unfolding muldiv_result
muldiv_result-negative = (refl, refl)

jal_imm-enc_j_example : jal_imm (enc_j 0xfffffffe 0 (opcode 27)) ≡ sign_extend 21 0xfffffffe
jal_imm-enc_j_example = jal_imm-enc_j 0xfffffffe 0 27 refl (omega arith) (omega arith)

muldiv_result-signed_example :
    ◌≡◌ {A = ℕ} 2 0
      × (muldiv_result false 4 (2 ^ 64 - 7) 2 ≡ 2 ^ 64 - 1)
      × (muldiv_result false 6 (2 ^ 64 - 7) 2 ≡ 2 ^ 64 - 7)
    ⊎ (◌≡◌ {A = ℕ} (2 ^ 64 - 7) (2 ^ 63))
      × (◌≡◌ {A = ℕ} 2 (2 ^ 64 - 1))
      × (muldiv_result false 4 (2 ^ 64 - 7) 2 ≡ 2 ^ 63)
      × (muldiv_result false 6 (2 ^ 64 - 7) 2 ≡ 0)
    ⊎ (magnitude (muldiv_result false 4 (2 ^ 64 - 7) 2) * magnitude 2
          + magnitude (muldiv_result false 6 (2 ^ 64 - 7) 2)
        ≡ magnitude (2 ^ 64 - 7))
      × (magnitude (muldiv_result false 6 (2 ^ 64 - 7) 2) < magnitude 2)
      × HasSign (opposite (2 ^ 64 - 7) 2) (muldiv_result false 4 (2 ^ 64 - 7) 2)
      × HasSign (negative (2 ^ 64 - 7)) (muldiv_result false 6 (2 ^ 64 - 7) 2)
muldiv_result-signed_example = muldiv_result-signed (2 ^ 64 - 7) 2 (omega arith) (omega arith)
