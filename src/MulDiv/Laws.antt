-- ===== src/MulDiv/Laws.antt =====
-- The halves of a product, and quotient and remainder.
use riscmulator.Base.{◌>>>◌, ◌%◌, ◌⊎◌, ◌-◌, false, ◌^◌, ℕ, ◌+◌, ◌*◌, ◌≤◌, ◌<◌, ◌≡◌, arith}
use native.Mathlib.Nat.{mul-le-mul, mod-add-div', mod-lt}
use riscmulator.MulDiv.{muldiv_result}

halves : (p : ℕ) → p < 2 ^ 128 → ((p % 2 ^ 128) >>> 64) * 2 ^ 64 + p % 2 ^ 64 ≡ p
halves p h = omega arith

-- MULHU and MUL give the two halves of the full product of unsigned words.
muldiv_result-product :
    (x y : ℕ)
    → x < 2 ^ 64
    → y < 2 ^ 64
    → muldiv_result false 3 x y * 2 ^ 64 + muldiv_result false 0 x y ≡ x * y
unfolding muldiv_result
muldiv_result-product x y hx hy = halves (x * y) (omega (arith, largest))
  where
    largest : x * y ≤ (2 ^ 64 - 1) * (2 ^ 64 - 1)
    largest =
        mul-le-mul {n₁ = x} {m₁ = y} {n₂ = 2 ^ 64 - 1} {m₂ = 2 ^ 64 - 1} (omega arith) (omega arith)

-- DIVU and REMU: by zero, all ones and the dividend; otherwise the quotient and the remainder.
muldiv_result-division :
    (x y : ℕ)
    → x < 2 ^ 64
    → (y ≡ 0) × (muldiv_result false 5 x y ≡ 2 ^ 64 - 1) × (muldiv_result false 7 x y ≡ x)
      ⊎ (muldiv_result false 7 x y < y)
        × (muldiv_result false 5 x y * y + muldiv_result false 7 x y ≡ x)
unfolding muldiv_result
muldiv_result-division x y h = ground (arith, mod-add-div' x y, mod-lt x)
