-- ===== src/Alu/Words.antt =====
-- The 32-bit operations, and the signed comparison.
use riscmulator.Alu.{ltb, leb, alu, signed_lt}
use riscmulator.Base.{
  if◌then◌else◌, ℕ, ◌%◌, ◌^◌, ◌<◌, ◌≡◌, arith, Bool, true, false, u32, sign_extend, refl,
}

sign_extend-mod : (x : ℕ) → sign_extend 32 (x % 2 ^ 32) ≡ sign_extend 32 x
unfolding sign_extend
sign_extend-mod x = let e : x % 2 ^ 32 % 2 ^ 32 ≡ x % 2 ^ 32 = omega arith in rw e refl

sign_extend_twice : (x : ℕ) → sign_extend 32 (sign_extend 32 x) ≡ sign_extend 32 x
unfolding sign_extend
sign_extend_twice x = ground arith

u32_twice : (x : ℕ) → u32 (u32 x) ≡ u32 x
u32_twice x = omega arith

-- A 32-bit operation depends on the low words of its operands only, and its result is the sign
-- extension of its low word.
pub alu-word :
    (is_reg alt : Bool) (funct3 lhs rhs : ℕ)
    → (alu is_reg true alt funct3 (u32 lhs) (u32 rhs) ≡ alu is_reg true alt funct3 lhs rhs)
      × (sign_extend 32 (alu is_reg true alt funct3 lhs rhs) ≡ alu is_reg true alt funct3 lhs rhs)
unfolding alu
alu-word is_reg alt funct3 lhs rhs = (
  rw (u32_twice lhs, u32_twice rhs, sign_extend-mod lhs, sign_extend-mod rhs) refl,
  sign_extend_twice _,
)

-- The comparison of signed words: a negative one is below every other, and two of the same sign
-- compare as words.
pub signed_lt_lem :
    (x y : ℕ)
    → x < 2 ^ 64
    → y < 2 ^ 64
    → signed_lt x y ≡ (
        if leb (2 ^ 63) x
        then (if leb (2 ^ 63) y then ltb x y else true)
        else if leb (2 ^ 63) y
        then false
        else ltb x y)
unfolding signed_lt
signed_lt_lem x y hx hy = ground arith
