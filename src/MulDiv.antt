-- ===== src/MulDiv.antt =====
-- emulator/src/cpu/rv_impl/muldiv.c: multiplication and division. A signed value is its word in
-- two's complement.
pub mod Laws
pub mod Signed
use riscmulator.Base.{
  ℕ, ◌+◌, ◌-◌, ◌*◌, ◌/◌, ◌%◌, ◌^◌, bit_and, Bool, true, false, ◌&&◌, not, Option, none, some, truth,
  ltb, leb, ◌==◌, if◌then◌else◌, ◌<<<◌, ◌>>>◌, u32, u64, sub64, sign_extend,
}
use riscmulator.Cpu.{Cpu, xreg_read, xreg_write}
use riscmulator.Insn.{field, op_maj, rs1_of, rs2_of, rd_of, funct3_of}
use riscmulator.Trap.{Hooks, do_iillegal}

-- The sign and the magnitude of an `int64_t`, and back.
abbrev pub negative : ℕ → Bool
negative x = leb (2 ^ 63) x

unfoldable pub magnitude : ℕ → ℕ
magnitude x = if negative x then 2 ^ 64 - x else x

unfoldable pub with_sign : Bool → ℕ → ℕ
with_sign minus x = if minus then u64 (2 ^ 64 - x) else x

-- The conversion of an `int64_t` to `__int128`, as a word of 128 bits.
unfoldable pub widen : ℕ → ℕ
widen x = if negative x then x + (2 ^ 128 - 2 ^ 64) else x

-- The upper half of a product of 128 bits.
abbrev pub high_half : ℕ → ℕ → ℕ
high_half x y = (x * y % 2 ^ 128) >>> 64

-- C's division of `int64_t`, which rounds towards zero.
unfoldable pub quotient : ℕ → ℕ → ℕ
unfolding magnitude with_sign
quotient x y =
    let minus = if negative x then not (negative y) else negative y in
    with_sign minus (magnitude x / magnitude y)

unfoldable pub remainder : ℕ → ℕ → ℕ
unfolding magnitude with_sign
remainder x y = with_sign (negative x) (magnitude x % magnitude y)

-- The `switch` of `rv_muldiv_op`: the operands, and their signed forms.
unfoldable pub muldiv : Bool → ℕ → ℕ → ℕ → ℕ → ℕ → ℕ
unfolding widen quotient remainder
muldiv is_32 funct3 rs1 rs2 rs1_s rs2_s =
    let least = if is_32 then sign_extend 32 (2 ^ 31) else 2 ^ 63 in
    let overflows = (rs1_s == least) && (rs2_s == 2 ^ 64 - 1) in
    if funct3 == 0
    then u64 (rs1_s * rs2_s)
    else if funct3 == 1
    then high_half (widen rs1_s) (widen rs2_s)
    else if funct3 == 2
    then high_half (widen rs1_s) rs2
    else if funct3 == 3
    then high_half rs1 rs2
    else if funct3 == 4
    then (if rs2_s == 0 then 2 ^ 64 - 1 else if overflows then least else quotient rs1_s rs2_s)
    else if funct3 == 5
    then (if rs2 == 0 then (if is_32 then 2 ^ 32 - 1 else 2 ^ 64 - 1) else rs1 / rs2)
    else if funct3 == 6
    then (if rs2_s == 0 then rs1_s else if overflows then 0 else remainder rs1_s rs2_s)
    else if rs2 == 0
    then rs1
    else rs1 % rs2

-- The result that is written to the register.
unfoldable pub muldiv_result : Bool → ℕ → ℕ → ℕ → ℕ
unfolding muldiv sign_extend
muldiv_result is_32 funct3 rs1 rs2 =
    if is_32
    then sign_extend 32
        (muldiv true funct3 (u32 rs1) (u32 rs2) (sign_extend 32 rs1) (sign_extend 32 rs2))
    else muldiv false funct3 rs1 rs2 rs1 rs2

-- `rv_muldiv_op`.
unfoldable pub muldiv_op : Hooks → Cpu → ℕ → Cpu
unfolding muldiv_result
muldiv_op hooks cpu insn =
    let is_32 = truth (bit_and (op_maj insn) 0b00010) in
    let funct3 = funct3_of insn in
    if is_32 && (leb 1 funct3 && leb funct3 3)
    then do_iillegal hooks cpu insn
    else xreg_write cpu (rd_of insn)
        (muldiv_result is_32 funct3 (xreg_read cpu (rs1_of insn)) (xreg_read cpu (rs2_of insn)))
