-- ===== src/Float/Compare.antt =====
-- Comparisons, minima and maxima in emulator/src/cpu/rv_impl/float.c. The C operators compare numbers
-- of a format as IEEE 754 orders them: by their place on the line, where both zeros are one, and a
-- NaN is unordered.
pub mod MinMax
use riscmulator.Base.{
  ℕ, ◌+◌, ◌-◌, ◌%◌, ◌^◌, ◌>>>◌, bit_and, bit_or, Bool, true, false, not, ◌&&◌, ◌||◌, if◌then◌else◌,
  ◌==◌, ltb, leb, to_nat, u32, Option, none, some,
}
use riscmulator.Cpu.{Cpu, xreg_write, freg_write}
use riscmulator.Insn.{funct3_of, rs1_of, rs2_of, rd_of}
use riscmulator.Trap.{Hooks, do_iillegal}
use riscmulator.Float.{is_nan, is_snan, sign, float_operand}
use riscmulator.Float.Env.{
  Flags, no_flags, accrue_if, nv_bit, pack, canonical_nan, check_fflags, accrue,
}

-- The bits without the sign, and the place of a number among those of its format.
abbrev pub unsigned_bits : Bool → ℕ → ℕ
unsigned_bits f64 x = if f64 then x % 2 ^ 63 else x % 2 ^ 31

unfoldable pub rank : Bool → ℕ → ℕ
rank f64 x = if sign f64 x then 2 ^ 63 - unsigned_bits f64 x else 2 ^ 63 + unsigned_bits f64 x

-- `<`, `<=` and `==`.
unfoldable pub less : Bool → ℕ → ℕ → Bool
unfolding is_nan rank
less f64 a b = not (is_nan f64 a || is_nan f64 b) && ltb (rank f64 a) (rank f64 b)

unfoldable pub at_most : Bool → ℕ → ℕ → Bool
unfolding is_nan rank
at_most f64 a b = not (is_nan f64 a || is_nan f64 b) && leb (rank f64 a) (rank f64 b)

unfoldable pub equals : Bool → ℕ → ℕ → Bool
unfolding is_nan rank
equals f64 a b = not (is_nan f64 a || is_nan f64 b) && (rank f64 a == rank f64 b)

-- FEQ, FLT and FLE: the result and the flag that C gives the comparison, invalid for a NaN, with
-- `==` for a signalling one only; none for an unknown comparison.
unfoldable pub comparison : ℕ → Bool → ℕ → ℕ → Option (Bool × Bool)
unfolding less at_most equals is_nan is_snan
comparison funct3 f64 lhs rhs =
    let unordered = is_nan f64 lhs || is_nan f64 rhs in
    if funct3 == 2
    then some (equals f64 lhs rhs, is_snan lhs f64 || is_snan rhs f64)
    else if funct3 == 1
    then some (less f64 lhs rhs, unordered)
    else if funct3 == 0
    then some (at_most f64 lhs rhs, unordered)
    else none

unfoldable pub compared : Hooks → Cpu → ℕ → Option (Bool × Bool) → Cpu
compared hooks cpu insn none = do_iillegal hooks cpu insn
compared hooks cpu insn (some (res, invalid)) =
    check_fflags (record (no_flags) { invalid = invalid })
      (xreg_write cpu (rd_of insn) (to_nat res))

unfoldable pub float_compare : Hooks → Cpu → ℕ → Bool → Cpu
float_compare hooks cpu insn f64 = compared hooks cpu insn (
    comparison (funct3_of insn) f64 (float_operand cpu f64 (rs1_of insn))
      (float_operand cpu f64 (rs2_of insn)))

-- `fmin` and `fmax` of two numbers that are not NaN.
unfoldable pub c_fmin : Bool → ℕ → ℕ → ℕ
unfolding less
c_fmin f64 a b = if less f64 b a then b else a

unfoldable pub c_fmax : Bool → ℕ → ℕ → ℕ
unfolding less
c_fmax f64 a b = if less f64 a b then b else a

-- Both operands are zeros.
unfoldable pub both_zero : Bool → ℕ → ℕ → Bool
both_zero f64 lhs rhs =
    if f64
    then (bit_and lhs 0x7fffffffffffffff == 0) && (bit_and rhs 0x7fffffffffffffff == 0)
    else (bit_and (u32 lhs) 0x7fffffff == 0) && (bit_and (u32 rhs) 0x7fffffff == 0)

-- The result of FMIN and FMAX; none where the `switch` has no case.
unfoldable pub min_max : ℕ → Bool → ℕ → ℕ → Option ℕ
min_max funct3 f64 lhs rhs =
    let lhs_nan = is_nan f64 lhs in
    let rhs_nan = is_nan f64 rhs in
    if lhs_nan && rhs_nan
    then some (pack f64 (canonical_nan f64))
    else if lhs_nan
    then some rhs
    else if rhs_nan
    then some lhs
    else if both_zero f64 lhs rhs
    then some (pack f64 (if funct3 == 0 then (if f64 then 2 ^ 63 else 2 ^ 31) else 0))
    else if funct3 == 0
    then some (pack f64 (c_fmin f64 lhs rhs))
    else if funct3 == 1
    then some (pack f64 (c_fmax f64 lhs rhs))
    else none

unfoldable pub selected : Hooks → Cpu → ℕ → Option ℕ → Cpu
selected hooks cpu insn none = do_iillegal hooks cpu insn
selected hooks cpu insn (some res) =
    if ltb 1 (funct3_of insn) then do_iillegal hooks cpu insn else freg_write cpu (rd_of insn) res

unfoldable pub float_min_max : Hooks → Cpu → ℕ → Bool → Cpu
float_min_max hooks cpu insn f64 =
    let lhs = float_operand cpu f64 (rs1_of insn) in
    let rhs = float_operand cpu f64 (rs2_of insn) in
    selected hooks (accrue_if (is_snan lhs f64 || is_snan rhs f64) nv_bit cpu) insn
      (min_max (funct3_of insn) f64 lhs rhs)
