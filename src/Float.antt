-- ===== src/Float.antt =====
-- emulator/src/cpu/rv_impl/float.c: the floating-point instructions that only look at bits: sign
-- injection, moves and classification. The classification macros of the C library are tests of the
-- fields of the format.
pub mod Env
pub mod Compare
pub mod Arith
pub mod Convert
pub mod Keeps
pub mod Ops
pub mod Class
mod Examples
use riscmulator.Base.{
  bit_xor, not64, sign_extend, ◌-◌, bit_and, truth, u32, ◌%◌, ◌&&◌, ◌>>>◌, ◌^◌, bit_or,
  if◌then◌else◌, not, ◌==◌, ℕ, Bool, true, false, Option, none, some,
}
use riscmulator.Cpu.{Cpu, xreg_read, xreg_write, freg_read, freg_write}
use riscmulator.Insn.{rs1_of, rs2_of, rd_of, funct3_of}
use riscmulator.Trap.{Hooks, do_iillegal}

-- `rv_freg_read_f32`: what is not boxed reads as the canonical NaN.
unfoldable pub freg_read_f32 : Cpu → ℕ → ℕ
freg_read_f32 cpu index =
    let r = freg_read cpu index in
    if r >>> 32 == 0xffffffff then r else bit_or 0xffffffff00000000 0x7fc00000

unfoldable pub float_operand : Cpu → Bool → ℕ → ℕ
unfolding freg_read_f32
float_operand cpu f64 index = if f64 then freg_read cpu index else freg_read_f32 cpu index

-- `rv_is_snan`.
unfoldable pub is_snan : ℕ → Bool → Bool
is_snan r f64 =
    if f64
    then (bit_and r 0x7ff8000000000000 == 0x7ff0000000000000)
      && truth (bit_and r 0x0007ffffffffffff)
    else (bit_and (u32 r) 0x7fc00000 == 0x7f800000) && truth (bit_and (u32 r) 0x003fffff)

-- The fields of a number, and `isinf`, `iszero`, `isnormal`, `issubnormal` and `isnan` by them.
abbrev pub exponent : Bool → ℕ → ℕ
exponent f64 x = if f64 then x >>> 52 % 2 ^ 11 else x >>> 23 % 2 ^ 8

abbrev pub fraction : Bool → ℕ → ℕ
fraction f64 x = if f64 then x % 2 ^ 52 else x % 2 ^ 23

abbrev pub sign : Bool → ℕ → Bool
sign f64 x = if f64 then truth (x >>> 63 % 2) else truth (x >>> 31 % 2)

abbrev pub top_exponent : Bool → ℕ
top_exponent f64 = if f64 then 2 ^ 11 - 1 else 2 ^ 8 - 1

unfoldable pub is_inf : Bool → ℕ → Bool
is_inf f64 x = (exponent f64 x == top_exponent f64) && (fraction f64 x == 0)

unfoldable pub is_nan : Bool → ℕ → Bool
is_nan f64 x = (exponent f64 x == top_exponent f64) && not (fraction f64 x == 0)

unfoldable pub is_zero : Bool → ℕ → Bool
is_zero f64 x = (exponent f64 x == 0) && (fraction f64 x == 0)

unfoldable pub is_subnormal : Bool → ℕ → Bool
is_subnormal f64 x = (exponent f64 x == 0) && not (fraction f64 x == 0)

unfoldable pub is_normal : Bool → ℕ → Bool
is_normal f64 x = not (exponent f64 x == 0) && not (exponent f64 x == top_exponent f64)

-- One of the tests of FCLASS: the bit of the negative or of the positive class.
abbrev pub class_bit : Bool → Bool → ℕ → ℕ → ℕ
class_bit holds negative below above =
    if holds then (if negative then 2 ^ below else 2 ^ above) else 0

unfoldable pub nan_class : Bool → Bool → ℕ
nan_class snan nan = if snan then 2 ^ 8 else if nan then 2 ^ 9 else 0

-- The result of FCLASS.
unfoldable pub fclass : Bool → ℕ → ℕ
unfolding is_inf is_zero is_normal is_subnormal is_snan is_nan nan_class
fclass f64 arg =
    let neg = sign f64 arg in
    let r1 = class_bit (is_inf f64 arg) neg 0 7 in
    let r2 = bit_or r1 (class_bit (is_zero f64 arg) neg 3 4) in
    let r3 = bit_or r2 (class_bit (is_normal f64 arg) neg 1 6) in
    let r4 = bit_or r3 (class_bit (is_subnormal f64 arg) neg 2 5) in
    bit_or r4 (nan_class (is_snan arg f64) (is_nan f64 arg))

-- `rv_float_mvxf_fclass`: the move of a float register's bits, or its class. Only FCLASS takes what
-- is not boxed for a NaN.
unfoldable pub float_mvxf_fclass : Cpu → ℕ → Bool → Cpu
unfolding fclass freg_read_f32
float_mvxf_fclass cpu insn f64 =
    let is_class = funct3_of insn == 1 in
    let arg =
      if is_class && not f64
      then freg_read_f32 cpu (rs1_of insn)
      else freg_read cpu (rs1_of insn) in
    let res = if is_class then fclass f64 arg else if f64 then arg else sign_extend 32 arg in
    xreg_write cpu (rd_of insn) res

-- `rv_float_mvfx`: the move of an integer register, boxed if it is a single.
unfoldable pub float_mvfx : Cpu → ℕ → Bool → Cpu
float_mvfx cpu insn f64 =
    let arg = xreg_read cpu (rs1_of insn) in
    freg_write cpu (rd_of insn) (if f64 then arg else bit_or 0xffffffff00000000 (u32 arg))

-- The result of sign injection; none for an unknown one.
unfoldable pub sign_inject : ℕ → Bool → ℕ → ℕ → Option ℕ
sign_inject funct3 f64 lhs rhs =
    let start = if f64 then lhs else bit_or 0xffffffff00000000 (u32 lhs) in
    let sign_bit = if f64 then 2 ^ 63 else 2 ^ 31 in
    let cleared = bit_and start (not64 sign_bit) in
    if funct3 == 0
    then some (bit_or cleared (bit_and rhs sign_bit))
    else if funct3 == 1
    then some (bit_or cleared (bit_and (not64 rhs) sign_bit))
    else if funct3 == 2
    then some (bit_xor start (bit_and rhs sign_bit))
    else none

unfoldable pub injected : Hooks → Cpu → ℕ → Option ℕ → Cpu
injected hooks cpu insn none = do_iillegal hooks cpu insn
injected hooks cpu insn (some res) = freg_write cpu (rd_of insn) res

-- FSGNJ, FSGNJN and FSGNJX.
unfoldable pub float_sgnj : Hooks → Cpu → ℕ → Bool → Cpu
float_sgnj hooks cpu insn f64 = injected hooks cpu insn (
    sign_inject (funct3_of insn) f64 (float_operand cpu f64 (rs1_of insn))
      (float_operand cpu f64 (rs2_of insn)))
