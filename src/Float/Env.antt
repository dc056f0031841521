-- ===== src/Float/Env.antt =====
-- The environment of emulator/src/cpu/rv_impl/float.c: the arithmetic of the host, with the rounding
-- mode and the exception flags of <fenv.h>, and the softfloat library. Both are parameters; a number
-- is its bits, a single in the low 32. The glue of emulator/include/cpu/rv_softfloat.h stands here.
use riscmulator.Base.{
  ℕ, ◌^◌, ◌>>>◌, bit_and, bit_or, Bool, true, false, if◌then◌else◌, ◌==◌, u32, u64,
}
use riscmulator.Cpu.{Cpu}
use riscmulator.Insn.{field, funct3_of}
use riscmulator.Float.{is_nan}

-- A direction of rounding; the last is of the library only.
pub data Rounding : Type 0 where
  near_even : Rounding
  toward_zero : Rounding
  downward : Rounding
  upward : Rounding
  near_max : Rounding

-- The exception flags that the host has raised.
pub record Flags : Type 0 where
  pub invalid : Bool
  pub inexact : Bool
  pub divbyzero : Bool
  pub overflow : Bool
  pub underflow : Bool

abbrev pub no_flags : Flags
no_flags = record {
  invalid = false;
  inexact = false;
  divbyzero = false;
  overflow = false;
  underflow = false;
}

-- An arithmetic with a kind of flags: the result of each operation, and what it raises. The first
-- argument says whether the numbers are doubles; for an integer, two say whether it is unsigned and
-- whether it has 64 bits.
pub record Arithmetic (F : Type 0) : Type 0 where
  pub add : Bool → Rounding → ℕ → ℕ → ℕ × F
  pub sub : Bool → Rounding → ℕ → ℕ → ℕ × F
  pub mul : Bool → Rounding → ℕ → ℕ → ℕ × F
  pub div : Bool → Rounding → ℕ → ℕ → ℕ × F
  pub sqrt : Bool → Rounding → ℕ → ℕ × F
  pub mul_add : Bool → Rounding → ℕ → ℕ → ℕ → ℕ × F
  pub to_single : Rounding → ℕ → ℕ × F
  pub of_word : Bool → Rounding → Bool → Bool → ℕ → ℕ × F

-- What the source uses besides of the host: the conversion of a single to a double, `rint`, and the
-- conversion of a double in range to an integer.
pub record Host : Type 0 where
  pub arith_of : Arithmetic Flags
  pub to_double : ℕ → ℕ × Flags
  pub rint : Rounding → ℕ → ℕ × Flags
  pub truncate : ℕ → ℕ

-- And of the library, whose flags are a byte: conversions to integers, as words of 64 bits.
pub record Soft : Type 0 where
  pub arith_of : Arithmetic ℕ
  pub to_word : Bool → Rounding → Bool → Bool → ℕ → ℕ × ℕ

-- Both, and the switch `rv_float_exact_math`.
pub record FloatEnv : Type 0 where
  pub host : Host
  pub soft : Soft
  pub exact_math : Bool

-- `RV_FFLAGS_NV_BIT` and the others.
abbrev pub nv_bit : ℕ
nv_bit = 4

abbrev pub dz_bit : ℕ
dz_bit = 3

abbrev pub of_bit : ℕ
of_bit = 2

abbrev pub uf_bit : ℕ
uf_bit = 1

abbrev pub nx_bit : ℕ
nx_bit = 0

-- `cpu->csr.fcsr |= flags`.
unfoldable pub accrue : ℕ → Cpu → Cpu
accrue flags cpu = record cpu { csr = record (cpu.csr) { fcsr = bit_or cpu.csr.fcsr flags } }

abbrev pub accrue_if : Bool → ℕ → Cpu → Cpu
accrue_if raised place cpu = if raised then accrue (2 ^ place) cpu else cpu

-- `check_fflags`.
unfoldable pub check_fflags : Flags → Cpu → Cpu
unfolding accrue
check_fflags flags cpu =
    let c1 = accrue_if flags.invalid nv_bit cpu in
    let c2 = accrue_if flags.inexact nx_bit c1 in
    let c3 = accrue_if flags.divbyzero dz_bit c2 in
    let c4 = accrue_if flags.overflow of_bit c3 in accrue_if flags.underflow uf_bit c4

-- `rv_softfloat_getflags`.
abbrev pub soft_flags : ℕ → ℕ
soft_flags raised = bit_and raised 0x1f

-- `rv_frm_to_softfloat`.
unfoldable pub frm_to_softfloat : ℕ → Rounding
frm_to_softfloat frm =
    if frm == 0
    then near_even
    else if frm == 1
    then toward_zero
    else if frm == 2
    then downward
    else if frm == 3
    then upward
    else if frm == 4
    then near_max
    else near_even

-- `apply_frm`: the rounding mode of the host afterwards, which an unknown mode leaves as it is, and
-- whether the host's results will be inexact.
unfoldable pub apply_frm : Rounding → Cpu → ℕ → Rounding × Bool
apply_frm rounding cpu insn =
    let frm = if funct3_of insn == 7 then bit_and (cpu.csr.fcsr >>> 5) 7 else funct3_of insn in
    if frm == 0
    then (near_even, false)
    else if frm == 1
    then (toward_zero, false)
    else if frm == 2
    then (downward, false)
    else if frm == 3
    then (upward, false)
    else if frm == 4
    then (near_even, true)
    else (rounding, true)

-- A result in a register: a single is boxed.
abbrev pub pack : Bool → ℕ → ℕ
pack f64 bits = if f64 then u64 bits else bit_or 0xffffffff00000000 (u32 bits)

-- `RV_CANONICAL_NAN_F64` and `RV_CANONICAL_NAN_F32`.
abbrev pub canonical_nan : Bool → ℕ
canonical_nan f64 = if f64 then 0x7ff8000000000000 else 0x7fc00000

-- `CANON_NAN_F64` and `CANON_NAN_F32`.
unfoldable pub canon_nan : Bool → ℕ → ℕ
unfolding is_nan
canon_nan f64 res = if is_nan f64 res then pack f64 (canonical_nan f64) else res

-- `RV_INSN_FUNCT5`, `RV_INSN_FFMT` and `RV_INSN_RS3`.
abbrev pub float_funct5 : ℕ → ℕ
float_funct5 insn = field insn 27 0x1f

abbrev pub ffmt_of : ℕ → ℕ
ffmt_of insn = field insn 25 0x3

abbrev pub rs3_of : ℕ → ℕ
rs3_of insn = field insn 27 0x1f

-- What an instruction has done to its hart, and the flags that it has raised.
pub record Ran : Type 0 where
  pub cpu : Cpu
  pub raised : Flags
  pub soft_raised : ℕ
