-- ===== src/Float/Arith.antt =====
-- Arithmetic and the conversions between formats in emulator/src/cpu/rv_impl/float.c.
use riscmulator.Base.{ℕ, Bool, true, false, if◌then◌else◌, ◌==◌, u32}
use riscmulator.Cpu.{Cpu, freg_write}
use riscmulator.Insn.{rs1_of, rs2_of, rd_of}
use riscmulator.Float.{float_operand}
use riscmulator.Float.Env.{Rounding, Flags, no_flags, FloatEnv, Ran, pack, canon_nan}

-- The bits of an operand of a format.
abbrev pub bits_of : Bool → ℕ → ℕ
bits_of f64 x = if f64 then x else u32 x

-- A result of the library, and one of the host.
abbrev pub soft_ran : Cpu → ℕ → ℕ → ℕ → Ran
soft_ran cpu rd res raised = record {
  cpu = freg_write cpu rd res;
  raised = no_flags;
  soft_raised = raised;
}

abbrev pub host_ran : Cpu → ℕ → ℕ → Flags → Ran
host_ran cpu rd res raised = record {
  cpu = freg_write cpu rd res;
  raised = raised;
  soft_raised = 0;
}

-- An operation on two registers, by that of the host and that of the library.
unfoldable pub binary : (ℕ → ℕ → ℕ × Flags) → (ℕ → ℕ → ℕ × ℕ) → Cpu → ℕ → Bool → Bool → Ran
binary on_host on_soft cpu insn softfloat f64 =
    let lhs = bits_of f64 (float_operand cpu f64 (rs1_of insn)) in
    let rhs = bits_of f64 (float_operand cpu f64 (rs2_of insn)) in
    let hard = on_host lhs rhs in
    let lib = on_soft lhs rhs in
    if softfloat
    then soft_ran cpu (rd_of insn) (pack f64 lib.0) lib.1
    else host_ran cpu (rd_of insn) (canon_nan f64 (pack f64 hard.0)) hard.1

-- The rounding modes in force: the host's and the library's.
module _ (env : FloatEnv) (rounding soft_rounding : Rounding) where
  open env use {host, soft}

  -- `rv_float_add`, `rv_float_sub`, `rv_float_mul` and `rv_float_div`.
  unfoldable pub float_add : Cpu → ℕ → Bool → Bool → Ran
  float_add cpu insn softfloat f64 =
      binary (host.arith_of.add f64 rounding) (soft.arith_of.add f64 soft_rounding) cpu insn
        softfloat f64

  unfoldable pub float_sub : Cpu → ℕ → Bool → Bool → Ran
  float_sub cpu insn softfloat f64 =
      binary (host.arith_of.sub f64 rounding) (soft.arith_of.sub f64 soft_rounding) cpu insn
        softfloat f64

  unfoldable pub float_mul : Cpu → ℕ → Bool → Bool → Ran
  float_mul cpu insn softfloat f64 =
      binary (host.arith_of.mul f64 rounding) (soft.arith_of.mul f64 soft_rounding) cpu insn
        softfloat f64

  unfoldable pub float_div : Cpu → ℕ → Bool → Bool → Ran
  float_div cpu insn softfloat f64 =
      binary (host.arith_of.div f64 rounding) (soft.arith_of.div f64 soft_rounding) cpu insn
        softfloat f64

  -- `rv_float_sqrt`.
  unfoldable pub float_sqrt : Cpu → ℕ → Bool → Bool → Ran
  float_sqrt cpu insn softfloat f64 =
      let arg = bits_of f64 (float_operand cpu f64 (rs1_of insn)) in
      let hard = host.arith_of.sqrt f64 rounding arg in
      let lib = soft.arith_of.sqrt f64 soft_rounding arg in
      if softfloat
      then soft_ran cpu (rd_of insn) (canon_nan f64 (pack f64 lib.0)) lib.1
      else host_ran cpu (rd_of insn) (canon_nan f64 (pack f64 hard.0)) hard.1

  -- `rv_float_ftof`: the source is a double if `rs2` is 1. A single is always widened by the host.
  unfoldable pub float_ftof : Cpu → ℕ → Bool → Bool → Ran
  float_ftof cpu insn softfloat f64 =
      let arg = float_operand cpu (rs2_of insn == 1) (rs1_of insn) in
      let wide = host.to_double (u32 arg) in
      let hard = host.arith_of.to_single rounding arg in
      let lib = soft.arith_of.to_single soft_rounding arg in
      if f64
      then host_ran cpu (rd_of insn) (canon_nan true (pack true wide.0)) wide.1
      else if softfloat
      then soft_ran cpu (rd_of insn) (canon_nan false (pack false lib.0)) lib.1
      else host_ran cpu (rd_of insn) (canon_nan false (pack false hard.0)) hard.1
