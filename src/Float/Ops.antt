-- ===== src/Float/Ops.antt =====
-- `rv_float_op_fp` and `rv_float_fmadd` of emulator/src/cpu/rv_impl/float.c.
pub mod Singles
pub mod Results
pub mod Canonical
use riscmulator.Base.{
  ℕ, ◌^◌, Bool, true, false, if◌then◌else◌, ◌==◌, ◌&&◌, ◌||◌, bit_and, bit_xor, truth, Option, none,
  some, ◌>>>◌,
}
use riscmulator.Cpu.{Cpu, fs_base_bit}
use riscmulator.Insn.{rs1_of, rs2_of, rd_of, funct3_of, op_maj}
use riscmulator.Trap.{Hooks, do_iillegal}
use riscmulator.Machine.{Machine, on_hart}
use riscmulator.Step.{FloatOps}
use riscmulator.Float.{float_operand, float_sgnj, float_mvfx, float_mvxf_fclass, is_inf, is_zero}
use riscmulator.Float.Env.{
  Rounding, no_flags, FloatEnv, Ran, pack, accrue, accrue_if, nv_bit, check_fflags, soft_flags,
  frm_to_softfloat, apply_frm, float_funct5, ffmt_of, rs3_of,
}
use riscmulator.Float.Compare.{float_compare, float_min_max}
use riscmulator.Float.Arith.{
  bits_of, soft_ran, host_ran, float_add, float_sub, float_mul, float_div, float_sqrt, float_ftof,
}
use riscmulator.Float.Convert.{float_xtof, float_ftox}

-- `RV_CHECK_XS` of the floating-point state.
abbrev pub is_fs_off : Cpu → Bool
is_fs_off cpu = bit_and (cpu.csr.mstatus >>> fs_base_bit) 3 == 0

-- Whether the numbers of a format are doubles; none if it is not supported.
abbrev pub format : ℕ → Option Bool
format ffmt = if ffmt == 0 then some false else if ffmt == 1 then some true else none

-- What has run without flags.
abbrev pub quiet : Cpu → Option Ran
quiet cpu = some (record { cpu = cpu; raised = no_flags; soft_raised = 0 })

-- A number with its sign turned, if that is asked for.
abbrev pub turned : Bool → Bool → ℕ → ℕ
turned turn f64 x = if turn then bit_xor x (if f64 then 2 ^ 63 else 2 ^ 31) else x

module _ (env : FloatEnv) where
  -- The `switch` over the operations with a rounding mode; none for an unknown one.
  unfoldable pub run : Rounding → Rounding → Cpu → ℕ → Bool → Bool → Option Ran
  run rounding soft_rounding cpu insn softfloat f64 =
      let funct5 = float_funct5 insn in
      if funct5 == 0b00000
      then some (float_add env rounding soft_rounding cpu insn softfloat f64)
      else if funct5 == 0b00001
      then some (float_sub env rounding soft_rounding cpu insn softfloat f64)
      else if funct5 == 0b00010
      then some (float_mul env rounding soft_rounding cpu insn softfloat f64)
      else if funct5 == 0b00011
      then some (float_div env rounding soft_rounding cpu insn softfloat f64)
      else if funct5 == 0b01011
      then some (float_sqrt env rounding soft_rounding cpu insn softfloat f64)
      else if funct5 == 0b01000
      then some (float_ftof env rounding soft_rounding cpu insn softfloat f64)
      else if funct5 == 0b11010
      then some (float_xtof env rounding soft_rounding cpu insn softfloat f64)
      else if funct5 == 0b11000
      then some (float_ftox env rounding soft_rounding cpu insn softfloat f64)
      else if funct5 == 0b11100
      then quiet (float_mvxf_fclass cpu insn f64)
      else if funct5 == 0b11110
      then quiet (float_mvfx cpu insn f64)
      else none

  -- The flags of what has run; an unknown operation is illegal.
  unfoldable pub conclude : Hooks → Cpu → ℕ → Bool → Option Ran → Cpu
  conclude hooks cpu insn softfloat none = do_iillegal hooks cpu insn
  conclude hooks cpu insn softfloat (some ran) =
      if softfloat
      then accrue (soft_flags ran.soft_raised) ran.cpu
      else check_fflags ran.raised ran.cpu

  -- The operations that use the rounding mode. The host keeps its mode afterwards.
  unfoldable pub rounded_op : Hooks → Rounding → Cpu → ℕ → Bool → Rounding × Cpu
  rounded_op hooks rounding cpu insn f64 =
      let applied = apply_frm rounding cpu insn in
      let softfloat = env.exact_math && applied.1 in
      (
        applied.0,
        conclude hooks cpu insn softfloat
            (run applied.0 (frm_to_softfloat (funct3_of insn)) cpu insn softfloat f64),
      )

  unfoldable pub op_in_format : Hooks → Rounding → Cpu → ℕ → Option Bool → Rounding × Cpu
  op_in_format hooks rounding cpu insn none = (rounding, do_iillegal hooks cpu insn)
  op_in_format hooks rounding cpu insn (some f64) =
      if float_funct5 insn == 0b10100
      then (rounding, float_compare hooks cpu insn f64)
      else if float_funct5 insn == 0b00100
      then (rounding, float_sgnj hooks cpu insn f64)
      else if float_funct5 insn == 0b00101
      then (rounding, float_min_max hooks cpu insn f64)
      else rounded_op hooks rounding cpu insn f64

  -- `rv_float_op_fp`, from the rounding mode of the host, and the mode afterwards.
  unfoldable pub float_op_fp : Hooks → Rounding → Cpu → ℕ → Rounding × Cpu
  float_op_fp hooks rounding cpu insn =
      if is_fs_off cpu
      then (rounding, do_iillegal hooks cpu insn)
      else op_in_format hooks rounding cpu insn (format (ffmt_of insn))

  -- The fused operations in a format.
  unfoldable pub fused : Rounding → Rounding → Cpu → ℕ → Bool → Bool → Ran
  fused rounding soft_rounding cpu insn softfloat f64 =
      let subtract = truth (bit_and (op_maj insn) 1) in
      let negate_mul = truth (bit_and (op_maj insn) 2) in
      let rs1 = float_operand cpu f64 (rs1_of insn) in
      let rs2 = float_operand cpu f64 (rs2_of insn) in
      let rs3 = float_operand cpu f64 (rs3_of insn) in
      let invalid = (is_inf f64 rs1 && is_zero f64 rs2) || (is_inf f64 rs2 && is_zero f64 rs1) in
      let cpu' = accrue_if invalid nv_bit cpu in
      let a = bits_of f64 (turned negate_mul f64 rs1) in
      let b = bits_of f64 rs2 in
      let c = bits_of f64 (turned subtract f64 rs3) in
      let lib = env.soft.arith_of.mul_add f64 soft_rounding a b c in
      let hard = env.host.arith_of.mul_add f64 rounding a b c in
      if softfloat
      then soft_ran cpu' (rd_of insn) (pack f64 lib.0) lib.1
      else host_ran cpu' (rd_of insn) (pack f64 hard.0) hard.1

  unfoldable pub fused_in_format : Hooks → Rounding → Cpu → ℕ → Option Bool → Rounding × Cpu
  fused_in_format hooks rounding cpu insn none = (rounding, do_iillegal hooks cpu insn)
  fused_in_format hooks rounding cpu insn (some f64) =
      let applied = apply_frm rounding cpu insn in
      let softfloat = env.exact_math && applied.1 in
      (
        applied.0,
        conclude hooks cpu insn softfloat
            (some (fused applied.0 (frm_to_softfloat (funct3_of insn)) cpu insn softfloat f64)),
      )

  -- `rv_float_fmadd`.
  unfoldable pub float_fmadd : Hooks → Rounding → Cpu → ℕ → Rounding × Cpu
  float_fmadd hooks rounding cpu insn =
      if is_fs_off cpu
      then (rounding, do_iillegal hooks cpu insn)
      else fused_in_format hooks rounding cpu insn (format (ffmt_of insn))

  -- Both as the dispatch of instructions takes them, on a host whose mode is given for each state.
  unfoldable pub float_ops : {D : Type 0} → (Machine D → ℕ → Rounding) → FloatOps D
  float_ops mode = record {
    op_fp = λ machine h insn.
        on_hart machine h (λ cpu. (float_op_fp machine.trap_hook (mode machine h) cpu insn).1);
    fmadd = λ machine h insn.
        on_hart machine h (λ cpu. (float_fmadd machine.trap_hook (mode machine h) cpu insn).1);
  }
