-- ===== src/Float/Convert.antt =====
-- The conversions between floating-point numbers and integers in emulator/src/cpu/rv_impl/float.c.
use riscmulator.Base.{
  ℕ, ◌-◌, ◌^◌, Bool, true, false, if◌then◌else◌, not, ◌||◌, bit_and, truth, u32, u64, sign_extend,
}
use riscmulator.Cpu.{Cpu, xreg_read, xreg_write}
use riscmulator.Insn.{rs1_of, rs2_of, rd_of}
use riscmulator.Float.{float_operand, is_nan}
use riscmulator.Float.Compare.{less, at_most}
use riscmulator.Float.Arith.{bits_of, soft_ran, host_ran}
use riscmulator.Float.Env.{Rounding, Flags, no_flags, FloatEnv, Host, Ran, pack, accrue_if, nv_bit}

-- The fields of `rs2` that name the type of the integer.
abbrev pub is_unsigned_of : ℕ → Bool
is_unsigned_of insn = truth (bit_and (rs2_of insn) 1)

abbrev pub x64_of : ℕ → Bool
x64_of insn = truth (bit_and (rs2_of insn) 2)

-- The bounds of an integer type: its least and its greatest value as words, and as doubles the least
-- value and the first one above the greatest.
pub record Limits : Type 0 where
  pub least : ℕ
  pub most : ℕ
  pub low : ℕ
  pub high : ℕ

unfoldable pub limits : Bool → Bool → Limits
limits true true = record { least = 0; most = 2 ^ 64 - 1; low = 0; high = 0x43f0000000000000 }
limits false true = record {
  least = 2 ^ 63;
  most = 2 ^ 63 - 1;
  low = 0xc3e0000000000000;
  high = 0x43e0000000000000;
}
limits true false = record { least = 0; most = 2 ^ 32 - 1; low = 0; high = 0x41f0000000000000 }
limits false false = record {
  least = 2 ^ 64 - 2 ^ 31;
  most = 2 ^ 31 - 1;
  low = 0xc1e0000000000000;
  high = 0x41e0000000000000;
}

-- What `FTOX_HELPER` computes: the integer, whether it sets NV, and what the host has raised.
pub record Converted : Type 0 where
  pub word : ℕ
  pub invalid : Bool
  pub raised : Flags

-- `FTOX_HELPER`: the result saturates.
unfoldable pub ftox_helper : Host → Rounding → Bool → ℕ → Limits → Converted
unfolding less at_most is_nan
ftox_helper host rounding f64 value bounds =
    let wide = if f64 then value else (host.to_double (u32 value)).0 in
    let rounded = host.rint rounding wide in
    let rv = rounded.0 in
    if is_nan f64 value
    then record { word = bounds.most; invalid = true; raised = no_flags }
    else if not (less true rv bounds.high) || not (at_most true bounds.low rv)
    then record {
      word = if less true rv 0 then bounds.least else bounds.most;
      invalid = true;
      raised = record (rounded.1) { inexact = false };
    }
    else record { word = host.truncate rv; invalid = false; raised = rounded.1 }

-- A 32-bit result is sign-extended, an unsigned one too.
abbrev pub narrowed : Bool → ℕ → ℕ
narrowed x64 word = if x64 then u64 word else sign_extend 32 word

module _ (env : FloatEnv) (rounding soft_rounding : Rounding) where
  open env use {host, soft}

  -- `rv_float_xtof`.
  unfoldable pub float_xtof : Cpu → ℕ → Bool → Bool → Ran
  float_xtof cpu insn softfloat f64 =
      let arg = xreg_read cpu (rs1_of insn) in
      let word = if x64_of insn then arg else u32 arg in
      let hard = host.arith_of.of_word f64 rounding (is_unsigned_of insn) (x64_of insn) word in
      let lib = soft.arith_of.of_word f64 soft_rounding (is_unsigned_of insn) (x64_of insn) word in
      if softfloat
      then soft_ran cpu (rd_of insn) (pack f64 lib.0) lib.1
      else host_ran cpu (rd_of insn) (pack f64 hard.0) hard.1

  -- `rv_float_ftox`.
  unfoldable pub float_ftox : Cpu → ℕ → Bool → Bool → Ran
  float_ftox cpu insn softfloat f64 =
      let arg = float_operand cpu f64 (rs1_of insn) in
      let lib =
        soft.to_word f64 soft_rounding (is_unsigned_of insn) (x64_of insn) (bits_of f64 arg) in
      let hard = ftox_helper host rounding f64 arg (limits (is_unsigned_of insn) (x64_of insn)) in
      if softfloat
      then record {
        cpu = xreg_write cpu (rd_of insn) (narrowed (x64_of insn) lib.0);
        raised = no_flags;
        soft_raised = lib.1;
      }
      else record {
        cpu =
            xreg_write (accrue_if hard.invalid nv_bit cpu) (rd_of insn)
              (narrowed (x64_of insn) hard.word);
        raised = hard.raised;
        soft_raised = 0;
      }
