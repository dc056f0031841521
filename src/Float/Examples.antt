-- ===== src/Float/Examples.antt =====
-- The class of a signalling NaN.
use riscmulator.Float.{float_operand, is_zero, is_inf, is_nan, Cpu, fclass}
use riscmulator.Cpu.{freg_write, zero_csr, zero_cpu, Cpu}
use riscmulator.Float.Keeps.{no_hooks-IsQuiet, IsBoxed}
use riscmulator.Float.Env.{
  check_fflags, near_even, apply_frm, canon_nan, canonical_nan, pack, no_flags, Arithmetic,
  FloatEnv,
}
use riscmulator.Float.Ops.Canonical.{addition, float_op_fp-IsCanonical}
use riscmulator.Float.Ops.Results.{fcsr-float_op_fp, float_op_fp-IsBoxed}
use riscmulator.Base.{bit_or, none, ◌⊎◌, refl, false, some, ◌^◌, ◌<◌, ◌≡◌, get_or, ℕ, true, arith}
use riscmulator.Float.Ops.{
  float_op_fp, float_fmadd, op_in_format, rounded_op, run, conclude, fused, fused_in_format,
}
use riscmulator.Float.Arith.{float_add, binary}
use riscmulator.Float.Compare.MinMax.{min_max-Bounds, Bounds}
use riscmulator.Float.Compare.{both_zero, min_max}
use riscmulator.Float.Class.{IsOneClass, fclass-IsOneClass}

fclass-IsOneClass_example : IsOneClass (fclass true 0x7ff0000000000001)
fclass-IsOneClass_example = fclass-IsOneClass true 0x7ff0000000000001 (omega arith)

-- An arithmetic in which every operation gives a NaN that is not canonical.
abbrev strange : {F : Type 0} → F → Arithmetic F
strange flags = record {
  add = λ f64 r x y. (0xfff8000000000000, flags);
  sub = λ f64 r x y. (0xfff8000000000000, flags);
  mul = λ f64 r x y. (0xfff8000000000000, flags);
  div = λ f64 r x y. (0xfff8000000000000, flags);
  sqrt = λ f64 r x. (0xfff8000000000000, flags);
  mul_add = λ f64 r x y z. (0xfff8000000000000, flags);
  to_single = λ r x. (0xffc00000, flags);
  of_word = λ f64 r u w x. (0, flags);
}

abbrev strange_env : FloatEnv
strange_env = record {
  host = record {
    arith_of = strange (record (no_flags) { invalid = true });
    to_double = λ x. (x, no_flags);
    rint = λ r x. (x, no_flags);
    truncate = λ x. x;
  };
  soft = record { arith_of = strange 16; to_word = λ f64 r u w x. (0, 0) };
  exact_math = false;
}

abbrev float_hart : Cpu
float_hart = record (zero_cpu) { csr = record (zero_csr) { mstatus = 2 ^ 13 } }

-- FADD.D f1, f2, f3.
float_op_fp-IsCanonical_example :
    get_or (float_op_fp strange_env (λ _. none) near_even float_hart 0x023100d3).1.fregs 1 0
    ≡ 0x7ff8000000000000
unfolding float_op_fp op_in_format rounded_op run conclude float_add binary canon_nan is_nan
    apply_frm check_fflags freg_write
float_op_fp-IsCanonical_example =
    float_op_fp-IsCanonical strange_env (λ _. none) near_even float_hart 0x023100d3 0 true refl refl
      refl addition refl (omega arith) refl

-- FSGNJ.S f1, f2, f3.
float_op_fp-IsBoxed_example :
    ((get_or (float_op_fp strange_env (λ _. none) near_even float_hart 0x203100d3).1.fregs 1 0 ≡ 0)
      ⊎ IsBoxed (
          get_or (float_op_fp strange_env (λ _. none) near_even float_hart 0x203100d3).1.fregs 1 0))
    × ((get_or (float_fmadd strange_env (λ _. none) near_even float_hart 0x203100d3).1.fregs 1 0
          ≡ 0)
        ⊎ IsBoxed (
            get_or
              (float_fmadd strange_env (λ _. none) near_even float_hart 0x203100d3).1.fregs
              1
              0))
float_op_fp-IsBoxed_example =
    float_op_fp-IsBoxed strange_env (λ _. none) near_even float_hart 0x203100d3 1 no_hooks-IsQuiet
      refl

fcsr-float_op_fp_example :
    ((flags : ℕ) × (flags < 2 ^ 5)
      × ((float_op_fp strange_env (λ _. none) near_even float_hart 0x023100d3).1.csr.fcsr
          ≡ bit_or 0 flags))
    × ((flags : ℕ) × (flags < 2 ^ 5)
        × ((float_fmadd strange_env (λ _. none) near_even float_hart 0x023100d3).1.csr.fcsr
            ≡ bit_or 0 flags))
fcsr-float_op_fp_example =
    fcsr-float_op_fp strange_env (λ _. none) near_even float_hart 0x023100d3 no_hooks-IsQuiet

-- FMIN.D of -1 and 1.
min_max-Bounds_example :
    (r : ℕ) × (min_max 0 true 0xbff0000000000000 0x3ff0000000000000 ≡ some r)
    × ((is_nan true 0xbff0000000000000 ≡ true)
          × (is_nan true 0x3ff0000000000000 ≡ true)
          × (r ≡ pack true (canonical_nan true))
        ⊎ (is_nan true r ≡ false) × Bounds 0 true 0xbff0000000000000 0x3ff0000000000000 r)
min_max-Bounds_example =
    min_max-Bounds 0 true 0xbff0000000000000 0x3ff0000000000000 (omega arith) (omega arith)
      (omega arith)

-- The minimum of two positive zeros is negative.
min_of_zeros : min_max 0 true 0 0 ≡ some (2 ^ 63)
unfolding min_max is_nan both_zero
min_of_zeros = refl

-- The fused operations do not replace the NaN of the host: FMADD.D f1, f2, f3, f4.
fused_nan :
    get_or (float_fmadd strange_env (λ _. none) near_even float_hart 0x223100c3).1.fregs 1 0
    ≡ 0xfff8000000000000
unfolding float_fmadd fused_in_format conclude fused apply_frm is_inf is_zero check_fflags
    freg_write float_operand riscmulator.Cpu.freg_read
fused_nan = refl
