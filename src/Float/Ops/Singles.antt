-- ===== src/Float/Ops/Singles.antt =====
-- Every instruction of emulator/src/cpu/rv_impl/float.c keeps what Float.Keeps says.
use riscmulator.Base.{
  ℕ, ◌≡◌, Bool, true, false, Option, none, some, if-elim, if◌then◌else◌, ◌==◌, refl, arith, ◌^◌,
  ◌>>>◌, not64, bit_and, bit_or, bit_xor, u32, ◌∙◌, ltb, ◌&&◌,
}
use riscmulator.Base.Shifts.{shr-bit_and, shr-bit_or, shr-bit_xor, bit_and-zero}
use riscmulator.Cpu.{Cpu}
use riscmulator.Insn.{rs1_of, rs2_of, rd_of, funct3_of}
use riscmulator.Trap.{Hooks}
use riscmulator.Float.{
  float_operand, float_sgnj, float_mvfx, float_mvxf_fclass, sign_inject, injected, is_nan,
}
use riscmulator.Float.Keeps.{
  IsBoxed, Keeps, IsQuiet, Keeps-trans, do_iillegal-Keeps, xreg_write-Keeps, freg_write-Keeps,
  accrue_if-Keeps, check_fflags-Keeps, pack-IsBoxed, canon_nan-IsBoxed, freg_read_f32-IsBoxed,
}
use riscmulator.Float.Env.{Rounding, Flags, FloatEnv, Ran, pack, canon_nan, canonical_nan, nv_bit}
use riscmulator.Float.Compare.{
  float_compare, compared, float_min_max, min_max, selected, both_zero, c_fmin, c_fmax,
}
use riscmulator.Float.Arith.{binary, float_sqrt, float_ftof}
use riscmulator.Float.Convert.{float_xtof, float_ftox}

operand-IsBoxed : (c : Cpu) (f64 : Bool) (i : ℕ) → f64 ≡ false → IsBoxed (float_operand c f64 i)
unfolding float_operand
operand-IsBoxed c true i e = cc
operand-IsBoxed c false i e = freg_read_f32-IsBoxed c i

pub packed : (f64 : Bool) (bits : ℕ) → f64 ≡ false → IsBoxed (pack f64 bits)
packed true bits e = cc
packed false bits e = pack-IsBoxed bits

canonised : (f64 : Bool) (bits : ℕ) → f64 ≡ false → IsBoxed (canon_nan f64 (pack f64 bits))
canonised true bits e = cc
canonised false bits e = canon_nan-IsBoxed (pack false bits) (pack-IsBoxed bits)

-- A word that differs from a boxed one in its low half only.
and_boxed : (x m : ℕ) → IsBoxed x → m >>> 32 ≡ 0xffffffff → IsBoxed (bit_and x m)
unfolding IsBoxed
and_boxed x m h e = rw (shr-bit_and x m 32, h, e) refl

or_boxed : (x m : ℕ) → IsBoxed x → m >>> 32 ≡ 0 → IsBoxed (bit_or x m)
unfolding IsBoxed
or_boxed x m h e = rw (shr-bit_or x m 32, h, e) refl

xor_boxed : (x m : ℕ) → IsBoxed x → m >>> 32 ≡ 0 → IsBoxed (bit_xor x m)
unfolding IsBoxed
xor_boxed x m h e = rw (shr-bit_xor x m 32, h, e) refl

low_sign : (x : ℕ) → bit_and x (2 ^ 31) >>> 32 ≡ 0
low_sign x = shr-bit_and x (2 ^ 31) 32 ∙ bit_and-zero (x >>> 32)

high_ones : not64 (2 ^ 31) >>> 32 ≡ 0xffffffff
unfolding not64
high_ones = refl

-- A result that may be none.
abbrev SomeBoxed : Option ℕ → Type 0
SomeBoxed none = Unit {0}
SomeBoxed (some r) = IsBoxed r

sign_inject-SomeBoxed : (funct3 lhs rhs : ℕ) → SomeBoxed (sign_inject funct3 false lhs rhs)
unfolding sign_inject
sign_inject-SomeBoxed funct3 lhs rhs =
    if-elim SomeBoxed (funct3 == 0) (λ _. or_boxed _ _ cleared (low_sign rhs))
      (λ _.
        if-elim SomeBoxed (funct3 == 1) (λ _. or_boxed _ _ cleared (low_sign (not64 rhs)))
          (λ _.
            if-elim SomeBoxed (funct3 == 2) (λ _. xor_boxed _ _ (pack-IsBoxed lhs) (low_sign rhs))
              (λ _. tt)))
  where
    cleared : IsBoxed (bit_and (bit_or 0xffffffff00000000 (u32 lhs)) (not64 (2 ^ 31)))
    cleared = and_boxed _ _ (pack-IsBoxed lhs) high_ones

min_max-SomeBoxed :
    (funct3 lhs rhs : ℕ) → IsBoxed lhs → IsBoxed rhs → SomeBoxed (min_max funct3 false lhs rhs)
unfolding min_max
min_max-SomeBoxed funct3 lhs rhs hl hr =
    if-elim SomeBoxed (is_nan false lhs && is_nan false rhs)
      (λ _. pack-IsBoxed (canonical_nan false))
      (λ _.
        if-elim SomeBoxed (is_nan false lhs) (λ _. hr)
          (λ _.
            if-elim SomeBoxed (is_nan false rhs) (λ _. hl)
              (λ _.
                if-elim SomeBoxed (both_zero false lhs rhs)
                  (λ _. pack-IsBoxed (if funct3 == 0 then 2 ^ 31 else 0))
                  (λ _.
                    if-elim SomeBoxed (funct3 == 0) (λ _. pack-IsBoxed (c_fmin false lhs rhs))
                      (λ _.
                        if-elim SomeBoxed (funct3 == 1) (λ _. pack-IsBoxed (c_fmax false lhs rhs))
                          (λ _. tt))))))

module _ (f64 : Bool) (c : Cpu) (insn : ℕ) where
  -- What ran with its result in a register.
  pub binary-Keeps :
      (on_host : ℕ → ℕ → ℕ × Flags) (on_soft : ℕ → ℕ → ℕ × ℕ) (softfloat : Bool)
      → Keeps f64 c (binary on_host on_soft c insn softfloat f64).cpu
  unfolding binary
  binary-Keeps on_host on_soft softfloat =
      if-elim (λ (r : Ran). Keeps f64 c r.cpu) softfloat
        (λ _. freg_write-Keeps c (rd_of insn) _ (packed f64 _))
        (λ _. freg_write-Keeps c (rd_of insn) _ (canonised f64 _))

  -- What ran without a register for a float.
  injected-Keeps :
      (hooks : Hooks) (r : Option ℕ)
      → IsQuiet hooks
      → (f64 ≡ false → SomeBoxed r)
      → Keeps f64 c (injected hooks c insn r)
  unfolding injected
  injected-Keeps hooks none quiet b = do_iillegal-Keeps hooks c insn quiet
  injected-Keeps hooks (some res) quiet b = freg_write-Keeps c (rd_of insn) res b

  selected-Keeps :
      (hooks : Hooks) (r : Option ℕ)
      → IsQuiet hooks
      → (f64 ≡ false → SomeBoxed r)
      → Keeps f64 c (selected hooks c insn r)
  unfolding selected
  selected-Keeps hooks none quiet b = do_iillegal-Keeps hooks c insn quiet
  selected-Keeps hooks (some res) quiet b =
      if-elim (Keeps f64 c) (ltb 1 (funct3_of insn)) (λ _. do_iillegal-Keeps hooks c insn quiet)
        (λ _. freg_write-Keeps c (rd_of insn) res b)

  compared-Keeps :
      (hooks : Hooks) (r : Option (Bool × Bool))
      → IsQuiet hooks
      → Keeps f64 c (compared hooks c insn r)
  unfolding compared
  compared-Keeps hooks none quiet = do_iillegal-Keeps hooks c insn quiet
  compared-Keeps hooks (some (res, invalid)) quiet =
      Keeps-trans (xreg_write-Keeps c (rd_of insn) _) (check_fflags-Keeps _ _)

  pub compare-Keeps : (hooks : Hooks) → IsQuiet hooks → Keeps f64 c (float_compare hooks c insn f64)
  unfolding float_compare
  compare-Keeps hooks quiet = compared-Keeps hooks _ quiet

  pub sqrt-Keeps :
      (env : FloatEnv) (rounding soft_rounding : Rounding) (softfloat : Bool)
      → Keeps f64 c (float_sqrt env rounding soft_rounding c insn softfloat f64).cpu
  unfolding float_sqrt
  sqrt-Keeps env rounding soft_rounding softfloat =
      if-elim (λ (r : Ran). Keeps f64 c r.cpu) softfloat
        (λ _. freg_write-Keeps c (rd_of insn) _ (canonised f64 _))
        (λ _. freg_write-Keeps c (rd_of insn) _ (canonised f64 _))

  pub xtof-Keeps :
      (env : FloatEnv) (rounding soft_rounding : Rounding) (softfloat : Bool)
      → Keeps f64 c (float_xtof env rounding soft_rounding c insn softfloat f64).cpu
  unfolding float_xtof
  xtof-Keeps env rounding soft_rounding softfloat =
      if-elim (λ (r : Ran). Keeps f64 c r.cpu) softfloat
        (λ _. freg_write-Keeps c (rd_of insn) _ (packed f64 _))
        (λ _. freg_write-Keeps c (rd_of insn) _ (packed f64 _))

  pub ftox-Keeps :
      (env : FloatEnv) (rounding soft_rounding : Rounding) (softfloat : Bool)
      → Keeps f64 c (float_ftox env rounding soft_rounding c insn softfloat f64).cpu
  unfolding float_ftox
  ftox-Keeps env rounding soft_rounding softfloat =
      if-elim (λ (r : Ran). Keeps f64 c r.cpu) softfloat (λ _. xreg_write-Keeps c (rd_of insn) _)
        (λ _.
          Keeps-trans (accrue_if-Keeps _ nv_bit c (omega arith))
            (xreg_write-Keeps _ (rd_of insn) _))

  pub mvxf_fclass-Keeps : Keeps f64 c (float_mvxf_fclass c insn f64)
  unfolding float_mvxf_fclass
  mvxf_fclass-Keeps = xreg_write-Keeps c (rd_of insn) _

pub ftof-Keeps :
    (f64 : Bool) (c : Cpu) (insn : ℕ) (env : FloatEnv) (rounding soft_rounding : Rounding)
    (softfloat : Bool)
    → Keeps f64 c (float_ftof env rounding soft_rounding c insn softfloat f64).cpu
unfolding float_ftof
ftof-Keeps true c insn env rounding soft_rounding softfloat =
    freg_write-Keeps c (rd_of insn) _ (λ e. cc)
ftof-Keeps false c insn env rounding soft_rounding softfloat =
    if-elim (λ (r : Ran). Keeps false c r.cpu) softfloat
      (λ _. freg_write-Keeps c (rd_of insn) _ (canonised false _))
      (λ _. freg_write-Keeps c (rd_of insn) _ (canonised false _))

pub sgnj-Keeps :
    (f64 : Bool) (c : Cpu) (insn : ℕ) (hooks : Hooks)
    → IsQuiet hooks
    → Keeps f64 c (float_sgnj hooks c insn f64)
unfolding float_sgnj
sgnj-Keeps true c insn hooks quiet = injected-Keeps true c insn hooks _ quiet (λ e. cc)
sgnj-Keeps false c insn hooks quiet =
    injected-Keeps false c insn hooks _ quiet (λ _. sign_inject-SomeBoxed (funct3_of insn) _ _)

pub min_max-Keeps :
    (f64 : Bool) (c : Cpu) (insn : ℕ) (hooks : Hooks)
    → IsQuiet hooks
    → Keeps f64 c (float_min_max hooks c insn f64)
unfolding float_min_max
min_max-Keeps true c insn hooks quiet =
    Keeps-trans (accrue_if-Keeps _ nv_bit c (omega arith))
      (selected-Keeps true _ insn hooks _ quiet (λ e. cc))
min_max-Keeps false c insn hooks quiet = Keeps-trans (accrue_if-Keeps _ nv_bit c (omega arith)) (
    selected-Keeps false _ insn hooks _ quiet (λ _.
      min_max-SomeBoxed (funct3_of insn) _ _ (operand-IsBoxed c false (rs1_of insn) refl)
        (operand-IsBoxed c false (rs2_of insn) refl)))

pub mvfx-Keeps : (f64 : Bool) (c : Cpu) (insn : ℕ) → Keeps f64 c (float_mvfx c insn f64)
unfolding float_mvfx
mvfx-Keeps true c insn = freg_write-Keeps c (rd_of insn) _ (λ e. cc)
mvfx-Keeps false c insn = freg_write-Keeps c (rd_of insn) _ (packed false _)
