-- ===== src/Float/Ops/Canonical.antt =====
-- The NaNs that the arithmetic of emulator/src/cpu/rv_impl/float.c writes.
use riscmulator.Base.{
  ◌&&◌, get_or-set_self, List, sym, ap, subst, get_or, length, ◌<◌, ℕ, ◌≡◌, inl, inr, Bool, true,
  false, Option, some, refl, Bool-cases, ◌∙◌,
}
use riscmulator.Float.{funct3_of, Hooks, is_nan}
use riscmulator.Insn.{funct3_of, rd_of}
use riscmulator.Float.Env.{
  frm_to_softfloat, apply_frm, ffmt_of, Rounding, Flags, FloatEnv, Ran, float_funct5, pack,
  canon_nan, canonical_nan, check_fflags, accrue, accrue_if,
}
use riscmulator.Cpu.{freg_write, Cpu}
use riscmulator.Float.Ops.{format, rounded_op, conclude, is_fs_off, op_in_format, float_op_fp, run}
use riscmulator.Trap.{Hooks}
use riscmulator.Float.Arith.{
  binary, host_ran, float_add, float_sub, float_mul, float_div, float_sqrt, float_ftof,
}

-- The operations that compute a number of the format: the arithmetic, the square root and the
-- conversion from the other format.
pub data IsArithmetic : ℕ → Type 0 where
  addition : IsArithmetic 0b00000
  subtraction : IsArithmetic 0b00001
  multiplication : IsArithmetic 0b00010
  division : IsArithmetic 0b00011
  root : IsArithmetic 0b01011
  conversion : IsArithmetic 0b01000

IsCanonical : Bool → ℕ → Type 0
IsCanonical f64 r = is_nan f64 r ≡ true → r ≡ pack f64 (canonical_nan f64)

canon_nan-IsCanonical : (f64 : Bool) (res : ℕ) → IsCanonical f64 (canon_nan f64 res)
unfolding IsCanonical canon_nan
canon_nan-IsCanonical f64 res = elim (Bool-cases (is_nan f64 res)) [
  | inl e ↦ rw e (λ _. refl)
  | inr e ↦ rw e (λ h. cc)
]

-- What has run has written such a number.
WroteCanonical : Bool → Cpu → ℕ → Option Ran → Type 0
WroteCanonical f64 c rd ran =
    (value : ℕ) × (flags : Flags) × (ran ≡ some (host_ran c rd value flags)) × IsCanonical f64 value

run-WroteCanonical :
    (env : FloatEnv) (rounding soft_rounding : Rounding) (c : Cpu) (insn k : ℕ) (f64 : Bool)
    → IsArithmetic k
    → float_funct5 insn ≡ k
    → WroteCanonical f64 c (rd_of insn) (run env rounding soft_rounding c insn false f64)
unfolding run float_add float_sub float_mul float_div float_sqrt float_ftof binary WroteCanonical
run-WroteCanonical env rounding sr c insn k f64 addition e =
    rw e (_, _, refl, canon_nan-IsCanonical f64 _)
run-WroteCanonical env rounding sr c insn k f64 subtraction e =
    rw e (_, _, refl, canon_nan-IsCanonical f64 _)
run-WroteCanonical env rounding sr c insn k f64 multiplication e =
    rw e (_, _, refl, canon_nan-IsCanonical f64 _)
run-WroteCanonical env rounding sr c insn k f64 division e =
    rw e (_, _, refl, canon_nan-IsCanonical f64 _)
run-WroteCanonical env rounding sr c insn k f64 root e =
    rw e (_, _, refl, canon_nan-IsCanonical f64 _)
run-WroteCanonical env rounding sr c insn k true conversion e =
    rw e (_, _, refl, canon_nan-IsCanonical true _)
run-WroteCanonical env rounding sr c insn k false conversion e =
    rw e (_, _, refl, canon_nan-IsCanonical false _)

fregs-accrue_if : (b : Bool) (n : ℕ) (c : Cpu) → (accrue_if b n c).fregs ≡ c.fregs
unfolding accrue
fregs-accrue_if true n c = refl
fregs-accrue_if false n c = refl

fregs-check_fflags : (flags : Flags) (c : Cpu) → (check_fflags flags c).fregs ≡ c.fregs
unfolding check_fflags
fregs-check_fflags flags c =
    fregs-accrue_if flags.underflow 1 _
    ∙ fregs-accrue_if flags.overflow 2 _
    ∙ fregs-accrue_if flags.divbyzero 3 _
    ∙ fregs-accrue_if flags.inexact 0 _
    ∙ fregs-accrue_if flags.invalid 4 c

module _ (env : FloatEnv) (hooks : Hooks) (c : Cpu) (insn : ℕ) (f64 : Bool) where
  register-conclude :
      (value : ℕ) (flags : Flags)
      → rd_of insn < length c.fregs
      → get_or
          (conclude env hooks c insn false (some (host_ran c (rd_of insn) value flags))).fregs
          (rd_of insn)
          0
        ≡ value
  unfolding conclude freg_write
  register-conclude value flags room =
      ap (λ (l : List ℕ). get_or l (rd_of insn) 0)
        (fregs-check_fflags flags (freg_write c (rd_of insn) value))
      ∙ get_or-set_self c.fregs (rd_of insn) value 0 room

  held :
      (ran : Option Ran)
      → rd_of insn < length c.fregs
      → WroteCanonical f64 c (rd_of insn) ran
      → IsCanonical f64 (get_or (conclude env hooks c insn false ran).fregs (rd_of insn) 0)
  unfolding WroteCanonical
  held ran room (value, flags, is, good) =
      rw is (subst (IsCanonical f64) (sym (register-conclude value flags room)) good)

  -- On the host, the register then holds it.
  conclude-IsCanonical :
      (k : ℕ) (r sr : Rounding) (softfloat : Bool)
      → softfloat ≡ false
      → IsArithmetic k
      → float_funct5 insn ≡ k
      → rd_of insn < length c.fregs
      → IsCanonical f64 (
          get_or
            (conclude env hooks c insn softfloat (run env r sr c insn softfloat f64)).fregs
            (rd_of insn)
            0)
  conclude-IsCanonical k r sr true off what e room = cc
  conclude-IsCanonical k r sr false off what e room =
      held (run env r sr c insn false f64) room (run-WroteCanonical env r sr c insn k f64 what e)

  is_rounded :
      (k : ℕ) (rounding : Rounding)
      → IsArithmetic k
      → float_funct5 insn ≡ k
      → op_in_format env hooks rounding c insn (some f64) ≡ rounded_op env hooks rounding c insn f64
  unfolding op_in_format
  is_rounded k rounding addition e = rw e refl
  is_rounded k rounding subtraction e = rw e refl
  is_rounded k rounding multiplication e = rw e refl
  is_rounded k rounding division e = rw e refl
  is_rounded k rounding root e = rw e refl
  is_rounded k rounding conversion e = rw e refl

-- Without exact arithmetic, an addition, subtraction, multiplication, division, square root or
-- conversion from the other format leaves in its register no NaN but the canonical one of the format,
-- whatever NaN the host computes, if the floating-point state is on and the register exists.
pub float_op_fp-IsCanonical :
    (env : FloatEnv) (hooks : Hooks) (rounding : Rounding) (c : Cpu) (insn k : ℕ) (f64 : Bool)
    → env.exact_math ≡ false
    → is_fs_off c ≡ false
    → format (ffmt_of insn) ≡ some f64
    → IsArithmetic k
    → float_funct5 insn ≡ k
    → rd_of insn < length c.fregs
    → is_nan f64 (get_or (float_op_fp env hooks rounding c insn).1.fregs (rd_of insn) 0) ≡ true
    → get_or (float_op_fp env hooks rounding c insn).1.fregs (rd_of insn) 0
      ≡ pack f64 (canonical_nan f64)
unfolding float_op_fp IsCanonical
float_op_fp-IsCanonical env hooks rounding c insn k f64 host on fmt what e room =
    rw (on, fmt, is_rounded env hooks c insn f64 k rounding what e)
      (unfold rounded_op in
        conclude-IsCanonical env hooks c insn f64 k (apply_frm rounding c insn).0
          (frm_to_softfloat (funct3_of insn)) (env.exact_math && (apply_frm rounding c insn).1)
          (ap (λ (b : Bool). b && (apply_frm rounding c insn).1) host) what e room)
