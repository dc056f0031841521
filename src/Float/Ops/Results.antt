-- ===== src/Float/Ops/Results.antt =====
-- What the instructions of emulator/src/cpu/rv_impl/float.c do to the float registers and to `fcsr`,
-- whatever the arithmetic of the host and of the library.
use riscmulator.Base.{
  ==_iff, sym, ap, subst, inr, inl, Bool-cases, bit_and, ℕ, ◌<◌, ◌≡◌, ◌⊎◌, Bool, true, false,
  Option, none, some, if-elim, ◌==◌, refl, arith, ◌^◌, bit_or, ◌&&◌, get_or,
}
use riscmulator.Base.Bits.{bit_and-mask}
use riscmulator.Float.Ops.{
  do_iillegal, run, conclude, rounded_op, op_in_format, float_op_fp, fused, fused_in_format,
  float_fmadd, format, is_fs_off, float_ops,
}
use riscmulator.Trap.{do_iillegal, Hooks}
use riscmulator.Cpu.{Cpu}
use riscmulator.Insn.{rd_of, funct3_of}
use riscmulator.Machine.{Machine}
use riscmulator.Machine.Shape.{SameShape-on_hart}
use riscmulator.Step.Frame.{IsTameFloat}
use riscmulator.Float.Keeps.{
  IsBoxed, Keeps, IsQuiet, Keeps-trans, do_iillegal-Keeps, freg_write-Keeps, accrue-Keeps,
  accrue_if-Keeps, check_fflags-Keeps,
}
use riscmulator.Float.Env.{
  Rounding, FloatEnv, Ran, apply_frm, frm_to_softfloat, float_funct5, ffmt_of, nv_bit,
}
use riscmulator.Float.Ops.Singles.{
  binary-Keeps, compare-Keeps, sqrt-Keeps, xtof-Keeps, ftox-Keeps, mvxf_fclass-Keeps, ftof-Keeps,
  sgnj-Keeps, min_max-Keeps, mvfx-Keeps, packed,
}
use riscmulator.Float.Arith.{float_add, float_sub, float_mul, float_div}

-- What has run, if something has.
abbrev RanKeeps : Bool → Cpu → Option Ran → Type 0
RanKeeps f64 c none = Unit {0}
RanKeeps f64 c (some ran) = Keeps f64 c ran.cpu

module _ (env : FloatEnv) (hooks : Hooks) (c : Cpu) (insn : ℕ) where
  run-Keeps :
      (rounding : Rounding) (f64 : Bool) (soft_rounding : Rounding) (softfloat : Bool)
      → RanKeeps f64 c (run env rounding soft_rounding c insn softfloat f64)
  unfolding run float_add float_sub float_mul float_div
  run-Keeps rounding f64 sr sf =
      let K = RanKeeps f64 c in
      if-elim K (float_funct5 insn == 0b00000) (λ _. binary-Keeps f64 c insn _ _ sf)
        (λ _.
          if-elim K (float_funct5 insn == 0b00001) (λ _. binary-Keeps f64 c insn _ _ sf)
            (λ _.
              if-elim K (float_funct5 insn == 0b00010) (λ _. binary-Keeps f64 c insn _ _ sf)
                (λ _.
                  if-elim K (float_funct5 insn == 0b00011) (λ _. binary-Keeps f64 c insn _ _ sf)
                    (λ _.
                      if-elim K (float_funct5 insn == 0b01011)
                        (λ _. sqrt-Keeps f64 c insn env rounding sr sf)
                        (λ _.
                          if-elim K (float_funct5 insn == 0b01000)
                            (λ _. ftof-Keeps f64 c insn env rounding sr sf)
                            (λ _.
                              if-elim K (float_funct5 insn == 0b11010)
                                (λ _. xtof-Keeps f64 c insn env rounding sr sf)
                                (λ _.
                                  if-elim K (float_funct5 insn == 0b11000)
                                    (λ _. ftox-Keeps f64 c insn env rounding sr sf)
                                    (λ _.
                                      if-elim K (float_funct5 insn == 0b11100)
                                        (λ _. mvxf_fclass-Keeps f64 c insn)
                                        (λ _.
                                          if-elim K (float_funct5 insn == 0b11110)
                                            (λ _. mvfx-Keeps f64 c insn) (λ _. tt))))))))))

  conclude-Keeps :
      (f64 softfloat : Bool) (ran : Option Ran)
      → IsQuiet hooks
      → RanKeeps f64 c ran
      → Keeps f64 c (conclude env hooks c insn softfloat ran)
  unfolding conclude
  conclude-Keeps f64 softfloat none quiet k = do_iillegal-Keeps hooks c insn quiet
  conclude-Keeps f64 softfloat (some ran) quiet k =
      if-elim (Keeps f64 c) softfloat
        (λ _. Keeps-trans k (accrue-Keeps _ ran.cpu (low_five ran.soft_raised)))
        (λ _. Keeps-trans k (check_fflags-Keeps ran.raised ran.cpu))
    where
      low_five : (x : ℕ) → bit_and x 0x1f < 2 ^ 5
      low_five x = rw (bit_and-mask 5 x) (omega arith)

  op_in_format-Keeps :
      (rounding : Rounding) (f64 : Bool)
      → IsQuiet hooks
      → Keeps f64 c (op_in_format env hooks rounding c insn (some f64)).1
  unfolding op_in_format rounded_op
  op_in_format-Keeps rounding f64 quiet =
      let K = λ (r : Rounding × Cpu). Keeps f64 c r.1 in
      let applied = apply_frm rounding c insn in
      let soft = env.exact_math && applied.1 in
      if-elim K (float_funct5 insn == 0b10100) (λ _. compare-Keeps f64 c insn hooks quiet)
        (λ _.
          if-elim K (float_funct5 insn == 0b00100) (λ _. sgnj-Keeps f64 c insn hooks quiet)
            (λ _.
              if-elim K (float_funct5 insn == 0b00101) (λ _. min_max-Keeps f64 c insn hooks quiet)
                (λ _.
                  conclude-Keeps f64 soft _ quiet
                    (run-Keeps applied.0 f64 (frm_to_softfloat (funct3_of insn)) soft))))

  fused-Keeps :
      (rounding : Rounding) (f64 : Bool) (soft_rounding : Rounding) (softfloat : Bool)
      → Keeps f64 c (fused env rounding soft_rounding c insn softfloat f64).cpu
  unfolding fused
  fused-Keeps rounding f64 soft_rounding softfloat =
      if-elim (λ (r : Ran). Keeps f64 c r.cpu) softfloat
        (λ _.
          Keeps-trans (accrue_if-Keeps _ nv_bit c (omega arith))
            (freg_write-Keeps _ (rd_of insn) _ (packed f64 _)))
        (λ _.
          Keeps-trans (accrue_if-Keeps _ nv_bit c (omega arith))
            (freg_write-Keeps _ (rd_of insn) _ (packed f64 _)))

  fused_in_format-Keeps :
      (rounding : Rounding) (f64 : Bool)
      → IsQuiet hooks
      → Keeps f64 c (fused_in_format env hooks rounding c insn (some f64)).1
  unfolding fused_in_format
  fused_in_format-Keeps rounding f64 quiet =
      let applied = apply_frm rounding c insn in
      conclude-Keeps f64 (env.exact_math && applied.1) (some _) quiet (
        fused-Keeps applied.0 f64 (frm_to_softfloat (funct3_of insn)) (env.exact_math && applied.1))

  -- In what format an instruction runs, if in one.
  by_format :
      (rounding : Rounding) (f : Option Bool → Rounding × Cpu) (ffmt : ℕ)
      → IsQuiet hooks
      → f none ≡ (rounding, do_iillegal hooks c insn)
      → ((f64 : Bool) → Keeps f64 c (f (some f64)).1)
      → Keeps (ffmt == 1) c (f (format ffmt)).1
  by_format rounding f ffmt quiet e k = elim (Bool-cases (ffmt == 0)) [
    | inl z ↦
        subst (λ (n : ℕ). Keeps (n == 1) c (f (format n)).1) (sym ((==_iff ffmt 0).0 z)) (k false)
    | inr nz ↦ elim (Bool-cases (ffmt == 1)) [
      | inl o ↦ rw (nz, o) (k true)
      | inr other ↦ rw (nz, other, e) (do_iillegal-Keeps hooks c insn quiet)
    ]
  ]

  pub op_fp-Keeps :
      (rounding : Rounding)
      → IsQuiet hooks
      → Keeps (ffmt_of insn == 1) c (float_op_fp env hooks rounding c insn).1
  unfolding float_op_fp op_in_format
  op_fp-Keeps rounding quiet =
      if-elim (λ (r : Rounding × Cpu). Keeps (ffmt_of insn == 1) c r.1) (is_fs_off c)
        (λ _. do_iillegal-Keeps hooks c insn quiet)
        (λ _.
          by_format rounding (op_in_format env hooks rounding c insn) (ffmt_of insn) quiet refl
            (λ f64. op_in_format-Keeps rounding f64 quiet))

  pub fmadd-Keeps :
      (rounding : Rounding)
      → IsQuiet hooks
      → Keeps (ffmt_of insn == 1) c (float_fmadd env hooks rounding c insn).1
  unfolding float_fmadd fused_in_format
  fmadd-Keeps rounding quiet =
      if-elim (λ (r : Rounding × Cpu). Keeps (ffmt_of insn == 1) c r.1) (is_fs_off c)
        (λ _. do_iillegal-Keeps hooks c insn quiet)
        (λ _.
          by_format rounding (fused_in_format env hooks rounding c insn) (ffmt_of insn) quiet refl
            (λ f64. fused_in_format-Keeps rounding f64 quiet))

-- An instruction in single format, of OP-FP or a fused one, leaves in every float register what was
-- there or a boxed single, whatever the host and the library compute, if the hooks for an illegal
-- instruction leave the float registers and `fcsr` alone.
pub float_op_fp-IsBoxed :
    (env : FloatEnv) (hooks : Hooks) (rounding : Rounding) (c : Cpu) (insn i : ℕ)
    → IsQuiet hooks
    → ffmt_of insn ≡ 0
    → ((get_or (float_op_fp env hooks rounding c insn).1.fregs i 0 ≡ get_or c.fregs i 0)
        ⊎ IsBoxed (get_or (float_op_fp env hooks rounding c insn).1.fregs i 0))
      × ((get_or (float_fmadd env hooks rounding c insn).1.fregs i 0 ≡ get_or c.fregs i 0)
          ⊎ IsBoxed (get_or (float_fmadd env hooks rounding c insn).1.fregs i 0))
float_op_fp-IsBoxed env hooks rounding c insn i quiet single = (
  (op_fp-Keeps env hooks c insn rounding quiet).boxed (ap (λ (n : ℕ). n == 1) single) i,
  (fmadd-Keeps env hooks c insn rounding quiet).boxed (ap (λ (n : ℕ). n == 1) single) i,
)

-- An instruction of OP-FP, and a fused one, adds some of the five flags to `fcsr` and changes nothing
-- else of it, whatever the host and the library compute, if the hooks for an illegal instruction leave
-- the float registers and `fcsr` alone.
pub fcsr-float_op_fp :
    (env : FloatEnv) (hooks : Hooks) (rounding : Rounding) (c : Cpu) (insn : ℕ)
    → IsQuiet hooks
    → ((flags : ℕ) × (flags < 2 ^ 5)
        × ((float_op_fp env hooks rounding c insn).1.csr.fcsr ≡ bit_or c.csr.fcsr flags))
      × ((flags : ℕ) × (flags < 2 ^ 5)
          × ((float_fmadd env hooks rounding c insn).1.csr.fcsr ≡ bit_or c.csr.fcsr flags))
fcsr-float_op_fp env hooks rounding c insn quiet = (
  (op_fp-Keeps env hooks c insn rounding quiet).accrued,
  (fmadd-Keeps env hooks c insn rounding quiet).accrued,
)

-- These instructions change their hart only.
float_ops-IsTameFloat :
    {D : Type 0} (env : FloatEnv) (mode : Machine D → ℕ → Rounding)
    → IsTameFloat (float_ops env mode)
unfolding float_ops
float_ops-IsTameFloat env mode = record {
  op_fp_shape = λ m h insn. SameShape-on_hart m h _;
  fmadd_shape = λ m h insn. SameShape-on_hart m h _;
}
