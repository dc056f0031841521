-- ===== src/Step/Frame.antt =====
-- A step of a hart, emulator/src/cpu/rv_cpu.c, keeps the shape of the machine, whatever it executes.
use riscmulator.Base.{
  ◌<<<◌, bit_and, bit_or, not, ◌+◌, replicate, u64, ◌||◌, ◌==◌, ℕ, Option, none, some, if-elim,
}
use riscmulator.Decompress.{decompress}
use riscmulator.Step.{
  decompress, bytes_of, access_virt, advance, execute, step, step_compressed, step_full,
  thread_round, op_maj, FloatOps, forcefeed,
}
use riscmulator.Memory.{is_ok, le_value, fetch}
use riscmulator.Paging.{bytes_of}
use riscmulator.Paging.Frame.{access_virt-SameShape}
use riscmulator.Machine.Shape.{
  still_tame, SameShape-on_hart, SameShape, SameShape-refl, SameShape-trans, AllTame,
}
use riscmulator.Paging.Virt.{access_virt}
use riscmulator.Atomics.Frame.{atomic_op-SameShape}
use riscmulator.LoadStore.Frame.{base_store-SameShape, base_load-SameShape}
use riscmulator.Insn.{op_maj}
use riscmulator.Machine.{Machine, Accessed, hart_of, on_hart}

-- The float instructions keep the shape: they change the registers of their hart only.
pub record IsTameFloat {D : Type 0} (floats : FloatOps D) : Type 0 where
  pub op_fp_shape : (m : Machine D) (h insn : ℕ) → SameShape m (floats.op_fp m h insn)
  pub fmadd_shape : (m : Machine D) (h insn : ℕ) → SameShape m (floats.fmadd m h insn)

forcefeed-SameShape :
    {D : Type 0} (floats : FloatOps D) (m : Machine D) (h insn : ℕ)
    → IsTameFloat floats
    → AllTame m.mmio
    → SameShape m (forcefeed floats m h insn)
unfolding forcefeed
forcefeed-SameShape {D = D} floats m h insn tame_floats tame =
    if-elim like ((maj == 0b01100) || ((maj == 0b00100) || ((maj == 0b01110) || (maj == 0b00110))))
      (λ _. SameShape-on_hart m h _)
      (λ _.
        if-elim like ((maj == 0b00000) || (maj == 0b00001)) (λ _. base_load-SameShape m h insn tame)
          (λ _.
            if-elim like ((maj == 0b01000) || (maj == 0b01001))
              (λ _. base_store-SameShape m h insn tame)
              (λ _.
                if-elim like (maj == 0b11011) (λ _. SameShape-on_hart m h _)
                  (λ _.
                    if-elim like (maj == 0b11001) (λ _. SameShape-on_hart m h _)
                      (λ _.
                        if-elim like ((maj == 0b01101) || (maj == 0b00101))
                          (λ _. SameShape-on_hart m h _)
                          (λ _.
                            if-elim like (maj == 0b11100) (λ _. SameShape-on_hart m h _)
                              (λ _.
                                if-elim like (maj == 0b11000) (λ _. SameShape-on_hart m h _)
                                  (λ _.
                                    if-elim like (maj == 0b00011) (λ _. SameShape-refl m)
                                      (λ _.
                                        if-elim like (maj == 0b01011)
                                          (λ _. atomic_op-SameShape m h insn tame)
                                          (λ _.
                                            if-elim like (maj == 0b10100)
                                              (λ _. tame_floats.op_fp_shape m h insn)
                                              (λ _.
                                                if-elim like
                                                  ((maj == 0b10000)
                                                    || ((maj == 0b10011)
                                                        || ((maj == 0b10001) || (maj == 0b10010))))
                                                  (λ _. tame_floats.fmadd_shape m h insn)
                                                  (λ _. SameShape-on_hart m h _))))))))))))
  where
    maj : ℕ
    maj = op_maj insn

    like : Machine D → Type 0
    like = SameShape m

execute-SameShape :
    {D : Type 0} (floats : FloatOps D) (m : Machine D) (h size insn : ℕ)
    → IsTameFloat floats
    → AllTame m.mmio
    → SameShape m (execute floats m h size insn)
unfolding execute
execute-SameShape floats m h size insn tame_floats tame =
    let n = on_hart m h (advance size) in
    let fetched = SameShape-on_hart m h (advance size) in
    SameShape-trans
      (SameShape-trans fetched
        (forcefeed-SameShape floats n h insn tame_floats (still_tame fetched tame)))
      (SameShape-on_hart (forcefeed floats n h insn) h _)

step_compressed-SameShape :
    {D : Type 0} (floats : FloatOps D) (m : Machine D) (h hw : ℕ) (insn : Option ℕ)
    → IsTameFloat floats
    → AllTame m.mmio
    → SameShape m (step_compressed floats m h hw insn)
unfolding step_compressed
step_compressed-SameShape floats m h hw none tame_floats tame = SameShape-on_hart m h _
step_compressed-SameShape floats m h hw (some insn) tame_floats tame =
    execute-SameShape floats m h 2 insn tame_floats tame

step_full-SameShape :
    {D : Type 0} (floats : FloatOps D) (m : Machine D) (h hw : ℕ)
    → IsTameFloat floats
    → AllTame m.mmio
    → SameShape m (step_full floats m h hw)
unfolding step_full
step_full-SameShape {D = D} floats m h hw tame_floats tame =
    if-elim (SameShape m) (is_ok upper.result)
      (λ _. SameShape-trans went (
        execute-SameShape floats upper.machine h 4
          (bit_or hw (le_value (bytes_of upper.bytes) <<< 16)) tame_floats (still_tame went tame)))
      (λ _. SameShape-trans went (SameShape-on_hart upper.machine h _))
  where
    upper : Accessed D
    upper = access_virt m h (u64 ((hart_of m h).pc + 2)) (replicate 2 0) 1 fetch

    went : SameShape m upper.machine
    went = access_virt-SameShape m h _ (replicate 2 0) 1 fetch tame

-- A step of any instruction keeps the bounds and size of RAM, the regions and the numbers of harts
-- and reservations.
pub step-SameShape :
    {D : Type 0} (floats : FloatOps D) (m : Machine D) (h : ℕ)
    → IsTameFloat floats
    → AllTame m.mmio
    → SameShape m (step floats m h)
unfolding step
step-SameShape {D = D} floats m h tame_floats tame =
    if-elim (SameShape m) (not (is_ok lower.result))
      (λ _. SameShape-trans went (SameShape-on_hart lower.machine h _))
      (λ _.
        if-elim (SameShape m) (bit_and hw 3 == 3)
          (λ _.
            SameShape-trans went
              (step_full-SameShape floats lower.machine h hw tame_floats (still_tame went tame)))
          (λ _. SameShape-trans went (
            step_compressed-SameShape floats lower.machine h hw (decompress hw) tame_floats
              (still_tame went tame))))
  where
    lower : Accessed D
    lower = access_virt m h (hart_of m h).pc (replicate 2 0) 1 fetch

    hw : ℕ
    hw = le_value (bytes_of lower.bytes)

    went : SameShape m lower.machine
    went = access_virt-SameShape m h _ (replicate 2 0) 1 fetch tame

pub thread_round-SameShape :
    {D : Type 0} (floats : FloatOps D) (now : ℕ) (m : Machine D) (h : ℕ)
    → IsTameFloat floats
    → AllTame m.mmio
    → SameShape m (thread_round floats now m h)
unfolding thread_round
thread_round-SameShape {D = D} floats now m h tame_floats tame =
    if-elim (SameShape m) (hart_of (step floats m h) h).clint_timer_armed
      (λ _. SameShape-trans went (SameShape-on_hart (step floats m h) h _)) (λ _. went)
  where
    went : SameShape m (step floats m h)
    went = step-SameShape floats m h tame_floats tame
