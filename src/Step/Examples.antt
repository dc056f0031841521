-- ===== src/Step/Examples.antt =====
-- A machine with the interrupt controllers as its devices, and one step of its first hart.
use riscmulator.Float.Ops.{float_ops}
use riscmulator.Float.Env.{FloatEnv, Arithmetic, no_flags, near_even}
use riscmulator.Base.{
  get_or, ℕ, ◌≡◌, ◌+◌, refl, Bool, true, false, List, [], ◌∷◌, Option, none, some, arith, replicate,
  set, length,
}
use riscmulator.Cpu.{zero_cpu}
use riscmulator.Machine.{init_hart, Machine, init, hart_of}
use riscmulator.Plic.{init as plic_init}
use riscmulator.Clint.{init as clint_init}
use riscmulator.Step.{FloatOps, step}
use riscmulator.Platform.{Devices, plic_region, clint_region}

-- A host on which every operation gives zero and no flags.
abbrev zeros : {F : Type 0} → F → Arithmetic F
zeros flags = record {
  add = λ f64 r x y. (0, flags);
  sub = λ f64 r x y. (0, flags);
  mul = λ f64 r x y. (0, flags);
  div = λ f64 r x y. (0, flags);
  sqrt = λ f64 r x. (0, flags);
  mul_add = λ f64 r x y z. (0, flags);
  to_single = λ r x. (0, flags);
  of_word = λ f64 r u w x. (0, flags);
}

abbrev host_floats : FloatEnv
host_floats = record {
  host = record {
    arith_of = zeros no_flags;
    to_double = λ x. (x, no_flags);
    rint = λ r x. (x, no_flags);
    truncate = λ x. x;
  };
  soft = record { arith_of = zeros 0; to_word = λ f64 r u w x. (0, 0) };
  exact_math = false;
}

abbrev floats : FloatOps Devices
floats = float_ops host_floats (λ m h. near_even)

abbrev board : Machine Devices
board = record {
  ram_start = 0;
  ram_end = 0;
  ram = [];
  trap_hook = λ _. none;
  cpus = [];
  reservations = [];
  mmio = plic_region 0xc000000 ∷ clint_region 0x2000000 ∷ [];
  devices = record { plic = plic_init 2; clint = clint_init 0 1; now = 0 };
  clint = λ d. d.clint;
  overran = false;
}

abbrev booted : Machine Devices
booted = init board 1 0x80000000 16

-- ADDI x1, x0, 5 in RAM: one step writes x1 and moves `pc` on.
abbrev loaded_board : Machine Devices
loaded_board = record booted {
  ram = 0x93 ∷ 0x00 ∷ 0x50 ∷ 0x00 ∷ replicate 12 0;
  cpus = record (zero_cpu) { privilege = 3; mem_privilege = 3; pc = 0x80000000 } ∷ [];
}

executes : (hart_of (step floats loaded_board 0) 0).pc ≡ 0x80000004
unfolding step riscmulator.Paging.Virt.access_virt riscmulator.Machine.Phys.access_phys
    riscmulator.Pmp.pmp_check init riscmulator.Machine.copy_ram riscmulator.Memory.le_value
    riscmulator.Memory.overwrite riscmulator.Memory.load_bytes riscmulator.Cpu.Update.update_hart
    riscmulator.Trap.check_interrupts riscmulator.Alu.base_op riscmulator.Cpu.xreg_write
executes = refl

writes : get_or (hart_of (step floats loaded_board 0) 0).xregs 1 0 ≡ 5
unfolding step riscmulator.Paging.Virt.access_virt riscmulator.Machine.Phys.access_phys
    riscmulator.Pmp.pmp_check init riscmulator.Machine.copy_ram riscmulator.Memory.le_value
    riscmulator.Memory.overwrite riscmulator.Memory.load_bytes riscmulator.Cpu.Update.update_hart
    riscmulator.Trap.check_interrupts riscmulator.Alu.base_op riscmulator.Cpu.xreg_write
    riscmulator.Cpu.xreg_read riscmulator.Base.sign_extend
writes = refl
