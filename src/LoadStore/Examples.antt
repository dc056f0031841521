-- ===== src/LoadStore/Examples.antt =====
-- SW x1, 0(x2) and LW x3, 0(x2) on a machine with sixteen bytes of RAM.
use riscmulator.Pmp.{pmp_check}
use riscmulator.Base.{sign_extend, ℕ, ◌≡◌, refl, false, [], ◌∷◌, none, replicate, set}
use riscmulator.Cpu.{xreg_write, xreg_read, zero_cpu}
use riscmulator.LoadStore.{xreg_read, base_load, base_store}
use riscmulator.Machine.{Machine, hart_of}
use riscmulator.Memory.{le_bytes}

abbrev m : Machine ℕ
m = record {
  ram_start = 4096;
  ram_end = 4112;
  ram = replicate 16 7;
  trap_hook = λ _. none;
  cpus =
      record (zero_cpu) {
        privilege = 3;
        mem_privilege = 3;
        xregs = set (set (replicate 32 0) 1 0xfffffffe) 2 4096;
      }
      ∷ [];
  reservations = [];
  mmio = [];
  devices = 0;
  clint = λ _. record { epoch_ns = 0; mtimecmp = []; deadline_ns = []; cpu_count = 0 };
  overran = false;
}

abbrev sw : ℕ
sw = 0x00112023

abbrev lw : ℕ
lw = 0x00012183

extends_sign :
    (hart_of (base_load (base_store m 0 sw) 0 lw) 0).xregs
    ≡ set (set (set (replicate 32 0) 1 0xfffffffe) 2 4096) 3 0xfffffffffffffffe
unfolding base_load base_store pmp_check xreg_read xreg_write sign_extend
    riscmulator.Paging.Virt.access_virt riscmulator.Machine.Phys.access_phys
    riscmulator.Machine.copy_ram riscmulator.Memory.store_bytes riscmulator.Memory.take le_bytes
    riscmulator.Cpu.Update.update_hart riscmulator.Memory.le_value riscmulator.Memory.overwrite
    riscmulator.Memory.load_bytes
extends_sign = refl
