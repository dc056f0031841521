-- ===== src/Machine/Examples.antt =====
-- A small machine: sixteen bytes of RAM from 4096 on, and a device of eight bytes behind them.
use riscmulator.Machine.Spec.{view-access_phys, spec_load, spec_store, view}
use riscmulator.Machine.Phys.{in_ram, pmp_allows, access_phys}
use riscmulator.Pmp.{check_from, pmp_check}
use riscmulator.Machine.{
  pmp_check, zero_cpu, Machine, Region, Accessed, init_harts, misaligned_access, done,
}
use riscmulator.Base.{◌-◌, ◌^◌, ℕ, ◌≡◌, refl, true, false, [], ◌∷◌, none, some, arith, replicate}
use riscmulator.Cpu.{zero_cpu}
use riscmulator.Machine.Ram.{is_permitted, access_phys-load_store, after_store}
use riscmulator.Machine.Shape.{AllTame, none_left, one_more}
use riscmulator.Machine.Safety.{IsSized, access_phys-overran}
use riscmulator.Machine.Parts.{IsTotal, misaligned_access-IsTotal}
use riscmulator.Memory.{load, store, ok}

abbrev pub latch : Region ℕ
latch = record {
  base = 4112;
  size = 8;
  read = λ d cpus offset size. (some d, d, cpus);
  write = λ d cpus offset size value. (true, value, cpus);
}

abbrev pub tiny : Machine ℕ
tiny = record {
  ram_start = 4096;
  ram_end = 4112;
  ram = replicate 16 7;
  trap_hook = λ _. none;
  cpus = record (zero_cpu) { privilege = 3; mem_privilege = 3 } ∷ [];
  reservations = record { addr = 4096; valid = true } ∷ [];
  mmio = latch ∷ [];
  devices = 5;
  clint = λ _. record { epoch_ns = 0; mtimecmp = []; deadline_ns = []; cpu_count = 0 };
  overran = false;
}

pub latch-AllTame : AllTame (latch ∷ [])
latch-AllTame =
    one_more
      (record {
        read_harts = λ d cpus offset size. refl;
        write_harts = λ d cpus offset size value. refl;
      })
      none_left

pub tiny-IsSized : IsSized tiny
tiny-IsSized = record { bounds = refl; below = omega arith }

-- An access of the last byte of the address space passes the check of the bounds of RAM.
wraps_around : (access_phys tiny 0 (2 ^ 64 - 1) (1 ∷ []) 0 store true).machine.overran ≡ true
unfolding access_phys riscmulator.Machine.copy_ram
wraps_around = refl

misaligned_access-IsTotal_example :
    IsTotal tiny (misaligned_access 4 tiny 4110 (some (1 ∷ 2 ∷ 3 ∷ 4 ∷ [])) 4 store)
misaligned_access-IsTotal_example =
    misaligned_access-IsTotal 4 tiny 4110 (some (1 ∷ 2 ∷ 3 ∷ 4 ∷ [])) 4 store (omega arith)
      latch-AllTame (omega arith) (omega arith) (omega arith)

access_phys-overran_example :
    (access_phys tiny 0 4110 (1 ∷ 2 ∷ 3 ∷ 4 ∷ []) 2 store false).machine.overran ≡ false
access_phys-overran_example =
    access_phys-overran tiny 0 4110 (1 ∷ 2 ∷ 3 ∷ 4 ∷ []) 2 store false tiny-IsSized latch-AllTame
      (omega arith) (omega arith)

access_phys-load_store_example :
    access_phys
      (access_phys tiny 0 4098 (1 ∷ 2 ∷ []) 1 store false).machine
      0
      4098
      (0 ∷ 0 ∷ [])
      1
      load
      false
    ≡ done ok (some (1 ∷ 2 ∷ [])) (after_store tiny 4098 (1 ∷ 2 ∷ []))
unfolding is_permitted pmp_allows pmp_check check_from in_ram
access_phys-load_store_example =
    access_phys-load_store tiny 0 4098 (1 ∷ 2 ∷ []) (0 ∷ 0 ∷ []) 1 false tiny-IsSized refl refl refl
      (omega arith) (omega arith) refl refl

view-access_phys_example :
    (view (access_phys tiny 0 4098 (1 ∷ 2 ∷ []) 1 store false).machine 4099
      ≡ spec_store (view tiny) 4098 (1 ∷ 2 ∷ []) 4099)
    × (access_phys tiny 0 4098 (0 ∷ 0 ∷ []) 1 load false
        ≡ done ok (some (spec_load (view tiny) 4098 2)) tiny)
unfolding is_permitted pmp_allows pmp_check check_from in_ram
view-access_phys_example =
    view-access_phys tiny 0 4098 4099 (1 ∷ 2 ∷ []) (0 ∷ 0 ∷ []) 1 false tiny-IsSized refl refl refl
      (omega arith) (omega arith) refl refl
