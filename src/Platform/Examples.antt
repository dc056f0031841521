-- ===== src/Platform/Examples.antt =====
-- A board with a PLIC at 0xc000000 and one hart.
use riscmulator.Base.{
  inr, ◌≤◌, bit_or, ◌^◌, zero, suc, ℕ, ◌≡◌, ◌<◌, refl, true, false, List, [], ◌∷◌, none, arith,
  length,
}
use riscmulator.Trap.{intr_flag, enter, check_interrupts}
use riscmulator.Plic.{
  Plic, set_pending, do_claim, claimable, priority_of, write as plic_write, init as plic_init,
}
use riscmulator.Plic.Invariant.{IsValid, write-IsValid, init-IsValid}
use riscmulator.Cpu.{zero_csr, zero_cpu, Cpu}
use riscmulator.Platform.Delivery.{set_pending-IsDelivered}
use riscmulator.Base.Bits.{bit-zero, bit}
use riscmulator.Cpu.Update.{hart}
use riscmulator.Machine.Phys.{access_phys}
use riscmulator.Platform.{Cpu, Devices, plic_region}
use riscmulator.Plic.Lines.{is_external}
use riscmulator.Machine.{Machine}
use riscmulator.Memory.{store}
use riscmulator.Platform.Board.{IsPlicBoard, access_phys-IsPlicBoard}
use riscmulator.Clint.{init as clint_init}

abbrev one_hart : List Cpu
one_hart = record (zero_cpu) { privilege = 3; mem_privilege = 3 } ∷ []

abbrev board : Machine Devices
board = record {
  ram_start = 4096;
  ram_end = 4096;
  ram = [];
  trap_hook = λ _. none;
  cpus = one_hart;
  reservations = [];
  mmio = plic_region 0xc000000 ∷ [];
  devices = record { plic = plic_init 1; clint = clint_init 0 1; now = 0 };
  clint = λ d. d.clint;
  overran = false;
}

quiet_hart :
    (h k : ℕ) → h < length one_hart → is_external k ≡ true → bit (hart one_hart h).irq_pending k ≡ 0
quiet_hart zero k hh ext = bit-zero k
quiet_hart (suc h) k hh ext = absurd (omega arith)

board-IsPlicBoard : IsPlicBoard 0xc000000 board
board-IsPlicBoard = record { only = refl; valid = init-IsValid one_hart quiet_hart }

-- A store of the priority of source 1.
access_phys-IsPlicBoard_example :
    IsPlicBoard 0xc000000 (access_phys board 0 0xc000004 (7 ∷ 0 ∷ 0 ∷ 0 ∷ []) 2 store false).machine
access_phys-IsPlicBoard_example =
    access_phys-IsPlicBoard 0xc000000 board 0 0xc000004 (7 ∷ 0 ∷ 0 ∷ 0 ∷ []) 2 store false
      board-IsPlicBoard

-- A hart that takes MEI, and a controller whose source 1 has priority 7 and is enabled for it.
abbrev listening : List Cpu
listening =
    record (zero_cpu) {
      privilege = 3;
      mem_privilege = 3;
      csr = record (zero_csr) { mie = 2 ^ 11; mstatus = 2 ^ 3 };
    }
    ∷ []

listening-quiet :
    (h k : ℕ)
    → h < length listening
    → is_external k ≡ true
    → bit (hart listening h).irq_pending k ≡ 0
listening-quiet zero k hh ext = bit-zero k
listening-quiet (suc h) k hh ext = absurd (omega arith)

abbrev prioritised : Plic × List Cpu
prioritised = (plic_write (plic_init 1) listening 4 4 7).1

abbrev enabled_source : Plic × List Cpu
enabled_source = (plic_write prioritised.0 prioritised.1 0x2000 4 2).1

enabled_source-IsValid : IsValid enabled_source.0 enabled_source.1
enabled_source-IsValid =
    write-IsValid prioritised.0 prioritised.1 0x2000 4 2
      (write-IsValid (plic_init 1) listening 4 4 7 (init-IsValid listening listening-quiet))

set_pending-IsDelivered_example :
    (check_interrupts (λ _. none) (hart (set_pending enabled_source.0 enabled_source.1 1).1 0)
      ≡ enter
          (hart (set_pending enabled_source.0 enabled_source.1 1).1 0)
          (record { epc = 0; cause = bit_or intr_flag 11; tval = 0 }))
    × (claimable
          (set_pending enabled_source.0 enabled_source.1 1).0
          0
          (do_claim
            (set_pending enabled_source.0 enabled_source.1 1).0
            (set_pending enabled_source.0 enabled_source.1 1).1
            0).0
        ≡ true)
    × (priority_of (set_pending enabled_source.0 enabled_source.1 1).0 1
        ≤ priority_of
            (set_pending enabled_source.0 enabled_source.1 1).0
            (do_claim
              (set_pending enabled_source.0 enabled_source.1 1).0
              (set_pending enabled_source.0 enabled_source.1 1).1
              0).0)
unfolding riscmulator.Plic.write riscmulator.Plic.init riscmulator.Plic.update_harts
    riscmulator.Plic.update_context riscmulator.Cpu.Update.update_hart riscmulator.Plic.is_enabled
    bit
set_pending-IsDelivered_example =
    set_pending-IsDelivered (λ _. none) enabled_source.0 enabled_source.1 0 1 enabled_source-IsValid
      (omega arith) (omega arith) (omega arith) (omega arith) refl (omega arith)
      (record { enabled = refl; kept = refl; level = inr refl })
