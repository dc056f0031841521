-- ===== src/Platform/Board.antt =====
-- A machine with the PLIC of emulator/src/device/rv_plic.c as its device: accesses through
-- emulator/src/emu_machine.c keep the interrupt lines as the PLIC's registers say.
use riscmulator.Machine.Kept.{access_phys-keeps, copy_ram-keeps, IsKept}
use riscmulator.Machine.{
  after_read, after_write, find_region, mmio_dispatch, Machine, Region, Accessed, Buffer,
}
use riscmulator.Base.{
  refl, sub64, sym, subst, ℕ, ◌≡◌, Bool, true, false, Option, none, some, List, if-elim, [], ◌∷◌,
}
use riscmulator.Memory.{take, le_value, is_store, Access}
use riscmulator.Machine.Phys.{access_phys}
use riscmulator.Cpu.{Cpu}
use riscmulator.Platform.{Cpu, plic_got, plic_put, Devices, plic_region}
use riscmulator.Plic.Invariant.{IsValid, read-IsValid, write-IsValid}
use riscmulator.Plic.{read as plic_read, write as plic_write, Plic}

-- The PLIC is the only device, and it and the harts are in a valid state.
pub record IsPlicBoard (base : ℕ) (m : Machine Devices) : Type 0 where
  pub only : m.mmio ≡ plic_region base ∷ []
  pub valid : IsValid m.devices.plic m.cpus

record Stays (base : ℕ) (a : Accessed Devices) : Type 0 where
  board : IsPlicBoard base a.machine

after_read-Stays :
    (base : ℕ) (m : Machine Devices) (bytes : List ℕ) (size : ℕ)
    (reply : Bool × (ℕ × Plic × List Cpu))
    → IsPlicBoard base m
    → IsValid reply.1.1 reply.1.2
    → Stays base (after_read m bytes size (plic_got m.devices reply))
unfolding after_read plic_got
after_read-Stays base m bytes size (true, (val, plic, cpus)) b v = record {
  board = record { only = b.only; valid = v };
}
after_read-Stays base m bytes size (false, (val, plic, cpus)) b v = record {
  board = record { only = b.only; valid = v };
}

after_write-Stays :
    (base : ℕ) (m : Machine Devices) (bytes : List ℕ) (reply : Bool × (Plic × List Cpu))
    → IsPlicBoard base m
    → IsValid reply.1.0 reply.1.1
    → Stays base (after_write m bytes (plic_put m.devices reply))
unfolding after_write plic_put
after_write-Stays base m bytes (accepted, (plic, cpus)) b v = record {
  board = record { only = b.only; valid = v };
}

mmio_dispatch-Stays :
    (base : ℕ) (m : Machine Devices) (addr : ℕ) (bytes : Buffer) (size : ℕ) (mode : Access)
    → IsPlicBoard base m
    → Stays base (mmio_dispatch m (plic_region base) addr bytes size mode)
unfolding mmio_dispatch plic_region
mmio_dispatch-Stays base m addr none size mode b = record { board = b }
mmio_dispatch-Stays base m addr (some bytes) size mode b =
    if-elim (Stays base) (is_store mode)
      (λ _.
        after_write-Stays base m bytes
          (plic_write m.devices.plic m.cpus (sub64 addr base) size (le_value (take size bytes))) b
          (write-IsValid m.devices.plic m.cpus (sub64 addr base) size (le_value (take size bytes))
            b.valid))
      (λ _.
        after_read-Stays base m bytes size (plic_read m.devices.plic m.cpus (sub64 addr base) size)
          b (read-IsValid m.devices.plic m.cpus (sub64 addr base) size b.valid))

-- What a search finds is the PLIC.
data FindsPlic (base : ℕ) : Option (Region Devices) → Type 0 where
  no_region : FindsPlic base none
  the_plic : FindsPlic base (some (plic_region base))

find_region-FindsPlic :
    (base : ℕ) (m : Machine Devices) (test : Region Devices → Bool)
    → IsPlicBoard base m
    → FindsPlic base (find_region test m.mmio)
unfolding find_region
find_region-FindsPlic base m test b =
    subst (λ (rs : List (Region Devices)). FindsPlic base (find_region test rs)) (sym b.only)
      (if-elim (FindsPlic base) (test (plic_region base)) (λ _. the_plic) (λ _. no_region))

the_plic-only : (base : ℕ) (r : Region Devices) → FindsPlic base (some r) → r ≡ plic_region base
the_plic-only base r the_plic = refl

-- Copies and the callbacks of the PLIC keep the board.
board-IsKept : (base : ℕ) → IsKept (IsPlicBoard base)
board-IsKept base = record {
  ram = λ m addr bytes size mode b.
      copy_ram-keeps (IsPlicBoard base) m addr bytes size mode
        (λ ram overran. record { only = b.only; valid = b.valid });
  device = λ m test r addr bytes size mode e b.
      rw (the_plic-only base r (subst (FindsPlic base) e (find_region-FindsPlic base m test b)))
        (mmio_dispatch-Stays base m addr bytes size mode b).board;
}

-- On a machine whose device is a PLIC, an access to physical memory of any hart, address, size and
-- kind, also one that ends in a fault, keeps the PLIC's invariant: its arrays of priorities, pending
-- bits, contexts and enable bits have their sizes, and each hart's external interrupt lines are as
-- the PLIC's registers say.
pub access_phys-IsPlicBoard :
    (base : ℕ) (m : Machine Devices) (h addr : ℕ) (bytes : List ℕ) (size_exp : ℕ) (mode : Access)
    (ignore_pmp : Bool)
    → IsPlicBoard base m
    → IsPlicBoard base (access_phys m h addr bytes size_exp mode ignore_pmp).machine
access_phys-IsPlicBoard base m h addr bytes size_exp mode ignore_pmp b =
    access_phys-keeps (IsPlicBoard base) (board-IsKept base) m h addr bytes size_exp mode ignore_pmp
      b
