-- ===== src/Clint/Registers.antt =====
-- The registers of the harts: what a write of `mtimecmp` or `MSIP` makes later reads return.
use riscmulator.Base.{
  ◌⊎◌, ◌&&◌, ◌↔◌, ℕ, ◌+◌, ◌*◌, ◌%◌, ◌≤◌, ◌<◌, ◌≡◌, arith, ◌==◌, if◌then◌else◌, List, length, get_or,
  set, none, some, ◌/◌, ◌-◌, get_or-set_self, get_or-set_ne,
}
use riscmulator.Clint.{
  drive_msip, Clint, mtimecmp_reg, msip_reg, target, read, write, read_target, write_target,
  mtimecmp_base, mtimecmp_stride, msip_stride, msip_bit, set_mtimecmp,
}
use riscmulator.Base.Bits.{bit, bit-set, bit-clear, bit_and-shr-one, bit_and-mask}
use riscmulator.Cpu.{Cpu}
use riscmulator.Cpu.Update.{hart, update_hart, hart-update_hart_self, hart-update_hart_ne}

-- The addresses of the specification: 8 bytes per hart from 0x4000, up to `mtime` at 0xbff8, and
-- 4 bytes per hart from 0.
abbrev pub mtimecmp_address : ℕ → ℕ
mtimecmp_address h = 0x4000 + 8 * h

abbrev pub msip_address : ℕ → ℕ
msip_address h = 4 * h

target-mtimecmp :
    (clint : Clint) (h : ℕ)
    → h < clint.cpu_count
    → h < 4095
    → target clint (mtimecmp_address h) 8 ≡ some (mtimecmp_reg h)
unfolding target
target-mtimecmp clint h lt small =
    let e : (mtimecmp_address h - mtimecmp_base) / mtimecmp_stride ≡ h = omega arith in
    rw e (ground arith)

target-msip :
    (clint : Clint) (h : ℕ)
    → h < clint.cpu_count
    → h < 4096
    → target clint (msip_address h) 4 ≡ some (msip_reg h)
unfolding target
target-msip clint h lt small =
    let e : msip_address h / msip_stride ≡ h = omega arith in rw e (ground arith)

get_or-set_if :
    (xs : List ℕ) (h j v : ℕ)
    → h < length xs
    → get_or (set xs h v) j 0 ≡ (if h == j then v else get_or xs j 0)
get_or-set_if xs h j v lt = ground (arith, get_or-set_self xs h v 0, get_or-set_ne xs h j v 0)

-- On arrays of their sizes, a write of a hart's `mtimecmp` is accepted, and a later read of any
-- hart's `mtimecmp` returns the value written, or the old one for another hart. The table has
-- room for 4095 harts.
pub read-write_mtimecmp :
    (now later : ℕ) (clint : Clint) (cpus : List Cpu) (h j v : ℕ)
    → length clint.mtimecmp ≡ clint.cpu_count
    → clint.cpu_count ≤ 4095
    → h < clint.cpu_count
    → j < clint.cpu_count
    → (write now clint cpus (mtimecmp_address h) 8 v ≡ some (set_mtimecmp clint cpus h v))
      × (read later
            (set_mtimecmp clint cpus h v).0
            (set_mtimecmp clint cpus h v).1
            (mtimecmp_address j)
            8
          ≡ some (if h == j then v else get_or clint.mtimecmp j 0))
unfolding read write set_mtimecmp
read-write_mtimecmp now later clint cpus h j v len room hh hj = (
  rw (target-mtimecmp clint h hh (omega arith)),
  rw (
    target-mtimecmp (set_mtimecmp clint cpus h v).0 j hj (omega arith),
    get_or-set_if clint.mtimecmp h j v (rw len hh),
  ),
)

irq_pending-drive_msip :
    (v k : ℕ) (cpu : Cpu)
    → k < 64
    → bit (drive_msip v cpu).irq_pending k
      ≡ (if k == msip_bit then v % 2 else bit cpu.irq_pending k)
unfolding drive_msip
irq_pending-drive_msip v k cpu h = ground (
  arith,
  bit_and-mask 1 v,
  bit-set cpu.irq_pending msip_bit k,
  bit-clear cpu.irq_pending msip_bit k,
)

-- On harts that exist, a write of a hart's `MSIP` is accepted. It makes bit 3 of that hart's
-- pending interrupts bit 0 of the value, which a later read returns, and changes no other bit
-- and no other hart's bits; so a read of another hart's `MSIP` returns what it did. The region
-- has room for 4096 harts.
read-write_msip :
    (now later : ℕ) (clint : Clint) (cpus : List Cpu) (h j k v : ℕ)
    → length cpus ≡ clint.cpu_count
    → clint.cpu_count ≤ 4096
    → h < clint.cpu_count
    → j < clint.cpu_count
    → k < 64
    → (write now clint cpus (msip_address h) 4 v ≡ some (clint, update_hart cpus h (drive_msip v)))
      × (bit (hart (update_hart cpus h (drive_msip v)) j).irq_pending k
          ≡ (if (h == j) && (k == msip_bit) then v % 2 else bit (hart cpus j).irq_pending k))
      × (read later clint (update_hart cpus h (drive_msip v)) (msip_address j) 4
          ≡ some (if h == j then v % 2 else bit (hart cpus j).irq_pending msip_bit))
unfolding write write_target read read_target
read-write_msip now later clint cpus h j k v len room hh hj hk = (
  rw (target-msip clint h hh (omega arith)),
  cell k hk,
  rw
      (
        target-msip clint j hj (omega arith),
        bit_and-shr-one (hart (update_hart cpus h (drive_msip v)) j).irq_pending msip_bit,
        cell msip_bit (omega arith),
      )
      (ground arith),
)
  where
    cell :
        (k : ℕ)
        → k < 64
        → bit (hart (update_hart cpus h (drive_msip v)) j).irq_pending k
          ≡ (if (h == j) && (k == msip_bit) then v % 2 else bit (hart cpus j).irq_pending k)
    cell k hk = ground (
      arith,
      hart-update_hart_self cpus h (drive_msip v),
      hart-update_hart_ne cpus h j (drive_msip v),
      irq_pending-drive_msip v k (hart cpus h),
      len,
    )

-- `clint_read` and `clint_write` refuse the same accesses, whatever the state of the registers;
-- and every access that is neither of 8 nor of 4 bytes is refused.
pub access-refused :
    (now later : ℕ) (clint : Clint) (cpus : List Cpu) (offset size v : ℕ)
    → ((read now clint cpus offset size ≡ none) ↔ (write later clint cpus offset size v ≡ none))
      × ((size ≡ 8) ⊎ ((size ≡ 4) ⊎ (read now clint cpus offset size ≡ none)))
access-refused now later clint cpus offset size v =
    (unfold read write in ground arith, unfold read target in ground arith)
