-- ===== src/Clint.antt =====
-- emulator/src/device/rv_clint.c: the core-local interruptor, a timer and software interrupts.
-- `now` is the reading of the monotonic clock, in nanoseconds, at the moment of the call. The
-- lock is not modelled: calls are atomic.
pub mod Time
pub mod Invariant
pub mod Timer
pub mod Registers
mod Examples
use riscmulator.Base.{
  ℕ, zero, suc, ◌+◌, ◌-◌, ◌*◌, ◌/◌, ◌%◌, ◌^◌, bit_and, bit_or, Bool, true, false, ◌&&◌, List,
  Option, none, some, truth, ltb, leb, ◌==◌, if◌then◌else◌, get_or, set, replicate, ◌>>>◌, u64,
  sub64, not64,
}
use mathlib.Core.Option
use riscmulator.Cpu.{Cpu}
use riscmulator.Cpu.Update.{hart, update_hart}

abbrev pub ns_per_tick : ℕ
ns_per_tick = 100

abbrev pub msip_stride : ℕ
msip_stride = 4

abbrev pub mtimecmp_base : ℕ
mtimecmp_base = 0x4000

abbrev pub mtimecmp_stride : ℕ
mtimecmp_stride = 8

abbrev pub mtime_offset : ℕ
mtime_offset = 0xbff8

abbrev pub msip_bit : ℕ
msip_bit = 3

abbrev pub mtip_bit : ℕ
mtip_bit = 7

-- `struct rv_clint`, without the back-reference and the lock.
pub record Clint : Type 0 where
  pub epoch_ns : ℕ
  pub mtimecmp : List ℕ
  pub deadline_ns : List ℕ
  pub cpu_count : ℕ

-- `rv_clint_init`, after allocations that succeed.
unfoldable pub init : ℕ → ℕ → Clint
init now n = record {
  epoch_ns = now;
  mtimecmp = replicate n 0;
  deadline_ns = replicate n (2 ^ 64 - 1);
  cpu_count = n;
}

-- `rv_clint_mtime`.
unfoldable pub mtime : ℕ → Clint → ℕ
mtime now clint = sub64 now clint.epoch_ns / ns_per_tick

-- The deadline of a compare value, as the code computes it in 64 bits.
abbrev pub deadline_of : ℕ → ℕ → ℕ
deadline_of epoch value = u64 (epoch + u64 (value * ns_per_tick))

unfoldable pub clear_irq : ℕ → Cpu → Cpu
clear_irq k cpu = record cpu { irq_pending = bit_and cpu.irq_pending (not64 (2 ^ k)) }

unfoldable pub raise_irq : ℕ → Cpu → Cpu
raise_irq k cpu = record cpu { irq_pending = bit_or cpu.irq_pending (2 ^ k) }

unfoldable pub arm_timer : Cpu → Cpu
unfolding clear_irq
arm_timer cpu = record (clear_irq mtip_bit cpu) { clint_timer_armed = true }

-- `rv_clint_set_mtimecmp`.
unfoldable pub set_mtimecmp : Clint → List Cpu → ℕ → ℕ → Clint × List Cpu
unfolding arm_timer
set_mtimecmp clint cpus h value = (
  record clint {
    mtimecmp = set clint.mtimecmp h value;
    deadline_ns = set clint.deadline_ns h (deadline_of clint.epoch_ns value);
  },
  update_hart cpus h arm_timer,
)

-- `rv_clint_check_timer`.
unfoldable pub check_timer : ℕ → Clint → Cpu → Cpu
unfolding raise_irq
check_timer now clint cpu =
    if leb (get_or clint.deadline_ns cpu.csr.mhartid 0) now
    then record (raise_irq mtip_bit cpu) { clint_timer_armed = false }
    else cpu

-- The decoding that `clint_read` and `clint_write` share: which register an access names.
pub data Target : Type 0 where
  mtime_reg : Target
  mtimecmp_reg : ℕ → Target
  msip_reg : ℕ → Target

-- The first condition of both callbacks, then the second, then the third; `none` is the
-- final `return false`.
unfoldable pub target : Clint → ℕ → ℕ → Option Target
target clint offset size =
    let cmp = (offset - mtimecmp_base) / mtimecmp_stride in
    let sip = offset / msip_stride in
    if (offset == mtime_offset) && (size == 8)
    then some mtime_reg
    else if leb mtimecmp_base offset
        && (size == 8)
        && ltb cmp clint.cpu_count
        && ((offset - mtimecmp_base) % mtimecmp_stride == 0)
    then some (mtimecmp_reg cmp)
    else if ltb offset mtimecmp_base
        && (size == 4)
        && ltb sip clint.cpu_count
        && (offset % msip_stride == 0)
    then some (msip_reg sip)
    else none

unfoldable pub read_target : ℕ → Clint → List Cpu → Target → ℕ
unfolding mtime
read_target now clint cpus mtime_reg = mtime now clint
read_target now clint cpus (mtimecmp_reg h) = get_or clint.mtimecmp h 0
read_target now clint cpus (msip_reg h) = bit_and ((hart cpus h).irq_pending >>> msip_bit) 1

-- `clint_read`: the value read, or `none` for an access fault.
unfoldable pub read : ℕ → Clint → List Cpu → ℕ → ℕ → Option ℕ
unfolding target read_target
read now clint cpus offset size =
    Option.map (λ t. read_target now clint cpus t) (target clint offset size)

-- The loop of a write to `mtime`: the deadlines after the new epoch.
unfoldable pub reset_deadlines : ℕ → List ℕ → ℕ → ℕ → List ℕ → List ℕ
reset_deadlines epoch mtimecmp zero i deadlines = deadlines
reset_deadlines epoch mtimecmp (suc left) i deadlines =
    reset_deadlines epoch mtimecmp left (i + 1)
      (set deadlines i (deadline_of epoch (get_or mtimecmp i 0)))

unfoldable pub set_mtime : ℕ → Clint → ℕ → Clint
unfolding reset_deadlines
set_mtime now clint value =
    let epoch = sub64 now (u64 (value * ns_per_tick)) in
    record clint {
      epoch_ns = epoch;
      deadline_ns = reset_deadlines epoch clint.mtimecmp clint.cpu_count 0 clint.deadline_ns;
    }

unfoldable pub drive_msip : ℕ → Cpu → Cpu
unfolding raise_irq clear_irq
drive_msip value cpu =
    if truth (bit_and value 1) then raise_irq msip_bit cpu else clear_irq msip_bit cpu

unfoldable pub write_target : ℕ → Clint → List Cpu → Target → ℕ → Clint × List Cpu
write_target now clint cpus mtime_reg value = (set_mtime now clint value, cpus)
write_target now clint cpus (mtimecmp_reg h) value = set_mtimecmp clint cpus h value
write_target now clint cpus (msip_reg h) value = (clint, update_hart cpus h (drive_msip value))

-- `clint_write`: the state after, or `none` for an access fault.
unfoldable pub write : ℕ → Clint → List Cpu → ℕ → ℕ → ℕ → Option (Clint × List Cpu)
unfolding target write_target
write now clint cpus offset size value =
    Option.map (λ t. write_target now clint cpus t value) (target clint offset size)
