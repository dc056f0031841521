-- ===== src/Clint/Timer.antt =====
-- When the timer fires: when `mtime` reaches the compare value, unless the deadline overflows 64
-- bits.
use riscmulator.Base.{ℕ, ◌-◌, ◌^◌, ◌≤◌, ◌<◌, ◌≡◌, arith, List, get_or, get_or-set_self}
use riscmulator.Base.Bits.{bit, bit-set}
use riscmulator.Cpu.{Cpu}
use riscmulator.Cpu.Update.{hart, hart-update_hart_self}
use riscmulator.Clint.{
  arm_timer, Clint, set_mtimecmp, mtime, check_timer, mtip_bit, deadline_of, ns_per_tick,
}
use riscmulator.Clint.Invariant.{IsConsistent}

-- Whatever the epoch, a compare value of all ones gives a deadline 100 ns before the epoch: the
-- timer fires at the next check, though `mtime` is below the compare value.
check_timer-all_ones :
    (now : ℕ) (clint : Clint) (cpus : List Cpu) (h : ℕ)
    → IsConsistent clint cpus
    → h < clint.cpu_count
    → ns_per_tick ≤ clint.epoch_ns
    → clint.epoch_ns ≤ now
    → now < 2 ^ 64
    → let (clint', cpus') = set_mtimecmp clint cpus h (2 ^ 64 - 1) in
      (bit (check_timer now clint' (hart cpus' h)).irq_pending mtip_bit ≡ 1)
      × (mtime now clint' < get_or clint'.mtimecmp h 0)
unfolding check_timer set_mtimecmp mtime
check_timer-all_ones now clint cpus h c lt lo after small = ground (
  arith,
  c.ids h lt,
  hart-update_hart_self cpus h arm_timer,
  get_or-set_self clint.mtimecmp h (2 ^ 64 - 1) 0,
  get_or-set_self clint.deadline_ns h (deadline_of clint.epoch_ns (2 ^ 64 - 1)) 0,
  bit-set (arm_timer (hart cpus h)).irq_pending mtip_bit mtip_bit,
)
