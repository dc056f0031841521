-- ===== src/Clint/Time.antt =====
-- The tick counter: what a write of `mtime` makes later reads return.
use riscmulator.Base.{ℕ, ◌+◌, ◌-◌, ◌*◌, ◌/◌, ◌^◌, ◌≤◌, ◌<◌, ◌≡◌, arith}
use riscmulator.Clint.{Clint, set_mtime, mtime, ns_per_tick}

-- After `value` is written to `mtime`, a read that many nanoseconds later counts on from it: by
-- one tick for each 100 ns, as long as the count in nanoseconds fits 64 bits.
pub mtime-set_mtime :
    (now later value : ℕ) (clint : Clint)
    → now ≤ later
    → later < 2 ^ 64
    → value * ns_per_tick + (later - now) < 2 ^ 64
    → mtime later (set_mtime now clint value) ≡ value + (later - now) / ns_per_tick
unfolding mtime set_mtime
mtime-set_mtime now later value clint h k fits = omega arith
