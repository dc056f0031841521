-- ===== src/Plic/Overrun.antt =====
-- Source 64: its word index is 2, one past the two words of `enable`.
use riscmulator.Base.{ℕ, ◌+◌, ◌%◌, ◌<◌, ◌≡◌, arith, truth}
use riscmulator.Base.Bits.{bit_and-mask}
use riscmulator.Plic.{Plic, is_enabled, context, num_sources}

-- Whether source 64 is enabled for a context, followed by another in the array, is read from bit
-- 0 of that next context's threshold.
is_enabled-threshold :
    (p : Plic) (ctx : ℕ)
    → ctx + 1 < p.num_contexts
    → is_enabled p ctx num_sources ≡ truth ((context p (ctx + 1)).threshold % 2)
unfolding is_enabled
is_enabled-threshold p ctx h = ground (arith, bit_and-mask 1 (context p (ctx + 1)).threshold)
