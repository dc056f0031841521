-- ===== src/Plic/Examples.antt =====
-- Runs of the controller on a machine of one hart, and the theorems at them.
use riscmulator.Base.{
  ℕ, zero, suc, ◌<◌, ◌≡◌, refl, arith, true, false, List, [], ◌∷◌, length, replicate, ◌==◌,
  if◌then◌else◌, to_nat,
}
use riscmulator.Base.Bits.{bit, bit-zero}
use riscmulator.Cpu.{Cpu, zero_cpu}
use riscmulator.Cpu.Update.{hart}
use riscmulator.Plic.{
  Plic, context, do_claim, is_pending, read, write, update_harts, has_irq, is_enabled, reg_words,
  claim_from, claimable, init,
}
use riscmulator.Plic.Claim.{IsTopSource, do_claim-IsTopSource}
use riscmulator.Plic.Pending.{is_pending-do_claim}
use riscmulator.Plic.Lines.{irq_pending-update_harts, is_external}
use riscmulator.Plic.Invariant.{IsShaped, IsValid, write-IsValid, init-IsValid}
use riscmulator.Plic.Registers.{enable_reg, address, read-write}

-- Sources 3, 5 and 9 are pending and enabled for the M-mode context; 5 and 9 share the highest
-- priority.
abbrev board : Plic
board = record {
  priority = 0 ∷ 0 ∷ 0 ∷ 1 ∷ 0 ∷ 7 ∷ 0 ∷ 0 ∷ 0 ∷ 7 ∷ replicate 55 0;
  pending = 0x228 ∷ 0 ∷ [];
  padding = 0;
  contexts =
      record { threshold = 0; enable = 0x228 ∷ 0 ∷ [] }
      ∷ record { threshold = 3; enable = 0 ∷ 0 ∷ [] }
      ∷ [];
  beyond = 0;
  num_contexts = 2;
}

abbrev one_hart : List Cpu
one_hart = zero_cpu ∷ []

claims_5 : (do_claim board one_hart 0).0 ≡ 5
unfolding do_claim claim_from claimable is_pending is_enabled
claims_5 = refl

do_claim-IsTopSource_example : IsTopSource board 0 (do_claim board one_hart 0).0
do_claim-IsTopSource_example = do_claim-IsTopSource board one_hart 0 (omega arith)

is_pending-do_claim_example :
    is_pending (do_claim board one_hart 0).1 5
    ≡ (if (do_claim board one_hart 0).0 == 5 then false else is_pending board 5)
is_pending-do_claim_example =
    is_pending-do_claim board one_hart 0 5 refl (omega arith) (omega arith)

irq_pending-update_harts_example :
    bit (hart (update_harts board one_hart) 0).irq_pending 11 ≡ to_nat (has_irq board 0)
irq_pending-update_harts_example =
    irq_pending-update_harts board one_hart 0 11 refl (omega arith) (omega arith)

every_enable : (ctx : ℕ) → length (context board ctx).enable ≡ reg_words
every_enable zero = refl
every_enable (suc zero) = refl
every_enable (suc (suc ctx)) = refl

board-IsShaped : IsShaped 1 board
board-IsShaped = record {
  two = refl;
  priorities = refl;
  words = refl;
  all_contexts = refl;
  enables = every_enable;
}

quiet_hart :
    (h k : ℕ) → h < length one_hart → is_external k ≡ true → bit (hart one_hart h).irq_pending k ≡ 0
quiet_hart zero k hh ext = bit-zero k
quiet_hart (suc h) k hh ext = absurd (omega arith)

two_words : (c : ℕ) → c < board.num_contexts → length (context board c).enable ≡ reg_words
two_words zero h = refl
two_words (suc zero) h = refl
two_words (suc (suc c)) h = absurd (omega arith)

write-IsValid_example :
    IsValid (write (init 1) one_hart 0x2000 4 2).1.0 (write (init 1) one_hart 0x2000 4 2).1.1
write-IsValid_example =
    write-IsValid (init 1) one_hart 0x2000 4 2 (init-IsValid one_hart quiet_hart)

read-write_example :
    (read
      (write board one_hart (address (enable_reg 1 0)) 4 0x28).1.0
      one_hart
      (address (enable_reg 1 0))
      4).1.0
    ≡ 0x28
read-write_example =
    read-write 1 board one_hart one_hart (enable_reg 1 0) (enable_reg 1 0) 0x28 board-IsShaped
      two_words (omega arith) (omega arith) (omega arith)
