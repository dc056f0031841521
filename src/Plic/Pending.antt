-- ===== src/Plic/Pending.antt =====
-- The pending bits: what a claim clears and what a device sets.
use riscmulator.Base.{
  ℕ, ◌/◌, ◌%◌, ◌^◌, ◌≤◌, ◌≡◌, arith, true, false, ◌==◌, List, if◌then◌else◌, length,
  get_or-set_self, get_or-set_ne, bit_and, bit_or, not32,
}
use riscmulator.Base.Bits.{bit, bit_and-shr-one, bit_le_one, bit-set, bit-clear32}
use riscmulator.Cpu.{Cpu}
use riscmulator.Plic.{
  Plic, is_pending, pending_word, store_pending, clear_pending, do_claim, set_pending, num_sources,
  reg_words, claim_from,
}
use riscmulator.Plic.Claim.{claim_from-le}

is_pending-bit :
    (p : Plic) (src : ℕ) → is_pending p src ≡ (bit (pending_word p (src / 32)) (src % 32) == 1)
unfolding is_pending
is_pending-bit p src =
    rw (bit_and-shr-one (pending_word p (src / 32)) (src % 32))
      (ground (arith, bit_le_one (pending_word p (src / 32)) (src % 32)))

pending_word-store_pending :
    (p : Plic) (w v i : ℕ)
    → length p.pending ≡ reg_words
    → w ≤ reg_words
    → i ≤ reg_words
    → pending_word (store_pending p w v) i ≡ (if w == i then v else pending_word p i)
pending_word-store_pending p w v i len hw hi =
    ground (arith, get_or-set_self p.pending w v 0, get_or-set_ne p.pending w i v 0)

-- A word written with digit `s % 32` changed changes the pending flag of `s` alone.
pub is_pending-clear_pending :
    (p : Plic) (s t : ℕ)
    → length p.pending ≡ reg_words
    → s ≤ num_sources
    → t ≤ num_sources
    → is_pending (clear_pending p s) t ≡ (if s == t then false else is_pending p t)
unfolding clear_pending
is_pending-clear_pending p s t len hs ht = ground (
  arith,
  is_pending-bit p t,
  is_pending-bit (clear_pending p s) t,
  pending_word-store_pending p (s / 32) (bit_and (pending_word p (s / 32)) (not32 (2 ^ (s % 32))))
      (t / 32),
  bit-clear32 (pending_word p (s / 32)) (s % 32) (t % 32),
)

pub is_pending-set_bit :
    (p : Plic) (s t : ℕ)
    → length p.pending ≡ reg_words
    → s ≤ num_sources
    → t ≤ num_sources
    → is_pending (store_pending p (s / 32) (bit_or (pending_word p (s / 32)) (2 ^ (s % 32)))) t
      ≡ (if s == t then true else is_pending p t)
is_pending-set_bit p s t len hs ht = ground (
  arith,
  is_pending-bit p t,
  is_pending-bit (store_pending p (s / 32) (bit_or (pending_word p (s / 32)) (2 ^ (s % 32)))) t,
  pending_word-store_pending p (s / 32) (bit_or (pending_word p (s / 32)) (2 ^ (s % 32))) (t / 32),
  bit-set (pending_word p (s / 32)) (s % 32) (t % 32),
)

-- On a pending array of its two words, `rv_plic_set_pending` of a source from 1 to 64 makes that
-- source pending and changes the pending flag of no other source.
pub is_pending-set_pending :
    (p : Plic) (cpus : List Cpu) (s t : ℕ)
    → length p.pending ≡ reg_words
    → 1 ≤ s
    → s ≤ num_sources
    → t ≤ num_sources
    → is_pending (set_pending p cpus s).0 t ≡ (if s == t then true else is_pending p t)
unfolding set_pending
is_pending-set_pending p cpus s t len lo hs ht = ground (arith, is_pending-set_bit p s t)

-- On a pending array of its two words, a claim clears the pending flag of the source that it
-- returns, and of no other source from 1 to 64.
pub is_pending-do_claim :
    (p : Plic) (cpus : List Cpu) (ctx t : ℕ)
    → length p.pending ≡ reg_words
    → 1 ≤ t
    → t ≤ num_sources
    → is_pending (do_claim p cpus ctx).1 t
      ≡ (if (do_claim p cpus ctx).0 == t then false else is_pending p t)
unfolding do_claim
is_pending-do_claim p cpus ctx t len lo ht =
    ground (
      arith,
      claim_from-le p ctx,
      is_pending-clear_pending p (claim_from p ctx num_sources 1 0 0) t,
    )
