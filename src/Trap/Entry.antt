-- ===== src/Trap/Entry.antt =====
-- What trap entry does to `mstatus`.
use riscmulator.Base.{
  ◌≤◌, ◌/◌, ◌%◌, not64, ltb, ◌-◌, ◌==◌, if◌then◌else◌, min, refl, ◌^◌, max, to_nat, ◌<<<◌, ℕ, ◌<◌,
  ◌≡◌, arith, truth, bit_and,
}
use riscmulator.Trap.{
  Trap, Cpu, is_delegated, enter_m, enter_s, enter, entry_mstatus_s, entry_mstatus_m,
}
use riscmulator.Cpu.{Cpu}
use riscmulator.Base.Bits.{
  bit_lem, truth-bit_and-pow, bit, bit_le_one, bit-bit_and, bit-bit_or, bit-not64, bit-clear,
  bit-shl,
}

-- A flag tested by a mask of one bit is that bit.
flag-bit : (x j : ℕ) → to_nat (truth (bit_and x (2 ^ j))) ≡ bit x j
flag-bit x j = ground (arith, truth-bit_and-pow x j, bit_le_one x j)

mpp_mask :
    (bit (3 <<< 11) 3 ≡ 0)
    × (bit (3 <<< 11) 7 ≡ 0)
    × (bit (3 <<< 11) 11 ≡ 1)
    × (bit (3 <<< 11) 12 ≡ 1)
    × (bit (3 <<< 11) 17 ≡ 0)
unfolding bit
mpp_mask = (refl, refl, refl, refl, refl)

-- Digit by digit: entry to M-mode clears MIE, keeps it in MPIE, and keeps the privilege in MPP.
pub bit-entry_mstatus_m :
    (p m k : ℕ)
    → k < 64
    → bit (entry_mstatus_m p m) k
      ≡ max
          (max
            (min (if 3 == k then 0 else if 7 == k then 0 else bit m k) (1 - bit (3 <<< 11) k))
            (if ltb k 7 then 0 else bit (bit m 3) (k - 7)))
          (if ltb k 11 then 0 else bit p (k - 11))
unfolding entry_mstatus_m
bit-entry_mstatus_m p m k h =
    rw
      (
        bit-bit_or,
        bit-bit_or,
        bit-shl,
        bit-shl,
        flag-bit,
        bit-bit_and (bit_and (bit_and m (not64 (2 ^ 7))) (not64 (2 ^ 3))),
        bit-not64 (3 <<< 11) k h,
        bit-clear (bit_and m (not64 (2 ^ 7))) 3 k h,
        bit-clear m 7 k h,
      )
      refl

-- The fields that `mret` reads.
pub entry_mstatus_m-fields :
    (p m : ℕ)
    → p < 4
    → (bit (entry_mstatus_m p m) 7 ≡ bit m 3)
      × (bit (entry_mstatus_m p m) 3 ≡ 0)
      × (bit (entry_mstatus_m p m) 11 ≡ p % 2)
      × (bit (entry_mstatus_m p m) 12 ≡ p / 2)
      × (bit (entry_mstatus_m p m) 17 ≡ bit m 17)
entry_mstatus_m-fields p m h = (
  rw (bit-entry_mstatus_m p m 7 (omega arith), mpp_mask.1)
      (ground (arith, bit_lem (bit m 3) 0, bit_le_one m 3)),
  rw (bit-entry_mstatus_m p m 3 (omega arith), mpp_mask.0) (ground arith),
  rw (bit-entry_mstatus_m p m 11 (omega arith), mpp_mask.2)
      (ground (arith, bit_lem p 0, bit_lem (bit m 3) 4, bit_le_one m 3)),
  rw (bit-entry_mstatus_m p m 12 (omega arith), mpp_mask.3)
      (ground (arith, bit_lem p 1, bit_lem (bit m 3) 5, bit_le_one m 3)),
  rw (bit-entry_mstatus_m p m 17 (omega arith), mpp_mask.4)
      (ground (arith, bit_lem p 6, bit_lem (bit m 3) 10, bit_le_one m 3, bit_le_one m 17)),
)

-- Digit by digit: entry to S-mode clears SIE, keeps it in SPIE, and keeps the privilege in SPP.
pub bit-entry_mstatus_s :
    (p m k : ℕ)
    → k < 64
    → bit (entry_mstatus_s p m) k
      ≡ max
          (max
            (if 8 == k then 0 else if 1 == k then 0 else if 5 == k then 0 else bit m k)
            (if ltb k 5 then 0 else bit (bit m 1) (k - 5)))
          (if ltb k 8 then 0 else bit p (k - 8))
unfolding entry_mstatus_s
bit-entry_mstatus_s p m k h =
    rw
      (
        bit-bit_or,
        bit-bit_or,
        bit-shl (to_nat (truth (bit_and m (2 ^ 1)))) 5 k,
        bit-shl p 8 k,
        flag-bit,
        bit-clear (bit_and (bit_and m (not64 (2 ^ 5))) (not64 (2 ^ 1))) 8 k h,
        bit-clear (bit_and m (not64 (2 ^ 5))) 1 k h,
        bit-clear m 5 k h,
      )
      refl

-- The fields that `sret` reads.
pub entry_mstatus_s-fields :
    (p m : ℕ)
    → p < 2
    → (bit (entry_mstatus_s p m) 5 ≡ bit m 1)
      × (bit (entry_mstatus_s p m) 1 ≡ 0)
      × (bit (entry_mstatus_s p m) 8 ≡ p)
entry_mstatus_s-fields p m h = (
  rw (bit-entry_mstatus_s p m 5 (omega arith))
      (ground (arith, bit_lem (bit m 1) 0, bit_le_one m 1)),
  rw (bit-entry_mstatus_s p m 1 (omega arith)) (ground arith),
  rw (bit-entry_mstatus_s p m 8 (omega arith))
      (ground (arith, bit_lem p 0, bit_lem (bit m 1) 3, bit_le_one m 1)),
)

-- A trap never lowers the privilege, and one that is not delegated raises it to M-mode. A
-- delegated one leaves the M-mode record of the last trap as it was.
pub enter-privilege :
    (cpu : Cpu) (trap : Trap)
    → cpu.privilege ≤ 3
    → (cpu.privilege ≤ (enter cpu trap).privilege)
      × ((enter cpu trap).privilege ≡ (if is_delegated cpu trap then 1 else 3))
      × ((enter cpu trap).csr.mepc ≡ (if is_delegated cpu trap then cpu.csr.mepc else trap.epc))
unfolding enter enter_s enter_m is_delegated
enter-privilege cpu trap h = (ground arith, ground arith, ground arith)
