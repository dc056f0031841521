-- ===== src/Csr/Mstatus.antt =====
-- Writes of `mstatus` and `sstatus`, bit by bit.
use riscmulator.Base.{
  not64, ℕ, ◌+◌, ◌<◌, ◌≡◌, refl, arith, ◌==◌, if◌then◌else◌, min, max, bit_and, bit_or, ◌>>>◌,
}
use riscmulator.Base.Bits.{bit, bit_le_one, bit-bit_and, bit-bit_or, bit-not64, bit-shr}
use riscmulator.Cpu.{Cpu, mpp_base_bit}
use riscmulator.Csr.{mstatus_mask, sstatus_mask}
use riscmulator.Csr.Write.{write_mstatus, write_sstatus}

mstatus-write_mstatus :
    (w : ℕ) (cpu : Cpu)
    → (write_mstatus w cpu).csr.mstatus
      ≡ bit_and (bit_or w (bit_and (w >>> 1) mpp_base_bit)) mstatus_mask
unfolding write_mstatus
mstatus-write_mstatus w cpu = refl

-- Every bit of `mstatus` after a write: the bit written, where the mask has it, except that bits
-- 1 (SIE) and 3 (MIE) are also set by bits 2 and 4 of the value.
pub bit-write_mstatus :
    (w k : ℕ) (cpu : Cpu)
    → bit (write_mstatus w cpu).csr.mstatus k
      ≡ min (max (bit w k) (min (bit w (k + 1)) (bit mpp_base_bit k))) (bit mstatus_mask k)
bit-write_mstatus w k cpu = rw (
  mstatus-write_mstatus,
  bit-bit_and (bit_or w (bit_and (w >>> 1) mpp_base_bit)) mstatus_mask k,
  bit-bit_or w (bit_and (w >>> 1) mpp_base_bit) k,
  bit-bit_and (w >>> 1) mpp_base_bit k,
  bit-shr w 1 k,
)

mask_digits :
    (bit mpp_base_bit 11 ≡ 0)
    × (bit mstatus_mask 11 ≡ 1)
    × (bit mpp_base_bit 12 ≡ 0)
    × (bit mstatus_mask 12 ≡ 1)
    × (bit mpp_base_bit 3 ≡ 1)
    × (bit mstatus_mask 3 ≡ 1)
unfolding bit
mask_digits = (refl, refl, refl, refl, refl, refl)

-- The code means to keep the reserved value 2 out of MPP, but a write stores both MPP bits as
-- they are in the value written: the reserved value 2 too. Bit 4 of the value, which no field
-- uses, sets MIE.
pub write_mstatus-mpp :
    (w : ℕ) (cpu : Cpu)
    → (bit (write_mstatus w cpu).csr.mstatus 11 ≡ bit w 11)
      × (bit (write_mstatus w cpu).csr.mstatus 12 ≡ bit w 12)
      × (bit (write_mstatus w cpu).csr.mstatus 3 ≡ max (bit w 3) (bit w 4))
write_mstatus-mpp w cpu = (
  field 11 mask_digits.0 mask_digits.1,
  field 12 mask_digits.2 mask_digits.3,
  rw (bit-write_mstatus, mask_digits.4, mask_digits.5)
      (omega (arith, bit_le_one w 3, bit_le_one w 4)),
)
  where
    field :
        (k : ℕ)
        → bit mpp_base_bit k ≡ 0
        → bit mstatus_mask k ≡ 1
        → bit (write_mstatus w cpu).csr.mstatus k ≡ bit w k
    field k a b = rw (bit-write_mstatus, a, b) (omega (arith, bit_le_one w k))

-- A write of `sstatus` changes the bits of `mstatus` in the supervisor's mask to those written,
-- and no other.
pub bit-write_sstatus :
    (w k : ℕ) (cpu : Cpu)
    → k < 64
    → bit (write_sstatus w cpu).csr.mstatus k
      ≡ (if bit sstatus_mask k == 1 then bit w k else bit cpu.csr.mstatus k)
unfolding write_sstatus
bit-write_sstatus w k cpu h = ground (
  arith,
  bit-bit_or (bit_and cpu.csr.mstatus (not64 sstatus_mask)) (bit_and w sstatus_mask) k,
  bit-bit_and cpu.csr.mstatus (not64 sstatus_mask) k,
  bit-bit_and w sstatus_mask k,
  bit-not64 sstatus_mask k h,
  bit_le_one sstatus_mask k,
  bit_le_one w k,
  bit_le_one cpu.csr.mstatus k,
)
