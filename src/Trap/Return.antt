-- ===== src/Trap/Return.antt =====
-- A return from a trap undoes the entry.
use riscmulator.Base.Bits.{
  bit-not64, bit-set, bit-bit_and, bit-pow, bit_and-shr-one, bit-shl, bit-clear, bit-bit_or,
  bit_le_one, bit-shr, bit, bit_lem, bit_and-mask,
}
use riscmulator.Base.{
  ◌∙◌, ◌-◌, ltb, ◌==◌, if◌then◌else◌, ◌^◌, max, not64, refl, bit_or, ◌<<<◌, ◌<◌, ap, ℕ, ◌+◌, ◌*◌,
  ◌≡◌, arith, bit_and, ◌>>>◌,
}
use riscmulator.Trap.Entry.{entry_mstatus_m-fields, entry_mstatus_s-fields}
use riscmulator.Trap.{entry_mstatus_m, entry_mstatus_s, Trap, Cpu, enter_m, enter_s, mret, sret}
use riscmulator.Cpu.{Cpu}

-- Two bits read by a mask.
two_bits : (x j : ℕ) → bit_and (x >>> j) 3 ≡ bit x j + 2 * bit x (j + 1)
two_bits x j = omega (
  arith,
  bit_and-mask 2 (x >>> j),
  bit_lem (x >>> j) 0,
  bit_lem (x >>> j) 1,
  bit-shr x j 0,
  bit-shr x j 1,
  ap (λ (t : ℕ). bit x t) {x = 0 + j} {y = j} (omega arith),
  ap (λ (t : ℕ). bit x t) {x = 1 + j} {y = j + 1} (omega arith),
)

-- `mstatus` after `mret` has MPIE back in MIE; and before MPP is cleared, it still has it.
mret_mstatus : ℕ → ℕ
mret_mstatus m = bit_or (bit_and m (not64 (2 ^ 3))) (bit_or (bit_and (m >>> 7) 1 <<< 3) (2 ^ 7))

bit-mret_mstatus :
    (m k : ℕ)
    → k < 64
    → bit (mret_mstatus m) k
      ≡ max
          (if 3 == k then 0 else bit m k)
          (max (if ltb k 3 then 0 else bit (bit m 7) (k - 3)) (if 7 == k then 1 else 0))
unfolding mret_mstatus
bit-mret_mstatus m k h =
    rw
      (
        bit-bit_or,
        bit-clear m 3 k h,
        bit-bit_or,
        bit-shl (bit_and (m >>> 7) 1) 3 k,
        bit_and-shr-one m 7,
        bit-pow 7 k,
      )
      refl

mret_mstatus-fields :
    (m : ℕ)
    → (bit (mret_mstatus m) 3 ≡ bit m 7)
      × (bit_and (mret_mstatus m >>> 11) 3 ≡ bit m 11 + 2 * bit m 12)
mret_mstatus-fields m = (
  rw (bit-mret_mstatus m 3 (omega arith)) (ground (arith, bit_lem (bit m 7) 0, bit_le_one m 7)),
  rw (two_bits, bit-mret_mstatus m 11 (omega arith), bit-mret_mstatus m 12 (omega arith))
      (ground (
        arith,
        bit_lem (bit m 7) 8,
        bit_lem (bit m 7) 9,
        bit_le_one m 7,
        bit_le_one m 11,
        bit_le_one m 12,
      )),
)

mpp_mask : bit (3 <<< 11) 3 ≡ 0
unfolding bit
mpp_mask = refl

-- `mret` directly after an entry to M-mode returns to the interrupted instruction's address, the
-- privilege that the hart had, and the interrupt enable that it had.
pub mret-enter_m :
    (cpu : Cpu) (trap : Trap)
    → cpu.privilege < 4
    → ((mret (enter_m cpu trap)).pc ≡ trap.epc)
      × ((mret (enter_m cpu trap)).privilege ≡ cpu.privilege)
      × (bit (mret (enter_m cpu trap)).csr.mstatus 3 ≡ bit cpu.csr.mstatus 3)
unfolding mret enter_m mret_mstatus
mret-enter_m cpu trap h =
    let m = entry_mstatus_m cpu.privilege cpu.csr.mstatus in
    let (same, zero_mie, lo, hi, mprv) = entry_mstatus_m-fields cpu.privilege cpu.csr.mstatus h in
    let (back, mpp) = mret_mstatus-fields m in
    (
      refl,
      ground (arith, mpp, lo, hi),
      ground (
        arith,
        bit-clear (bit_and (mret_mstatus m) (not64 (3 <<< 11))) 17 3 (omega arith),
        bit-bit_and (mret_mstatus m) (not64 (3 <<< 11)) 3,
        bit-not64 (3 <<< 11) 3 (omega arith),
        mpp_mask,
        back,
        same,
        bit_le_one m 7,
      ),
    )

-- So does `sret` after an entry to S-mode, from S-mode or U-mode.
pub sret-enter_s :
    (cpu : Cpu) (trap : Trap)
    → cpu.privilege < 2
    → ((sret (enter_s cpu trap)).pc ≡ trap.epc)
      × ((sret (enter_s cpu trap)).privilege ≡ cpu.privilege)
      × (bit (sret (enter_s cpu trap)).csr.mstatus 1 ≡ bit cpu.csr.mstatus 1)
unfolding sret enter_s
sret-enter_s cpu trap h =
    let m = entry_mstatus_s cpu.privilege cpu.csr.mstatus in
    let (same, zero_sie, spp) = entry_mstatus_s-fields cpu.privilege cpu.csr.mstatus h in
    let m1 = bit_and m (not64 (2 ^ 1)) in
    let m2 = bit_or m1 (bit_and (m >>> 5) 1 <<< 1) in
    let m3 = bit_and m2 (not64 (2 ^ 8)) in
    (
      refl,
      bit_and-shr-one m 8 ∙ spp,
      rw
          (
            bit-clear (bit_or m3 (2 ^ 5)) 17 1 (omega arith),
            bit-set m3 5 1,
            bit-clear m2 8 1 (omega arith),
            bit-bit_or m1,
            bit-clear m 1 1 (omega arith),
            bit-shl (bit_and (m >>> 5) 1) 1 1,
            bit_and-shr-one m 5,
          )
          (ground (arith, bit_lem (bit m 5) 0, bit_le_one m 5, same)),
    )
