-- ===== src/Tlb/Invalidation.antt =====
-- Which entries an invalidation drops.
use riscmulator.Base.{
  set, get_or-set_ne, get_or-set_self, ◌==◌, get_or, length, ap, ◌^◌, not32, bit_and, ltb, ◌&&◌,
  leb, if◌then◌else◌, ℕ, zero, suc, ◌+◌, ◌<◌, ◌≡◌, ◌≤◌, arith, Bool,
}
use riscmulator.Tlb.{drop_row, drop_columns, entry_vma}
use riscmulator.Base.Bits.{bit, bit-clear32}
use riscmulator.Cpu.{Cpu}

bit-drop_columns :
    (hit : ℕ → Bool) (cpu : Cpu) (row left col valid k : ℕ)
    → k < 16
    → col + left ≤ 16
    → bit (drop_columns hit cpu row left col valid) k
      ≡ (if leb col k && (ltb k (col + left) && hit (entry_vma cpu row k)) then 0 else bit valid k)
unfolding drop_columns
bit-drop_columns hit cpu row zero col valid k h up = ground arith
bit-drop_columns hit cpu row (suc left) col valid k h up =
    let rest = if hit (entry_vma cpu row col) then bit_and valid (not32 (2 ^ col)) else valid in
    ground (
      arith,
      bit-drop_columns hit cpu row left (col + 1) rest k h (omega arith),
      bit-clear32 valid col k (omega arith),
      ap (λ (t : ℕ). hit (entry_vma cpu row t)) {x = col} {y = k},
    )

-- Dropping the entries of a row that a test hits clears their valid bits, and no other bit of any
-- row.
valid-drop_row :
    (hit : ℕ → Bool) (cpu : Cpu) (row r k : ℕ)
    → row < length cpu.tlb.valid
    → k < 16
    → bit (get_or (drop_row hit cpu row).tlb.valid r 0) k
      ≡ (if (row == r) && hit (entry_vma cpu r k) then 0 else bit (get_or cpu.tlb.valid r 0) k)
unfolding drop_row
valid-drop_row hit cpu row r k h up =
    let dropped = drop_columns hit cpu row 16 0 (get_or cpu.tlb.valid row 0) in
    ground (
      arith,
      get_or-set_self cpu.tlb.valid row dropped 0,
      get_or-set_ne cpu.tlb.valid row r dropped 0,
      bit-drop_columns hit cpu row 16 0 (get_or cpu.tlb.valid row 0) k up (omega arith),
      ap (λ (t : ℕ). get_or (set cpu.tlb.valid row dropped) t 0) {x = row} {y = r},
      ap (λ (t : ℕ). get_or cpu.tlb.valid t 0) {x = row} {y = r},
      ap (λ (t : ℕ). hit (entry_vma cpu t k)) {x = row} {y = r},
    )
