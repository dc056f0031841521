-- ===== src/Paging/Cache.antt =====
-- The TLB of emulator/src/cpu/rv_paging.c as a cache: what a lookup inserts, the next one finds.
use riscmulator.Base.{
  ap₂, set, Option, bit_or, get_or-set_ne, get_or, get_or-set_self, ◌^◌, truth, ◌*◌, ==_iff, length,
  inr, if◌then◌else◌, inl, ◌==◌, ◌⊎◌, bit_and, true, ◌&&◌, false, Bool, some, ℕ, ◌≡◌, ◌≤◌, ◌<◌, ◌+◌,
  ◌∙◌, arith, refl, ap, zero, suc,
}
use riscmulator.Paging.{
  insert, put, set_flags, tlb_entry, is_for, is_valid, Access, Cpu, free_column, probe, Probe, hit,
  stale, miss,
}
use riscmulator.Cpu.{TlbEntry, Cpu}
use riscmulator.Memory.{Access}
use riscmulator.Base.Bits.{truth-bit_and-pow, bit-set}

-- Whether a column of the row holds a valid entry for the address.
matches : Cpu → ℕ → ℕ → ℕ → Bool
matches cpu row vaddr col = is_valid cpu row col && is_for cpu vaddr (tlb_entry cpu row col)

probe_step :
    (left col : ℕ) (cpu : Cpu) (row vaddr : ℕ) (mode : Access)
    → probe (suc left) col cpu row vaddr mode ≡ (
        if matches cpu row vaddr col
        then (if bit_and (tlb_entry cpu row col).pte (set_flags mode) == set_flags mode
            then hit (tlb_entry cpu row col)
            else stale col)
        else probe left (col + 1) cpu row vaddr mode)
unfolding probe matches
probe_step left col cpu row vaddr mode = refl

is_miss : Probe → Bool
is_miss (hit entry) = false
is_miss (stale col) = false
is_miss miss = true

not_miss :
    (b : Bool) (entry : TlbEntry) (col : ℕ) → is_miss (if b then hit entry else stale col) ≡ false
unfolding is_miss
not_miss true entry col = refl
not_miss false entry col = refl

-- A probe that misses has met no such column.
probe-miss :
    (left col : ℕ) (cpu : Cpu) (row vaddr : ℕ) (mode : Access) (i : ℕ)
    → is_miss (probe left col cpu row vaddr mode) ≡ true
    → col ≤ i
    → i < col + left
    → matches cpu row vaddr i ≡ false
probe-miss zero col cpu row vaddr mode i e lo hi = absurd (omega arith)
probe-miss (suc left) col cpu row vaddr mode i e lo hi = ground (
  arith,
  ap is_miss (probe_step left col cpu row vaddr mode),
  not_miss (bit_and (tlb_entry cpu row col).pte (set_flags mode) == set_flags mode)
      (tlb_entry cpu row col) col,
  probe-miss left (col + 1) cpu row vaddr mode i,
  ap (λ (t : ℕ). matches cpu row vaddr t) {x = col} {y = i},
)

compare-cases : (a b : ℕ) → a ≤ b → (a ≡ b) ⊎ (a < b)
compare-cases a b h = ground arith

-- A probe that meets no such column before one gives the entry there, if its flags are set.
probe-hit :
    (left col : ℕ) (cpu : Cpu) (row vaddr : ℕ) (mode : Access) (c : ℕ)
    → col ≤ c
    → c < col + left
    → ((i : ℕ) → i < c → matches cpu row vaddr i ≡ false)
    → matches cpu row vaddr c ≡ true
    → bit_and (tlb_entry cpu row c).pte (set_flags mode) ≡ set_flags mode
    → probe left col cpu row vaddr mode ≡ hit (tlb_entry cpu row c)
probe-hit zero col cpu row vaddr mode c lo hi before at flags = absurd (omega arith)
probe-hit (suc left) col cpu row vaddr mode c lo hi before at flags =
    probe_step left col cpu row vaddr mode ∙ elim (compare-cases col c lo) [
      | inl here ↦
          rw
            (
              here,
              at,
              (==_iff (bit_and (tlb_entry cpu row c).pte (set_flags mode)) (set_flags mode)).1
                  flags,
            )
            refl
      | inr past ↦ rw (before col past) (
          probe-hit left (col + 1) cpu row vaddr mode c (omega arith) (omega arith) before at flags)
    ]

free_column-range :
    (left col bits c : ℕ) → free_column left col bits ≡ some c → (col ≤ c) × (c < col + left)
unfolding free_column
free_column-range zero col bits c e = ground arith
free_column-range (suc left) col bits c e = ground (arith, free_column-range left (col + 1) bits c)

get_or-entry :
    (cpu : Cpu) (row vaddr c i : ℕ) (entry : TlbEntry)
    → row * 16 + c < length cpu.tlb.entries
    → tlb_entry (put cpu row entry (some c)) row i ≡ (if c == i then entry else tlb_entry cpu row i)
unfolding put
get_or-entry cpu row vaddr c i entry small = ground (
  arith,
  get_or-set_self cpu.tlb.entries (row * 16 + c) entry (record { vma = 0; pte = 0 }),
  get_or-set_ne cpu.tlb.entries (row * 16 + c) (row * 16 + i) entry (record { vma = 0; pte = 0 }),
  ap
      (λ (t : ℕ).
        get_or (set cpu.tlb.entries (row * 16 + c) entry) (row * 16 + t)
          (record { vma = 0; pte = 0 }))
      {x = c} {y = i},
)

is_valid-put :
    (cpu : Cpu) (row c i : ℕ) (entry : TlbEntry)
    → row < length cpu.tlb.valid
    → is_valid (put cpu row entry (some c)) row i ≡ (if c == i then true else is_valid cpu row i)
unfolding put
is_valid-put cpu row c i entry small =
    ap (λ (t : ℕ). truth (bit_and t (2 ^ i)))
      (get_or-set_self cpu.tlb.valid row (bit_or (get_or cpu.tlb.valid row 0) (2 ^ c)) 0 small)
    ∙ truth-bit_and-pow (bit_or (get_or cpu.tlb.valid row 0) (2 ^ c)) i
    ∙ ground (
      arith,
      bit-set (get_or cpu.tlb.valid row 0) c i,
      truth-bit_and-pow (get_or cpu.tlb.valid row 0) i,
    )

picked :
    (cpu : Cpu) (vaddr : ℕ) (entry other : TlbEntry) (b v : Bool)
    → is_for cpu vaddr entry ≡ true
    → ((if b then true else v) && is_for cpu vaddr (if b then entry else other))
      ≡ (if b then true else (v && is_for cpu vaddr other))
picked cpu vaddr entry other true v for = for
picked cpu vaddr entry other false v for = refl

matches-put :
    (cpu : Cpu) (row vaddr c i : ℕ) (entry : TlbEntry)
    → row < length cpu.tlb.valid
    → row * 16 + c < length cpu.tlb.entries
    → is_for cpu vaddr entry ≡ true
    → matches (put cpu row entry (some c)) row vaddr i
      ≡ (if c == i then true else matches cpu row vaddr i)
unfolding matches put is_for
matches-put cpu row vaddr c i entry small room for =
    ap₂ (λ (v : Bool) (e : TlbEntry). v && is_for cpu vaddr e)
      (is_valid-put cpu row c i entry small) (get_or-entry cpu row vaddr c i entry room)
    ∙ picked cpu vaddr entry (tlb_entry cpu row i) (c == i) (is_valid cpu row i) for

-- A lookup that misses and puts its entry into a free column of the row is followed by a hit: the
-- next probe of the row for the same address and kind of access gives that entry.
pub probe-insert :
    (cpu : Cpu) (row vaddr c : ℕ) (mode : Access) (entry : TlbEntry)
    → row < length cpu.tlb.valid
    → row * 16 + 16 ≤ length cpu.tlb.entries
    → probe 16 0 cpu row vaddr mode ≡ miss
    → free_column 16 0 (get_or cpu.tlb.valid row 0) ≡ some c
    → is_for cpu vaddr entry ≡ true
    → bit_and entry.pte (set_flags mode) ≡ set_flags mode
    → probe 16 0 (insert cpu row entry) row vaddr mode ≡ hit entry
unfolding insert is_miss
probe-insert cpu row vaddr c mode entry small room missed free for flags =
    ap (λ (o : Option ℕ). probe 16 0 (put cpu row entry o) row vaddr mode) free
    ∙ probe-hit 16 0 n row vaddr mode c (omega arith) (omega (arith, range.1)) before
        (matches-put cpu row vaddr c c entry small (omega (arith, range.1)) for ∙ ground arith)
        (ap (λ (e : TlbEntry). bit_and e.pte (set_flags mode)) there ∙ flags)
    ∙ ap hit there
  where
    n : Cpu
    n = put cpu row entry (some c)

    range : (0 ≤ c) × (c < 0 + 16)
    range = free_column-range 16 0 (get_or cpu.tlb.valid row 0) c free

    there : tlb_entry n row c ≡ entry
    there = get_or-entry cpu row vaddr c c entry (omega (arith, range.1)) ∙ ground arith

    before : (i : ℕ) → i < c → matches n row vaddr i ≡ false
    before i h =
        matches-put cpu row vaddr c i entry small (omega (arith, range.1)) for
        ∙ ground (
          arith,
          probe-miss 16 0 cpu row vaddr mode i (ap is_miss missed) (omega arith)
              (omega (arith, range.1)),
        )
