-- ===== src/Paging/Examples.antt =====
-- The paging theorems at a machine with a page table of one page of a gibibyte.
use riscmulator.Machine.{Region, Machine, on_hart}
use riscmulator.Base.{
  ◌⊎◌, ◌-◌, ◌^◌, ℕ, ◌≡◌, refl, Bool, true, false, List, [], ◌∷◌, Option, none, some, arith,
  replicate, ◌++◌,
}
use riscmulator.Cpu.{zero_csr, zero_cpu, Cpu, TlbEntry}
use riscmulator.Paging.{
  Cpu, TlbEntry, free_column, pmp_check, raw_lookup, probe, insert, hit, miss, lookup,
}
use riscmulator.Pmp.{pmp_check}
use riscmulator.Memory.{load, le_bytes, is_ok}
use riscmulator.Paging.Cache.{probe-insert}
use riscmulator.Paging.Flush.{lookup-flush_tlb}
use riscmulator.Tlb.{flush_tlb}

abbrev supervisor : Cpu
supervisor = record (zero_cpu) {
  privilege = 1;
  mem_privilege = 1;
  csr = record (zero_csr) {
    satp = 0x8000000000000001;
    pmpcfg = 0x1f ∷ replicate 63 0;
    pmpaddr = (2 ^ 64 - 1) ∷ replicate 63 0;
  };
}

-- The PTE has V, R, W and A; a load finds it so, a store sets D.
abbrev paged : Machine ℕ
paged = record {
  ram_start = 4096;
  ram_end = 4112;
  ram = 0x47 ∷ replicate 15 0;
  trap_hook = λ _. none;
  cpus = supervisor ∷ [];
  reservations = [];
  mmio = [];
  devices = 0;
  clint = λ _. record { epoch_ns = 0; mtimecmp = []; deadline_ns = []; cpu_count = 0 };
  overran = false;
}

-- A device that keeps a number and has no part in the harts.
abbrev latch : Region ℕ
latch = record {
  base = 8192;
  size = 8;
  read = λ d cpus offset size. (some d, d, cpus);
  write = λ d cpus offset size value. (true, value, cpus);
}

abbrev with_latch : Machine ℕ
with_latch = record paged { mmio = latch ∷ [] }

abbrev leaf_of_zero : TlbEntry
leaf_of_zero = record { vma = 7; pte = 0x47 }

probe-insert_example : probe 16 0 (insert zero_cpu 0 leaf_of_zero) 0 0x123 load ≡ hit leaf_of_zero
unfolding probe free_column
probe-insert_example =
    probe-insert zero_cpu 0 0x123 0 load leaf_of_zero (omega arith) (omega arith) refl refl refl
      refl

-- A lookup behind an entry for the same page that the walk does not give.
abbrev cached : Machine ℕ
cached = record paged {
  cpus =
      record (supervisor) {
        tlb = record (supervisor.tlb) {
          entries = record { vma = 0x1000; pte = 0xffff } ∷ replicate 255 leaf_of_zero;
          valid = replicate 16 1;
        };
      }
      ∷ [];
}

lookup-flush_tlb_example :
    ((lookup (on_hart cached 0 flush_tlb) 0 0x1234 load).result
      ≡ (raw_lookup (on_hart cached 0 flush_tlb) 0 0x1234 load).result)
    × ((is_ok (raw_lookup (on_hart cached 0 flush_tlb) 0 0x1234 load).result ≡ false)
        ⊎ ((lookup (on_hart cached 0 flush_tlb) 0 0x1234 load).entry
            ≡ (raw_lookup (on_hart cached 0 flush_tlb) 0 0x1234 load).entry))
lookup-flush_tlb_example = lookup-flush_tlb cached 0 0x1234 load (omega arith)
