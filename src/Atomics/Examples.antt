-- ===== src/Atomics/Examples.antt =====
-- The theorems on reservations at a machine with sixteen bytes of RAM.
use riscmulator.LoadStore.RoundTrip.{IsPlain}
use riscmulator.Base.{arith, ℕ, ◌≡◌, refl, true, false, [], ◌∷◌, none, replicate}
use riscmulator.Paging.Virt.{is_bare, access_virt}
use riscmulator.Atomics.Pair.{store_conditional-load_reserved, committed, linked}
use riscmulator.Machine.Phys.{in_ram, pmp_allows}
use riscmulator.Pmp.{check_from, pmp_check}
use riscmulator.Atomics.{
  load_reserved, xreg_write, access_virt, store_conditional, amo_finish, write_rd, atomic_write,
}
use riscmulator.Machine.Ram.{is_permitted}
use riscmulator.Cpu.{xreg_write, zero_cpu}
use riscmulator.Machine.{Machine, Accessed, hart_of, on_hart, done}
use riscmulator.Atomics.Reservations.{store_conditional-amo_finish, store_conditional-twice}

abbrev m : Machine ℕ
m = record {
  ram_start = 4096;
  ram_end = 4112;
  ram = replicate 16 7;
  trap_hook = λ _. none;
  cpus = record (zero_cpu) { privilege = 3; mem_privilege = 3 } ∷ [];
  reservations = record { addr = 4096; valid = true } ∷ [];
  mmio = [];
  devices = 0;
  clint = λ _. record { epoch_ns = 0; mtimecmp = []; deadline_ns = []; cpu_count = 0 };
  overran = false;
}

-- SC.W x3, x1, (x2); LR.W x3, (x2); AMOADD.W x3, x1, (x2).
abbrev sc : ℕ
sc = 0x181121af

abbrev lr : ℕ
lr = 0x100121af

abbrev amoadd : ℕ
amoadd = 0x001121af

abbrev put : Accessed ℕ
put = atomic_write m 0 4096 true 9

store_conditional-amo_finish_example :
    store_conditional (amo_finish 0 amoadd 4096 7 put) 0 sc 4096 true
    ≡ write_rd (amo_finish 0 amoadd 4096 7 put) 0 sc 1
unfolding atomic_write access_virt pmp_check riscmulator.Machine.Phys.access_phys
    riscmulator.Machine.copy_ram
store_conditional-amo_finish_example =
    store_conditional-amo_finish put 0 0 amoadd sc 4096 7 true refl

store_conditional-twice_example :
    store_conditional (store_conditional m 0 sc 4096 true) 0 sc 4096 true
    ≡ write_rd (store_conditional m 0 sc 4096 true) 0 sc 1
unfolding store_conditional atomic_write access_virt pmp_check xreg_write
    riscmulator.Machine.Phys.access_phys riscmulator.Machine.copy_ram
    riscmulator.Cpu.Update.update_hart
store_conditional-twice_example =
    store_conditional-twice m 0 sc sc 4096 4096 true true refl refl refl

-- The machine before any LR.
abbrev unreserved : Machine ℕ
unreserved = record m { reservations = record { addr = 0; valid = false } ∷ [] }

plain : IsPlain unreserved 0 4096 2
unfolding is_permitted pmp_allows pmp_check check_from in_ram is_bare
plain = record {
  sized = record { bounds = refl; below = omega arith };
  store_bare = refl;
  load_bare = refl;
  may_store = refl;
  may_load = refl;
  inside = refl;
  fits = omega arith;
  small = omega arith;
}

store_conditional-load_reserved_example :
    (load_reserved unreserved 0 lr 4096 true ≡ linked unreserved 0 lr 4096 true)
    × (store_conditional (load_reserved unreserved 0 lr 4096 true) 0 sc 4096 true
        ≡ committed (linked unreserved 0 lr 4096 true) 0 sc 4096 true)
store_conditional-load_reserved_example =
    store_conditional-load_reserved unreserved 0 lr sc 4096 true refl (omega arith) plain
