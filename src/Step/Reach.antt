-- ===== src/Step/Reach.antt =====
-- The states that a machine of emulator/src/emu_machine.c reaches: its harts take their rounds in
-- any order.
use riscmulator.Base.{
  zero, ap, length-replicate, suc, length, ◌++◌, ◌^◌, ℕ, ◌≡◌, ◌<◌, ◌+◌, ◌∙◌, arith, refl, sym, List,
  [], ◌∷◌,
}
use riscmulator.Machine.Shape.{
  SameShape-trans, SameShape-refl, still_tame, SameShape, AllTame, IsTame, none_left, one_more,
}
use riscmulator.Step.Frame.{thread_round-SameShape, IsTameFloat}
use riscmulator.Machine.{init_harts, Machine, Region, init, add_mmio}
use riscmulator.Step.{FloatOps, Turn, turn}

-- RAM lies where the bounds say, below the end of the address space; there is a reservation for
-- each hart; and the devices keep the number of harts.
record IsWellFormed {D : Type 0} (m : Machine D) : Type 0 where
  pub bounds : m.ram_start + length m.ram ≡ m.ram_end
  pub below : m.ram_end < 2 ^ 64
  pub matched : length m.reservations ≡ length m.cpus
  pub tame : AllTame m.mmio

SameShape-IsWellFormed :
    {D : Type 0} {m n : Machine D} → SameShape m n → IsWellFormed m → IsWellFormed n
SameShape-IsWellFormed same good = record {
  bounds = omega (arith, same.start, same.end, same.size, good.bounds);
  below = omega (arith, same.end, good.below);
  matched = same.reserved ∙ good.matched ∙ sym same.harts;
  tame = still_tame same good.tame;
}

length-init_harts : (left i : ℕ) → length (init_harts left i) ≡ left
unfolding init_harts
length-init_harts zero i = refl
length-init_harts (suc left) i = ap suc (length-init_harts left (i + 1))

-- A machine as `emu_machine_init` leaves it is well formed.
init-IsWellFormed :
    {D : Type 0} (m : Machine D) (cpu_count start size : ℕ)
    → start + size < 2 ^ 64
    → AllTame m.mmio
    → IsWellFormed (init m cpu_count start size)
unfolding init
init-IsWellFormed m cpu_count start size fits tame = record {
  bounds = omega (arith, length-replicate {A = ℕ} size 0);
  below = omega arith;
  matched = length-replicate cpu_count _ ∙ sym (length-init_harts cpu_count 0);
  tame = tame;
}

AllTame-++ :
    {D : Type 0} (rs : List (Region D)) (r : Region D)
    → AllTame rs
    → IsTame r
    → AllTame (rs ++ (r ∷ []))
AllTame-++ [] r none_left one = one_more one none_left
AllTame-++ (x ∷ rs) r (one_more first rest) one = one_more first (AllTame-++ rs r rest one)

add_mmio-IsWellFormed :
    {D : Type 0} (m : Machine D) (r : Region D)
    → IsWellFormed m
    → IsTame r
    → IsWellFormed (add_mmio m r)
unfolding add_mmio
add_mmio-IsWellFormed m r good one = record {
  bounds = good.bounds;
  below = good.below;
  matched = good.matched;
  tame = AllTame-++ m.mmio r good.tame one;
}

-- Any number of rounds.
data Reach {D : Type 0} (floats : FloatOps D) : Machine D → Machine D → Type 0 where
  here : (m : Machine D) → Reach floats m m
  later : {m n o : Machine D} → Turn floats m n → Reach floats n o → Reach floats m o

Turn-SameShape :
    {D : Type 0} {floats : FloatOps D} {m n : Machine D}
    → IsTameFloat floats
    → AllTame m.mmio
    → Turn floats m n
    → SameShape m n
Turn-SameShape {floats = floats} tame_floats tame (turn m h now exists running) =
    thread_round-SameShape floats now m h tame_floats tame

Reach-SameShape :
    {D : Type 0} {floats : FloatOps D} {m n : Machine D}
    → IsTameFloat floats
    → AllTame m.mmio
    → Reach floats m n
    → SameShape m n
Reach-SameShape tame_floats tame (here m) = SameShape-refl m
Reach-SameShape tame_floats tame (later first rest) =
    let same = Turn-SameShape tame_floats tame first in
    SameShape-trans same (Reach-SameShape tame_floats (still_tame same tame) rest)

-- Every state that a well-formed machine reaches is well formed, with as many harts and as much RAM
-- at the same addresses, whatever its harts execute and in whatever order.
Reach-IsWellFormed :
    {D : Type 0} (floats : FloatOps D) (m n : Machine D)
    → IsTameFloat floats
    → IsWellFormed m
    → Reach floats m n
    → IsWellFormed n
      × (length n.cpus ≡ length m.cpus)
      × (length n.ram ≡ length m.ram)
      × (n.ram_start ≡ m.ram_start)
Reach-IsWellFormed floats m n tame_floats good steps =
    let same = Reach-SameShape tame_floats good.tame steps in
    (SameShape-IsWellFormed same good, same.harts, same.size, same.start)
