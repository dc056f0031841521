-- ===== src/Platform.antt =====
-- The interrupt controllers as devices of a machine: rv_plic_mmio_region of
-- emulator/src/device/rv_plic.c and rv_clint_mmio_region of emulator/src/device/rv_clint.c.
pub mod Board
pub mod Delivery
mod Examples
use riscmulator.Plic.{
  write_block, write_enable, clear_pending, ctx_base, block_reg, enable_base, write_priority,
  pending_base, block_ctx, num_sources, claim_from, Plic, do_claim, read_block, commit,
  read as plic_read, write as plic_write,
}
use riscmulator.Base.{
  truth, leb, u32, ◌==◌, ltb, not, if◌then◌else◌, ℕ, ◌≡◌, refl, Bool, true, false, Option, none,
  some, List, if-elim, length,
}
use riscmulator.Clint.{
  drive_msip, arm_timer, Target, set_mtimecmp, target, Clint, write_target, mtime_reg, mtimecmp_reg,
  msip_reg, read as clint_read, write as clint_write,
}
use riscmulator.Cpu.Update.{length-update_hart}
use mathlib.Core.Option
use riscmulator.Cpu.{Cpu}
use riscmulator.Machine.{Region}
use riscmulator.Machine.Shape.{IsTame}
use riscmulator.Plic.Lines.{length-update_harts}

-- The devices, and the reading of the host's clock in nanoseconds.
pub record Devices : Type 0 where
  pub plic : Plic
  pub clint : Clint
  pub now : ℕ

unfoldable pub plic_got : Devices → Bool × (ℕ × Plic × List Cpu) → Option ℕ × Devices × List Cpu
plic_got devices (accepted, (val, plic, cpus)) =
    (if accepted then some val else none, record devices { plic = plic }, cpus)

unfoldable pub plic_put : Devices → Bool × (Plic × List Cpu) → Bool × Devices × List Cpu
plic_put devices (accepted, (plic, cpus)) = (accepted, record devices { plic = plic }, cpus)

-- `rv_plic_mmio_region`.
unfoldable pub plic_region : ℕ → Region Devices
unfolding plic_got plic_put
plic_region base = record {
  base = base;
  size = 0x400000;
  read = λ devices cpus offset size. plic_got devices (plic_read devices.plic cpus offset size);
  write = λ devices cpus offset size value.
      plic_put devices (plic_write devices.plic cpus offset size value);
}

unfoldable pub clint_put :
    Devices → List Cpu → Option (Clint × List Cpu) → Bool × Devices × List Cpu
clint_put devices cpus none = (false, devices, cpus)
clint_put devices cpus (some (clint, after)) = (true, record devices { clint = clint }, after)

-- `rv_clint_mmio_region`.
unfoldable pub clint_region : ℕ → Region Devices
unfolding clint_put
clint_region base = record {
  base = base;
  size = 0x10000;
  read = λ devices cpus offset size.
      (clint_read devices.now devices.clint cpus offset size, devices, cpus);
  write = λ devices cpus offset size value.
      clint_put devices cpus (clint_write devices.now devices.clint cpus offset size value);
}

-- Neither device changes the number of harts.
harts_of : Bool × (ℕ × Plic × List Cpu) → List Cpu
harts_of (accepted, (val, plic, cpus)) = cpus

do_claim-harts :
    (p : Plic) (cpus : List Cpu) (ctx : ℕ) → length (do_claim p cpus ctx).2 ≡ length cpus
unfolding do_claim
do_claim-harts p cpus ctx =
    if-elim same (leb (u32 p.num_contexts) ctx) (λ _. refl)
      (λ _.
        if-elim same (truth src) (λ _. length-update_harts (clear_pending p src) cpus) (λ _. refl))
  where
    src : ℕ
    src = claim_from p ctx num_sources 1 0 0

    same : ℕ × Plic × List Cpu → Type 0
    same r = length r.2 ≡ length cpus

read_block-harts :
    (p : Plic) (cpus : List Cpu) (offset : ℕ) → length (read_block p cpus offset).2 ≡ length cpus
unfolding read_block
read_block-harts p cpus offset =
    if-elim same (ltb (block_ctx offset) (u32 p.num_contexts))
      (λ _.
        if-elim same (block_reg offset == 0) (λ _. refl)
          (λ _.
            if-elim same (block_reg offset == 4) (λ _. do_claim-harts p cpus (block_ctx offset))
              (λ _. refl)))
      (λ _. refl)
  where
    same : ℕ × Plic × List Cpu → Type 0
    same r = length r.2 ≡ length cpus

plic_read-harts :
    (p : Plic) (cpus : List Cpu) (offset size : ℕ)
    → length (plic_read p cpus offset size).1.2 ≡ length cpus
unfolding plic_read
plic_read-harts p cpus offset size =
    if-elim same (not (size == 4)) (λ _. refl)
      (λ _.
        if-elim same (ltb offset pending_base) (λ _. refl)
          (λ _.
            if-elim same (ltb offset enable_base) (λ _. refl)
              (λ _.
                if-elim same (ltb offset ctx_base) (λ _. refl)
                  (λ _. read_block-harts p cpus offset))))
  where
    same : Bool × (ℕ × Plic × List Cpu) → Type 0
    same r = length r.1.2 ≡ length cpus

commit-harts :
    (p : Plic) (cpus : List Cpu) (next : Option Plic) → length (commit p cpus next).1 ≡ length cpus
commit-harts p cpus none = refl
commit-harts p cpus (some p') = length-update_harts p' cpus

plic_write-harts :
    (p : Plic) (cpus : List Cpu) (offset size value : ℕ)
    → length (plic_write p cpus offset size value).1.1 ≡ length cpus
unfolding plic_write
plic_write-harts p cpus offset size value =
    if-elim same (not (size == 4)) (λ _. refl)
      (λ _.
        if-elim same (ltb offset pending_base)
          (λ _. commit-harts p cpus (write_priority p offset (u32 value)))
          (λ _.
            if-elim same (ltb offset enable_base) (λ _. refl)
              (λ _.
                if-elim same (ltb offset ctx_base)
                  (λ _. commit-harts p cpus (write_enable p offset (u32 value)))
                  (λ _. commit-harts p cpus (write_block p offset (u32 value))))))
  where
    same : Bool × (Plic × List Cpu) → Type 0
    same r = length r.1.1 ≡ length cpus

pub plic_region-IsTame : (base : ℕ) → IsTame (plic_region base)
unfolding plic_region
plic_region-IsTame base = record {
  read_harts = λ d cpus offset size. plic_read-harts d.plic cpus offset size;
  write_harts = λ d cpus offset size value. plic_write-harts d.plic cpus offset size value;
}

write_target-harts :
    (now : ℕ) (clint : Clint) (cpus : List Cpu) (t : Target) (value : ℕ)
    → length (write_target now clint cpus t value).1 ≡ length cpus
unfolding write_target set_mtimecmp
write_target-harts now clint cpus mtime_reg value = refl
write_target-harts now clint cpus (mtimecmp_reg h) value = length-update_hart cpus h arm_timer
write_target-harts now clint cpus (msip_reg h) value = length-update_hart cpus h (drive_msip value)

clint_put-harts :
    (devices : Devices) (cpus : List Cpu) (value : ℕ) (t : Option Target)
    → length
        (clint_put devices cpus
          (Option.map (λ x. write_target devices.now devices.clint cpus x value) t)).2
      ≡ length cpus
unfolding clint_put
clint_put-harts devices cpus value none = refl
clint_put-harts devices cpus value (some t) =
    write_target-harts devices.now devices.clint cpus t value

pub clint_region-IsTame : (base : ℕ) → IsTame (clint_region base)
unfolding clint_region clint_write
clint_region-IsTame base = record {
  read_harts = λ d cpus offset size. refl;
  write_harts =
      λ d cpus offset size value. clint_put-harts d cpus value (target d.clint offset size);
}
