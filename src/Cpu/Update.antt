-- ===== src/Cpu/Update.antt =====
-- The harts of a machine as a list, and a change to one of them.
use riscmulator.Base.{
  ℕ, ◌<◌, ◌≡◌, ◌≢◌, List, length, get_or, set, length-set, get_or-set_self, get_or-set_ne,
}
use riscmulator.Cpu.{Cpu, zero_cpu}

-- `machine->cpus[i]`.
abbrev pub hart : List Cpu → ℕ → Cpu
hart cpus i = get_or cpus i zero_cpu

-- A change of `machine->cpus[i]` in place.
unfoldable pub update_hart : List Cpu → ℕ → (Cpu → Cpu) → List Cpu
update_hart cpus i f = set cpus i (f (hart cpus i))

pub length-update_hart :
    (cpus : List Cpu) (i : ℕ) (f : Cpu → Cpu) → length (update_hart cpus i f) ≡ length cpus
unfolding update_hart
length-update_hart cpus i f = length-set cpus i (f (hart cpus i))

pub hart-update_hart_self :
    (cpus : List Cpu) (i : ℕ) (f : Cpu → Cpu)
    → i < length cpus
    → hart (update_hart cpus i f) i ≡ f (hart cpus i)
unfolding update_hart
hart-update_hart_self cpus i f h = get_or-set_self cpus i (f (hart cpus i)) zero_cpu h

pub hart-update_hart_ne :
    (cpus : List Cpu) (i j : ℕ) (f : Cpu → Cpu)
    → i ≢ j
    → hart (update_hart cpus i f) j ≡ hart cpus j
unfolding update_hart
hart-update_hart_ne cpus i j f h = get_or-set_ne cpus i j (f (hart cpus i)) zero_cpu h
