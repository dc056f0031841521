-- ===== src/System/Examples.antt =====
-- SYSTEM instructions on concrete harts.
use riscmulator.Base.{none, refl}
use riscmulator.System.{base_system}
use riscmulator.Cpu.{Cpu, zero_cpu}
use riscmulator.Trap.{Hooks}
use riscmulator.System.Outcome.{EndsInTrap, base_system-EndsInTrap}

abbrev no_hooks : Hooks
no_hooks = λ _. none

-- MRET in U-mode.
base_system-EndsInTrap_example :
    EndsInTrap no_hooks zero_cpu 0x30200073 (base_system no_hooks zero_cpu 0x30200073)
base_system-EndsInTrap_example = base_system-EndsInTrap no_hooks zero_cpu 0x30200073 refl refl

abbrev machine : Cpu
machine = record (zero_cpu) { privilege = 3; csr = record (zero_cpu.csr) { mtvec = 0x80000100 } }
