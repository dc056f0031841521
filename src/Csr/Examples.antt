-- ===== src/Csr/Examples.antt =====
-- The CSR theorems at concrete harts and values.
use riscmulator.Base.{arith, ◌==◌, if◌then◌else◌, max, ◌⊎◌, ◌≤◌, ◌↔◌, none, ◌≡◌}
use riscmulator.Csr.{sstatus_mask, csr_read, csr_priv}
use riscmulator.Base.Bits.{bit}
use riscmulator.Cpu.{Cpu, zero_cpu}
use riscmulator.Csr.Write.{csr_write, write_mstatus, write_sstatus}
use riscmulator.Csr.Access.{csr_read-refused}
use riscmulator.Csr.Mstatus.{write_mstatus-mpp, bit-write_sstatus}

-- A hart in M-mode with all registers zero.
abbrev machine : Cpu
machine = record (zero_cpu) { privilege = 3 }

-- `mtvec` from U-mode.
csr_read-refused_example :
    ((csr_read zero_cpu 0x305 ≡ none) ↔ (csr_write zero_cpu 0x305 8 ≡ none))
    × ((csr_priv 0x305 ≤ zero_cpu.privilege)
        ⊎ ((csr_read zero_cpu 0x305 ≡ none) × (csr_write zero_cpu 0x305 8 ≡ none)))
csr_read-refused_example = csr_read-refused zero_cpu 0x305 8

-- The reserved MPP value 2, with bit 4.
write_mstatus-mpp_example :
    (bit (write_mstatus 0x1010 machine).csr.mstatus 11 ≡ bit 0x1010 11)
    × (bit (write_mstatus 0x1010 machine).csr.mstatus 12 ≡ bit 0x1010 12)
    × (bit (write_mstatus 0x1010 machine).csr.mstatus 3 ≡ max (bit 0x1010 3) (bit 0x1010 4))
write_mstatus-mpp_example = write_mstatus-mpp 0x1010 machine

bit-write_sstatus_example :
    bit (write_sstatus 0x100 machine).csr.mstatus 8
    ≡ (if bit sstatus_mask 8 == 1 then bit 0x100 8 else bit machine.csr.mstatus 8)
bit-write_sstatus_example = bit-write_sstatus 0x100 8 machine (ground arith)
