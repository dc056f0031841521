-- ===== src/Csr/Number.antt =====
-- The CSRs that `rv_csr_read` and `rv_csr_write` know, and their numbers.
use riscmulator.Base.{ℕ, ◌-◌, ◌&&◌, Option, none, some, leb, ◌==◌, if◌then◌else◌}

-- The labels of the two `switch` statements, which are the same.
pub data Csr : Type 0 where
  misa mhartid marchid mvendorid mimpid : Csr
  mstatus mie mip mideleg medeleg mtvec mcause mtval mepc mtinst mscratch : Csr
  sstatus sie sip stvec scause stval sepc sscratch satp : Csr
  fcsr fflags frm : Csr
  pmpcfg pmpaddr : ℕ → Csr

-- The `default` branch: the two arrays, by their distance from the first.
unfoldable pub array_csr : ℕ → Option Csr
array_csr index =
    if leb 0x3a0 index && leb index 0x3af
    then some (pmpcfg (index - 0x3a0))
    else if leb 0x3b0 index && leb index 0x3ef
    then some (pmpaddr (index - 0x3b0))
    else none

unfoldable pub user_csr : ℕ → Option Csr
unfolding array_csr
user_csr index =
    if index == 0x001
    then some fflags
    else if index == 0x002
    then some frm
    else if index == 0x003
    then some fcsr
    else array_csr index

unfoldable pub supervisor_csr : ℕ → Option Csr
unfolding user_csr
supervisor_csr index =
    if index == 0x100
    then some sstatus
    else if index == 0x104
    then some sie
    else if index == 0x105
    then some stvec
    else if index == 0x140
    then some sscratch
    else if index == 0x141
    then some sepc
    else if index == 0x142
    then some scause
    else if index == 0x143
    then some stval
    else if index == 0x144
    then some sip
    else if index == 0x180
    then some satp
    else user_csr index

unfoldable pub trap_csr : ℕ → Option Csr
unfolding supervisor_csr
trap_csr index =
    if index == 0x304
    then some mie
    else if index == 0x305
    then some mtvec
    else if index == 0x340
    then some mscratch
    else if index == 0x341
    then some mepc
    else if index == 0x342
    then some mcause
    else if index == 0x343
    then some mtval
    else if index == 0x344
    then some mip
    else if index == 0x34a
    then some mtinst
    else supervisor_csr index

-- The CSR that a number names.
unfoldable pub csr_of_index : ℕ → Option Csr
unfolding trap_csr
csr_of_index index =
    if index == 0xf11
    then some mvendorid
    else if index == 0xf12
    then some marchid
    else if index == 0xf13
    then some mimpid
    else if index == 0xf14
    then some mhartid
    else if index == 0x300
    then some mstatus
    else if index == 0x301
    then some misa
    else if index == 0x302
    then some medeleg
    else if index == 0x303
    then some mideleg
    else trap_csr index
