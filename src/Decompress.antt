-- ===== src/Decompress.antt =====
-- emulator/src/cpu/rv_decompress.c: the 32-bit form of a 16-bit instruction. `none` is the result
-- `false`, for a reserved encoding.
pub mod Quadrant0
pub mod Quadrant1
pub mod Quadrant2
pub mod Format
pub mod Reference
pub mod Agrees
mod Examples
use riscmulator.Base.{ℕ, bit_and, Option, none, ◌==◌, if◌then◌else◌}
use Quadrant0.{decompress_q0}
use Quadrant1.{decompress_q1}
use Quadrant2.{decompress_q2}

-- `rv_decompress`.
unfoldable pub decompress : ℕ → Option ℕ
unfolding decompress_q0 decompress_q1 decompress_q2
decompress in16 =
    let quadrant = bit_and in16 0x3 in
    if quadrant == 0
    then decompress_q0 in16
    else if quadrant == 1
    then decompress_q1 in16
    else if quadrant == 2
    then decompress_q2 in16
    else none
