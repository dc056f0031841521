-- ===== src/Decompress/Examples.antt =====
-- Decompression of concrete instructions.
use riscmulator.Base.{arith, if◌then◌else◌, ◌≡◌, refl, some, none}
use riscmulator.Decompress.{decompress}
use riscmulator.Decompress.Agrees.{decompress-expansion}
use riscmulator.Decompress.Reference.{is_hint, expansion}

-- `c.lw a0, 0(a5)`.
decompress-lw : decompress 0x4388 ≡ some 0x0007a503
unfolding decompress
decompress-lw = refl

-- `c.addi sp, -16`.
decompress-addi : decompress 0x1141 ≡ some 0xff010113
unfolding decompress
decompress-addi = refl

-- `c.j -2`.
decompress-jump : decompress 0xbffd ≡ some 0xfffff06f
unfolding decompress
decompress-jump = refl

decompress-expansion_example :
    decompress 0x4388 ≡ (if is_hint 0x4388 then none else expansion 0x4388)
decompress-expansion_example = decompress-expansion 0x4388 (omega arith)

-- C.LUI of x0 is refused, where the manual has a hint.
decompress-hint : (decompress 0x6005 ≡ none) × (expansion 0x6005 ≡ some 0x00001037)
unfolding decompress expansion
decompress-hint = (refl, refl)
