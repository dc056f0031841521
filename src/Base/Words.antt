-- ===== src/Base/Words.antt =====
-- Casts to the fixed widths of C, shifts, and the signed reading of a word.
use Prim.Native.Nat.{ℕ, ◌+◌, ◌-◌, ◌*◌, ◌/◌, ◌%◌, ◌^◌}
use riscmulator.Base.Tests.{ltb, if◌then◌else◌}

abbrev pub u8 : ℕ → ℕ
u8 n = n % 2 ^ 8

abbrev pub u16 : ℕ → ℕ
u16 n = n % 2 ^ 16

abbrev pub u32 : ℕ → ℕ
u32 n = n % 2 ^ 32

abbrev pub u64 : ℕ → ℕ
u64 n = n % 2 ^ 64

-- Shifts; a left shift of a word is cut to its width where it stands.
infixl 75 ◌<<<◌ ◌>>>◌
abbrev pub ◌<<<◌ : ℕ → ℕ → ℕ
x <<< k = x * 2 ^ k

abbrev pub ◌>>>◌ : ℕ → ℕ → ℕ
x >>> k = x / 2 ^ k

-- `~x` of a `uint64_t`, a `uint32_t`.
unfoldable pub not64 : ℕ → ℕ
not64 x = 2 ^ 64 - 1 - x % 2 ^ 64

unfoldable pub not32 : ℕ → ℕ
not32 x = 2 ^ 32 - 1 - x % 2 ^ 32

-- `a - b` of two `uint64_t`.
abbrev pub sub64 : ℕ → ℕ → ℕ
sub64 a b = (a + 2 ^ 64 - b) % 2 ^ 64

-- The sign extension to 64 bits of the low `w` bits of a word.
unfoldable pub sign_extend : ℕ → ℕ → ℕ
sign_extend w x =
    let low = x % 2 ^ w in if ltb low (2 ^ (w - 1)) then low else low + (2 ^ 64 - 2 ^ w)
