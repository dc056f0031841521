-- ===== src/Memory.antt =====
-- emulator/include/emu_machine.h: the modes and the results of memory accesses; and bytes, as the
-- C code copies them by `memcpy` and by casts of pointers.
pub mod Bytes
use riscmulator.Base.{
  ℕ, zero, suc, ◌+◌, ◌*◌, ◌/◌, Bool, true, false, List, [], ◌∷◌, ◌==◌, if◌then◌else◌, get_or, set,
  u8,
}

-- `enum rv_access`; `fetch` is `RV_ACCESS_INSN`.
pub data Access : Type 0 where
  fetch amo load store : Access

-- `enum rv_mem_result`.
pub data MemResult : Type 0 where
  ok access_fault page_fault : MemResult

abbrev pub is_ok : MemResult → Bool
is_ok ok = true
is_ok access_fault = false
is_ok page_fault = false

abbrev pub is_store : Access → Bool
is_store fetch = false
is_store amo = false
is_store load = false
is_store store = true

-- Whether the access sets the D flag of a page.
abbrev pub dirties : Access → Bool
dirties fetch = false
dirties amo = true
dirties load = false
dirties store = true

abbrev page_cause : Access → ℕ
page_cause fetch = 12
page_cause load = 13
page_cause amo = 15
page_cause store = 15

abbrev access_cause : Access → ℕ
access_cause fetch = 1
access_cause load = 5
access_cause amo = 7
access_cause store = 7

-- `rv_mem_cause`.
abbrev pub mem_cause : MemResult → Access → ℕ
mem_cause page_fault mode = page_cause mode
mem_cause ok mode = access_cause mode
mem_cause access_fault mode = access_cause mode

-- The bytes from index `i` on, and a store of bytes there.
unfoldable pub load_bytes : List ℕ → ℕ → ℕ → List ℕ
load_bytes ram i zero = []
load_bytes ram i (suc n) = get_or ram i 0 ∷ load_bytes ram (i + 1) n

unfoldable pub store_bytes : List ℕ → ℕ → List ℕ → List ℕ
store_bytes ram i [] = ram
store_bytes ram i (b ∷ bs) = store_bytes (set ram i b) (i + 1) bs

-- A copy of bytes to the front of a buffer.
unfoldable pub overwrite : List ℕ → List ℕ → List ℕ
overwrite [] bs = []
overwrite (x ∷ xs) [] = x ∷ xs
overwrite (x ∷ xs) (b ∷ bs) = b ∷ overwrite xs bs

-- The first bytes of a buffer, and what is behind them.
unfoldable pub take : ℕ → List ℕ → List ℕ
take zero bs = []
take (suc n) [] = []
take (suc n) (b ∷ bs) = b ∷ take n bs

unfoldable pub drop : ℕ → List ℕ → List ℕ
drop zero bs = bs
drop (suc n) [] = []
drop (suc n) (b ∷ bs) = drop n bs

-- A word as bytes, the lowest first, and back.
unfoldable pub le_bytes : ℕ → ℕ → List ℕ
le_bytes zero v = []
le_bytes (suc n) v = u8 v ∷ le_bytes n (v / 256)

unfoldable pub le_value : List ℕ → ℕ
le_value [] = 0
le_value (b ∷ bs) = b + 256 * le_value bs
