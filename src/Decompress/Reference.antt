-- ===== src/Decompress/Reference.antt =====
-- The compressed instructions of RV64GC as the manual lays them out, for comparison with
-- emulator/src/cpu/rv_decompress.c: an immediate is a table of the places that its digits have in the
-- 16-bit and in the 32-bit instruction, and a word is a sum of fields.
use riscmulator.Base.{
  ◌||◌, ℕ, ◌+◌, ◌*◌, ◌-◌, ◌/◌, ◌%◌, ◌^◌, Bool, List, [], ◌∷◌, Option, none, some, ◌==◌, ◌&&◌,
  if◌then◌else◌,
}

abbrev digit : ℕ → ℕ → ℕ
digit x i = x / 2 ^ i % 2

-- `(i, v) ∷ …`: digit `i` of the instruction has the value `v`.
gather : List (ℕ × ℕ) → ℕ → ℕ
gather [] x = 0
gather ((i, v) ∷ rest) x = digit x i * v + gather rest x

-- A digit with the weight 2 ^ k that extends as the sign to a width.
abbrev signed_weight : ℕ → ℕ → ℕ
signed_weight width k = 2 ^ width - 2 ^ k

-- The tables of the immediates. Those of loads and stores are in the order of the manual, such as
-- uimm[5:3], uimm[7:6] for doublewords.
abbrev addi4spn_table : List (ℕ × ℕ)
addi4spn_table =
    (12, 32) ∷ (11, 16) ∷ (10, 512) ∷ (9, 256) ∷ (8, 128) ∷ (7, 64) ∷ (6, 4) ∷ (5, 8) ∷ []

abbrev double_table : List (ℕ × ℕ)
double_table = (12, 32) ∷ (11, 16) ∷ (10, 8) ∷ (6, 128) ∷ (5, 64) ∷ []

abbrev word_table : List (ℕ × ℕ)
word_table = (12, 32) ∷ (11, 16) ∷ (10, 8) ∷ (6, 4) ∷ (5, 64) ∷ []

-- A signed immediate of six digits, in a width; and a shift.
abbrev imm6_table : ℕ → List (ℕ × ℕ)
imm6_table width = (12, signed_weight width 5) ∷ (6, 16) ∷ (5, 8) ∷ (4, 4) ∷ (3, 2) ∷ (2, 1) ∷ []

abbrev shift_table : List (ℕ × ℕ)
shift_table = (12, 32) ∷ (6, 16) ∷ (5, 8) ∷ (4, 4) ∷ (3, 2) ∷ (2, 1) ∷ []

abbrev addi16sp_table : List (ℕ × ℕ)
addi16sp_table = (12, signed_weight 12 9) ∷ (6, 16) ∷ (5, 64) ∷ (4, 256) ∷ (3, 128) ∷ (2, 32) ∷ []

abbrev jump_table : List (ℕ × ℕ)
jump_table =
    (12, signed_weight 21 11)
    ∷ (11, 16)
    ∷ (10, 512)
    ∷ (9, 256)
    ∷ (8, 1024)
    ∷ (7, 64)
    ∷ (6, 128)
    ∷ (5, 8)
    ∷ (4, 4)
    ∷ (3, 2)
    ∷ (2, 32)
    ∷ []

abbrev branch_table : List (ℕ × ℕ)
branch_table =
    (12, signed_weight 13 8)
    ∷ (11, 16)
    ∷ (10, 8)
    ∷ (6, 128)
    ∷ (5, 64)
    ∷ (4, 4)
    ∷ (3, 2)
    ∷ (2, 32)
    ∷ []

abbrev ldsp_table : List (ℕ × ℕ)
ldsp_table = (12, 32) ∷ (6, 16) ∷ (5, 8) ∷ (4, 256) ∷ (3, 128) ∷ (2, 64) ∷ []

abbrev lwsp_table : List (ℕ × ℕ)
lwsp_table = (12, 32) ∷ (6, 16) ∷ (5, 8) ∷ (4, 4) ∷ (3, 128) ∷ (2, 64) ∷ []

abbrev sdsp_table : List (ℕ × ℕ)
sdsp_table = (12, 32) ∷ (11, 16) ∷ (10, 8) ∷ (9, 256) ∷ (8, 128) ∷ (7, 64) ∷ []

abbrev swsp_table : List (ℕ × ℕ)
swsp_table = (12, 32) ∷ (11, 16) ∷ (10, 8) ∷ (9, 4) ∷ (8, 128) ∷ (7, 64) ∷ []

-- The words of the formats I, R, S, U, B and J, of a major opcode.
i_word : ℕ → ℕ → ℕ → ℕ → ℕ → ℕ
i_word maj f3 rd rs1 imm = imm * 2 ^ 20 + rs1 * 2 ^ 15 + f3 * 2 ^ 12 + rd * 2 ^ 7 + maj * 4 + 3

r_word : ℕ → ℕ → ℕ → ℕ → ℕ → ℕ → ℕ
r_word maj f3 f7 rd rs1 rs2 = i_word maj f3 rd rs1 (f7 * 32 + rs2)

s_word : ℕ → ℕ → ℕ → ℕ → ℕ → ℕ
s_word maj f3 rs1 rs2 imm = i_word maj f3 (imm % 32) rs1 (imm / 32 * 32 + rs2)

u_word : ℕ → ℕ → ℕ → ℕ
u_word maj rd imm = imm * 2 ^ 12 + rd * 2 ^ 7 + maj * 4 + 3

b_word : ℕ → ℕ → ℕ → ℕ → ℕ
b_word maj f3 rs1 imm =
    i_word maj f3 (imm / 2 % 16 * 2 + digit imm 11) rs1 (digit imm 12 * 2 ^ 11 + imm / 32 % 64 * 32)

j_word : ℕ → ℕ → ℕ → ℕ
j_word maj rd imm =
    u_word maj rd
      (digit imm 20 * 2 ^ 19 + imm / 2 % 1024 * 2 ^ 9 + digit imm 11 * 2 ^ 8 + imm / 4096 % 256)

-- The fields of the 16-bit instruction: the full registers, and the short ones x8 to x15.
abbrev full_rd : ℕ → ℕ
full_rd x = x / 128 % 32

abbrev full_rs2 : ℕ → ℕ
full_rs2 x = x / 4 % 32

abbrev short_rs1 : ℕ → ℕ
short_rs1 x = 8 + x / 128 % 8

abbrev short_rs2 : ℕ → ℕ
short_rs2 x = 8 + x / 4 % 8

-- What is reserved if its immediate is zero.
nonzero : ℕ → ℕ → Option ℕ
nonzero imm word = if imm == 0 then none else some word

quadrant0 : ℕ → ℕ → Option ℕ
unfolding gather nonzero i_word s_word
quadrant0 f3 x =
    if f3 == 0
    then nonzero (gather addi4spn_table x) (i_word 4 0 (short_rs2 x) 2 (gather addi4spn_table x))
    else if f3 == 1
    then some (i_word 1 3 (short_rs2 x) (short_rs1 x) (gather double_table x))
    else if f3 == 2
    then some (i_word 0 2 (short_rs2 x) (short_rs1 x) (gather word_table x))
    else if f3 == 3
    then some (i_word 0 3 (short_rs2 x) (short_rs1 x) (gather double_table x))
    else if f3 == 5
    then some (s_word 9 3 (short_rs1 x) (short_rs2 x) (gather double_table x))
    else if f3 == 6
    then some (s_word 8 2 (short_rs1 x) (short_rs2 x) (gather word_table x))
    else if f3 == 7
    then some (s_word 8 3 (short_rs1 x) (short_rs2 x) (gather double_table x))
    else none

-- C.SRLI, C.SRAI, C.ANDI, and the operations of two registers.
register_op : ℕ → ℕ → ℕ → ℕ → Option ℕ
unfolding r_word i_word
register_op wide op rd rs2 =
    if op == 0
    then some (r_word (if wide == 0 then 12 else 14) 0 32 rd rd rs2)
    else if wide == 0
    then some (r_word 12 (if op == 1 then 4 else if op == 2 then 6 else 7) 0 rd rd rs2)
    else if op == 1
    then some (r_word 14 0 0 rd rd rs2)
    else none

arithmetic : ℕ → ℕ → Option ℕ
unfolding register_op gather
arithmetic f2 x =
    if f2 == 0
    then some (i_word 4 5 (short_rs1 x) (short_rs1 x) (gather shift_table x))
    else if f2 == 1
    then some (i_word 4 5 (short_rs1 x) (short_rs1 x) (1024 + gather shift_table x))
    else if f2 == 2
    then some (i_word 4 7 (short_rs1 x) (short_rs1 x) (gather (imm6_table 12) x))
    else register_op (digit x 12) (x / 32 % 4) (short_rs1 x) (short_rs2 x)

-- A hint with the destination x0, which the source refuses: see `expansion`.
quadrant1 : ℕ → ℕ → Option ℕ
unfolding arithmetic nonzero gather i_word b_word j_word u_word
quadrant1 f3 x =
    if f3 == 0
    then some (i_word 4 0 (full_rd x) (full_rd x) (gather (imm6_table 12) x))
    else if f3 == 1
    then nonzero (full_rd x) (i_word 6 0 (full_rd x) (full_rd x) (gather (imm6_table 12) x))
    else if f3 == 2
    then some (i_word 4 0 (full_rd x) 0 (gather (imm6_table 12) x))
    else if f3 == 3
    then (if full_rd x == 2
        then nonzero (gather addi16sp_table x) (i_word 4 0 2 2 (gather addi16sp_table x))
        else nonzero (gather (imm6_table 20) x) (u_word 13 (full_rd x) (gather (imm6_table 20) x)))
    else if f3 == 4
    then arithmetic (x / 1024 % 4) x
    else if f3 == 5
    then some (j_word 27 0 (gather jump_table x))
    else some (b_word 24 (f3 - 6) (short_rs1 x) (gather branch_table x))

-- C.JR, C.MV, C.EBREAK, C.JALR and C.ADD.
jumps : ℕ → ℕ → ℕ → Option ℕ
unfolding r_word i_word nonzero
jumps link rs1 rs2 =
    if rs2 == 0
    then (if rs1 == 0
        then (if link == 0 then none else some (i_word 28 0 0 0 1))
        else some (i_word 25 0 link rs1 0))
    else some (r_word 12 0 0 rs1 (if link == 0 then 0 else rs1) rs2)

quadrant2 : ℕ → ℕ → Option ℕ
unfolding jumps gather s_word
quadrant2 f3 x =
    if f3 == 0
    then some (i_word 4 1 (full_rd x) (full_rd x) (gather shift_table x))
    else if f3 == 1
    then some (i_word 1 3 (full_rd x) 2 (gather ldsp_table x))
    else if f3 == 2
    then nonzero (full_rd x) (i_word 0 2 (full_rd x) 2 (gather lwsp_table x))
    else if f3 == 3
    then nonzero (full_rd x) (i_word 0 3 (full_rd x) 2 (gather ldsp_table x))
    else if f3 == 4
    then jumps (digit x 12) (full_rd x) (full_rs2 x)
    else if f3 == 5
    then some (s_word 9 3 2 (full_rs2 x) (gather sdsp_table x))
    else if f3 == 6
    then some (s_word 8 2 2 (full_rs2 x) (gather swsp_table x))
    else some (s_word 8 3 2 (full_rs2 x) (gather sdsp_table x))

-- The 32-bit form of a 16-bit instruction, none for a reserved one.
unfoldable pub expansion : ℕ → Option ℕ
unfolding quadrant0 quadrant1 quadrant2
expansion x =
    if x % 4 == 0
    then quadrant0 (x / 8192) x
    else if x % 4 == 1
    then quadrant1 (x / 8192) x
    else if x % 4 == 2
    then quadrant2 (x / 8192) x
    else none

-- C.LUI and C.SLLI with the destination x0: hints, which have no effect.
unfoldable pub is_hint : ℕ → Bool
is_hint x = (full_rd x == 0) && ((x % 4 == 1) && (x / 8192 == 3) || (x % 4 == 2) && (x / 8192 == 0))
