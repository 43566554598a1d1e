-- ===== src/Harness/M68k/Assemble.antt =====
-- The assembler of m68k/bench_main.c. A macro is the words that it passes to `ew`, given the
-- `g_pc` at which it starts; a negative argument is its 32-bit pattern.
use emu_core_bench.Base.{
  ℕ, ◌+◌, bit_and, bit_or, List, [], ◌∷◌, u8, u16, add32, sub32, shl32, shr32,
}
use emu_core_bench.Memory.{Env, store_be16}

-- `ew`, whose parameter is a uint16_t.
unfoldable pub ew : ℕ → Env → ℕ → ℕ → Env × ℕ
ew g_ram env g_pc w =
    (record env { host = store_be16 env.host (g_ram + g_pc) (u16 w) }, add32 g_pc 2)

unfoldable pub ew_all : ℕ → Env → ℕ → List ℕ → Env × ℕ
ew_all g_ram env g_pc [] = (env, g_pc)
ew_all g_ram env g_pc (w ∷ rest) =
    let (env', g_pc') = ew g_ram env g_pc w in ew_all g_ram env' g_pc' rest

abbrev pub Macro : Type 0
Macro = ℕ → List ℕ

-- A sequence of macros.
unfoldable pub assemble : ℕ → Env → ℕ → List Macro → Env × ℕ
assemble g_ram env g_pc [] = (env, g_pc)
assemble g_ram env g_pc (macro ∷ rest) =
    let (env', g_pc') = ew_all g_ram env g_pc (macro g_pc) in assemble g_ram env' g_pc' rest

-- `base | hi << 9 | lo`.
abbrev pub two_fields : ℕ → ℕ → ℕ → ℕ
two_fields base hi lo = bit_or (bit_or base (shl32 hi 9)) lo

abbrev pub moveq : ℕ → ℕ → Macro
moveq dn imm g_pc = two_fields 0x7000 dn (bit_and imm 0xFF) ∷ []

-- The macros with a long immediate evaluate it twice: `imm` is its first value, whose high half
-- is taken, and `imm'` its second, whose low half is.
abbrev pub move_l_imm_dn : ℕ → ℕ → ℕ → Macro
move_l_imm_dn dn imm imm' g_pc = bit_or 0x203C (shl32 dn 9) ∷ u16 (shr32 imm 16) ∷ u16 imm' ∷ []

abbrev pub move_w_imm_dn : ℕ → ℕ → Macro
move_w_imm_dn dn imm g_pc = bit_or 0x303C (shl32 dn 9) ∷ u16 imm ∷ []

abbrev pub movea_l_imm : ℕ → ℕ → ℕ → Macro
movea_l_imm an imm imm' g_pc = bit_or 0x207C (shl32 an 9) ∷ u16 (shr32 imm 16) ∷ u16 imm' ∷ []

abbrev pub move_l_dd : ℕ → ℕ → Macro
move_l_dd dst src g_pc = two_fields 0x2000 dst src ∷ []

abbrev pub move_l_anp_dn : ℕ → ℕ → Macro
move_l_anp_dn dn an g_pc = two_fields 0x2018 dn an ∷ []

abbrev pub move_l_dn_anp : ℕ → ℕ → Macro
move_l_dn_anp an dn g_pc = two_fields 0x20C0 an dn ∷ []

abbrev pub move_l_d16_dn : ℕ → ℕ → ℕ → Macro
move_l_d16_dn dn an d g_pc = two_fields 0x2028 dn an ∷ u16 d ∷ []

abbrev pub move_l_dn_d16 : ℕ → ℕ → ℕ → Macro
move_l_dn_d16 an d dn g_pc = two_fields 0x2140 an dn ∷ u16 d ∷ []

abbrev pub move_w_d16_dn : ℕ → ℕ → ℕ → Macro
move_w_d16_dn dn an d g_pc = two_fields 0x3028 dn an ∷ u16 d ∷ []

abbrev pub move_w_dn_d16 : ℕ → ℕ → ℕ → Macro
move_w_dn_d16 an d dn g_pc = two_fields 0x3140 an dn ∷ u16 d ∷ []

abbrev pub move_b_d16_dn : ℕ → ℕ → ℕ → Macro
move_b_d16_dn dn an d g_pc = two_fields 0x1028 dn an ∷ u16 d ∷ []

abbrev pub move_b_dn_d16 : ℕ → ℕ → ℕ → Macro
move_b_dn_d16 an d dn g_pc = two_fields 0x1140 an dn ∷ u16 d ∷ []

abbrev pub add_l_dd : ℕ → ℕ → Macro
add_l_dd dst src g_pc = two_fields 0xD080 dst src ∷ []

abbrev pub sub_l_dd : ℕ → ℕ → Macro
sub_l_dd dst src g_pc = two_fields 0x9080 dst src ∷ []

abbrev pub cmp_l_dd : ℕ → ℕ → Macro
cmp_l_dd dn src g_pc = two_fields 0xB080 dn src ∷ []

abbrev pub eor_l_dd : ℕ → ℕ → Macro
eor_l_dd dst dn g_pc = two_fields 0xB180 dn dst ∷ []

abbrev pub and_l_dd : ℕ → ℕ → Macro
and_l_dd dst src g_pc = two_fields 0xC080 dst src ∷ []

abbrev pub or_l_dd : ℕ → ℕ → Macro
or_l_dd dst src g_pc = two_fields 0x8080 dst src ∷ []

abbrev pub addq_l_dn : ℕ → ℕ → Macro
addq_l_dn q dn g_pc = two_fields 0x5080 (bit_and q 7) dn ∷ []

abbrev pub addq_l_an : ℕ → ℕ → Macro
addq_l_an q an g_pc = two_fields 0x5088 (bit_and q 7) an ∷ []

abbrev pub subq_l_dn : ℕ → ℕ → Macro
subq_l_dn q dn g_pc = two_fields 0x5180 (bit_and q 7) dn ∷ []

abbrev pub cmpi_l_dn : ℕ → ℕ → ℕ → Macro
cmpi_l_dn imm imm' dn g_pc = bit_or 0x0C80 dn ∷ u16 (shr32 imm 16) ∷ u16 imm' ∷ []

abbrev pub tst_l_dn : ℕ → Macro
tst_l_dn dn g_pc = bit_or 0x4A80 dn ∷ []

abbrev pub tst_w_dn : ℕ → Macro
tst_w_dn dn g_pc = bit_or 0x4A40 dn ∷ []

abbrev pub tst_b_dn : ℕ → Macro
tst_b_dn dn g_pc = bit_or 0x4A00 dn ∷ []

abbrev pub lsl_l : ℕ → ℕ → Macro
lsl_l q dn g_pc = two_fields 0xE188 (bit_and q 7) dn ∷ []

abbrev pub lsr_l : ℕ → ℕ → Macro
lsr_l q dn g_pc = two_fields 0xE088 (bit_and q 7) dn ∷ []

abbrev pub lea_d16 : ℕ → ℕ → ℕ → Macro
lea_d16 dst src d g_pc = two_fields 0x41E8 dst src ∷ u16 d ∷ []

abbrev pub nop : Macro
nop g_pc = 0x4E71 ∷ []

-- The branches take their targets, from which the displacement is computed; the long forms do so
-- after their first word.
abbrev pub bra_b : ℕ → Macro
bra_b target g_pc = bit_or 0x6000 (u8 (sub32 target (add32 g_pc 2))) ∷ []

abbrev pub bra_w : ℕ → Macro
bra_w target g_pc = 0x6000 ∷ u16 (sub32 target (add32 g_pc 2)) ∷ []

abbrev pub bcc_b : ℕ → ℕ → Macro
bcc_b cond target g_pc =
    bit_or (bit_or 0x6000 (shl32 cond 8)) (u8 (sub32 target (add32 g_pc 2))) ∷ []

abbrev pub dbra : ℕ → ℕ → Macro
dbra dn target g_pc = bit_or 0x51C8 dn ∷ u16 (sub32 target (add32 g_pc 2)) ∷ []

-- `CC_NE` to `CC_LE`.
abbrev pub cc_ne : ℕ
cc_ne = 6

abbrev pub cc_eq : ℕ
cc_eq = 7

abbrev pub cc_pl : ℕ
cc_pl = 10

abbrev pub cc_mi : ℕ
cc_mi = 11

abbrev pub cc_ge : ℕ
cc_ge = 12

abbrev pub cc_lt : ℕ
cc_lt = 13

abbrev pub cc_gt : ℕ
cc_gt = 14

abbrev pub cc_le : ℕ
cc_le = 15
