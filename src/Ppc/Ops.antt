-- ===== src/Ppc/Ops.antt =====
-- The generic instruction bodies of ppc/ppc_ops.h that touch registers only.
use emu_core_bench.Base.{
  ℕ, ◌+◌, ◌-◌, ◌*◌, Bool, not, ◌&&◌, bit_and, bit_or, bit_xor, ltb, ◌==◌, if◌then◌else◌, add32,
  sub32, mul32, shl32, shr32, not32, sext16, asr32, int32, ltb_ℤ, pos,
}
use emu_core_bench.Ppc.State.{Ppc, set_gpr}

-- The field extractors `P_RD`, `P_RA`, `P_RB`, `P_SIMM` and `P_UIMM`.
abbrev pub p_rd : ℕ → ℕ
p_rd i = bit_and (shr32 i 21) 31

abbrev pub p_ra : ℕ → ℕ
p_ra i = bit_and (shr32 i 16) 31

abbrev pub p_rb : ℕ → ℕ
p_rb i = bit_and (shr32 i 11) 31

abbrev pub p_simm : ℕ → ℕ
p_simm i = sext16 i

abbrev pub p_uimm : ℕ → ℕ
p_uimm i = bit_and i 0xFFFF

-- `ra ? c->gpr[ra] : 0`.
abbrev pub base_or_zero : Ppc → ℕ → ℕ
base_or_zero c ra = if ra == 0 then 0 else c.gpr ra

-- The operation selectors `K_ADD` to `K_SRW`.
pub data Kind : Type 0 where
  k_add k_subf k_mullw k_and k_or k_xor k_slw k_srw : Kind

unfoldable pub set_crf : Ppc → ℕ → ℕ → Ppc
set_crf c f bits =
    let sh = 28 - 4 * f in
    record c { cr = bit_or (bit_and c.cr (not32 (shl32 0xF sh))) (shl32 bits sh) }

unfoldable pub record0 : Ppc → ℕ → Ppc
record0 c r =
    let b : ℕ = if ltb_ℤ (int32 r) (pos 0) then 8 else if ltb_ℤ (pos 0) (int32 r) then 4 else 2 in
    set_crf c 0 b

-- `if (rc) record0(c, r)`.
abbrev pub record_if : Bool → Ppc → ℕ → Ppc
record_if rc c r = if rc then record0 c r else c

unfoldable pub rotl32 : ℕ → ℕ → ℕ
rotl32 v sh = bit_or (shl32 v sh) (if sh == 0 then 0 else shr32 v (32 - sh))

unfoldable pub ppc_mask : ℕ → ℕ → ℕ
ppc_mask mb me =
    let x = shr32 0xFFFF_FFFF mb in
    let y : ℕ = if me == 31 then 0xFFFF_FFFF else not32 (shr32 0xFFFF_FFFF (me + 1)) in
    if ltb me mb then bit_or x y else bit_and x y

unfoldable pub gen_addi : Ppc → ℕ → Bool → Ppc
gen_addi c insn shifted =
    let ra = p_ra insn in
    let imm = if shifted then shl32 (p_simm insn) 16 else p_simm insn in
    set_gpr c (p_rd insn) (add32 (base_or_zero c ra) imm)

-- The product of the source is signed; the value kept is its low half.
unfoldable pub gen_mulli : Ppc → ℕ → Ppc
gen_mulli c insn = set_gpr c (p_rd insn) (mul32 (c.gpr (p_ra insn)) (p_simm insn))

abbrev pub logic : Kind → ℕ → ℕ → ℕ
logic Kind.k_and s imm = bit_and s imm
logic Kind.k_or s imm = bit_or s imm
logic _ s imm = bit_xor s imm

unfoldable pub gen_logic_d : Ppc → ℕ → Kind → Bool → Bool → Ppc
gen_logic_d c insn kind shifted rc =
    let imm = if shifted then shl32 (p_uimm insn) 16 else p_uimm insn in
    let r = logic kind (c.gpr (p_rd insn)) imm in record_if rc (set_gpr c (p_ra insn) r) r

abbrev pub arith_op : Kind → ℕ → ℕ → ℕ
arith_op Kind.k_add a b = add32 a b
arith_op Kind.k_subf a b = sub32 b a
arith_op _ a b = mul32 a b

unfoldable pub gen_xo_arith : Ppc → ℕ → Kind → Bool → Ppc
gen_xo_arith c insn kind rc =
    let r = arith_op kind (c.gpr (p_ra insn)) (c.gpr (p_rb insn)) in
    record_if rc (set_gpr c (p_rd insn) r) r

abbrev pub logic_op : Kind → ℕ → ℕ → ℕ
logic_op Kind.k_and s b = bit_and s b
logic_op Kind.k_or s b = bit_or s b
logic_op Kind.k_xor s b = bit_xor s b
logic_op Kind.k_slw s b = if bit_and b 0x20 == 0 then shl32 s (bit_and b 31) else 0
logic_op _ s b = if bit_and b 0x20 == 0 then shr32 s (bit_and b 31) else 0

unfoldable pub gen_x_logic : Ppc → ℕ → Kind → Bool → Ppc
gen_x_logic c insn kind rc =
    let r = logic_op kind (c.gpr (p_rd insn)) (c.gpr (p_rb insn)) in
    record_if rc (set_gpr c (p_ra insn) r) r

-- The carry of an arithmetic right shift: a negative value that loses a one.
abbrev pub sraw_carry : ℕ → ℕ → ℕ
sraw_carry s sh =
    let lost : ℕ = if sh == 0 then 0 else bit_and s (shl32 1 sh - 1) in
    if ltb_ℤ (int32 s) (pos 0) && not (lost == 0) then 1 else 0

unfoldable pub gen_srawi : Ppc → ℕ → Bool → Ppc
gen_srawi c insn rc =
    let sh = p_rb insn in
    let s = c.gpr (p_rd insn) in
    let r = asr32 s sh in
    record_if rc (set_gpr (record c { xer_ca = sraw_carry s sh }) (p_ra insn) r) r

unfoldable pub gen_rlwinm : Ppc → ℕ → Ppc
gen_rlwinm c insn =
    let sh = p_rb insn in
    let mb = bit_and (shr32 insn 6) 31 in
    let me = bit_and (shr32 insn 1) 31 in
    let r = bit_and (rotl32 (c.gpr (p_rd insn)) sh) (ppc_mask mb me) in
    record_if (not (bit_and insn 1 == 0)) (set_gpr c (p_ra insn) r) r

-- The bits LT, GT and EQ of a comparison.
abbrev pub compare_bits : Bool → ℕ → ℕ → ℕ
compare_bits is_unsigned a b =
    if is_unsigned
    then (if ltb a b then 8 else if ltb b a then 4 else 2)
    else (if ltb_ℤ (int32 a) (int32 b) then 8 else if ltb_ℤ (int32 b) (int32 a) then 4 else 2)

unfoldable pub gen_cmp : Ppc → ℕ → Bool → Bool → Ppc
gen_cmp c insn immediate is_unsigned =
    let crf = bit_and (shr32 insn 23) 7 in
    let a = c.gpr (p_ra insn) in
    let b =
      if immediate then (if is_unsigned then p_uimm insn else p_simm insn) else c.gpr (p_rb insn) in
    set_crf c crf (compare_bits is_unsigned a b)
