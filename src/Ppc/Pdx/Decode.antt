-- ===== src/Ppc/Pdx/Decode.antt =====
-- `pdx_decode` of ppc/ppc_pdx_impl.h.
use emu_core_bench.Base.{
  ℕ, ◌-◌, ◌*◌, Bool, ◌&&◌, bit_and, bit_or, ◌==◌, if◌then◌else◌, u8, add32, shl32, shr32, sext16,
  asr32,
}
use emu_core_bench.Ppc.Ops.{ppc_mask}
use emu_core_bench.Ppc.Pdx.Format.{PdxId, PdxEnt, ro, zero_off}

-- `e->id = id; e->a = a; e->b = b; e->c = c`, over the zeroed `d`.
abbrev pub set_ent : PdxId → ℕ → ℕ → ℕ → PdxEnt
set_ent id a b c = record { id = id; a = a; b = b; c = c; d = 0 }

-- The entry as it is before the switch.
abbrev pub fresh : ℕ → PdxEnt
fresh insn = set_ent PdxId.illegal 0 0 insn

-- `(uint8_t)(28 - 4 * ((insn >> 23) & 7))`.
abbrev pub cr_shift : ℕ → ℕ
cr_shift insn = u8 (28 - 4 * bit_and (shr32 insn 23) 7)

-- `ra ? RO(ra) : ZERO_OFF`.
abbrev pub base_off : ℕ → ℕ
base_off ra = if ra == 0 then zero_off else ro ra

-- The cases 678 and 934, mfspr and mtspr.
abbrev pub spr_ent : ℕ → PdxId → PdxId → PdxEnt
spr_ent insn lr ctr =
    let spr = bit_or (bit_and (shr32 insn 16) 31) (shl32 (bit_and (shr32 insn 11) 31) 5) in
    let rd = bit_and (shr32 insn 21) 31 in
    if spr == 8
    then set_ent lr (ro rd) 0 insn
    else if spr == 9
    then set_ent ctr (ro rd) 0 insn
    else fresh insn

-- The case 31: `switch (insn & 0x7FF)`, on `key`.
unfoldable pub decode31 : ℕ → ℕ → PdxEnt
decode31 key insn =
    let rd = bit_and (shr32 insn 21) 31 in
    let ra = bit_and (shr32 insn 16) 31 in
    let rb = bit_and (shr32 insn 11) 31 in
    let base = base_off ra in
    if key == 0
    then set_ent PdxId.cmpw (ro ra) (cr_shift insn) (ro rb)
    else if key == 64
    then set_ent PdxId.cmplw (ro ra) (cr_shift insn) (ro rb)
    else if key == 532
    then set_ent PdxId.add (ro rd) (ro ra) (ro rb)
    else if key == 533
    then set_ent PdxId.add_rc (ro rd) (ro ra) (ro rb)
    else if key == 80
    then set_ent PdxId.subf (ro rd) (ro ra) (ro rb)
    else if key == 81
    then set_ent PdxId.subf_rc (ro rd) (ro ra) (ro rb)
    else if key == 470
    then set_ent PdxId.mullw (ro rd) (ro ra) (ro rb)
    else if key == 471
    then set_ent PdxId.mullw_rc (ro rd) (ro ra) (ro rb)
    else if key == 56
    then set_ent PdxId.and (ro ra) (ro rd) (ro rb)
    else if key == 57
    then set_ent PdxId.and_rc (ro ra) (ro rd) (ro rb)
    else if key == 888
    then set_ent PdxId.or (ro ra) (ro rd) (ro rb)
    else if key == 889
    then set_ent PdxId.or_rc (ro ra) (ro rd) (ro rb)
    else if key == 632
    then set_ent PdxId.xor (ro ra) (ro rd) (ro rb)
    else if key == 633
    then set_ent PdxId.xor_rc (ro ra) (ro rd) (ro rb)
    else if key == 48
    then set_ent PdxId.slw (ro ra) (ro rd) (ro rb)
    else if key == 1072
    then set_ent PdxId.srw (ro ra) (ro rd) (ro rb)
    else if key == 1648
    then set_ent PdxId.srawi (ro ra) (u8 rb) (ro rd)
    else if key == 1649
    then set_ent PdxId.srawi_rc (ro ra) (u8 rb) (ro rd)
    else if key == 46
    then set_ent PdxId.lwzx (ro rd) base (ro rb)
    else if key == 558
    then set_ent PdxId.lhzx (ro rd) base (ro rb)
    else if key == 174
    then set_ent PdxId.lbzx (ro rd) base (ro rb)
    else if key == 302
    then set_ent PdxId.stwx (ro rd) base (ro rb)
    else if key == 814
    then set_ent PdxId.sthx (ro rd) base (ro rb)
    else if key == 430
    then set_ent PdxId.stbx (ro rd) base (ro rb)
    else if key == 678
    then spr_ent insn PdxId.mflr PdxId.mfctr
    else if key == 934
    then spr_ent insn PdxId.mtlr PdxId.mtctr
    else fresh insn

-- The case 16: the common shapes of BO with the index of the target.
unfoldable pub decode_bc : ℕ → ℕ → PdxEnt
decode_bc addr insn =
    let bo = bit_and (shr32 insn 21) 31 in
    let bi = bit_and (shr32 insn 16) 31 in
    let target = add32 addr (sext16 (bit_and insn 0xFFFC)) in
    if bit_and insn 3 == 0
    then (if bo == 16 && bi == 0
        then set_ent PdxId.bdnz 0 0 (shr32 target 2)
        else if bo == 12
        then set_ent PdxId.bc_t (u8 (31 - bi)) 0 (shr32 target 2)
        else if bo == 4
        then set_ent PdxId.bc_f (u8 (31 - bi)) 0 (shr32 target 2)
        else set_ent PdxId.bc_gen 0 0 insn)
    else set_ent PdxId.bc_gen 0 0 insn

-- The case 18.
unfoldable pub decode_b : ℕ → ℕ → PdxEnt
decode_b addr insn =
    let li = bit_and (asr32 (shl32 insn 6) 6) 0xFFFF_FFFC in
    if bit_and insn 3 == 0
    then set_ent PdxId.b 0 0 (shr32 (add32 addr li) 2)
    else set_ent PdxId.b_gen 0 0 insn

-- The case 21: the wide entry holds the mask and the rotate amount, the narrow one the word.
unfoldable pub decode_rlwinm : Bool → ℕ → PdxEnt
decode_rlwinm wide insn =
    let rd = bit_and (shr32 insn 21) 31 in
    let ra = bit_and (shr32 insn 16) 31 in
    let rb = bit_and (shr32 insn 11) 31 in
    let id = if bit_and insn 1 == 0 then PdxId.rlwinm else PdxId.rlwinm_rc in
    if wide
    then record {
      id = id;
      a = ro ra;
      b = ro rd;
      c = ppc_mask (bit_and (shr32 insn 6) 31) (bit_and (shr32 insn 1) 31);
      d = rb;
    }
    else set_ent id (ro ra) (ro rd) insn

-- The `switch (insn >> 26)`, on `prim`.
unfoldable pub decode_primary : Bool → ℕ → ℕ → ℕ → PdxEnt
decode_primary wide prim addr insn =
    let rd = bit_and (shr32 insn 21) 31 in
    let ra = bit_and (shr32 insn 16) 31 in
    let simm = sext16 insn in
    let uimm = bit_and insn 0xFFFF in
    if prim == 7
    then set_ent PdxId.mulli (ro rd) (ro ra) simm
    else if prim == 10
    then set_ent PdxId.cmplwi (ro ra) (cr_shift insn) uimm
    else if prim == 11
    then set_ent PdxId.cmpwi (ro ra) (cr_shift insn) simm
    else if prim == 14
    then (if ra == 0
        then set_ent PdxId.li (ro rd) 0 simm
        else set_ent PdxId.addi (ro rd) (ro ra) simm)
    else if prim == 15
    then (if ra == 0
        then set_ent PdxId.li (ro rd) 0 (shl32 simm 16)
        else set_ent PdxId.addi (ro rd) (ro ra) (shl32 simm 16))
    else if prim == 16
    then decode_bc addr insn
    else if prim == 18
    then decode_b addr insn
    else if prim == 19
    then set_ent PdxId.op19_gen 0 0 insn
    else if prim == 21
    then decode_rlwinm wide insn
    else if prim == 24
    then set_ent PdxId.ori (ro ra) (ro rd) uimm
    else if prim == 25
    then set_ent PdxId.ori (ro ra) (ro rd) (shl32 uimm 16)
    else if prim == 26
    then set_ent PdxId.xori (ro ra) (ro rd) uimm
    else if prim == 27
    then set_ent PdxId.xori (ro ra) (ro rd) (shl32 uimm 16)
    else if prim == 28
    then set_ent PdxId.andi_rc (ro ra) (ro rd) uimm
    else if prim == 31
    then decode31 (bit_and insn 0x7FF) insn
    else if prim == 32
    then set_ent PdxId.lwz (ro rd) (base_off ra) simm
    else if prim == 33
    then set_ent PdxId.lwzu (ro rd) (ro ra) simm
    else if prim == 34
    then set_ent PdxId.lbz (ro rd) (base_off ra) simm
    else if prim == 36
    then set_ent PdxId.stw (ro rd) (base_off ra) simm
    else if prim == 37
    then set_ent PdxId.stwu (ro rd) (ro ra) simm
    else if prim == 38
    then set_ent PdxId.stb (ro rd) (base_off ra) simm
    else if prim == 40
    then set_ent PdxId.lhz (ro rd) (base_off ra) simm
    else if prim == 44
    then set_ent PdxId.sth (ro rd) (base_off ra) simm
    else fresh insn

-- The whole decoder, for the word `insn` at the guest address `addr`.
unfoldable pub pdx_decode : Bool → ℕ → ℕ → PdxEnt
pdx_decode wide addr insn = decode_primary wide (shr32 insn 26) addr insn
