-- ===== src/M68k/Pd/Decode.antt =====
-- `mpd_decode` of m68k/m68k_pd_impl.h.
use emu_core_bench.Base.{
  ℕ, ◌+◌, bit_and, ◌&&◌, none, some, Outcome, ok, ◌>>=◌, u8, add32, shr32, sext16, find_case, ltb,
  ◌==◌, if◌then◌else◌,
}
use emu_core_bench.Memory.{Env, memory_read_uint16, memory_read_uint32}
use emu_core_bench.M68k.State.{dr_off, ar_off}
use emu_core_bench.M68k.Ops.{cond_key, m68k_conds}
use emu_core_bench.M68k.Pd.Format.{Elidable, PureFlag, MpdId, MpdEnt}

-- An entry and the instruction's length in words.
abbrev pub Decoded : Type 0
Decoded = Outcome (MpdEnt × ℕ)

abbrev pub ent_of : MpdId → ℕ → ℕ → ℕ → ℕ → Decoded
ent_of id a b c len = ok (record { id = id; a = a; b = b; c = c }, len)

-- The entry as it is reset, with the raw opcode; `return 1`.
abbrev pub undecoded : ℕ → Decoded
undecoded op = ent_of MpdId.illegal 0 0 op 1

-- `(uint32_t)(int32_t)(int8_t)(op & 0xFF)`.
abbrev pub sext8 : ℕ → ℕ
sext8 x = let d = u8 x in if ltb d 0x80 then d else d + 0xFFFF_FF00

-- `(op >> 3) & 7`, `(op >> 6) & 7`, `(op >> 9) & 7`, `op & 7` and `(op >> 8) & 0xF`.
abbrev pub op_sm : ℕ → ℕ
op_sm op = bit_and (shr32 op 3) 7

abbrev pub op_dm : ℕ → ℕ
op_dm op = bit_and (shr32 op 6) 7

abbrev pub op_dr : ℕ → ℕ
op_dr op = bit_and (shr32 op 9) 7

abbrev pub op_sr : ℕ → ℕ
op_sr op = bit_and op 7

abbrev pub op_cond : ℕ → ℕ
op_cond op = bit_and (shr32 op 8) 0xF

-- A quick value: zero stands for eight.
abbrev pub quick : ℕ → ℕ
quick q = if q == 0 then 8 else q

-- The id of `MOVE.sz d16(Am),Dn` and of `MOVE.sz Dm,d16(An)` by the size code.
abbrev pub d16_load : ℕ → Elidable
d16_load szc =
    if szc == 2
    then Elidable.mv_l_d16_dn
    else if szc == 3
    then Elidable.mv_w_d16_dn
    else Elidable.mv_b_d16_dn

abbrev pub d16_store : ℕ → Elidable
d16_store szc =
    if szc == 2
    then Elidable.mv_l_dn_d16
    else if szc == 3
    then Elidable.mv_w_dn_d16
    else Elidable.mv_b_dn_d16

module _ (env : Env) (addr op : ℕ) where
  unfoldable pub decode_move : Decoded
  decode_move =
      let szc = shr32 op 12 in
      let sm = op_sm op in
      let dm = op_dm op in
      let sr = op_sr op in
      let dr = op_dr op in
      if szc == 2 && (dm == 1 && (sm == 7 && sr == 4))
      then (memory_read_uint32 env (add32 addr 2) >>= λ c.
          ent_of MpdId.movea_l_imm (ar_off dr) 0 c 3)
      else if szc == 2 && (sm == 7 && (sr == 4 && dm == 0))
      then (memory_read_uint32 env (add32 addr 2) >>= λ c.
          ent_of (MpdId.pair Elidable.mv_l_imm_dn) (dr_off dr) 0 c 3)
      else if szc == 3 && (sm == 7 && (sr == 4 && dm == 0))
      then (memory_read_uint16 env (add32 addr 2) >>= λ c.
          ent_of (MpdId.pair Elidable.mv_w_imm_dn) (dr_off dr) 0 c 2)
      else if szc == 2 && (sm == 0 && dm == 0)
      then ent_of (MpdId.pair Elidable.mv_l_dd) (dr_off dr) (dr_off sr) op 1
      else if szc == 2 && (sm == 3 && dm == 0)
      then ent_of (MpdId.pair Elidable.mv_l_anp_dn) (dr_off dr) (ar_off sr) op 1
      else if szc == 2 && (sm == 0 && dm == 3)
      then ent_of (MpdId.pair Elidable.mv_l_dn_anp) (dr_off sr) (ar_off dr) op 1
      else if sm == 5 && dm == 0
      then (memory_read_uint16 env (add32 addr 2) >>= λ d.
          ent_of (MpdId.pair (d16_load szc)) (dr_off dr) (ar_off sr) (sext16 d) 2)
      else if sm == 0 && dm == 5
      then (memory_read_uint16 env (add32 addr 2) >>= λ d.
          ent_of (MpdId.pair (d16_store szc)) (dr_off sr) (ar_off dr) (sext16 d) 2)
      else undecoded op

  unfoldable pub decode_4 : Decoded
  decode_4 =
      if bit_and op 0xFFC0 == 0x4A80 && op_sm op == 0
      then ent_of (MpdId.one PureFlag.tst_l_dn) (dr_off (op_sr op)) 0 op 1
      else if bit_and op 0xFFC0 == 0x4A40 && op_sm op == 0
      then ent_of (MpdId.one PureFlag.tst_w_dn) (dr_off (op_sr op)) 0 op 1
      else if bit_and op 0xFFC0 == 0x4A00 && op_sm op == 0
      then ent_of (MpdId.one PureFlag.tst_b_dn) (dr_off (op_sr op)) 0 op 1
      else if bit_and op 0xF1F8 == 0x41E8
      then (memory_read_uint16 env (add32 addr 2) >>= λ d.
          ent_of MpdId.lea_d16 (ar_off (op_dr op)) (ar_off (op_sr op)) (sext16 d) 2)
      else if op == 0x4E71
      then ent_of MpdId.nop 0 0 op 1
      else undecoded op

  unfoldable pub decode_5 : Decoded
  decode_5 =
      if bit_and op 0xF0F8 == 0x50C8
      then (if op_cond op == 1
          then (memory_read_uint16 env (add32 addr 2) >>= λ d.
              ent_of MpdId.dbra 0 (dr_off (op_sr op)) (shr32 (add32 (addr + 2) (sext16 d)) 1) 2)
          else undecoded op)
      else if bit_and (shr32 op 6) 3 == 2 && op_sm op == 0
      then ent_of
          (MpdId.pair (if bit_and op 0x100 == 0 then Elidable.addq_l_dn else Elidable.subq_l_dn))
          (dr_off (op_sr op)) (u8 (quick (op_dr op))) op 1
      else if bit_and (shr32 op 6) 3 == 2 && (op_sm op == 1 && bit_and op 0x100 == 0)
      then ent_of MpdId.addq_l_an (ar_off (op_sr op)) (u8 (quick (op_dr op))) op 1
      else undecoded op

  -- `bcc_id`, with the target and the length known.
  unfoldable pub decode_cond : ℕ → ℕ → Decoded
  decode_cond target len =
      if op_cond op == 0
      then ent_of MpdId.bra (u8 len) 0 (shr32 target 1) len
      else (elim (find_case cond_key m68k_conds (op_cond op)) [
        | some k ↦ ent_of (MpdId.bcc k) (u8 len) 0 (shr32 target 1) len
        | none ↦ undecoded op
      ])

  unfoldable pub decode_6 : Decoded
  decode_6 =
      let d8 = sext8 op in
      if d8 == 0
      then (memory_read_uint16 env (add32 addr 2) >>= λ d.
          decode_cond (add32 (addr + 2) (sext16 d)) 2)
      else decode_cond (add32 (addr + 2) d8) 1

  -- The register-to-register forms of groups 8, 9, 0xB, 0xC and 0xD.
  unfoldable pub decode_dd : Decoded
  decode_dd =
      let top = shr32 op 12 in
      let plain = bit_and op 0x01F8 == 0x0080 in
      let dn = dr_off (op_dr op) in
      let dm = dr_off (op_sr op) in
      if top == 8 && plain
      then ent_of (MpdId.pair Elidable.or_l_dd) dn dm op 1
      else if top == 9 && plain
      then ent_of (MpdId.pair Elidable.sub_l_dd) dn dm op 1
      else if top == 0xB && plain
      then ent_of (MpdId.one PureFlag.cmp_l_dd) dn dm op 1
      else if top == 0xB && bit_and op 0x01F8 == 0x0180
      then ent_of (MpdId.pair Elidable.eor_l_dd) dm dn op 1
      else if top == 0xC && plain
      then ent_of (MpdId.pair Elidable.and_l_dd) dn dm op 1
      else if top == 0xD && plain
      then ent_of (MpdId.pair Elidable.add_l_dd) dn dm op 1
      else undecoded op

  -- The `switch (op >> 12)`.
  unfoldable pub decode_op : Decoded
  decode_op =
      let top = shr32 op 12 in
      if top == 0
      then (if bit_and op 0xFFF8 == 0x0C80
          then (memory_read_uint32 env (add32 addr 2) >>= λ c.
              ent_of (MpdId.one PureFlag.cmpi_l_dn) (dr_off (op_sr op)) 0 c 3)
          else undecoded op)
      else if ltb top 4
      then decode_move
      else if top == 4
      then decode_4
      else if top == 5
      then decode_5
      else if top == 6
      then decode_6
      else if top == 7
      then ent_of (MpdId.pair Elidable.moveq) (dr_off (op_dr op)) 0 (sext8 op) 1
      else if top == 0xE
      then (if bit_and (shr32 op 6) 3 == 2 && op_sm op == 1
          then ent_of
              (MpdId.pair
                (if bit_and op 0x100 == 0 then Elidable.lsr_l_imm else Elidable.lsl_l_imm))
              (dr_off (op_sr op)) (u8 (quick (op_dr op))) op 1
          else undecoded op)
      else decode_dd

unfoldable pub mpd_decode : Env → ℕ → Decoded
mpd_decode env addr = memory_read_uint16 env addr >>= λ op. decode_op env addr op
