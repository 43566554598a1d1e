-- ===== src/M68k/Pd/Groups.antt =====
-- The groups of opcodes but MOVE: what m68k/m68k_pd_impl.h decodes and runs, against the cases of
-- m68k/m68k_switch.c.
use emu_core_bench.Base.{
  eq_of_==, ℕ, ◌+◌, ◌<◌, ◌≡◌, refl, arith, Bool, false, ◌&&◌, Bool-cases, inl, inr, none, some,
  Option, ok, ◌>>=◌, bit_and, u8, add32, shr32, sext16, ◌==◌, if◌then◌else◌, find_case,
}
use emu_core_bench.Memory.{memory_read_uint16, memory_read_uint32}
use emu_core_bench.M68k.State.{M68kMachine, dr_off}
use emu_core_bench.M68k.Ops.{Cond, cond_key, m68k_conds, m68k_cond, cond_expr}
use emu_core_bench.M68k.Switch.{
  group_0, group_4, group_5, group_6, group_7, group_dd, group_e, dbcc, branch,
}
use emu_core_bench.M68k.Pd.Format.{Elidable, PureFlag, MpdId}
use emu_core_bench.M68k.Pd.Decode.{
  Decoded, ent_of, undecoded, decode_4, decode_5, decode_6, decode_cond, decode_dd, op_sm, op_dr,
  op_sr, op_cond, quick, sext8,
}
use emu_core_bench.M68k.Pd.Exec.{hpair, pure_flag, mpd_case, mpd_exec}
use emu_core_bench.M68k.Pd.Matches.{
  dr_index, ar_index, quick_small, Matches, if_both, unknown, after_read, leaf, next1, next2, next3,
}

module _ (m : M68kMachine) (addr : ℕ) (inside : addr < 0x4_0000) (op : ℕ) where
  pub group_4-Matches : Matches m addr (decode_4 m.mem addr op) (group_4 m op (add32 addr 2))
  unfolding group_4 decode_4 mpd_exec mpd_case pure_flag
  group_4-Matches =
      if_both (bit_and op 0xFFC0 == 0x4A80 && op_sm op == 0)
        (leaf (cc (dr_index op, next1 addr inside)))
        (if_both (bit_and op 0xFFC0 == 0x4A40 && op_sm op == 0)
          (leaf (cc (dr_index op, next1 addr inside)))
          (if_both (bit_and op 0xFFC0 == 0x4A00 && op_sm op == 0)
            (leaf (cc (dr_index op, next1 addr inside)))
            (if_both (bit_and op 0xF1F8 == 0x41E8)
              (after_read (memory_read_uint16 m.mem (add32 addr 2))
                (λ d. leaf (ground (arith, ar_index op, ar_index (shr32 op 9), next2 addr inside))))
              (if_both (op == 0x4E71) (leaf (cc (next1 addr inside))) (unknown op)))))

  pub group_dd-Matches : Matches m addr (decode_dd m.mem addr op) (group_dd m op (add32 addr 2))
  unfolding group_dd decode_dd mpd_exec mpd_case pure_flag hpair
  group_dd-Matches =
      let dn = dr_index op in
      let dm = dr_index (shr32 op 9) in
      if_both (shr32 op 12 == 8 && bit_and op 0x01F8 == 0x0080)
        (leaf (ground (arith, dn, dm, next1 addr inside)))
        (if_both (shr32 op 12 == 9 && bit_and op 0x01F8 == 0x0080)
          (leaf (ground (arith, dn, dm, next1 addr inside)))
          (if_both (shr32 op 12 == 0xB && bit_and op 0x01F8 == 0x0080)
            (leaf (ground (arith, dn, dm, next1 addr inside)))
            (if_both (shr32 op 12 == 0xB && bit_and op 0x01F8 == 0x0180)
              (leaf (ground (arith, dn, dm, next1 addr inside)))
              (if_both (shr32 op 12 == 0xC && bit_and op 0x01F8 == 0x0080)
                (leaf (ground (arith, dn, dm, next1 addr inside)))
                (if_both (shr32 op 12 == 0xD && bit_and op 0x01F8 == 0x0080)
                  (leaf (ground (arith, dn, dm, next1 addr inside))) (unknown op))))))

  pub group_0-Matches :
      Matches m addr
        (if bit_and op 0xFFF8 == 0x0C80
          then (memory_read_uint32 m.mem (add32 addr 2) >>= λ c.
              ent_of (MpdId.one PureFlag.cmpi_l_dn) (dr_off (op_sr op)) 0 c 3)
          else undecoded op)
        (group_0 m op (add32 addr 2))
  unfolding group_0 mpd_exec mpd_case pure_flag
  group_0-Matches =
      if_both (bit_and op 0xFFF8 == 0x0C80)
        (after_read (memory_read_uint32 m.mem (add32 addr 2))
          (λ c. leaf (ground (arith, dr_index op, next3 addr inside))))
        (unknown op)

  pub group_7-Matches :
      Matches m addr
        (ent_of (MpdId.pair Elidable.moveq) (dr_off (op_dr op)) 0 (sext8 op) 1)
        (group_7 m op (add32 addr 2))
  unfolding group_7 mpd_exec mpd_case hpair
  group_7-Matches = leaf (ground (arith, dr_index (shr32 op 9), next1 addr inside))

  pub group_e-Matches :
      Matches m addr
        (if bit_and (shr32 op 6) 3 == 2 && op_sm op == 1
          then ent_of
              (MpdId.pair
                (if bit_and op 0x100 == 0 then Elidable.lsr_l_imm else Elidable.lsl_l_imm))
              (dr_off (op_sr op))
              (u8 (quick (op_dr op)))
              op
              1
          else undecoded op)
        (group_e m op (add32 addr 2))
  unfolding group_e mpd_exec mpd_case hpair
  group_e-Matches =
      if_both (bit_and (shr32 op 6) 3 == 2 && op_sm op == 1)
        (elim (Bool-cases (bit_and op 0x100 == 0)) [
          | inl z ↦
              rw z (leaf (ground (arith, dr_index op, quick_small (shr32 op 9), next1 addr inside)))
          | inr z ↦
              rw z (leaf (ground (arith, dr_index op, quick_small (shr32 op 9), next1 addr inside)))
        ])
        (unknown op)

  pub group_5-Matches : Matches m addr (decode_5 m.mem addr op) (group_5 m op (add32 addr 2))
  unfolding group_5 decode_5 dbcc mpd_exec mpd_case hpair
  group_5-Matches =
      if_both (bit_and op 0xF0F8 == 0x50C8)
        (elim (Bool-cases (op_cond op == 1)) [
          | inl one ↦ rw one (
              after_read (memory_read_uint16 m.mem (add32 addr 2))
                (λ d. leaf (ground (arith, dr_index op, next2 addr inside))))
          | inr other ↦ rw other (unknown op)
        ])
        (elim (Bool-cases (bit_and (shr32 op 6) 3 == 2)) [
          | inr no_quick ↦ rw no_quick (unknown op)
          | inl quick_form ↦ rw quick_form (elim (Bool-cases (op_sm op == 0)) [
            | inl data_reg ↦ rw data_reg (elim (Bool-cases (bit_and op 0x100 == 0)) [
              | inl z ↦
                  rw z (
                    leaf (ground (arith, dr_index op, quick_small (shr32 op 9), next1 addr inside)))
              | inr z ↦
                  rw z (
                    leaf (ground (arith, dr_index op, quick_small (shr32 op 9), next1 addr inside)))
            ])
            | inr other ↦ rw other (
                if_both (op_sm op == 1 && bit_and op 0x100 == 0)
                  (leaf (ground (arith, ar_index op, quick_small (shr32 op 9), next1 addr inside)))
                  (unknown op))
          ])
        ])

  decode_cond-Matches :
      (target after len : ℕ)
      → len < 3
      → shr32 after 1 ≡ shr32 addr 1 + len
      → (pc : ℕ)
      → Matches m addr (decode_cond m.mem addr op target len) (branch m op pc target after)
  unfolding decode_cond branch m68k_cond mpd_exec mpd_case
  decode_cond-Matches target after len h e pc = elim (Bool-cases (op_cond op == 1)) [
    | inl one ↦ rw (eq_of_== (op_cond op) 1 one) (unknown op)
    | inr not_one ↦ elim (Bool-cases (op_cond op == 0)) [
      | inl always ↦ rw (not_one, always) (leaf refl)
      | inr sometimes ↦
          rw (not_one, sometimes) (by_cond (find_case cond_key m68k_conds (op_cond op)))
    ]
  ]
    where
      by_cond :
          (o : Option Cond)
          → Matches m addr
              (elim o as (λ _. Decoded) [
                | some k ↦ ent_of (MpdId.bcc k) (u8 len) 0 (shr32 target 1) len
                | none ↦ undecoded op
              ])
              (ok (
                m,
                (if elim o as (λ _. Bool) [ some k ↦ cond_expr k m.cpu | none ↦ false ]
                    then target
                    else after),
              ))
      by_cond none = unknown op
      by_cond (some k) = leaf (ground (arith, e, h))

  pub group_6-Matches : Matches m addr (decode_6 m.mem addr op) (group_6 m op (add32 addr 2))
  unfolding group_6 decode_6
  group_6-Matches =
      let same : add32 addr 2 ≡ addr + 2 = omega (arith, inside) in
      rw same (
        if_both (sext8 op == 0)
          (after_read (memory_read_uint16 m.mem (addr + 2)) (λ d.
            decode_cond-Matches (add32 (addr + 2) (sext16 d)) (add32 (addr + 2) 2) 2 (omega arith)
              (omega (arith, inside)) (addr + 2)))
          (decode_cond-Matches (add32 (addr + 2) (sext8 op)) (addr + 2) 1 (omega arith)
            (omega (arith, inside)) (addr + 2)))
