-- ===== src/M68k/Pd/Moves.antt =====
-- The MOVE family with displacements, and all of it: what m68k/m68k_pd_impl.h decodes and runs,
-- against the operands of m68k/m68k_switch.c.
use emu_core_bench.Base.{
  ℕ, ◌+◌, ◌/◌, ◌^◌, ◌<◌, ◌≡◌, ap, ◌∙◌, arith, ◌&&◌, Bool-cases, inl, inr, ◌>>=◌, bit_and,
  bit_and_ones, u8, u16, add32, shr32, sext16, ◌==◌,
}
use emu_core_bench.Memory.Access.{memory_read_uint8-small, memory_read_uint16-small}
use emu_core_bench.Memory.{
  memory_read_uint8, memory_write_uint8, memory_write_uint16, memory_write_uint32,
  memory_read_uint16, memory_read_uint32,
}
use emu_core_bench.M68k.State.{M68kMachine, dr_off, ar_off}
use emu_core_bench.M68k.Move.{move_source, move_dest, read_size, write_size, cc_size}
use emu_core_bench.M68k.Switch.{group_move}
use emu_core_bench.M68k.Pd.Format.{MpdId}
use emu_core_bench.M68k.Pd.Decode.{
  ent_of, decode_move, op_sm, op_dm, op_dr, op_sr, d16_load, d16_store,
}
use emu_core_bench.M68k.Pd.Exec.{hpair, mpd_case, mpd_exec}
use emu_core_bench.M68k.Pd.Matches.{
  dr_index, ar_index, Matches, given, unknown, after_read, after_operand, leaf, next2,
}
use emu_core_bench.M68k.Pd.Operands.{
  both_write, both_operand, ends, movea_l, mv_l_imm, mv_w_imm, mv_l_dd, mv_l_anp_dn, mv_l_dn_anp,
}

module _ (m : M68kMachine) (addr : ℕ) (inside : addr < 0x4_0000) (op : ℕ) where
  -- `MOVE.sz d16(Am),Dn`, with the extension word read.
  module _ (bytes : (q : ℕ) → m.mem.host q < 256) where
    abbrev operand : ℕ → ℕ → ℕ
    operand i d = add32 (m.cpu.regs i) (sext16 d)

    load_d16 :
        op_dm op ≡ 0
        → op_sm op ≡ 5
        → Matches m addr
            (memory_read_uint16 m.mem (add32 addr 2) >>= λ d.
              ent_of
                (MpdId.pair (d16_load (shr32 op 12)))
                (dr_off (op_dr op))
                (ar_off (op_sr op))
                (sext16 d)
                2)
            (group_move m op (add32 addr 2))
    unfolding group_move move_source move_dest mpd_exec mpd_case hpair cc_size read_size
    load_d16 dm sm =
        let an = ar_index op in
        let dn = dr_index (shr32 op 9) in
        rw (group_move, move_source, move_dest, dm, sm, read_size)
          (after_operand (memory_read_uint16 m.mem (add32 addr 2)) _ _ _ λ d.
            elim (Bool-cases (shr32 op 12 == 2)) [
              | inl long ↦ rw long (
                  leaf (
                    both_operand (ap (λ i. memory_read_uint32 m.mem (operand i d)) an)
                      (λ _. Unit {0}) _ _ _ _
                      (ends (memory_read_uint32 m.mem (operand (8 + op_sr op) d)))
                      (λ w _. ground (arith, an, dn, next2 addr inside))))
              | inr not_long ↦ elim (Bool-cases (shr32 op 12 == 3)) [
                | inl word ↦
                    rw (not_long, word)
                      (leaf (
                        both_operand (ap (λ i. memory_read_uint16 m.mem (operand i d)) an)
                          (λ w. w < 2 ^ 16) _ _ _ _
                          (memory_read_uint16-small m.mem bytes (operand (8 + op_sr op) d))
                          (λ w small.
                            let low : u16 w ≡ w = omega (arith, small) in
                            let mask : bit_and w 0xFFFF ≡ w = bit_and_ones 16 w ∙ low in
                            ground (arith, an, dn, low, mask, next2 addr inside))))
                | inr byte ↦
                    rw (not_long, byte)
                      (leaf (
                        both_operand (ap (λ i. memory_read_uint8 m.mem (operand i d)) an)
                          (λ w. w < 2 ^ 8) _ _ _ _
                          (memory_read_uint8-small m.mem bytes (operand (8 + op_sr op) d))
                          (λ w small.
                            let low : u8 w ≡ w = omega (arith, small) in
                            let mask : bit_and w 0xFF ≡ w = bit_and_ones 8 w ∙ low in
                            ground (arith, an, dn, low, mask, next2 addr inside))))
              ]
            ])

  -- `MOVE.sz Dm,d16(An)`.
  store_d16 :
      op_dm op ≡ 5
      → op_sm op ≡ 0
      → Matches m addr
          (memory_read_uint16 m.mem (add32 addr 2) >>= λ d.
            ent_of
              (MpdId.pair (d16_store (shr32 op 12)))
              (dr_off (op_sr op))
              (ar_off (op_dr op))
              (sext16 d)
              2)
          (group_move m op (add32 addr 2))
  unfolding group_move move_source move_dest mpd_exec mpd_case hpair cc_size write_size
  store_d16 dm sm =
      let an = ar_index (shr32 op 9) in
      let dn = dr_index op in
      rw (group_move, move_source, move_dest, dm, sm, write_size)
        (after_read (memory_read_uint16 m.mem (add32 addr 2)) λ d.
          let at : ℕ → ℕ = λ i. add32 (m.cpu.regs i) (sext16 d) in
          let from : ℕ = ar_off (op_dr op) / 4 in
          let reg : ℕ = dr_off (op_sr op) / 4 in
          elim (Bool-cases (shr32 op 12 == 2)) [
            | inl long ↦
                let call : memory_write_uint32 m.mem (at from) (m.cpu.regs reg)
                    ≡ memory_write_uint32 m.mem (at (8 + op_dr op)) (m.cpu.regs (op_sr op)) =
                  cc (an, dn) in
                rw long
                  (leaf (both_write call _ _ _ (λ mem. ground (arith, an, dn, next2 addr inside))))
            | inr not_long ↦ elim (Bool-cases (shr32 op 12 == 3)) [
              | inl word ↦
                  let call : memory_write_uint16 m.mem (at from) (u16 (m.cpu.regs reg))
                      ≡ memory_write_uint16 m.mem (at (8 + op_dr op))
                          (u16 (m.cpu.regs (op_sr op))) =
                    cc (an, dn) in
                  rw (not_long, word)
                    (leaf
                      (both_write call _ _ _ (λ mem. ground (arith, an, dn, next2 addr inside))))
              | inr byte ↦
                  let call : memory_write_uint8 m.mem (at from) (u8 (m.cpu.regs reg))
                      ≡ memory_write_uint8 m.mem (at (8 + op_dr op)) (u8 (m.cpu.regs (op_sr op))) =
                    cc (an, dn) in
                  rw (not_long, byte)
                    (leaf
                      (both_write call _ _ _ (λ mem. ground (arith, an, dn, next2 addr inside))))
            ]
          ])

  pub group_move-Matches :
      ((q : ℕ) → m.mem.host q < 256)
      → Matches m addr (decode_move m.mem addr op) (group_move m op (add32 addr 2))
  unfolding decode_move
  group_move-Matches bytes =
      let sz = shr32 op 12 in
      let sm = op_sm op in
      let dm = op_dm op in
      let sr = op_sr op in
      given (sz == 2 && (dm == 1 && (sm == 7 && sr == 4)))
        (λ h.
          movea_l m addr inside op (ground (arith, h)) (ground (arith, h)) (ground (arith, h))
            (ground (arith, h)))
        (given (sz == 2 && (sm == 7 && (sr == 4 && dm == 0)))
          (λ h.
            mv_l_imm m addr inside op (ground (arith, h)) (ground (arith, h)) (ground (arith, h))
              (ground (arith, h)))
          (given (sz == 3 && (sm == 7 && (sr == 4 && dm == 0)))
            (λ h.
              mv_w_imm m addr inside op (ground (arith, h)) (ground (arith, h)) (ground (arith, h))
                (ground (arith, h)))
            (given (sz == 2 && (sm == 0 && dm == 0))
              (λ h.
                mv_l_dd m addr inside op (ground (arith, h)) (ground (arith, h))
                  (ground (arith, h)))
              (given (sz == 2 && (sm == 3 && dm == 0))
                (λ h.
                  mv_l_anp_dn m addr inside op (ground (arith, h)) (ground (arith, h))
                    (ground (arith, h)))
                (given (sz == 2 && (sm == 0 && dm == 3))
                  (λ h.
                    mv_l_dn_anp m addr inside op (ground (arith, h)) (ground (arith, h))
                      (ground (arith, h)))
                  (given (sm == 5 && dm == 0)
                    (λ h. load_d16 bytes (ground (arith, h)) (ground (arith, h)))
                    (given (sm == 0 && dm == 5)
                      (λ h. store_d16 (ground (arith, h)) (ground (arith, h))) (unknown op))))))))
