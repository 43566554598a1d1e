-- ===== src/M68k/Switch.antt =====
-- Backend A of the M68K lane, m68k/m68k_switch.c: one loop around nested switches.
use emu_core_bench.Base.{
  ℕ, zero, suc, ◌+◌, ◌-◌, bit_and, bit_or, bit_xor, true, false, not, ◌&&◌, ◌||◌, Outcome, ok,
  ◌>>=◌, u8, u16, add32, sub32, shl32, shr32, sext16, ltb, ◌==◌, if◌then◌else◌,
}
use emu_core_bench.Memory.{memory_read_uint16, memory_read_uint32}
use emu_core_bench.M68k.State.{M68k, M68kMachine, m68k_illegal, set_pc}
use emu_core_bench.M68k.Ops.{
  flag, cc_nz_l, cc_nz_w, cc_nz_b, cc_add_l, cc_sub_l, cc_cmp_l, m68k_cond,
}
use emu_core_bench.M68k.Pd.Decode.{sext8, op_sm, op_dr, op_sr, op_cond, quick}
use emu_core_bench.M68k.Move.{Stepped, set_reg, with_cpu, move_source, move_dest}

module _ (m : M68kMachine) (op pc : ℕ) where
  -- A case that sets a register and the codes.
  abbrev pub set_with : ℕ → ℕ → (M68k → M68k) → Stepped
  set_with i r f = ok (with_cpu m (f (set_reg m.cpu i r)), pc)

  unfoldable pub group_0 : Stepped
  group_0 =
      if bit_and op 0xFFF8 == 0x0C80
      then (memory_read_uint32 m.mem pc >>= λ s.
          let d = m.cpu.regs (bit_and op 7) in
          ok (with_cpu m (cc_cmp_l m.cpu s d (sub32 d s)), add32 pc 4))
      else m68k_illegal op

  unfoldable pub group_move : Stepped
  group_move = move_source m op pc >>= λ r. move_dest r.1.0 op r.1.1 r.0

  unfoldable pub group_4 : Stepped
  group_4 =
      let dn = m.cpu.regs (op_sr op) in
      if bit_and op 0xFFC0 == 0x4A80 && op_sm op == 0
      then ok (with_cpu m (cc_nz_l m.cpu dn), pc)
      else if bit_and op 0xFFC0 == 0x4A40 && op_sm op == 0
      then ok (with_cpu m (cc_nz_w m.cpu (u16 dn)), pc)
      else if bit_and op 0xFFC0 == 0x4A00 && op_sm op == 0
      then ok (with_cpu m (cc_nz_b m.cpu (u8 dn)), pc)
      else if bit_and op 0xF1F8 == 0x41E8
      then (memory_read_uint16 m.mem pc >>= λ d. ok (
        with_cpu m (set_reg m.cpu (8 + op_dr op) (add32 (m.cpu.regs (8 + op_sr op)) (sext16 d))),
        add32 pc 2,
      ))
      else if op == 0x4E71
      then ok (m, pc)
      else m68k_illegal op

  -- DBcc, with the displacement read.
  unfoldable pub dbcc : ℕ → Stepped
  dbcc d16 =
      let cond = op_cond op in
      let rn = op_sr op in
      let cnd = if cond == 0 then true else if cond == 1 then false else m68k_cond m.cpu cond in
      let w = u16 (sub32 (m.cpu.regs rn) 1) in
      if not cnd
      then ok (
        with_cpu m (set_reg m.cpu rn (bit_or (bit_and (m.cpu.regs rn) 0xFFFF_0000) w)),
        (if not (w == 0xFFFF) then add32 pc (sext16 d16) else add32 pc 2),
      )
      else ok (m, add32 pc 2)

  unfoldable pub group_5 : Stepped
  group_5 =
      let q = quick (op_dr op) in
      let rn = op_sr op in
      let d = m.cpu.regs rn in
      if bit_and op 0xF0F8 == 0x50C8
      then (memory_read_uint16 m.mem pc >>= λ d16. dbcc d16)
      else if bit_and (shr32 op 6) 3 == 2
      then (if op_sm op == 0
          then (if not (bit_and op 0x100 == 0)
              then set_with rn (sub32 d q) (λ c. cc_sub_l c q d (sub32 d q))
              else set_with rn (add32 d q) (λ c. cc_add_l c q d (add32 d q)))
          else if op_sm op == 1 && bit_and op 0x100 == 0
          then set_with (8 + rn) (add32 (m.cpu.regs (8 + rn)) q) (λ c. c)
          else m68k_illegal op)
      else m68k_illegal op

  -- Bcc and BRA, with the target and the pc after the instruction.
  unfoldable pub branch : ℕ → ℕ → Stepped
  branch target after =
      if op_cond op == 1
      then m68k_illegal op
      else ok (m, (if op_cond op == 0 || m68k_cond m.cpu (op_cond op) then target else after))

  unfoldable pub group_6 : Stepped
  group_6 =
      if sext8 op == 0
      then (memory_read_uint16 m.mem pc >>= λ d. branch (add32 pc (sext16 d)) (add32 pc 2))
      else branch (add32 pc (sext8 op)) pc

  unfoldable pub group_7 : Stepped
  group_7 = set_with (op_dr op) (sext8 op) (λ c. cc_nz_l c (sext8 op))

  -- Groups 8, 9, 0xB, 0xC and 0xD: two data registers.
  unfoldable pub group_dd : Stepped
  group_dd =
      let top = shr32 op 12 in
      let plain = bit_and op 0x01F8 == 0x0080 in
      let s = m.cpu.regs (op_sr op) in
      let d = m.cpu.regs (op_dr op) in
      if top == 8 && plain
      then set_with (op_dr op) (bit_or d s) (λ c. cc_nz_l c (bit_or d s))
      else if top == 9 && plain
      then set_with (op_dr op) (sub32 d s) (λ c. cc_sub_l c s d (sub32 d s))
      else if top == 0xB && plain
      then ok (with_cpu m (cc_cmp_l m.cpu s d (sub32 d s)), pc)
      else if top == 0xB && bit_and op 0x01F8 == 0x0180
      then set_with (op_sr op) (bit_xor s d) (λ c. cc_nz_l c (bit_xor s d))
      else if top == 0xC && plain
      then set_with (op_dr op) (bit_and d s) (λ c. cc_nz_l c (bit_and d s))
      else if top == 0xD && plain
      then set_with (op_dr op) (add32 d s) (λ c. cc_add_l c s d (add32 d s))
      else m68k_illegal op

  -- The codes of a shift by `q` whose last bit out is `out`.
  abbrev pub shift_codes : ℕ → ℕ → M68k → M68k
  shift_codes out r c = record c { cf = out; x = out; n = shr32 r 31; z = flag (r == 0); v = 0 }

  unfoldable pub group_e : Stepped
  group_e =
      let q = quick (op_dr op) in
      let rn = op_sr op in
      let w = m.cpu.regs rn in
      if bit_and (shr32 op 6) 3 == 2 && op_sm op == 1
      then (if not (bit_and op 0x100 == 0)
          then set_with rn (shl32 w q) (shift_codes (bit_and (shr32 w (32 - q)) 1) (shl32 w q))
          else set_with rn (shr32 w q) (shift_codes (bit_and (shr32 w (q - 1)) 1) (shr32 w q)))
      else m68k_illegal op

-- The `switch (op >> 12)`, with the pc after the opcode.
unfoldable pub m68k_dispatch : M68kMachine → ℕ → ℕ → Stepped
m68k_dispatch m op pc =
    let top = shr32 op 12 in
    if top == 0
    then group_0 m op pc
    else if ltb top 4
    then group_move m op pc
    else if top == 4
    then group_4 m op pc
    else if top == 5
    then group_5 m op pc
    else if top == 6
    then group_6 m op pc
    else if top == 7
    then group_7 m op pc
    else if top == 0xE
    then group_e m op pc
    else group_dd m op pc

unfoldable pub m68k_step : M68kMachine → ℕ → Stepped
m68k_step m pc = memory_read_uint16 m.mem pc >>= λ op. m68k_dispatch m op (add32 pc 2)

unfoldable pub m68k_loop : ℕ → M68kMachine → ℕ → Outcome M68kMachine
m68k_loop zero m pc = ok (set_pc m pc)
m68k_loop (suc n) m pc = m68k_step m pc >>= λ r. m68k_loop n r.0 r.1

unfoldable pub m68k_run_switch : M68kMachine → ℕ → Outcome M68kMachine
m68k_run_switch m budget = m68k_loop budget m m.cpu.pc
