-- ===== src/M68k/Kept/Groups.antt =====
-- The groups of opcodes of m68k/m68k_switch.c but MOVE: the widths that they keep.
use emu_core_bench.Base.{
  ℕ, ◌+◌, ◌-◌, ◌^◌, ◌<◌, arith, true, false, not, ◌&&◌, bit_and, bit_or, bit_xor, bit_and-le,
  bit_xor-lt, bit_or-lt, u16, add32, sub32, shl32, shr32, ◌==◌, if◌then◌else◌,
}
use native.Mathlib.Nat.{div-le_self}
use emu_core_bench.Memory.{Env, memory_read_uint16, memory_read_uint32}
use emu_core_bench.M68k.State.{M68k, M68kMachine}
use emu_core_bench.M68k.Ops.{m68k_cond}
use emu_core_bench.M68k.Pd.Decode.{sext8, op_sm, op_dr, op_sr, op_cond, quick}
use emu_core_bench.M68k.Switch.{
  set_with, group_0, group_4, dbcc, group_5, branch, group_6, group_7, group_dd, group_e,
  shift_codes,
}
use emu_core_bench.M68k.Invariant.{
  IsCpu, set_reg-IsCpu, cc_nz_l-IsCpu, cc_nz_w-IsCpu, cc_nz_b-IsCpu, cc_add_l-IsCpu, cc_sub_l-IsCpu,
  cc_cmp_l-IsCpu, flag-lt, sign-lt,
}
use emu_core_bench.M68k.Kept.{
  Word, either, bad, calling, IsKept, Keeps, done, reg, new_cpu, read16, read32,
}

module _ (P : Env → Type 0) (bytes : (env : Env) → P env → (q : ℕ) → env.host q < 256)
    (m : M68kMachine) (h : IsKept P m) (op pc : ℕ) where
  pub group_0-Keeps : Keeps P (group_0 m op pc)
  unfolding group_0
  group_0-Keeps =
      either (bit_and op 0xFFF8 == 0x0C80)
        (calling Word (memory_read_uint32 m.mem pc) (read32 P bytes m h pc) λ s l.
          new_cpu P bytes m h (
            cc_cmp_l-IsCpu m.cpu h.cpu s (m.cpu.regs (op_sr op)) _ l (reg P bytes m h (op_sr op))
              (omega arith)))
        (bad op)

  pub group_4-Keeps : Keeps P (group_4 m op pc)
  unfolding group_4
  group_4-Keeps =
      either (bit_and op 0xFFC0 == 0x4A80 && op_sm op == 0)
        (new_cpu P bytes m h (cc_nz_l-IsCpu m.cpu h.cpu _ (reg P bytes m h (op_sr op))))
        (either (bit_and op 0xFFC0 == 0x4A40 && op_sm op == 0)
          (new_cpu P bytes m h (cc_nz_w-IsCpu m.cpu h.cpu _ (omega arith)))
          (either (bit_and op 0xFFC0 == 0x4A00 && op_sm op == 0)
            (new_cpu P bytes m h (cc_nz_b-IsCpu m.cpu h.cpu _ (omega arith)))
            (either (bit_and op 0xF1F8 == 0x41E8)
              (calling Word (memory_read_uint16 m.mem pc) (read16 P bytes m h pc) λ d l.
                new_cpu P bytes m h (set_reg-IsCpu m.cpu h.cpu (8 + op_dr op) _ (omega arith)))
              (either (op == 0x4E71) (done h) (bad op)))))

  -- A result in a register, and the codes of it.
  set_codes :
      (i r : ℕ) (f : M68k → M68k)
      → Word r
      → ((c : M68k) → IsCpu c → IsCpu (f c))
      → Keeps P (set_with m op pc i r f)
  set_codes i r f l k = new_cpu P bytes m h (k _ (set_reg-IsCpu m.cpu h.cpu i r l))

  dbcc-Keeps : (d : ℕ) → Keeps P (dbcc m op pc d)
  unfolding dbcc
  dbcc-Keeps d =
      let w = u16 (sub32 (m.cpu.regs (op_sr op)) 1) in
      let high = bit_and (m.cpu.regs (op_sr op)) 0xFFFF_0000 in
      either
        (not (
          if op_cond op == 0
          then true
          else if op_cond op == 1
          then false
          else m68k_cond m.cpu (op_cond op)))
        (new_cpu P bytes m h (
          set_reg-IsCpu m.cpu h.cpu (op_sr op) _ (
            bit_or-lt 32 high w (omega (arith, bit_and-le (m.cpu.regs (op_sr op)) 0xFFFF_0000))
              (omega arith))))
        (done h)

  quick-lt : quick (op_dr op) < 2 ^ 32
  quick-lt = ground (arith, bit_and-le (shr32 op 9) 7)

  pub group_5-Keeps : Keeps P (group_5 m op pc)
  unfolding group_5
  group_5-Keeps =
      let q = quick (op_dr op) in
      let d = m.cpu.regs (op_sr op) in
      either (bit_and op 0xF0F8 == 0x50C8)
        (calling Word (memory_read_uint16 m.mem pc) (read16 P bytes m h pc) (λ d l. dbcc-Keeps d))
        (either (bit_and (shr32 op 6) 3 == 2)
          (either (op_sm op == 0)
            (either (not (bit_and op 0x100 == 0))
              (set_codes (op_sr op) (sub32 d q) _ (omega arith) (λ c k.
                cc_sub_l-IsCpu c k q d (sub32 d q) quick-lt (reg P bytes m h (op_sr op))
                  (omega arith)))
              (set_codes (op_sr op) (add32 d q) _ (omega arith) (λ c k.
                cc_add_l-IsCpu c k q d (add32 d q) quick-lt (reg P bytes m h (op_sr op))
                  (omega arith))))
            (either (op_sm op == 1 && bit_and op 0x100 == 0)
              (set_codes (8 + op_sr op) (add32 (m.cpu.regs (8 + op_sr op)) q) (λ c. c) (omega arith)
                (λ c k. k))
              (bad op)))
          (bad op))

  branch-Keeps : (target after : ℕ) → Keeps P (branch m op pc target after)
  unfolding branch
  branch-Keeps target after = either (op_cond op == 1) (bad op) (done h)

  pub group_6-Keeps : Keeps P (group_6 m op pc)
  unfolding group_6
  group_6-Keeps =
      either (sext8 op == 0)
        (calling Word (memory_read_uint16 m.mem pc) (read16 P bytes m h pc)
          (λ d l. branch-Keeps _ _))
        (branch-Keeps _ _)

  sext8-lt : sext8 op < 2 ^ 32
  sext8-lt = ground arith

  pub group_7-Keeps : Keeps P (group_7 m op pc)
  unfolding group_7
  group_7-Keeps =
      set_codes (op_dr op) (sext8 op) _ sext8-lt (λ c k. cc_nz_l-IsCpu c k (sext8 op) sext8-lt)

  pub group_dd-Keeps : Keeps P (group_dd m op pc)
  unfolding group_dd
  group_dd-Keeps =
      let s = m.cpu.regs (op_sr op) in
      let d = m.cpu.regs (op_dr op) in
      let hs = reg P bytes m h (op_sr op) in
      let hd = reg P bytes m h (op_dr op) in
      let anded : bit_and d s < 2 ^ 32 = omega (arith, bit_and-le d s, hs) in
      either (shr32 op 12 == 8 && bit_and op 0x01F8 == 0x0080)
        (set_codes (op_dr op) (bit_or d s) _ (bit_or-lt 32 d s hd hs)
          (λ c k. cc_nz_l-IsCpu c k (bit_or d s) (bit_or-lt 32 d s hd hs)))
        (either (shr32 op 12 == 9 && bit_and op 0x01F8 == 0x0080)
          (set_codes (op_dr op) (sub32 d s) _ (omega arith)
            (λ c k. cc_sub_l-IsCpu c k s d (sub32 d s) hs hd (omega arith)))
          (either (shr32 op 12 == 0xB && bit_and op 0x01F8 == 0x0080)
            (new_cpu P bytes m h (cc_cmp_l-IsCpu m.cpu h.cpu s d (sub32 d s) hs hd (omega arith)))
            (either (shr32 op 12 == 0xB && bit_and op 0x01F8 == 0x0180)
              (set_codes (op_sr op) (bit_xor s d) _ (bit_xor-lt 32 s d hs hd)
                (λ c k. cc_nz_l-IsCpu c k (bit_xor s d) (bit_xor-lt 32 s d hs hd)))
              (either (shr32 op 12 == 0xC && bit_and op 0x01F8 == 0x0080)
                (set_codes (op_dr op) (bit_and d s) _ anded
                  (λ c k. cc_nz_l-IsCpu c k (bit_and d s) anded))
                (either (shr32 op 12 == 0xD && bit_and op 0x01F8 == 0x0080)
                  (set_codes (op_dr op) (add32 d s) _ (omega arith)
                    (λ c k. cc_add_l-IsCpu c k s d (add32 d s) hs hd (omega arith)))
                  (bad op))))))

  shift-IsCpu :
      (c : M68k) (x r : ℕ) → IsCpu c → Word r → IsCpu (shift_codes m op pc (bit_and x 1) r c)
  shift-IsCpu c x r k l = record {
    regs = k.regs;
    n_bit = sign-lt r l;
    z_bit = flag-lt (r == 0);
    v_bit = omega arith;
    cf_bit = omega (arith, bit_and-le x 1);
    x_bit = omega (arith, bit_and-le x 1);
  }

  shr-Word : (w q : ℕ) → Word w → Word (shr32 w q)
  shr-Word w q l = omega (arith, div-le_self w (2 ^ q), l)

  pub group_e-Keeps : Keeps P (group_e m op pc)
  unfolding group_e
  group_e-Keeps =
      let q = quick (op_dr op) in
      let w = m.cpu.regs (op_sr op) in
      let right = shr-Word w q (reg P bytes m h (op_sr op)) in
      either (bit_and (shr32 op 6) 3 == 2 && op_sm op == 1)
        (either (not (bit_and op 0x100 == 0))
          (set_codes (op_sr op) (shl32 w q) _ (omega arith)
            (λ c k. shift-IsCpu c (shr32 w (32 - q)) (shl32 w q) k (omega arith)))
          (set_codes (op_sr op) (shr32 w q) _ right
            (λ c k. shift-IsCpu c (shr32 w (q - 1)) (shr32 w q) k right)))
        (bad op)
