-- ===== src/M68k/Kept/Moves.antt =====
-- The MOVE family of m68k/m68k_switch.c: the widths that it keeps, and what it keeps of the memory if
-- every write does.
use emu_core_bench.Base.{
  ℕ, ◌+◌, ◌^◌, ◌<◌, arith, ◌&&◌, Bool-cases, inl, inr, ok, After, After-weaken, bit_and, bit_or,
  bit_and-le, bit_or-lt, add32, sext16, ◌==◌, if◌then◌else◌,
}
use emu_core_bench.Memory.{Env, memory_read_uint8, memory_read_uint16, memory_read_uint32}
use emu_core_bench.Memory.Access.{memory_read_uint8-small}
use emu_core_bench.M68k.State.{M68k, M68kMachine}
use emu_core_bench.M68k.Pd.Decode.{op_sm, op_dm, op_dr, op_sr}
use emu_core_bench.M68k.Move.{with_cpu, read_size, write_size, move_size, move_source, move_dest}
use emu_core_bench.M68k.Switch.{group_move}
use emu_core_bench.M68k.Invariant.{IsCpu, set_reg-IsCpu, cc_size-IsCpu}
use emu_core_bench.M68k.Kept.{
  Word, Ends, either, bad, calling, IsKept, Keeps, done, reg, new_cpu, read16, read32,
}

module _ (P : Env → Type 0) (bytes : (env : Env) → P env → (q : ℕ) → env.host q < 256)
    (m : M68kMachine) (h : IsKept P m) (op pc : ℕ) where
  -- The operand and the machine after it.
  abbrev Source : ℕ × (M68kMachine × ℕ) → Type 0
  Source r = Word r.0 × IsKept P r.1.0

  read_size-Word : (size a : ℕ) → After (read_size m.mem size a) Word
  unfolding read_size
  read_size-Word size a = elim (Bool-cases (size == 4)) [
    | inl e ↦ rw e (read32 P bytes m h a)
    | inr e ↦ elim (Bool-cases (size == 2)) [
      | inl e' ↦ rw (e, e') (read16 P bytes m h a)
      | inr e' ↦
          rw (e, e')
            (After-weaken (λ w. w < 2 ^ 8) Word (memory_read_uint8 m.mem a)
              (memory_read_uint8-small m.mem (bytes m.mem h.mem) a) (λ w l. omega (arith, l)))
    ]
  ]

  source : {w : ℕ} {c : M68k} {pc : ℕ} → Word w → IsCpu c → Ends Source (ok (w, (with_cpu m c, pc)))
  source l k = record { after = (l, record { cpu = k; mem = h.mem }) }

  pub move_source-Source : Ends Source (move_source m op pc)
  unfolding move_source
  move_source-Source =
      let size = move_size op in
      let an = m.cpu.regs (8 + op_sr op) in
      either (op_sm op == 0) (source (reg P bytes m h (op_sr op)) h.cpu) (
        either (op_sm op == 3)
          (calling Word (read_size m.mem size an) (read_size-Word size an) λ w l.
            source l (set_reg-IsCpu m.cpu h.cpu (8 + op_sr op) (add32 an size) (omega arith)))
          (either (op_sm op == 5)
            (calling Word (memory_read_uint16 m.mem pc) (read16 P bytes m h pc) λ d l.
              calling Word (read_size m.mem size (add32 an (sext16 d)))
                (read_size-Word size (add32 an (sext16 d))) λ w l'. source l' h.cpu)
            (either (op_sm op == 7 && op_sr op == 4)
              (either (size == 4)
                (calling Word (memory_read_uint32 m.mem pc) (read32 P bytes m h pc)
                  λ w l. source l h.cpu)
                (calling Word (memory_read_uint16 m.mem pc) (read16 P bytes m h pc)
                  λ w l. source l h.cpu))
              (bad op))))

  -- A part of a register replaced.
  partial-Word :
      (size w d : ℕ)
      → Word w
      → Word d
      → Word (
          if size == 4
          then w
          else if size == 2
          then bit_or (bit_and d 0xFFFF_0000) (bit_and w 0xFFFF)
          else bit_or (bit_and d 0xFFFF_FF00) (bit_and w 0xFF))
  partial-Word size w d l k = ground (
    arith,
    bit_or-lt 32 (bit_and d 0xFFFF_0000) (bit_and w 0xFFFF)
        (omega (arith, bit_and-le d 0xFFFF_0000)) (omega (arith, bit_and-le w 0xFFFF)),
    bit_or-lt 32 (bit_and d 0xFFFF_FF00) (bit_and w 0xFF) (omega (arith, bit_and-le d 0xFFFF_FF00))
        (omega (arith, bit_and-le w 0xFF)),
  )

module _ (P : Env → Type 0) (bytes : (env : Env) → P env → (q : ℕ) → env.host q < 256)
    (writes : (env : Env) (size a w : ℕ) → P env → After (write_size env size a w) P) where
  move_dest-Keeps :
      (m : M68kMachine) → IsKept P m → (op pc w : ℕ) → Word w → Keeps P (move_dest m op pc w)
  unfolding move_dest
  move_dest-Keeps m h op pc w l =
      let size = move_size op in
      let c = m.cpu in
      let an = c.regs (8 + op_dr op) in
      either (op_dm op == 0)
        (new_cpu P bytes m h (
          cc_size-IsCpu _
            (set_reg-IsCpu c h.cpu (op_dr op) _ (
              partial-Word P bytes m h op pc size w (c.regs (op_dr op)) l
                (reg P bytes m h (op_dr op))))
            size w l))
        (either (op_dm op == 1) (new_cpu P bytes m h (set_reg-IsCpu c h.cpu (8 + op_dr op) w l)) (
          either (op_dm op == 3)
            (calling P (write_size m.mem size an w) (writes m.mem size an w h.mem) λ mem k.
              done (record {
                cpu =
                    cc_size-IsCpu _
                      (set_reg-IsCpu c h.cpu (8 + op_dr op) (add32 an size) (omega arith)) size w l;
                mem = k;
              }))
            (either (op_dm op == 5)
              (calling Word (memory_read_uint16 m.mem pc) (read16 P bytes m h pc) λ d _.
                calling P (write_size m.mem size (add32 an (sext16 d)) w)
                  (writes m.mem size (add32 an (sext16 d)) w h.mem)
                  λ mem k. done (record { cpu = cc_size-IsCpu c h.cpu size w l; mem = k }))
              (bad op))))

  pub group_move-Keeps : (m : M68kMachine) → IsKept P m → (op pc : ℕ) → Keeps P (group_move m op pc)
  unfolding group_move
  group_move-Keeps m h op pc =
      calling (λ r. Word r.0 × IsKept P r.1.0) (move_source m op pc)
        (move_source-Source P bytes m h op pc).after
        λ r k. move_dest-Keeps r.1.0 k.1 op r.1.1 r.0 k.0
