-- ===== src/Harness/M68k/Rounds.antt =====
-- The macros of m68k/bench_main.c with two data registers: what m68k/m68k_switch.c and
-- m68k/m68k_pd_impl.h make of their words.
use emu_core_bench.Base.{
  ◌*◌, shr32, ℕ, ◌+◌, ◌/◌, ◌<◌, ◌≡◌, refl, ap, ◌∙◌, arith, bit_and, bit_or, bit_xor, ok, ◌>>=◌,
  Outcome, add32, sub32,
}
use emu_core_bench.Memory.{Env}
use emu_core_bench.M68k.State.{M68k, M68kMachine, dr_off}
use emu_core_bench.M68k.Ops.{cc_nz_l, cc_add_l, cc_sub_l, cc_cmp_l}
use emu_core_bench.M68k.Move.{
  set_reg, with_cpu, move_source, move_dest, cc_size, write_size, read_size,
}
use emu_core_bench.M68k.Switch.{group_move, group_dd, m68k_dispatch}
use emu_core_bench.M68k.Pd.Exec.{hpair, pure_flag, mpd_case, mpd_exec}
use emu_core_bench.M68k.Pd.Decode.{op_dr, op_sr, Decoded, ent_of, decode_op, decode_dd, decode_move}
use emu_core_bench.Harness.M68k.Fields.{
  dd_word, dd_top, dd_mid, DdOp, move_l, add_l, sub_l, cmp_l, eor_l, and_l, or_l, dd_macro, dd_id,
  first_word, two_fields_lem, word_top, word_dr, word_sr, word_sm, word_dm, word_mid,
}

-- What the instructions leave of the registers and the codes.
abbrev pub dd_result : DdOp → M68k → ℕ → ℕ → M68k
dd_result move_l c d s = cc_nz_l (set_reg c d (c.regs s)) (c.regs s)
dd_result add_l c d s =
    let r = add32 (c.regs d) (c.regs s) in cc_add_l (set_reg c d r) (c.regs s) (c.regs d) r
dd_result sub_l c d s =
    let r = sub32 (c.regs d) (c.regs s) in cc_sub_l (set_reg c d r) (c.regs s) (c.regs d) r
dd_result cmp_l c d s = cc_cmp_l c (c.regs s) (c.regs d) (sub32 (c.regs d) (c.regs s))
dd_result eor_l c d s = let r = bit_xor (c.regs d) (c.regs s) in cc_nz_l (set_reg c d r) r
dd_result and_l c d s = let r = bit_and (c.regs d) (c.regs s) in cc_nz_l (set_reg c d r) r
dd_result or_l c d s = let r = bit_or (c.regs d) (c.regs s) in cc_nz_l (set_reg c d r) r

-- An entry of two offsets run.
dd_executed_at :
    (op : DdOp) (a b w : ℕ) (m : M68kMachine) (cur : ℕ)
    → mpd_exec (record { id = dd_id op; a = a; b = b; c = w }) m cur
      ≡ ok (with_cpu m (dd_result op m.cpu (a / 4) (b / 4)), cur + 1)
unfolding mpd_exec mpd_case pure_flag hpair
dd_executed_at move_l a b w m cur = refl
dd_executed_at add_l a b w m cur = refl
dd_executed_at sub_l a b w m cur = refl
dd_executed_at cmp_l a b w m cur = refl
dd_executed_at eor_l a b w m cur = refl
dd_executed_at and_l a b w m cur = refl
dd_executed_at or_l a b w m cur = refl

offset_index : (i : ℕ) → i < 8 → dr_off i / 4 ≡ i
offset_index i h = omega arith

module _ (d s : ℕ) (hd : d < 8) (hs : s < 8) where
  at_top : (op : DdOp) → shr32 (dd_word op d s) 12 ≡ dd_top op
  at_top op = word_top op d s hd hs

  at_dr : (op : DdOp) → op_dr (dd_word op d s) ≡ d
  at_dr op = word_dr op d s hd hs

  at_sr : (op : DdOp) → op_sr (dd_word op d s) ≡ s
  at_sr op = word_sr op d s hd hs

  at_mid : (op : DdOp) → bit_and (dd_word op d s) 0x1F8 ≡ dd_mid op * 8
  at_mid op = word_mid op d s hd hs

  -- For two data registers and any code address: the word that a macro passes to `ew` is decoded
  -- into the entry of the macro's instruction, with the byte offsets of the two registers, the
  -- word itself and the length of one word.
  pub dd_macro-decoded :
      (op : DdOp) (g_pc : ℕ) (env : Env) (addr : ℕ)
      → decode_op env addr (first_word (dd_macro op d s g_pc))
        ≡ ent_of (dd_id op) (dr_off d) (dr_off s) (first_word (dd_macro op d s g_pc)) 1
  unfolding decode_op decode_move decode_dd
  dd_macro-decoded move_l g_pc env addr = rw (two_fields_lem move_l d s hd hs) (
      rw
        (
          decode_op,
          decode_move,
          at_top move_l,
          at_dr move_l,
          at_sr move_l,
          word_sm move_l d s hd hs,
          word_dm move_l d s hd hs,
        )
        refl)
  dd_macro-decoded add_l g_pc env addr =
      rw (two_fields_lem add_l d s hd hs)
        (rw (decode_op, decode_dd, at_top add_l, at_dr add_l, at_sr add_l, at_mid add_l) refl)
  dd_macro-decoded sub_l g_pc env addr =
      rw (two_fields_lem sub_l d s hd hs)
        (rw (decode_op, decode_dd, at_top sub_l, at_dr sub_l, at_sr sub_l, at_mid sub_l) refl)
  dd_macro-decoded cmp_l g_pc env addr =
      rw (two_fields_lem cmp_l d s hd hs)
        (rw (decode_op, decode_dd, at_top cmp_l, at_dr cmp_l, at_sr cmp_l, at_mid cmp_l) refl)
  dd_macro-decoded eor_l g_pc env addr = rw (two_fields_lem eor_l s d hs hd) (
      rw
        (
          decode_op,
          decode_dd,
          word_top eor_l s d hs hd,
          word_dr eor_l s d hs hd,
          word_sr eor_l s d hs hd,
          word_mid eor_l s d hs hd,
        )
        refl)
  dd_macro-decoded and_l g_pc env addr =
      rw (two_fields_lem and_l d s hd hs)
        (rw (decode_op, decode_dd, at_top and_l, at_dr and_l, at_sr and_l, at_mid and_l) refl)
  dd_macro-decoded or_l g_pc env addr =
      rw (two_fields_lem or_l d s hd hs)
        (rw (decode_op, decode_dd, at_top or_l, at_dr or_l, at_sr or_l, at_mid or_l) refl)

  dd_dispatched :
      (op : DdOp) (g_pc : ℕ) (m : M68kMachine) (pc : ℕ)
      → m68k_dispatch m (first_word (dd_macro op d s g_pc)) pc
        ≡ ok (with_cpu m (dd_result op m.cpu d s), pc)
  unfolding m68k_dispatch group_move move_source move_dest group_dd cc_size write_size read_size
  dd_dispatched move_l g_pc m pc = rw (two_fields_lem move_l d s hd hs) (
      rw
        (
          m68k_dispatch,
          group_move,
          move_source,
          move_dest,
          at_top move_l,
          at_dr move_l,
          at_sr move_l,
          word_sm move_l d s hd hs,
          word_dm move_l d s hd hs,
        )
        refl)
  dd_dispatched add_l g_pc m pc =
      rw (two_fields_lem add_l d s hd hs)
        (rw (m68k_dispatch, group_dd, at_top add_l, at_dr add_l, at_sr add_l, at_mid add_l) refl)
  dd_dispatched sub_l g_pc m pc =
      rw (two_fields_lem sub_l d s hd hs)
        (rw (m68k_dispatch, group_dd, at_top sub_l, at_dr sub_l, at_sr sub_l, at_mid sub_l) refl)
  dd_dispatched cmp_l g_pc m pc =
      rw (two_fields_lem cmp_l d s hd hs)
        (rw (m68k_dispatch, group_dd, at_top cmp_l, at_dr cmp_l, at_sr cmp_l, at_mid cmp_l) refl)
  dd_dispatched eor_l g_pc m pc = rw (two_fields_lem eor_l s d hs hd) (
      rw
        (
          m68k_dispatch,
          group_dd,
          word_top eor_l s d hs hd,
          word_dr eor_l s d hs hd,
          word_sr eor_l s d hs hd,
          word_mid eor_l s d hs hd,
        )
        refl)
  dd_dispatched and_l g_pc m pc =
      rw (two_fields_lem and_l d s hd hs)
        (rw (m68k_dispatch, group_dd, at_top and_l, at_dr and_l, at_sr and_l, at_mid and_l) refl)
  dd_dispatched or_l g_pc m pc =
      rw (two_fields_lem or_l d s hd hs)
        (rw (m68k_dispatch, group_dd, at_top or_l, at_dr or_l, at_sr or_l, at_mid or_l) refl)

  dd_executed :
      (op : DdOp) (w : ℕ) (m : M68kMachine) (cur : ℕ)
      → mpd_exec (record { id = dd_id op; a = dr_off d; b = dr_off s; c = w }) m cur
        ≡ ok (with_cpu m (dd_result op m.cpu d s), cur + 1)
  dd_executed op w m cur =
      let left : ℕ → ℕ → Outcome (M68kMachine × ℕ) =
        λ i j. ok (with_cpu m (dd_result op m.cpu i j), cur + 1) in
      dd_executed_at op (dr_off d) (dr_off s) w m cur
      ∙ ap (λ i. left i (dr_off s / 4)) (offset_index d hd)
      ∙ ap (λ j. left d j) (offset_index s hs)

  -- For two data registers, from any machine: one round of the switch backend on the word that a
  -- macro assembles, and the predecoded backend's decoding of that word and its entry run, both
  -- leave what the instruction's operation leaves, the one at the pc after the opcode, the other
  -- at the next entry.
  pub dd_macro-runs :
      (op : DdOp) (g_pc : ℕ) (m : M68kMachine) (addr cur : ℕ)
      → (m68k_dispatch m (first_word (dd_macro op d s g_pc)) (add32 addr 2)
          ≡ ok (with_cpu m (dd_result op m.cpu d s), add32 addr 2))
        × ((decode_op m.mem addr (first_word (dd_macro op d s g_pc)) >>= λ r. mpd_exec r.0 m cur)
            ≡ ok (with_cpu m (dd_result op m.cpu d s), cur + 1))
  dd_macro-runs op g_pc m addr cur =
      let w = first_word (dd_macro op d s g_pc) in
      (
        dd_dispatched op g_pc m (add32 addr 2),
        ap {A = Decoded} (λ r. r >>= λ e. mpd_exec e.0 m cur) (dd_macro-decoded op g_pc m.mem addr)
            ∙ dd_executed op w m cur,
      )
