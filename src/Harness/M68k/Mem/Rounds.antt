-- ===== src/Harness/M68k/Mem/Rounds.antt =====
-- The rounds of m68k/m68k_switch.c in the second kernel of m68k/bench_main.c.
use emu_core_bench.Base.{
  ℕ, ◌+◌, ◌*◌, ◌/◌, ◌%◌, ◌^◌, ◌<◌, ◌≡◌, refl, sym, ap, ◌∙◌, inl, inr, arith, Returns, true,
  Bool-cases, u16, sub32, add32, ◌==◌, bit_and, bit_or, leb,
}
use emu_core_bench.Base.{bit_and-zero, bit_and_fields, bit_or_disjoint}
use emu_core_bench.Memory.Access.{
  memory_read_uint8_lem, memory_read_uint32_lem, memory_write_uint32_lem,
}
use emu_core_bench.M68k.State.{M68kMachine}
use emu_core_bench.M68k.Ops.{cc_nz_l, cc_nz_w, cc_nz_b, cc_add_l}
use emu_core_bench.M68k.Move.{move_source, move_dest, read_size, write_size, cc_size}
use emu_core_bench.M68k.Switch.{
  m68k_step, m68k_dispatch, group_move, group_5, group_6, group_dd, branch, dbcc,
}
use emu_core_bench.Harness.M68k.Placed.{HasCode, word, long, put32-HasCode}
use emu_core_bench.Harness.M68k.Mem.Code.{
  Slot, mem_words, first, second, count, load, add, put, byte, eor, dbra, bra,
}
use emu_core_bench.Harness.M68k.Mem.Loop.{Regs, InLoop}

-- The low half of a word that is put there.
low_half : (x w : ℕ) → w < 2 ^ 16 → bit_or (bit_and x 0xFFFF_0000) w % 2 ^ 16 ≡ w
low_half x w h =
    let split : x / 2 ^ 16 * 2 ^ 16 + x % 2 ^ 16 ≡ x = omega arith in
    let masked : bit_and x 0xFFFF_0000
        ≡ bit_and (x / 2 ^ 16) 0xFFFF * 2 ^ 16 + bit_and (x % 2 ^ 16) 0 =
      ap (λ y. bit_and y 0xFFFF_0000) (sym split)
      ∙ bit_and_fields 16 (x / 2 ^ 16) (x % 2 ^ 16) 0xFFFF 0 (omega arith) (omega arith) in
    let empty : bit_and x 0xFFFF_0000 % 2 ^ 16 ≡ 0 =
      omega (arith, masked, bit_and-zero (x % 2 ^ 16)) in
    omega (arith, bit_or_disjoint 16 (bit_and x 0xFFFF_0000) w empty h, empty, h)

module _ (ram pages : ℕ) where
  -- A round from there leaves the machine between two rounds again.
  abbrev Again : {pc : ℕ} → Slot pc → Type 0
  Again {pc} p =
      (m : M68kMachine)
      → HasCode ram pages mem_words m.mem
      → Regs p m.cpu.regs
      → Returns (m68k_step m pc) (λ r. InLoop ram pages r.0 r.1)

  stays_first : Again first
  unfolding m68k_step m68k_dispatch group_move move_source move_dest
  stays_first m has h =
      rw (word has 0 0x207C refl, long has 1 0x0010 0x0000 refl refl (omega arith))
        (has, (second, refl))

  stays_second : Again second
  unfolding m68k_step m68k_dispatch group_move move_source move_dest
  stays_second m has h =
      rw (word has 3 0x227C refl, long has 4 0x0018 0x0000 refl refl (omega arith))
        (has, (count, (h, refl)))

  stays_count : Again count
  unfolding m68k_step m68k_dispatch group_move move_source move_dest cc_size cc_nz_w
  stays_count m has (h, h') =
      rw (word has 6 0x303C refl, word has 7 0x0FFF refl)
        (
          has,
          (
            load,
            (
              0,
              record {
                few = omega arith;
                source = h;
                dest = h';
                left = omega (arith, low_half (m.cpu.regs 0) 0x0FFF (omega arith));
              },
            ),
          ),
        )

  stays_load : Again load
  unfolding m68k_step m68k_dispatch group_move move_source move_dest cc_size cc_nz_l read_size
  stays_load m has (t, l) =
      let room : leb (m.cpu.regs 8 % 2 ^ 23 % 4096) 4092 ≡ true = ground (arith, l.source, l.few) in
      rw (word has 8 0x2218 refl, memory_read_uint32_lem has.flat (m.cpu.regs 8), room)
        (
          has,
          (
            add,
            (
              t,
              record {
                few = l.few;
                source = omega (arith, l.source, l.few);
                dest = l.dest;
                left = l.left;
              },
            ),
          ),
        )

  stays_add : Again add
  unfolding m68k_step m68k_dispatch group_dd cc_add_l
  stays_add m has (t, l) =
      rw (word has 9 0xD481 refl)
        (has, (put, (t, record { few = l.few; source = l.source; dest = l.dest; left = l.left })))

  stays_put : Again put
  unfolding m68k_step m68k_dispatch group_move move_source move_dest cc_size cc_nz_l write_size
  stays_put m has (t, l) =
      let room : leb (m.cpu.regs 9 % 2 ^ 23 % 4096) 4092 ≡ true = ground (arith, l.dest, l.few) in
      rw
        (
          word has 10 0x22C2 refl,
          memory_write_uint32_lem has.flat (m.cpu.regs 9) (m.cpu.regs 2),
          room,
        )
        (
          put32-HasCode has (m.cpu.regs 9 % 2 ^ 23) (m.cpu.regs 2) (omega (arith, l.dest, l.few)),
          (
            byte,
            (
              t,
              record {
                few = l.few;
                source = l.source;
                dest = omega (arith, l.dest, l.few);
                left = l.left;
              },
            ),
          ),
        )

  stays_byte : Again byte
  unfolding m68k_step m68k_dispatch group_move move_source move_dest cc_size cc_nz_b read_size
  stays_byte m has (t, l) =
      rw
        (
          word has 11 0x1628 refl,
          word has 12 0x0002 refl,
          memory_read_uint8_lem has.flat (add32 (m.cpu.regs 8) 2),
        )
        (has, (eor, (t, record { few = l.few; source = l.source; dest = l.dest; left = l.left })))

  stays_eor : Again eor
  unfolding m68k_step m68k_dispatch group_dd cc_nz_l
  stays_eor m has (t, l) =
      rw (word has 13 0xB782 refl)
        (has, (dbra, (t, record { few = l.few; source = l.source; dest = l.dest; left = l.left })))

  stays_dbra : Again dbra
  unfolding m68k_step m68k_dispatch group_5 dbcc
  stays_dbra m has (t, l) =
      let w = u16 (sub32 (m.cpu.regs 0) 1) in
      elim (Bool-cases (w == 0xFFFF)) [
        | inl e ↦ rw (word has 14 0x51C8 refl, word has 15 0xFFF2 refl, e) (has, (bra, tt))
        | inr e ↦
            let more : w + (t + 1) ≡ 4095 = ground (arith, e, l.left, l.few) in
            rw (word has 14 0x51C8 refl, word has 15 0xFFF2 refl, e)
              (
                has,
                (
                  load,
                  (
                    t + 1,
                    record {
                      few = omega (arith, more);
                      source = l.source;
                      dest = l.dest;
                      left = ap (λ n. n + (t + 1)) (low_half (m.cpu.regs 0) w (omega arith)) ∙ more;
                    },
                  ),
                ),
              )
      ]

  stays_bra : Again bra
  unfolding m68k_step m68k_dispatch group_6 branch
  stays_bra m has h = rw (word has 16 0x6000 refl, word has 17 0xFFDE refl) (has, (first, tt))

  pub stays :
      (m : M68kMachine) (pc : ℕ)
      → InLoop ram pages m pc
      → Returns (m68k_step m pc) (λ r. InLoop ram pages r.0 r.1)
  stays m pc (has, (first, h)) = stays_first m has h
  stays m pc (has, (second, h)) = stays_second m has h
  stays m pc (has, (count, h)) = stays_count m has h
  stays m pc (has, (load, h)) = stays_load m has h
  stays m pc (has, (add, h)) = stays_add m has h
  stays m pc (has, (put, h)) = stays_put m has h
  stays m pc (has, (byte, h)) = stays_byte m has h
  stays m pc (has, (eor, h)) = stays_eor m has h
  stays m pc (has, (dbra, h)) = stays_dbra m has h
  stays m pc (has, (bra, h)) = stays_bra m has h
