-- ===== src/Harness/M68k/Alu/Rounds.antt =====
-- The rounds of m68k/m68k_switch.c in the first kernel of m68k/bench_main.c.
use emu_core_bench.Base.{
  ℕ, ◌%◌, ◌<◌, ◌≡◌, refl, ap, arith, Returns, true, false, Bool, not, if◌then◌else◌, u16, sub32,
  ◌==◌,
}
use emu_core_bench.Memory.{Env}
use emu_core_bench.M68k.State.{M68kMachine}
use emu_core_bench.M68k.Ops.{m68k_cond}
use emu_core_bench.M68k.Move.{move_source, move_dest}
use emu_core_bench.M68k.Switch.{
  m68k_step, m68k_dispatch, group_move, group_5, group_6, group_e, group_dd, branch, dbcc,
}
use emu_core_bench.M68k.Pd.Decode.{Decoded, mpd_decode}
use emu_core_bench.M68k.Pd.Run.{mpd_region_bytes}
use emu_core_bench.M68k.Pd.Refine.{OnCode}
use emu_core_bench.Harness.M68k.Alu.Code.{
  alu_words, Place, move_seed, move_count, add, copy, lsr, eor, addq, cmp, bgt, sub, lsl, dbra, bra,
  decodes, reached,
}
use emu_core_bench.Harness.M68k.Placed.{HasCode, word, long}

module _ {ram pages : ℕ} {env : Env} (has : HasCode ram pages alu_words env) where
  -- Between two rounds the memory is as at the start, and the pc at an instruction.
  abbrev pub AtPlace : M68kMachine → ℕ → Type 0
  AtPlace m pc = (m.mem ≡ env) × Place pc

  at_either : (b : Bool) {p q : ℕ} → Place p → Place q → Place (if b then p else q)
  at_either true h k = h
  at_either false h k = k

  stays_at :
      {pc : ℕ} (p : Place pc) (m : M68kMachine)
      → m.mem ≡ env
      → Returns (m68k_step m pc) (λ r. AtPlace r.0 r.1)
  unfolding m68k_step m68k_dispatch group_move group_5 group_6 group_e group_dd branch dbcc
      move_source move_dest
  stays_at move_seed m same =
      rw (same, word has 0 0x243C refl, long has 1 0x1234 0x5678 refl refl (omega arith))
        (refl, move_count)
  stays_at move_count m same = rw (same, word has 3 0x303C refl, word has 4 0x0FFF refl) (refl, add)
  stays_at add m same = rw (same, word has 5 0xD282 refl) (refl, copy)
  stays_at copy m same = rw (same, word has 6 0x2601 refl) (refl, lsr)
  stays_at lsr m same = rw (same, word has 7 0xEE8B refl) (refl, eor)
  stays_at eor m same = rw (same, word has 8 0xB781 refl) (refl, addq)
  stays_at addq m same = rw (same, word has 9 0x5682 refl) (refl, cmp)
  stays_at cmp m same = rw (same, word has 10 0xB282 refl) (refl, bgt)
  stays_at bgt m same =
      rw (same, word has 11 0x6E02 refl) (refl, at_either (m68k_cond m.cpu 14) lsl sub)
  stays_at sub m same = rw (same, word has 12 0x9282 refl) (refl, lsl)
  stays_at lsl m same = rw (same, word has 13 0xE38C refl) (refl, dbra)
  stays_at dbra m same =
      rw (same, word has 14 0x51C8 refl, word has 15 0xFFEC refl)
        (refl, at_either (not (u16 (sub32 (m.cpu.regs 0) 1) == 0xFFFF)) add bra)
  stays_at bra m same = rw (same, word has 16 0x60E4 refl) (refl, move_count)

  -- A round leaves the machine so again.
  pub stays :
      (m : M68kMachine) (pc : ℕ) → AtPlace m pc → Returns (m68k_step m pc) (λ r. AtPlace r.0 r.1)
  stays m pc (same, p) = stays_at p m same

  inside : {pc : ℕ} → Place pc → (pc < mpd_region_bytes) × (pc % 2 ≡ 0)
  inside move_seed = (omega arith, refl)
  inside move_count = (omega arith, refl)
  inside add = (omega arith, refl)
  inside copy = (omega arith, refl)
  inside lsr = (omega arith, refl)
  inside eor = (omega arith, refl)
  inside addq = (omega arith, refl)
  inside cmp = (omega arith, refl)
  inside bgt = (omega arith, refl)
  inside sub = (omega arith, refl)
  inside lsl = (omega arith, refl)
  inside dbra = (omega arith, refl)
  inside bra = (omega arith, refl)

  -- The instruction there is one of the code.
  pub AtPlace-OnCode : (m : M68kMachine) (pc : ℕ) → AtPlace m pc → OnCode env m pc
  AtPlace-OnCode m pc (same, p) =
      let (e, d, known) = decodes has p in
      let (low, even) = inside p in
      record {
        inside = low;
        even = even;
        head = reached has p;
        same = ap {A = Env} {B = Decoded} (λ mem. mpd_decode mem pc) same;
        known = rw d known;
      }
