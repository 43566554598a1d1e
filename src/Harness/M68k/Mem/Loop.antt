-- ===== src/Harness/M68k/Mem/Loop.antt =====
-- The registers between two rounds of the second kernel of m68k/bench_main.c.
use emu_core_bench.Base.{ℕ, ◌+◌, ◌*◌, ◌%◌, ◌^◌, ◌<◌, ◌≡◌, refl, sym, ◌∙◌, arith}
use emu_core_bench.Memory.{Env}
use emu_core_bench.M68k.State.{M68kMachine}
use emu_core_bench.M68k.Pd.Run.{mpd_region_bytes}
use emu_core_bench.M68k.Pd.Refine.{OnCode}
use emu_core_bench.Harness.M68k.Placed.{HasCode}
use emu_core_bench.Harness.M68k.Mem.Code.{
  mem_words, Slot, first, second, count, load, add, put, byte, eor, dbra, bra, decodes, reached,
  is_known-entry,
}

-- In the loop: `t` passes are done, the reading pointer is `a` words on and the writing one `b`.
pub record Loop (t a b : ℕ) (r : ℕ → ℕ) : Type 0 where
  pub few : t < 4096
  pub source : r 8 ≡ 0x10_0000 + 4 * a
  pub dest : r 9 ≡ 0x18_0000 + 4 * b
  pub left : r 0 % 2 ^ 16 + t ≡ 4095

abbrev pub Regs : {pc : ℕ} → Slot pc → (ℕ → ℕ) → Type 0
Regs first r = Unit {0}
Regs second r = r 8 ≡ 0x10_0000
Regs count r = (r 8 ≡ 0x10_0000) × (r 9 ≡ 0x18_0000)
Regs load r = (t : ℕ) × Loop t t t r
Regs add r = (t : ℕ) × Loop t (t + 1) t r
Regs put r = (t : ℕ) × Loop t (t + 1) t r
Regs byte r = (t : ℕ) × Loop t (t + 1) (t + 1) r
Regs eor r = (t : ℕ) × Loop t (t + 1) (t + 1) r
Regs dbra r = (t : ℕ) × Loop t (t + 1) (t + 1) r
Regs bra r = Unit {0}

module _ (ram pages : ℕ) where
  -- Between two rounds.
  abbrev pub InLoop : M68kMachine → ℕ → Type 0
  InLoop m pc = HasCode ram pages mem_words m.mem × ((p : Slot pc) × Regs p m.cpu.regs)

inside : {pc : ℕ} → Slot pc → (pc < mpd_region_bytes) × (pc % 2 ≡ 0)
inside first = (omega arith, refl)
inside second = (omega arith, refl)
inside count = (omega arith, refl)
inside load = (omega arith, refl)
inside add = (omega arith, refl)
inside put = (omega arith, refl)
inside byte = (omega arith, refl)
inside eor = (omega arith, refl)
inside dbra = (omega arith, refl)
inside bra = (omega arith, refl)

-- The instruction there is one of the code that the run started with.
pub InLoop-OnCode :
    {ram pages : ℕ} {start : Env}
    → HasCode ram pages mem_words start
    → (m : M68kMachine) (pc : ℕ) → InLoop ram pages m pc
    → OnCode start m pc
InLoop-OnCode at_start m pc (has, (p, _)) =
    let (low, even) = inside p in
    record {
      inside = low;
      even = even;
      head = reached at_start p;
      same = decodes has p ∙ sym (decodes at_start p);
      known = rw (decodes at_start p) (is_known-entry p);
    }
