-- ===== src/Harness/M68k/Emission.antt =====
-- What the assembler and the kernels of m68k/bench_main.c write: within the RAM, and no more than
-- three words for a macro.
use emu_core_bench.Base.{ℕ, suc, ◌+◌, ◌*◌, ◌^◌, ◌≤◌, arith, List, [], ◌∷◌}
use emu_core_bench.Memory.{Env}
use emu_core_bench.Memory.Access.{store_be16-eq-put16}
use emu_core_bench.Memory.RoundTrip.{put16-lt}
use emu_core_bench.Memory.Contained.{Contained, put-Contained}
use emu_core_bench.Harness.{words}
use emu_core_bench.Harness.M68k.Assemble.{Macro, ew, ew_all, assemble}

abbrev pub count : List Macro → ℕ
count [] = 0
count (macro ∷ rest) = suc (count rest)

abbrev pub IsShort : Macro → Type 0
IsShort macro = (g_pc : ℕ) → words (macro g_pc) ≤ 3

abbrev pub AllShort : List Macro → Type 0
AllShort [] = Unit
AllShort (macro ∷ rest) = IsShort macro × AllShort rest

module _ (ram pages : ℕ) (start : Env) where
  abbrev In : Env → Type 0
  In env = Contained ram 23 pages start env

  -- What is written at `pc` to at most `last`.
  abbrev pub Written : Env × ℕ → ℕ → Type 0
  Written r last = In r.0 × (r.1 ≤ last)

  ew-Written :
      (env : Env) (pc w : ℕ) → pc + 2 ≤ 2 ^ 23 → In env → Written (ew ram env pc w) (pc + 2)
  unfolding ew
  ew-Written env pc w room h = (
    rw (store_be16-eq-put16 env.host (ram + pc))
        (put-Contained h _ (put16-lt h.flat _ _) (λ q out. ground arith)),
    omega (arith, room),
  )

  ew_all-Written :
      (ws : List ℕ) (env : Env) (pc : ℕ)
      → pc + 2 * words ws ≤ 2 ^ 23
      → In env
      → Written (ew_all ram env pc ws) (pc + 2 * words ws)
  unfolding ew_all
  ew_all-Written [] env pc room h = (h, omega arith)
  ew_all-Written (w ∷ rest) env pc room h =
      let (kept, at) = ew-Written env pc w (omega (arith, room)) h in
      let (kept', at') =
        ew_all-Written rest (ew ram env pc w).0 (ew ram env pc w).1 (omega (arith, room, at))
          kept in
      (kept', omega (arith, at, at'))

  pub assemble-Written :
      (macros : List Macro) (env : Env) (pc : ℕ)
      → AllShort macros
      → pc + 6 * count macros ≤ 2 ^ 23
      → In env
      → Written (assemble ram env pc macros) (pc + 6 * count macros)
  unfolding assemble
  assemble-Written [] env pc short room h = (h, omega arith)
  assemble-Written (macro ∷ rest) env pc (s, short) room h =
      let (kept, at) = ew_all-Written (macro pc) env pc (omega (arith, room, s pc)) h in
      let (kept', at') =
        assemble-Written rest (ew_all ram env pc (macro pc)).0 (ew_all ram env pc (macro pc)).1
          short (omega (arith, room, at, s pc)) kept in
      (kept', omega (arith, at, at', s pc))
