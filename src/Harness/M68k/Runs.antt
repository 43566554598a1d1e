-- ===== src/Harness/M68k/Runs.antt =====
-- The runs of the first two kernels of m68k/bench_main.c.
use emu_core_bench.Base.{ℕ, ◌<◌, ◌≡◌, refl, inl, inr, arith, Returns, ◌==◌, Bool-cases}
use emu_core_bench.Memory.{Env}
use emu_core_bench.Memory.Flat.{IsFlat}
use emu_core_bench.Harness.M68k.Setup.{setup_kernel}
use emu_core_bench.Harness.M68k.Main.{Tables, bench_kernel}
use emu_core_bench.Harness.M68k.Assembled.{setup_kernel-HasCode}
use emu_core_bench.Harness.M68k.Placed.{HasCode}
use emu_core_bench.Harness.M68k.Passes.{InCode, Passed, rounds-InCode, bench_kernel-pass}
use emu_core_bench.Harness.M68k.Alu.Code as AluCode
use emu_core_bench.Harness.M68k.Alu.Rounds as AluRounds
use emu_core_bench.Harness.M68k.Mem.Code as MemCode
use emu_core_bench.Harness.M68k.Mem.Loop as MemLoop
use emu_core_bench.Harness.M68k.Mem.Rounds as MemRounds

module _ {ram pages : ℕ} {start : Env} (flat : IsFlat ram 23 pages start) where
  alu_code : HasCode ram pages AluCode.alu_words (setup_kernel ram 0 start).mem
  alu_code =
      setup_kernel-HasCode flat 0 AluCode.alu_words (omega arith) (omega arith)
        (AluCode.emit_kernel_alu_lem ram)

  mem_code : HasCode ram pages MemCode.mem_words (setup_kernel ram 1 start).mem
  mem_code =
      setup_kernel-HasCode flat 1 MemCode.mem_words (omega arith) (omega arith)
        (MemCode.emit_kernel_mem_lem ram)

  alu_kernel-InCode : InCode ram start 0
  unfolding setup_kernel
  alu_kernel-InCode =
      rounds-InCode ram start 0 (AluRounds.AtPlace alu_code) (AluRounds.AtPlace-OnCode alu_code)
        (AluRounds.stays alu_code) (refl, AluCode.move_seed) (AluCode.to_end alu_code)

  mem_kernel-InCode : InCode ram start 1
  unfolding setup_kernel
  mem_kernel-InCode =
      rounds-InCode ram start 1 (MemLoop.InLoop ram pages) (MemLoop.InLoop-OnCode mem_code)
        (MemRounds.stays ram pages) (mem_code, (MemCode.first, tt)) (MemCode.to_end mem_code)

  -- The first two kernels run in their own code, however long.
  pub kernel-InCode : (k : ℕ) → k < 2 → InCode ram start k
  kernel-InCode k low = elim (Bool-cases (k == 0)) [
    | inl e ↦ let here : k ≡ 0 = ground (arith, e) in rw here alu_kernel-InCode
    | inr e ↦ let here : k ≡ 1 = ground (arith, e, low) in rw here mem_kernel-InCode
  ]

  -- From a memory that `mem_env_init` set up, whatever the tables hold and for all budgets and
  -- numbers of repetitions: the body of the loop over the kernels, on the first two kernels, ends in
  -- no fault and finds no divergence of the three backends, and no memory but the RAM has changed.
  pub bench_kernel-Passed :
      (k : ℕ)
      → k < 2
      → (verify_budget bench_budget reps : ℕ) (tabs : Tables)
      → Returns
          (bench_kernel ram verify_budget bench_budget reps k (start, tabs))
          (Passed ram pages start)
  bench_kernel-Passed k low = bench_kernel-pass flat k (kernel-InCode k low)
