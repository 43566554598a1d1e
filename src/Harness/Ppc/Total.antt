-- ===== src/Harness/Ppc/Total.antt =====
-- `main` of ppc/bench_main.c returns, and its check passes.
use emu_core_bench.Base.{ℕ, zero, suc, ◌+◌, ◌/◌, ◌^◌, ◌≤◌, ◌<◌, ◌≡◌, refl, arith, List, true, ok}
use emu_core_bench.Memory.{Env}
use emu_core_bench.Memory.Init.{mapped_env}
use emu_core_bench.Memory.Flat.{IsFlat, mem_env_init-IsFlat}
use emu_core_bench.Memory.Contained.{Contained, Contained-refl}
use emu_core_bench.Harness.Ppc.Setup.{setup_kernel}
use emu_core_bench.Harness.Ppc.Main.{
  g_backends, run_backends, no_divergence, run_reps, Verdict, bench_kernel, bench_kernels, main,
}
use emu_core_bench.Harness.Ppc.Verify.{run_backends-returns}
use emu_core_bench.Harness.Ppc.Safe.{SafeRun}
use emu_core_bench.Harness.Ppc.Alu.{alu_run}
use emu_core_bench.Harness.Ppc.Mem.{mem_run}
use emu_core_bench.Harness.Ppc.Stress.Run.{stress_run}

module _ {ram pages : ℕ} {start : Env} (flat : IsFlat ram 23 pages start) where
  -- From each of the three kernels set up in a memory that `mem_env_init` set up, and for every
  -- budget of 32 bits: the run of the switch backend stays in the code region, finds there the
  -- words that were set up, meets only words that all decoders read alike, and returns.
  pub kernels_run :
      (k budget : ℕ) → k < 3 → budget < 2 ^ 32 → SafeRun (setup_kernel ram k start) budget
  kernels_run zero budget lt h = alu_run flat budget h
  kernels_run (suc zero) budget lt h = mem_run flat budget h
  kernels_run (suc (suc zero)) budget lt h = stress_run flat budget
  kernels_run (suc (suc (suc k))) budget lt h = absurd (omega (arith, lt))

  module _ (k : ℕ) (kernel : k < 3) where
    backends_run :
        (budget : ℕ) (env : Env)
        → budget < 2 ^ 32
        → Contained ram 23 pages start env
        → (r : List ℕ × Env) × (run_backends ram k budget g_backends env ≡ ok r)
          × (no_divergence r.0 ≡ true)
          × Contained ram 23 pages start r.1
    backends_run budget env small h =
        let (keeps, (m, run)) = kernels_run k budget kernel small in
        let (hashes, env', runs, equal, last) =
          run_backends-returns flat k budget m env h keeps run in
        ((hashes, env'), runs, equal, last)

    reps_run :
        (reps budget : ℕ) (env : Env)
        → budget < 2 ^ 32
        → Contained ram 23 pages start env
        → (env' : Env) × (run_reps reps ram k budget env ≡ ok env')
          × Contained ram 23 pages start env'
    unfolding run_reps
    reps_run zero budget env small h = (env, refl, h)
    reps_run (suc reps) budget env small h =
        let (r, runs, _, h') = backends_run budget env small h in
        let (env', rest, last) = reps_run reps budget r.1 small h' in
        (env', rw (runs, rest) refl, last)

    kernel_passes :
        (verify bench reps : ℕ) (env : Env)
        → verify < 2 ^ 32
        → bench < 2 ^ 32
        → Contained ram 23 pages start env
        → (env' : Env) × (bench_kernel ram verify bench reps k env ≡ ok (Verdict.passed env'))
          × Contained ram 23 pages start env'
    unfolding bench_kernel
    kernel_passes verify bench reps env hv hb h =
        let (r1, runs1, equal, h1) = backends_run verify env hv h in
        let (r2, runs2, _, h2) = backends_run (bench / 2) r1.1 (omega (arith, hb)) h1 in
        let (env', rest, h3) = reps_run reps bench r2.1 hb h2 in
        (env', rw (runs1, equal, runs2, rest) refl, h3)

  kernels_pass :
      (n k verify bench reps : ℕ) (env : Env)
      → n + k ≤ 3
      → verify < 2 ^ 32
      → bench < 2 ^ 32
      → Contained ram 23 pages start env
      → bench_kernels n k ram verify bench reps env ≡ ok 0
  unfolding bench_kernels
  kernels_pass zero k verify bench reps env le hv hb h = refl
  kernels_pass (suc n) k verify bench reps env le hv hb h =
      let (env', passes, h') = kernel_passes k (omega (arith, le)) verify bench reps env hv hb h in
      rw passes (kernels_pass n (k + 1) verify bench reps env' (omega (arith, le)) hv hb h')

-- Wherever `malloc` puts the RAM and the tables, with the RAM's addresses in 64 bits and a host
-- that holds bytes; for every budget of 32 bits and every number of repetitions: `main` returns
-- 0. No run of a backend ends in a fault, and no backend's hash differs from the switch's.
pub main_returns :
    (env : Env) (g_ram rd wr bench_budget reps : ℕ)
    → 0 < g_ram
    → 0 < rd
    → 0 < wr
    → g_ram + 2 ^ 23 ≤ 2 ^ 64
    → ((q : ℕ) → env.host q < 256)
    → bench_budget < 2 ^ 32
    → main env g_ram rd wr bench_budget reps ≡ ok 0
unfolding main
main_returns env g_ram rd wr bench_budget reps r0 d0 w0 fits bytes small =
    let (init, flat) = mem_env_init-IsFlat env g_ram rd wr 23 2048 refl r0 d0 w0 fits bytes in
    rw init (
      kernels_pass flat 3 0 20000000 bench_budget reps (mapped_env env g_ram (2 ^ 23)) (omega arith)
        (omega arith) small (Contained-refl flat))
