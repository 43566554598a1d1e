-- ===== src/Harness/Ppc/Main.antt =====
-- `main` of ppc/bench_main.c, less its clock, its printing and its arithmetic on times.
use emu_core_bench.Base.{
  ℕ, zero, suc, ◌+◌, ◌/◌, Bool, true, ◌&&◌, List, [], ◌∷◌, ◌==◌, if◌then◌else◌, Outcome, ok, ◌>>=◌,
}
use emu_core_bench.Memory.{Env}
use emu_core_bench.Memory.Init.{mem_env_init}
use emu_core_bench.Ppc.State.{Machine}
use emu_core_bench.Ppc.Switch.{ppc_run_switch}
use emu_core_bench.Ppc.Tail.{ppc_run_tail}
use emu_core_bench.Ppc.Call.{ppc_run_call}
use emu_core_bench.Ppc.Predecode.{ppc_run_pd}
use emu_core_bench.Ppc.Pdx.Run.{ppc_run_pdx8, ppc_run_pdx16}
use emu_core_bench.Harness.Ppc.Setup.{setup_kernel, state_hash, ram_size}

abbrev pub RunFn : Type 0
RunFn = Machine → ℕ → Outcome Machine

abbrev pub g_backends : List RunFn
g_backends =
    ppc_run_switch ∷ ppc_run_tail ∷ ppc_run_call ∷ ppc_run_pd ∷ ppc_run_pdx8 ∷ ppc_run_pdx16 ∷ []

-- A loop over the backends: each starts from the kernel set up in the memory that the one before
-- left. The hashes, and the memory left by the last.
unfoldable pub run_backends : ℕ → ℕ → ℕ → List RunFn → Env → Outcome (List ℕ × Env)
run_backends g_ram k budget [] env = ok ([], env)
run_backends g_ram k budget (run ∷ rest) env = run (setup_kernel g_ram k env) budget >>= λ m.
    run_backends g_ram k budget rest m.mem >>= λ (hashes, env').
    ok (state_hash g_ram m ∷ hashes, env')

-- `hash[b] == hash[0]` of every other backend.
abbrev pub all_equal : ℕ → List ℕ → Bool
all_equal first [] = true
all_equal first (h ∷ rest) = h == first && all_equal first rest

abbrev pub no_divergence : List ℕ → Bool
no_divergence [] = true
no_divergence (first ∷ rest) = all_equal first rest

-- The timed repetitions.
unfoldable pub run_reps : ℕ → ℕ → ℕ → ℕ → Env → Outcome Env
run_reps zero g_ram k budget env = ok env
run_reps (suc r) g_ram k budget env =
    run_backends g_ram k budget g_backends env >>= λ (_, env'). run_reps r g_ram k budget env'

-- What one kernel ends in: `return 1`, or the memory for the next.
pub data Verdict : Type 0 where
  diverged : Verdict
  passed : Env → Verdict

-- The body of the loop over the kernels, its two budgets given.
unfoldable pub bench_kernel : ℕ → ℕ → ℕ → ℕ → ℕ → Env → Outcome Verdict
bench_kernel g_ram verify_budget bench_budget reps k env =
    run_backends g_ram k verify_budget g_backends env >>= λ (hashes, env1).
    if no_divergence hashes
    then (run_backends g_ram k (bench_budget / 2) g_backends env1 >>= λ (_, env2).
        run_reps reps g_ram k bench_budget env2 >>= λ env3. ok (passed env3))
    else ok diverged

-- The loop over the kernels, with those left and the next one; it gives the exit status.
unfoldable pub bench_kernels : ℕ → ℕ → ℕ → ℕ → ℕ → ℕ → Env → Outcome ℕ
bench_kernels zero k g_ram verify_budget bench_budget reps env = ok 0
bench_kernels (suc n) k g_ram verify_budget bench_budget reps env =
    bench_kernel g_ram verify_budget bench_budget reps k env >>= λ v. elim v [
      | diverged ↦ ok 1
      | passed env' ↦ bench_kernels n (k + 1) g_ram verify_budget bench_budget reps env'
    ]

-- `main` with its two arguments read, and the addresses that `malloc` returns.
unfoldable pub main : Env → ℕ → ℕ → ℕ → ℕ → ℕ → Outcome ℕ
main env g_ram rd wr bench_budget reps = mem_env_init env g_ram rd wr ram_size >>= λ env'.
    bench_kernels 3 0 g_ram 20000000 bench_budget reps env'
