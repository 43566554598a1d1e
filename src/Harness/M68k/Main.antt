-- ===== src/Harness/M68k/Main.antt =====
-- `main` of m68k/bench_main.c, less its clock, its printing and its arithmetic on times. The hashes of
-- the backend that elides condition codes leave the codes out.
use emu_core_bench.Base.{
  ℕ, zero, suc, ◌+◌, ◌/◌, Bool, true, false, ◌&&◌, List, [], ◌∷◌, ◌==◌, if◌then◌else◌, Outcome, ok,
  ◌>>=◌,
}
use emu_core_bench.Memory.{Env}
use emu_core_bench.Memory.Init.{mem_env_init}
use emu_core_bench.M68k.State.{M68kMachine}
use emu_core_bench.M68k.Switch.{m68k_run_switch}
use emu_core_bench.M68k.Pd.Run.{
  MpdTable, mpd_entries, mpd_fill, mpd_elide_pass, m68k_run_pd, m68k_run_pd_elide,
}
use emu_core_bench.Harness.M68k.Setup.{setup_kernel, state_hash, ram_size}

-- The static tables of the two predecoded backends.
pub record Tables : Type 0 where
  pub pd : MpdTable
  pub elide : MpdTable

-- A backend with its entry of `g_exact_flags`: what a run gives, given the tables, and how it
-- leaves the tables.
pub record Backend : Type 0 where
  pub run : Tables → M68kMachine → ℕ → Outcome M68kMachine
  pub leaves : Tables → M68kMachine → Outcome Tables
  pub exact_flags : Bool

abbrev pub switch_backend : Backend
switch_backend = record {
  run = λ tabs. m68k_run_switch;
  leaves = λ tabs m. ok tabs;
  exact_flags = true;
}

abbrev pub pd_backend : Backend
pd_backend = record {
  run = λ tabs. m68k_run_pd tabs.pd;
  leaves = λ tabs m. mpd_fill mpd_entries m.mem tabs.pd 0 >>= λ t. ok (record tabs { pd = t });
  exact_flags = true;
}

abbrev pub elide_backend : Backend
elide_backend = record {
  run = λ tabs. m68k_run_pd_elide tabs.elide;
  leaves = λ tabs m. mpd_fill mpd_entries m.mem tabs.elide 0 >>= λ t.
      ok (record tabs { elide = record t { ent = mpd_elide_pass mpd_entries t.len t.ent 0 } });
  exact_flags = false;
}

abbrev pub g_backends : List Backend
g_backends = switch_backend ∷ pd_backend ∷ elide_backend ∷ []

-- What a run leaves for the next.
abbrev pub World : Type 0
World = Env × Tables

-- `full[b]` and `reduced[b]`, with the flag of the backend.
pub record Hashes : Type 0 where
  pub full : ℕ
  pub reduced : ℕ
  pub exact : Bool

abbrev pub hashes_of : ℕ → Bool → M68kMachine → Hashes
hashes_of g_ram exact m = record {
  full = state_hash g_ram m true;
  reduced = state_hash g_ram m false;
  exact = exact;
}

-- A loop over the backends: each starts from the kernel set up in the memory that the one before
-- left. The hashes, and what the last leaves.
unfoldable pub run_backends : ℕ → ℕ → ℕ → List Backend → World → Outcome (List Hashes × World)
run_backends g_ram k budget [] world = ok ([], world)
run_backends g_ram k budget (b ∷ rest) (env, tabs) =
    let s = setup_kernel g_ram k env in
    b.run tabs s budget >>= λ m. b.leaves tabs s >>= λ tabs'.
    run_backends g_ram k budget rest (m.mem, tabs') >>= λ (hashes, world).
    ok (hashes_of g_ram b.exact_flags m ∷ hashes, world)

-- `ok` of every other backend.
abbrev pub all_agree : Hashes → List Hashes → Bool
all_agree first [] = true
all_agree first (h ∷ rest) =
    (if h.exact then h.full == first.full else h.reduced == first.reduced) && all_agree first rest

abbrev pub no_divergence : List Hashes → Bool
no_divergence [] = true
no_divergence (first ∷ rest) = all_agree first rest

-- The timed repetitions.
unfoldable pub run_reps : ℕ → ℕ → ℕ → ℕ → World → Outcome World
run_reps zero g_ram k budget world = ok world
run_reps (suc r) g_ram k budget world =
    run_backends g_ram k budget g_backends world >>= λ (_, world'). run_reps r g_ram k budget world'

-- What one kernel ends in: `return 1`, or what it leaves for the next.
pub data Verdict : Type 0 where
  diverged : Verdict
  passed : World → Verdict

-- The body of the loop over the kernels, its two budgets given.
unfoldable pub bench_kernel : ℕ → ℕ → ℕ → ℕ → ℕ → World → Outcome Verdict
bench_kernel g_ram verify_budget bench_budget reps k world =
    run_backends g_ram k verify_budget g_backends world >>= λ (hashes, world1).
    if no_divergence hashes
    then (run_backends g_ram k (bench_budget / 2) g_backends world1 >>= λ (_, world2).
        run_reps reps g_ram k bench_budget world2 >>= λ world3. ok (passed world3))
    else ok diverged

-- The loop over the kernels, with those left and the next one; it gives the exit status.
unfoldable pub bench_kernels : ℕ → ℕ → ℕ → ℕ → ℕ → ℕ → World → Outcome ℕ
bench_kernels zero k g_ram verify_budget bench_budget reps world = ok 0
bench_kernels (suc n) k g_ram verify_budget bench_budget reps world =
    bench_kernel g_ram verify_budget bench_budget reps k world >>= λ v. elim v [
      | diverged ↦ ok 1
      | passed world' ↦ bench_kernels n (k + 1) g_ram verify_budget bench_budget reps world'
    ]

-- `main` with its two arguments read, the addresses that `malloc` returns, and the static tables
-- as the process starts with them.
unfoldable pub main : Env → Tables → ℕ → ℕ → ℕ → ℕ → ℕ → Outcome ℕ
main env tabs g_ram rd wr bench_budget reps = mem_env_init env g_ram rd wr ram_size >>= λ env'.
    bench_kernels 3 0 g_ram 20000000 bench_budget reps (env', tabs)
