-- ===== src/Harness/M68k/Passes.antt =====
-- The body of the loop of m68k/bench_main.c over its kernels, on a kernel that runs in its own code.
use emu_core_bench.Base.{ℕ, zero, suc, ◌/◌, ◌≡◌, arith, ok, true, Returns, Returns-ok, Returns-bind}
use emu_core_bench.Memory.{Env}
use emu_core_bench.Memory.Flat.{IsFlat}
use emu_core_bench.Memory.Contained.{Contained, Contained-refl}
use emu_core_bench.M68k.Switch.{m68k_run_switch, m68k_loop, m68k_step}
use emu_core_bench.M68k.Pd.Run.{mpd_region_bytes, mpd_entries, mpd_fill}
use emu_core_bench.M68k.Pd.Total.{mpd_fill-returns}
use emu_core_bench.Harness.M68k.Main.{
  Tables, World, Verdict, diverged, passed, g_backends, run_backends, no_divergence, run_reps,
  bench_kernel,
}
use emu_core_bench.Harness.M68k.Kernels.{code_base}
use emu_core_bench.Harness.M68k.Setup.{setup_kernel}
use emu_core_bench.Harness.M68k.Agree.{RunsCode, run_backends-returns}
use emu_core_bench.M68k.Pd.Heads.{Walk}
use emu_core_bench.M68k.State.{M68kMachine}
use emu_core_bench.M68k.Pd.Refine.{OnCode, KeepsCode}

-- From the setup of a kernel: the runs of the switch backend keep to decoded instructions of the
-- code and end in no fault, and the decoder comes to the end of the region.
pub record InCode (ram : ℕ) (start : Env) (k : ℕ) : Type 0 where
  pub runs : (budget : ℕ) → RunsCode (setup_kernel ram k start) budget
  pub returns :
      (budget : ℕ) → Returns (m68k_run_switch (setup_kernel ram k start) budget) (λ _. Unit {0})
  pub fills : Walk (setup_kernel ram k start).mem 0 mpd_region_bytes

-- An invariant of the rounds that holds at the setup.
module _ (ram : ℕ) (start : Env) (k : ℕ) (Inv : M68kMachine → ℕ → Type 0)
    (on : (m : M68kMachine) (pc : ℕ) → Inv m pc → OnCode (setup_kernel ram k start).mem m pc)
    (stays : (m : M68kMachine) (pc : ℕ)
      → Inv m pc
      → Returns (m68k_step m pc) (λ r. Inv r.0 r.1)) where
  keeps :
      (budget : ℕ) (m : M68kMachine) (pc : ℕ)
      → Inv m pc
      → KeepsCode (setup_kernel ram k start).mem budget m pc
  keeps zero m pc h = let c = on m pc h in (c.even, omega (arith, c.inside))
  keeps (suc n) m pc h = (
    on m pc h,
    let (r, e, h') = Returns-ok (λ r. Inv r.0 r.1) (m68k_step m pc) (stays m pc h) in
        rw e (keeps n r.0 r.1 h'),
  )

  loop_returns :
      (budget : ℕ) (m : M68kMachine) (pc : ℕ)
      → Inv m pc
      → Returns (m68k_loop budget m pc) (λ _. Unit {0})
  unfolding m68k_loop
  loop_returns zero m pc h = tt
  loop_returns (suc n) m pc h =
      Returns-bind (λ r. Inv r.0 r.1) (λ _. Unit {0}) (m68k_step m pc) (λ r. m68k_loop n r.0 r.1)
        (stays m pc h) (λ r h'. loop_returns n r.0 r.1 h')

  pub rounds-InCode :
      Inv (setup_kernel ram k start) code_base
      → Walk (setup_kernel ram k start).mem 0 mpd_region_bytes
      → InCode ram start k
  unfolding setup_kernel m68k_run_switch
  rounds-InCode h w = record {
    runs = λ budget. keeps budget (setup_kernel ram k start) code_base h;
    returns = λ budget. loop_returns budget (setup_kernel ram k start) code_base h;
    fills = w;
  }

-- The kernel has passed, and no memory but the RAM has changed.
abbrev pub Passed : ℕ → ℕ → Env → Verdict → Type 0
Passed ram pages start diverged = ⊥
Passed ram pages start (passed world) = Contained ram 23 pages start world.0

module _ {ram pages : ℕ} {start : Env} (flat : IsFlat ram 23 pages start) (k : ℕ)
    (code : InCode ram start k) where
  -- A loop over the backends ends in no fault, and with hashes that agree.
  passes :
      (budget : ℕ) (env : Env) (tabs : Tables)
      → Contained ram 23 pages start env
      → Returns
          (run_backends ram k budget g_backends (env, tabs))
          (λ r. (no_divergence r.0 ≡ true) × Contained ram 23 pages start r.1.0)
  passes budget env tabs h =
      let (m, run, _) =
        Returns-ok (λ _. Unit {0}) (m68k_run_switch (setup_kernel ram k start) budget)
          (code.returns budget) in
      let (t, filled, _) =
        Returns-ok (λ _. Unit {0}) (mpd_fill mpd_entries (setup_kernel ram k start).mem tabs.pd 0)
          (mpd_fill-returns mpd_entries (setup_kernel ram k start).mem tabs.pd code.fills) in
      let (hashes, world, runs, agree, kept) =
        run_backends-returns flat k budget (code.runs budget) m t run env tabs h filled in
      rw runs (agree, kept)

  reps_pass :
      (reps budget : ℕ) (world : World)
      → Contained ram 23 pages start world.0
      → Returns (run_reps reps ram k budget world) (λ w. Contained ram 23 pages start w.0)
  unfolding run_reps
  reps_pass zero budget world h = h
  reps_pass (suc r) budget (env, tabs) h =
      Returns-bind _ (λ w. Contained ram 23 pages start w.0)
        (run_backends ram k budget g_backends (env, tabs)) _ (passes budget env tabs h)
        (λ (_, w) (_, h'). reps_pass r budget w h')

  -- From a memory that `mem_env_init` set up, whatever the tables hold and for all budgets and
  -- numbers of repetitions: the body of the loop over the kernels, on a kernel that runs in its own code, ends in no
  -- fault and finds no divergence of the three backends, and no memory but the RAM has changed.
  pub bench_kernel-pass :
      (verify_budget bench_budget reps : ℕ) (tabs : Tables)
      → Returns
          (bench_kernel ram verify_budget bench_budget reps k (start, tabs))
          (Passed ram pages start)
  unfolding bench_kernel
  bench_kernel-pass verify_budget bench_budget reps tabs =
      Returns-bind _ (Passed ram pages start)
        (run_backends ram k verify_budget g_backends (start, tabs)) _
        (passes verify_budget start tabs (Contained-refl flat))
        λ (hashes, (env, tabs')) (agree, h). rw agree (
          Returns-bind _ (Passed ram pages start)
            (run_backends ram k (bench_budget / 2) g_backends (env, tabs')) _
            (passes (bench_budget / 2) env tabs' h)
            λ (_, world2) (_, h2).
              Returns-bind _ (Passed ram pages start) (run_reps reps ram k bench_budget world2)
                (λ w. ok (passed w)) (reps_pass reps bench_budget world2 h2) (λ _ h3. h3))
