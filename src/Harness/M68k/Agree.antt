-- ===== src/Harness/M68k/Agree.antt =====
-- The verifying loop of m68k/bench_main.c: the runs of the three backends from a kernel, and the check
-- of their hashes.
use emu_core_bench.Base.{
  ℕ, ◌≡◌, refl, sym, ap, ◌∙◌, arith, true, false, List, [], ◌∷◌, ==-refl, Outcome, ok, fatal, ◌>>=◌,
  After, After-weaken, BothEnd,
}
use emu_core_bench.Memory.{Env}
use emu_core_bench.Memory.Flat.{IsFlat}
use emu_core_bench.Memory.Contained.{Contained, Contained-refl}
use emu_core_bench.M68k.State.{M68kMachine}
use emu_core_bench.M68k.Switch.{m68k_run_switch}
use emu_core_bench.M68k.Invariant.{IsCpu}
use emu_core_bench.M68k.Kept.{IsKept}
use emu_core_bench.M68k.Kept.Runs.{loop-IsKept, write_size-Contained}
use emu_core_bench.M68k.Pd.Run.{
  MpdTable, mpd_entries, mpd_fill, mpd_elide_pass, m68k_run_pd, m68k_run_pd_elide,
}
use emu_core_bench.M68k.Pd.Flags.{AgreeButNzvc}
use emu_core_bench.M68k.Pd.Refine.{
  KeepsCode, m68k_run_pd-m68k_run_switch, m68k_run_pd_elide-m68k_run_switch,
}
use emu_core_bench.M68k.Pd.Ends.{mpd_fill-ends}
use emu_core_bench.Harness.M68k.Setup.{setup_kernel, state_hash}
use emu_core_bench.Harness.M68k.Prepared.{setup_kernel-again, setup_kernel-Contained}
use emu_core_bench.Harness.M68k.Main.{
  Tables, Hashes, World, hashes_of, g_backends, run_backends, no_divergence,
}

-- The reduced hash does not see the codes.
reduced-AgreeButNzvc :
    (g_ram : ℕ) (m m' : M68kMachine)
    → AgreeButNzvc m m'
    → state_hash g_ram m false ≡ state_hash g_ram m' false
unfolding state_hash
reduced-AgreeButNzvc g_ram m m' h = ap {A = M68kMachine} {B = ℕ} (λ k. state_hash g_ram k false) h

-- A run of the switch backend from `s` keeps to the decoded instructions of the code that `s` holds.
abbrev pub RunsCode : M68kMachine → ℕ → Type 0
RunsCode s budget = KeepsCode s.mem budget s s.cpu.pc

BothEnd-left :
    {A : Type 0} (P : A → A → Type 0) (r : Outcome A) (a : A)
    → BothEnd P (ok a) r
    → (b : A) × (r ≡ ok b) × P a b
BothEnd-left P (ok b) a h = (b, refl, h)
BothEnd-left P (fatal e) a h = absurd h

module _ {ram pages : ℕ} {start : Env} (flat : IsFlat ram 23 pages start) (k budget : ℕ) where
  reset_cpu-IsCpu : IsCpu (setup_kernel ram k start).cpu
  unfolding setup_kernel
  reset_cpu-IsCpu = record {
    regs = λ _. omega arith;
    n_bit = omega arith;
    z_bit = omega arith;
    v_bit = omega arith;
    cf_bit = omega arith;
    x_bit = omega arith;
  }

  -- A run of the switch backend changes the RAM only.
  after_run :
      After
        (m68k_run_switch (setup_kernel ram k start) budget)
        (λ m. Contained ram 23 pages start m.mem)
  unfolding m68k_run_switch
  after_run =
      let s = setup_kernel ram k start in
      let P = Contained ram 23 pages start in
      After-weaken (IsKept P) (λ m. P m.mem) (m68k_run_switch s budget)
        (loop-IsKept P (λ env h. h.flat.bytes) write_size-Contained budget s s.cpu.pc
          (record { cpu = reset_cpu-IsCpu; mem = setup_kernel-Contained (Contained-refl flat) k }))
        (λ m h. h.mem)

  module _ (keeps : RunsCode (setup_kernel ram k start) budget) (m : M68kMachine) (t : MpdTable)
      (run : m68k_run_switch (setup_kernel ram k start) budget ≡ ok m) where
    -- A table that any decoding loop leaves is one that all do.
    filled_any :
        (tab tab' : MpdTable)
        → mpd_fill mpd_entries (setup_kernel ram k start).mem tab 0 ≡ ok t
        → (t' : MpdTable) × (mpd_fill mpd_entries (setup_kernel ram k start).mem tab' 0 ≡ ok t')
    filled_any tab tab' e =
        let ends = mpd_fill-ends mpd_entries (setup_kernel ram k start).mem tab tab' 0 in
        let (t', e', _) =
          BothEnd-left (λ _ _. Unit {0})
            (mpd_fill mpd_entries (setup_kernel ram k start).mem tab' 0) t (rw e at ends) in
        (t', e')

    flat_here : IsFlat ram 23 pages (setup_kernel ram k start).mem
    flat_here = (setup_kernel-Contained (Contained-refl flat) k).flat

    pd_run :
        (tab t' : MpdTable)
        → mpd_fill mpd_entries (setup_kernel ram k start).mem tab 0 ≡ ok t'
        → m68k_run_pd tab (setup_kernel ram k start) budget ≡ ok m
    pd_run tab t' e =
        let s = setup_kernel ram k start in
        m68k_run_pd-m68k_run_switch tab s budget flat_here reset_cpu-IsCpu keeps ∙ rw (e, run) refl

    elide_run :
        (tab t' : MpdTable)
        → mpd_fill mpd_entries (setup_kernel ram k start).mem tab 0 ≡ ok t'
        → (m' : M68kMachine) × (m68k_run_pd_elide tab (setup_kernel ram k start) budget ≡ ok m')
          × AgreeButNzvc m m'
    elide_run tab t' e =
        let s = setup_kernel ram k start in
        let both = m68k_run_pd_elide-m68k_run_switch tab s budget flat_here reset_cpu-IsCpu keeps in
        let here : (mpd_fill mpd_entries s.mem tab 0 >>= λ _. m68k_run_switch s budget) ≡ ok m =
          rw (e, run) refl in
        BothEnd-left AgreeButNzvc (m68k_run_pd_elide tab s budget) m (rw here at both)

    -- The hashes of the runs from the kernel, and the memory they leave.
    pub run_backends-returns :
        (env : Env) (tabs : Tables)
        → Contained ram 23 pages start env
        → mpd_fill mpd_entries (setup_kernel ram k start).mem tabs.pd 0 ≡ ok t
        → (hashes : List Hashes) × (world : World) × (run_backends ram k budget g_backends
              (env, tabs)
            ≡ ok (hashes, world))
          × (no_divergence hashes ≡ true)
          × Contained ram 23 pages start world.0
    unfolding run_backends
    run_backends-returns env tabs h filled =
        let s = setup_kernel ram k start in
        let (t', filled') = filled_any tabs.pd tabs.elide filled in
        let (m', elided, same) = elide_run tabs.elide t' filled' in
        let after : Contained ram 23 pages start m.mem = rw run at after_run in
        let again = setup_kernel-again {ram = ram} {pages = pages} k h in
        let again' = setup_kernel-again {ram = ram} {pages = pages} k after in
        let mem : m.mem ≡ m'.mem = ap {A = M68kMachine} {B = Env} (λ a. a.mem) same in
        let pd = pd_run tabs.pd t filled in
        let reduced = reduced-AgreeButNzvc ram m m' same in
        let left : Tables = record {
          pd = t;
          elide = record t' { ent = mpd_elide_pass mpd_entries t'.len t'.ent 0 };
        } in
        let passes : no_divergence
              (hashes_of ram true m ∷ hashes_of ram true m ∷ hashes_of ram false m' ∷ [])
            ≡ true =
          rw (==-refl (state_hash ram m true), sym reduced, ==-refl (state_hash ram m false))
            refl in
        (
          hashes_of ram true m ∷ hashes_of ram true m ∷ hashes_of ram false m' ∷ [],
          (m'.mem, left),
          rw (again, run, again', pd, filled, again', elided, filled') refl,
          passes,
          rw mem at after,
        )

  -- For every kernel and budget, from a memory that `mem_env_init` set up and whatever the tables
  -- hold: if the run of the switch backend from the kernel keeps to instructions that the decoder
  -- comes to and knows, in unchanged code, then the check of the hashes passes whenever it is
  -- reached: the verifying loop ends with the switch backend's fault, or with the decoding loop's,
  -- or with hashes that agree.
  pub m68k_run_backends-no_divergence :
      (tabs : Tables)
      → RunsCode (setup_kernel ram k start) budget
      → (run_backends ram k budget g_backends (start, tabs) >>= λ r. ok (no_divergence r.0)) ≡ (
          m68k_run_switch (setup_kernel ram k start) budget >>= λ _.
          mpd_fill mpd_entries (setup_kernel ram k start).mem tabs.pd 0 >>= λ _. ok true)
  m68k_run_backends-no_divergence tabs keeps =
      by_ends (m68k_run_switch s budget) (mpd_fill mpd_entries s.mem tabs.pd 0) refl refl
    where
      s : M68kMachine
      s = setup_kernel ram k start

      by_ends :
          (r : Outcome M68kMachine) (f : Outcome MpdTable)
          → m68k_run_switch s budget ≡ r
          → mpd_fill mpd_entries s.mem tabs.pd 0 ≡ f
          → (run_backends ram k budget g_backends (start, tabs) >>= λ r. ok (no_divergence r.0)) ≡ (
              m68k_run_switch s budget >>= λ _.
              mpd_fill mpd_entries s.mem tabs.pd 0 >>= λ _. ok true)
      by_ends (fatal e) f run filled = rw run (unfold run_backends in rw run refl)
      by_ends (ok m) (fatal e) run filled =
          let after : Contained ram 23 pages start m.mem = rw run at after_run in
          let again = setup_kernel-again {ram = ram} {pages = pages} k after in
          let pd : m68k_run_pd tabs.pd s budget ≡ fatal e = unfold m68k_run_pd in rw filled refl in
          rw (run, filled) (unfold run_backends in rw (run, again, pd) refl)
      by_ends (ok m) (ok t) run filled =
          let (hashes, world, runs, passes, _) =
            run_backends-returns keeps m t run start tabs (Contained-refl flat) filled in
          rw (runs, run, filled, passes) refl
