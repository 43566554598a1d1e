-- ===== src/Harness/Ppc/Verify.antt =====
-- The check of ppc/bench_main.c that all backends end in the same state.
use emu_core_bench.Base.{
  ℕ, zero, suc, ◌≡◌, refl, arith, true, false, List, [], ◌∷◌, ==-refl, eq_of_==, Outcome, ok, fatal,
  ◌>>=◌, After, After-both, After-weaken,
}
use emu_core_bench.Memory.{Env}
use emu_core_bench.Memory.Flat.{IsFlat}
use emu_core_bench.Memory.Contained.{Contained, Contained-refl}
use emu_core_bench.Ppc.State.{Machine}
use emu_core_bench.Ppc.Switch.{sw_step, ppc_run_switch}
use emu_core_bench.Ppc.Invariant.{IsPc, sw_step-Sound}
use emu_core_bench.Ppc.Contained.{run_switch-Holds, write_width-Contained}
use emu_core_bench.Ppc.Equiv.Threaded.{run_tail-run_switch, run_call-run_switch}
use emu_core_bench.Ppc.Equiv.Predecoded.{KeepsCode, run_pd-run_switch}
use emu_core_bench.Ppc.Equiv.Preextracted.{KeepsCommonCode, run_pdx-run_switch}
use emu_core_bench.Harness.Ppc.Setup.{setup_kernel, state_hash}
use emu_core_bench.Harness.Ppc.Prepared.{setup_kernel-again, setup_kernel-Contained}
use emu_core_bench.Harness.Ppc.Main.{RunFn, g_backends, run_backends, all_equal, no_divergence}

-- The condition on the pre-extracted backends is stronger than that on the predecoded one.
KeepsCommonCode-KeepsCode :
    (start : Env) (n : ℕ) (m : Machine) (pc : ℕ)
    → IsPc pc
    → KeepsCommonCode start n m pc
    → KeepsCode start n m pc
KeepsCommonCode-KeepsCode start zero m pc h k = tt
KeepsCommonCode-KeepsCode start (suc n) m pc h (inside, same, common, next) = (
  inside,
  h.0,
  same,
  After-weaken _ (λ r. KeepsCode start n r.0 r.1) (sw_step m pc)
      (After-both (λ r. KeepsCommonCode start n r.0 r.1) _ (sw_step m pc) next
        (sw_step-Sound m pc h))
      (λ r k. KeepsCommonCode-KeepsCode start n r.0 r.1 k.1.1 k.0),
)

-- Every backend of a list runs `s` as the switch does.
abbrev AllAgree : Machine → ℕ → List RunFn → Type 0
AllAgree s budget [] = Unit
AllAgree s budget (run ∷ rest) = (run s budget ≡ ppc_run_switch s budget) × AllAgree s budget rest

-- A run of the switch backend stays in the code region, on the words that the region held at its
-- start, and meets only words that all decoders read alike.
abbrev pub RunsCommonCode : Machine → ℕ → Type 0
RunsCommonCode s budget = KeepsCommonCode s.mem budget s s.cpu.pc

g_backends-agree :
    {ram pages : ℕ} (s : Machine) (budget : ℕ)
    → IsFlat ram 23 pages s.mem
    → s.cpu.zero_base ≡ 0
    → IsPc s.cpu.pc
    → RunsCommonCode s budget
    → AllAgree s budget g_backends
g_backends-agree s budget flat z h keeps =
    let code = KeepsCommonCode-KeepsCode s.mem budget s s.cpu.pc h keeps in
    let narrow = run_pdx-run_switch false s budget flat z h keeps in
    let wide = run_pdx-run_switch true s budget flat z h keeps in
    let pd = run_pd-run_switch s budget flat code in
    (
      refl,
      (run_tail-run_switch s budget, (run_call-run_switch s budget, (pd, (narrow, (wide, tt))))),
    )

all_equal-cons :
    (h first : ℕ) (rest : List ℕ)
    → all_equal h (first ∷ rest) ≡ true
    → (first ≡ h) × (all_equal h rest ≡ true)
all_equal-cons h first rest e = ground (arith, eq_of_== first h)

all_equal-no_divergence :
    (h : ℕ) (hashes : List ℕ) → all_equal h hashes ≡ true → no_divergence hashes ≡ true
all_equal-no_divergence h [] e = refl
all_equal-no_divergence h (first ∷ rest) e =
    let (same, equal) = all_equal-cons h first rest e in rw same equal

module _ (ram pages k budget : ℕ) (env : Env) (s : Machine)
    (setup : setup_kernel ram k env ≡ s) where
  -- What the runs of a list of backends give, when the switch backend returns.
  abbrev AllReturn : Machine → List RunFn → Env → Type 0
  AllReturn m runs env' =
      (hashes : List ℕ) × (env'' : Env) × (run_backends ram k budget runs env' ≡ ok (hashes, env''))
      × (all_equal (state_hash ram m) hashes ≡ true)
      × Contained ram 23 pages env env''

  run_backends-ok :
      (m : Machine) (runs : List RunFn) (env' : Env)
      → ppc_run_switch s budget ≡ ok m
      → Contained ram 23 pages env m.mem
      → AllAgree s budget runs
      → Contained ram 23 pages env env'
      → AllReturn m runs env'
  unfolding run_backends
  run_backends-ok m [] env' run after agree h = ([], env', refl, refl, h)
  run_backends-ok m (b ∷ runs) env' run after (same, agree) h =
      let (hashes, env'', rest, equal, last) = run_backends-ok m runs m.mem run after agree after in
      (
        state_hash ram m ∷ hashes,
        env'',
        rw (setup_kernel-again ram pages k h, setup, same, run, rest),
        rw (==-refl (state_hash ram m)) equal,
        last,
      )

module _ {ram pages : ℕ} {start : Env} (flat : IsFlat ram 23 pages start) (k budget : ℕ) where
  after_run :
      After
        (ppc_run_switch (setup_kernel ram k start) budget)
        (λ m. Contained ram 23 pages start m.mem)
  after_run =
      run_switch-Holds (Contained ram 23 pages start) write_width-Contained
        (setup_kernel ram k start) budget (setup_kernel-Contained (Contained-refl flat) k)

  setup_lem :
      ((setup_kernel ram k start).cpu.zero_base ≡ 0) × IsPc (setup_kernel ram k start).cpu.pc
  unfolding setup_kernel
  setup_lem = (refl, omega arith)

  -- The hashes of the runs of all backends from the kernel, and the memory they leave.
  pub run_backends-returns :
      (m : Machine) (env : Env)
      → Contained ram 23 pages start env
      → RunsCommonCode (setup_kernel ram k start) budget
      → ppc_run_switch (setup_kernel ram k start) budget ≡ ok m
      → (hashes : List ℕ) × (env' : Env) × (run_backends ram k budget g_backends env
          ≡ ok (hashes, env'))
        × (no_divergence hashes ≡ true)
        × Contained ram 23 pages start env'
  run_backends-returns m env h keeps run =
      let s = setup_kernel ram k start in
      let flat' = (setup_kernel-Contained (Contained-refl flat) k).flat in
      let agree = g_backends-agree s budget flat' setup_lem.0 setup_lem.1 keeps in
      let (hashes, env', runs, equal, last) =
        run_backends-ok ram pages k budget start s refl m g_backends env run (rw run at after_run)
          agree h in
      (hashes, env', runs, all_equal-no_divergence _ hashes equal, last)

  -- For every kernel and every budget, from a memory that `mem_env_init` set up: if the run of
  -- the switch backend from the kernel keeps to the code that was set up and to the words that
  -- all decoders read alike, then the check of the hashes passes whenever it is reached: the runs
  -- of the six backends end as the switch backend's does, with its fault or with all hashes equal.
  pub run_backends-no_divergence :
      RunsCommonCode (setup_kernel ram k start) budget
      → (run_backends ram k budget g_backends start >>= λ r. ok (no_divergence r.0))
        ≡ (ppc_run_switch (setup_kernel ram k start) budget >>= λ m. ok true)
  run_backends-no_divergence keeps = by_run (ppc_run_switch (setup_kernel ram k start) budget) refl
    where
      by_run :
          (r : Outcome Machine)
          → ppc_run_switch (setup_kernel ram k start) budget ≡ r
          → (run_backends ram k budget g_backends start >>= λ r. ok (no_divergence r.0))
            ≡ (ppc_run_switch (setup_kernel ram k start) budget >>= λ m. ok true)
      by_run (ok m) run =
          let (hashes, env', runs, equal, last) =
            run_backends-returns m start (Contained-refl flat) keeps run in
          rw (runs, run, equal) refl
      by_run (fatal e) run = rw run (unfold run_backends in rw run refl)
