-- ===== src/M68k/Pd/Refine.antt =====
-- The predecoded backends of m68k/m68k_pd_impl.h against m68k/m68k_switch.c.
use emu_core_bench.Base.{
  ℕ, zero, suc, ◌%◌, ◌^◌, ◌<◌, ◌≡◌, refl, sym, ap, ◌∙◌, arith, true, After, After-both, Returns-ok,
  ◌>>=◌, Outcome, ok, fatal, ltb, bind_assoc, bind_congr_after, shr32, shl32, BothEnd,
}
use emu_core_bench.Memory.{Env}
use emu_core_bench.Memory.Flat.{IsFlat}
use emu_core_bench.Memory.Contained.{Contained, Contained-refl}
use emu_core_bench.M68k.State.{M68kMachine}
use emu_core_bench.M68k.Switch.{m68k_step, m68k_loop, m68k_run_switch}
use emu_core_bench.M68k.Invariant.{IsCpu}
use emu_core_bench.M68k.Kept.{IsKept}
use emu_core_bench.M68k.Kept.Runs.{step-IsKept, write_size-Contained}
use emu_core_bench.M68k.Pd.Format.{MpdEnt}
use emu_core_bench.M68k.Pd.Decode.{mpd_decode}
use emu_core_bench.M68k.Pd.Exec.{mpd_exec}
use emu_core_bench.M68k.Pd.Run.{
  MpdTable, mpd_entries, mpd_region_bytes, mpd_fill, mpd_fetch, mpd_loop, m68k_run_pd,
  m68k_run_pd_elide,
}
use emu_core_bench.M68k.Pd.Matches.{is_known, by_entry}
use emu_core_bench.M68k.Pd.Step.{decoded-m68k_step}
use emu_core_bench.M68k.Pd.Flags.{AgreeButNzvc}
use emu_core_bench.M68k.Pd.Elide.{run_pd_elide-run_pd}
use emu_core_bench.M68k.Pd.Heads.{Walk, Holds, fill-Holds}

-- The next round of the switch is at an instruction of the code region that decoding from address
-- zero comes to, that the decoder knows, and that memory holds as it did in `start`.
pub record OnCode (start : Env) (m : M68kMachine) (pc : ℕ) : Type 0 where
  pub inside : pc < mpd_region_bytes
  pub even : pc % 2 ≡ 0
  pub head : Walk start 0 pc
  pub same : mpd_decode m.mem pc ≡ mpd_decode start pc
  pub known : After (mpd_decode start pc) (λ r. is_known r.0.id ≡ true)

-- The next `n` rounds are such, and leave an even pc.
abbrev pub KeepsCode : Env → ℕ → M68kMachine → ℕ → Type 0
KeepsCode start zero m pc = (pc % 2 ≡ 0) × (pc < 2 ^ 32)
KeepsCode start (suc n) m pc =
    OnCode start m pc × After (m68k_step m pc) (λ r. KeepsCode start n r.0 r.1)

module _ (start : Env) (tab : MpdTable)
    (filled : (b : ℕ) → Walk start 0 b → b < mpd_region_bytes → Holds start b tab) where
  -- The entry fetched is run as the round of the switch runs.
  fetched-step :
      (m : M68kMachine) (pc : ℕ)
      → ((q : ℕ) → m.mem.host q < 256)
      → OnCode start m pc
      → (mpd_fetch tab.ent (shr32 pc 1) >>= λ e. mpd_exec e m (shr32 pc 1))
        ≡ by_entry (m68k_step m pc)
  unfolding mpd_fetch
  fetched-step m pc bytes code =
      let (r, e, at) =
        Returns-ok (λ r. tab.ent (shr32 pc 1) ≡ r.0) (mpd_decode start pc)
          (filled pc code.head code.inside) in
      let now : mpd_decode m.mem pc ≡ ok r = code.same ∙ e in
      let known : After (mpd_decode m.mem pc) (λ r. is_known r.0.id ≡ true) =
        rw code.same code.known in
      let within : ltb (shr32 pc 1) mpd_entries ≡ true = ground (arith, code.inside) in
      let fetch : mpd_fetch tab.ent (shr32 pc 1) ≡ ok r.0 = rw (mpd_fetch, within) (ap ok at) in
      let decoded : (mpd_decode m.mem pc >>= λ e. mpd_exec e.0 m (shr32 pc 1))
          ≡ mpd_exec r.0 m (shr32 pc 1) =
        ap {A = Outcome (MpdEnt × ℕ)} (λ d. d >>= λ e. mpd_exec e.0 m (shr32 pc 1)) now in
      rw fetch (sym decoded ∙ decoded-m68k_step m pc code.inside bytes known)

  -- The rounds from the table are the rounds of the switch.
  loop-m68k_loop :
      {ram bits pages : ℕ} (n : ℕ) (m : M68kMachine) (pc : ℕ)
      → IsKept (Contained ram bits pages start) m
      → KeepsCode start n m pc
      → mpd_loop tab.ent n m (shr32 pc 1) ≡ m68k_loop n m pc
  unfolding mpd_loop m68k_loop
  loop-m68k_loop zero m pc h (even, small) =
      let back : shl32 (shr32 pc 1) 1 ≡ pc = omega (arith, even, small) in rw back refl
  loop-m68k_loop {ram} {bits} {pages} (suc n) m pc h (code, next) =
      let Q = IsKept (Contained ram bits pages start) in
      sym (
        bind_assoc (mpd_fetch tab.ent (shr32 pc 1)) (λ e. mpd_exec e m (shr32 pc 1))
          (λ r. mpd_loop tab.ent n r.0 r.1))
      ∙ rw (fetched-step m pc h.mem.flat.bytes code) (
          bind_assoc (m68k_step m pc) (λ r. ok (r.0, shr32 r.1 1)) (λ r. mpd_loop tab.ent n r.0 r.1)
          ∙ bind_congr_after (λ r. Q r.0 × KeepsCode start n r.0 r.1) (m68k_step m pc) _ _
              (After-both (λ r. Q r.0) (λ r. KeepsCode start n r.0 r.1) (m68k_step m pc)
                (step-IsKept (Contained ram bits pages start) (λ env k. k.flat.bytes)
                  write_size-Contained m pc h)
                next)
              (λ r (k, keeps). loop-m68k_loop n r.0 r.1 k keeps))

all_held :
    (start : Env) (r : Outcome MpdTable)
    → ((b : ℕ) → Walk start 0 b → b < mpd_region_bytes → After r (Holds start b))
    → After r (λ t. (b : ℕ) → Walk start 0 b → b < mpd_region_bytes → Holds start b t)
all_held start (ok t) h = h
all_held start (fatal e) h = tt

-- In the environment that `mem_env_init` sets up, from registers of 32 bits and codes that are 0
-- or 1, and whatever earlier runs left in the table: if every round of the switch backend is at
-- an instruction of the code region that decoding from address zero comes to, that the decoder
-- knows and that memory still holds as at the start, and the last pc is even, then the
-- predecoded backend ends in the fault of its decoding loop, if that has one, and else as the
-- switch backend does, in the same state or with the same fault.
pub m68k_run_pd-m68k_run_switch :
    {ram bits pages : ℕ} (tab : MpdTable) (m : M68kMachine) (budget : ℕ)
    → IsFlat ram bits pages m.mem
    → IsCpu m.cpu
    → KeepsCode m.mem budget m m.cpu.pc
    → m68k_run_pd tab m budget
      ≡ (mpd_fill mpd_entries m.mem tab 0 >>= λ _. m68k_run_switch m budget)
unfolding m68k_run_pd m68k_run_switch
m68k_run_pd-m68k_run_switch {ram} {bits} {pages} tab m budget flat cpu keeps =
    bind_congr_after (λ t. (b : ℕ) → Walk m.mem 0 b → b < mpd_region_bytes → Holds m.mem b t)
      (mpd_fill mpd_entries m.mem tab 0) _ _
      (all_held m.mem (mpd_fill mpd_entries m.mem tab 0)
        λ b w inside. fill-Holds mpd_entries m.mem tab 0 b w inside (omega arith))
      (λ t filled.
        loop-m68k_loop m.mem t filled budget m m.cpu.pc
          (record { cpu = cpu; mem = Contained-refl flat }) keeps)

-- Under the same conditions the backend that elides condition codes ends in the fault of its
-- decoding loop, if that has one, and else as the switch backend does: with the same fault, or in
-- a state that is the same but for N, Z, V and C.
pub m68k_run_pd_elide-m68k_run_switch :
    {ram bits pages : ℕ} (tab : MpdTable) (m : M68kMachine) (budget : ℕ)
    → IsFlat ram bits pages m.mem
    → IsCpu m.cpu
    → KeepsCode m.mem budget m m.cpu.pc
    → BothEnd AgreeButNzvc
        (mpd_fill mpd_entries m.mem tab 0 >>= λ _. m68k_run_switch m budget)
        (m68k_run_pd_elide tab m budget)
m68k_run_pd_elide-m68k_run_switch tab m budget flat cpu keeps =
    rw (m68k_run_pd-m68k_run_switch tab m budget flat cpu keeps) at
      (run_pd_elide-run_pd tab m budget)
