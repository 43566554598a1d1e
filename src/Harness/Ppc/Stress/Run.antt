-- ===== src/Harness/Ppc/Stress/Run.antt =====
-- The run of the third kernel of ppc/bench_main.c.
use emu_core_bench.Base.{
  ℕ, suc, ◌+◌, ◌*◌, ◌^◌, ◌≤◌, ◌<◌, ◌≡◌, refl, ap, ◌∙◌, arith, inl, inr, some, get_elem?, true, ◌==◌,
  Returns,
}
use native.Mathlib.Decide.{dec_lt}
use emu_core_bench.Memory.{Env}
use emu_core_bench.Memory.Flat.{IsFlat}
use emu_core_bench.Memory.Contained.{Contained-refl}
use emu_core_bench.Ppc.State.{Ppc, Machine}
use emu_core_bench.Ppc.Ops.{gen_addi, gen_logic_d}
use emu_core_bench.Ppc.Transfer.{gen_b}
use emu_core_bench.Ppc.Lists.{Primary, find_primary, primary_stmt}
use emu_core_bench.Ppc.Switch.{sw_case, sw_dispatch, ppc_run_switch}
use emu_core_bench.Ppc.Pdx.Round.{is_common}
use emu_core_bench.Harness.Ppc.Encode.{e_d, e_addis}
use emu_core_bench.Harness.Ppc.Kernels.{code_base, stress_insn}
use emu_core_bench.Harness.Ppc.Emission.{kernel_code}
use emu_core_bench.Harness.Ppc.Setup.{setup_kernel}
use emu_core_bench.Harness.Ppc.Prepared.{
  setup_kernel-code, setup_kernel-Contained, setup_kernel-cpu,
}
use emu_core_bench.Harness.Ppc.Safe.{SafeStep, SafeRun, HoldsKernel, safe_at, safe_loop}
use emu_core_bench.Harness.Ppc.Windows.{Kept, Kept-refl, read-Kept}
use emu_core_bench.Harness.Ppc.Stress.Forms.{Bases, d_form}
use emu_core_bench.Harness.Ppc.Stress.Step.{Returns-weaken, stress_insn-GoesOn}
use emu_core_bench.Harness.Ppc.Stress.Words.{
  IsSeed, high, low, IsSeed-word, base_words, stream_word, last_word,
}

-- The places of the kernel: the seeds, the two bases, the stream, and the branch back.
data Place : Type 0 where
  seed : (i : ℕ) → i < 20 → Place
  base20 base21 back : Place
  stream : (j : ℕ) → j < 16384 → Place

abbrev index : Place → ℕ
index (seed i lt) = i
index base20 = 20
index base21 = 21
index (stream j lt) = 22 + j
index back = 16406

-- The registers that the kernel relies on, at a place.
abbrev At : Place → Ppc → Type 0
At (seed i lt) c = Unit
At base20 c = Unit
At base21 c = c.gpr 20 ≡ 0x10_0000
At (stream j lt) c = Bases c
At back c = Bases c

module _ (ram pages : ℕ) (start : Env) where
  abbrev Inv : ℕ → Machine → ℕ → Type 0
  Inv n m pc =
      Kept ram pages start m.mem × ((p : Place) × (pc ≡ code_base + 4 * index p) × At p m.cpu)

  -- From the start of the stream on, and in the seeds.
  in_stream :
      (n : ℕ) (m : Machine) (j pc : ℕ)
      → j ≤ 16384
      → pc ≡ code_base + 4 * (22 + j)
      → Kept ram pages start m.mem
      → Bases m.cpu
      → Inv n m pc
  in_stream n m j pc le at kept bases = elim (dec_lt j 16384) [
    | yes lt ↦ (kept, (stream j lt, at, bases))
    | no ge ↦ (kept, (back, omega (arith, le, ge, at), bases))
  ]

  in_seeds :
      (n : ℕ) (m : Machine) (i pc : ℕ)
      → i ≤ 20
      → pc ≡ code_base + 4 * i
      → Kept ram pages start m.mem
      → Inv n m pc
  in_seeds n m i pc le at kept = elim (dec_lt i 20) [
    | yes lt ↦ (kept, (seed i lt, at, tt))
    | no ge ↦ (kept, (base20, omega (arith, le, ge, at), tt))
  ]

  -- A word of the kernel at a machine: what its step leaves.
  abbrev Ready : ℕ → Machine → ℕ → ℕ → Type 0
  Ready n m i w =
      (w < 2 ^ 32)
      × (is_common w ≡ true)
      × Returns (sw_dispatch m w (code_base + 4 * i + 4)) (λ r. Inv n r.0 r.1)

  seed-Ready :
      (n : ℕ) (m : Machine) (i w : ℕ)
      → i < 20
      → Kept ram pages start m.mem
      → IsSeed w
      → Ready n m i w
  unfolding primary_stmt gen_addi gen_logic_d find_primary
  seed-Ready n m i w lt kept (high r imm h) =
      d_form ram pages start m (code_base + 4 * i + 4) (λ r. Inv n r.0 r.1) Primary.addis 15 r 0 imm
        (omega arith) (omega arith) (omega arith) refl refl
        (in_seeds n _ (suc i) _ (omega arith) (omega arith) kept)
  seed-Ready n m i w lt kept (low r imm h) =
      d_form ram pages start m (code_base + 4 * i + 4) (λ r. Inv n r.0 r.1) Primary.ori 24 r r imm
        (omega arith) (omega arith) (omega arith) refl refl
        (in_seeds n _ (suc i) _ (omega arith) (omega arith) kept)

  base20-Ready :
      (n : ℕ) (m : Machine) → Kept ram pages start m.mem → Ready n m 20 (e_addis 20 0 0x10)
  unfolding sw_dispatch sw_case primary_stmt gen_addi find_primary e_d
  base20-Ready n m kept = (omega arith, refl, (kept, (base21, refl, refl)))

  base21-Ready :
      (n : ℕ) (m : Machine)
      → Kept ram pages start m.mem
      → m.cpu.gpr 20 ≡ 0x10_0000
      → Ready n m 21 (e_addis 21 0 0x18)
  unfolding sw_dispatch sw_case primary_stmt gen_addi find_primary e_d
  base21-Ready n m kept h =
      (omega arith, refl, in_stream n _ 0 _ (omega arith) (omega arith) kept (h, refl))

  back-Ready :
      (n : ℕ) (m : Machine) → Kept ram pages start m.mem → Bases m.cpu → Ready n m 16406 0x4BFF_0000
  unfolding sw_dispatch sw_case primary_stmt gen_b find_primary
  back-Ready n m kept bases = (omega arith, refl, in_stream n _ 0 _ (omega arith) refl kept bases)

  stream-Ready :
      (n : ℕ) (m : Machine) (j r : ℕ)
      → j < 16384
      → Kept ram pages start m.mem
      → Bases m.cpu
      → Ready n m (22 + j) (stress_insn r (16384 == suc j))
  stream-Ready n m j r lt kept bases =
      let pc = code_base + 4 * (22 + j) + 4 in
      let last = 16384 == suc j in
      let on =
        stress_insn-GoesOn ram pages start m pc last kept bases (omega arith) (omega arith) r in
      (
        on.small,
        on.common,
        Returns-weaken _ (λ s. Inv n s.0 s.1) (sw_dispatch m (stress_insn r last) pc) on.next
            λ s (k, b, ahead). elim ahead [
              | inl e ↦ in_stream n s.0 (suc j) s.1 (omega arith) (omega (arith, e)) k b
              | inr (inner, e) ↦
                  let short : suc j < 16384 = ground (arith, inner) in
                  in_stream n s.0 (suc (suc j)) s.1 short (omega (arith, e)) k b
            ],
      )

  -- The word at a place, and what its step leaves.
  place-Ready :
      (n : ℕ) (m : Machine) (p : Place)
      → Kept ram pages start m.mem
      → At p m.cpu
      → (w : ℕ) × (get_elem? (kernel_code 2) (index p) ≡ some w) × Ready n m (index p) w
  place-Ready n m (seed i lt) kept h =
      let (w, at, s) = IsSeed-word i lt in (w, at, seed-Ready n m i w lt kept s)
  place-Ready n m base20 kept h = (_, base_words.0, base20-Ready n m kept)
  place-Ready n m base21 kept h = (_, base_words.1, base21-Ready n m kept h)
  place-Ready n m (stream j lt) kept h =
      let (r, at) = stream_word j lt in (_, at, stream-Ready n m j r lt kept h)
  place-Ready n m back kept h = (_, last_word, back-Ready n m kept h)

  index-lt : (p : Place) → index p < 0x4000 + 23
  index-lt (seed i lt) = omega (arith, lt)
  index-lt base20 = omega arith
  index-lt base21 = omega arith
  index-lt (stream j lt) = omega (arith, lt)
  index-lt back = omega arith

  -- A step from a place of the kernel is safe, and leads to a place.
  place_step :
      IsFlat ram 23 pages start
      → HoldsKernel start 2
      → (n : ℕ) (m : Machine) (pc : ℕ) → Inv (suc n) m pc
      → SafeStep start m pc (Inv n)
  place_step flat held n m pc (kept, (p, at, h)) =
      let (w, there, (small, common, next)) = place-Ready n m p kept h in
      let read = held (index p) w there small in
      let read' =
        read-Kept kept flat (code_base + 4 * index p) (omega arith) (omega (arith, index-lt p)) in
      rw at (
        safe_at start m (index p) w (Inv n) (omega (arith, index-lt p)) read (read' ∙ read) common
          next)

module _ {ram pages : ℕ} {env : Env} (flat : IsFlat ram 23 pages env) where
  -- From the third kernel set up in a memory that `mem_env_init` set up, for every budget, the
  -- switch backend returns and keeps to the kernel's code.
  pub stress_run : (budget : ℕ) → SafeRun (setup_kernel ram 2 env) budget
  unfolding ppc_run_switch
  stress_run budget =
      let s = setup_kernel ram 2 env in
      let held = setup_kernel-code (Contained-refl flat) 2 in
      let flat' = (setup_kernel-Contained (Contained-refl flat) 2).flat in
      let at = ap (λ c. c.pc) (setup_kernel-cpu ram 2 env) in
      safe_loop s.mem (Inv ram pages s.mem) (place_step ram pages s.mem flat' held) budget s
        s.cpu.pc (in_seeds ram pages s.mem budget s 0 s.cpu.pc (omega arith) at (Kept-refl flat'))
