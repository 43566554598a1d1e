-- ===== src/Harness/Ppc/Alu.antt =====
-- The run of the first kernel of ppc/bench_main.c.
use emu_core_bench.Base.{
  ℕ, suc, ◌+◌, ◌-◌, ◌*◌, ◌^◌, ◌≤◌, ◌<◌, ◌≡◌, refl, ap, arith, some, get_elem?, true, false, Returns,
  sub32, bit_or, xor, Bool-cases, inl, inr, ◌==◌,
}
use emu_core_bench.Memory.{Env}
use emu_core_bench.Memory.Flat.{IsFlat}
use emu_core_bench.Memory.Contained.{Contained-refl}
use emu_core_bench.Ppc.State.{Machine}
use emu_core_bench.Ppc.Ops.{
  gen_addi, gen_mulli, gen_logic_d, gen_xo_arith, gen_x_logic, gen_rlwinm, record0, set_crf,
}
use emu_core_bench.Ppc.Transfer.{gen_bc, bc_taken, gen_mspr}
use emu_core_bench.Ppc.Lists.{find_primary, find_op31, primary_stmt, op31_stmt, do_op31}
use emu_core_bench.Ppc.Switch.{sw_case, sw_dispatch, ppc_run_switch}
use emu_core_bench.Ppc.Pdx.Round.{is_common}
use emu_core_bench.Harness.Ppc.Encode.{e_d, e_x, e_rlwinm, e_bc}
use emu_core_bench.Harness.Ppc.Kernels.{code_base}
use emu_core_bench.Harness.Ppc.Emission.{loop_code, kernel_code}
use emu_core_bench.Harness.Ppc.Setup.{setup_kernel}
use emu_core_bench.Harness.Ppc.Prepared.{setup_kernel-code, setup_kernel-cpu}
use emu_core_bench.Harness.Ppc.Safe.{SafeStep, SafeRun, HoldsKernel, safe_at, safe_loop}

-- The places of the kernel.
data Place : Type 0 where
  hi4 lo4 zero5 hi7 lo7 to_ctr add5 rot8 xor8 step4 sum9 skip sub5 mul10 xor10 again : Place

abbrev index : Place → ℕ
index hi4 = 0
index lo4 = 1
index zero5 = 2
index hi7 = 3
index lo7 = 4
index to_ctr = 5
index add5 = 6
index rot8 = 7
index xor8 = 8
index step4 = 9
index sum9 = 10
index skip = 11
index sub5 = 12
index mul10 = 13
index xor10 = 14
index again = 15

-- The kernel, assembled.
abbrev word : Place → ℕ
word hi4 = 0x3C80_1234
word lo4 = 0x6084_5678
word zero5 = 0x38A0_0000
word hi7 = 0x3CE0_7FFF
word lo7 = 0x60E7_FFFF
word to_ctr = 0x7CE9_03A6
word add5 = 0x7CA5_2214
word rot8 = 0x54A8_383E
word xor8 = 0x7CA5_4278
word step4 = 0x3884_0003
word sum9 = 0x7D25_2215
word skip = 0x4180_0008
word sub5 = 0x7CA4_2850
word mul10 = 0x1D44_000D
word xor10 = 0x7CA5_5278
word again = 0x4200_FFDC

word-held :
    (p : Place)
    → (get_elem? (kernel_code 0) (index p) ≡ some (word p))
      × (word p < 2 ^ 32)
      × (is_common (word p) ≡ true)
      × (index p < 16)
unfolding kernel_code loop_code e_d e_x e_rlwinm e_bc
word-held hi4 = (refl, omega arith, refl, omega arith)
word-held lo4 = (refl, omega arith, refl, omega arith)
word-held zero5 = (refl, omega arith, refl, omega arith)
word-held hi7 = (refl, omega arith, refl, omega arith)
word-held lo7 = (refl, omega arith, refl, omega arith)
word-held to_ctr = (refl, omega arith, refl, omega arith)
word-held add5 = (refl, omega arith, refl, omega arith)
word-held rot8 = (refl, omega arith, refl, omega arith)
word-held xor8 = (refl, omega arith, refl, omega arith)
word-held step4 = (refl, omega arith, refl, omega arith)
word-held sum9 = (refl, omega arith, refl, omega arith)
word-held skip = (refl, omega arith, refl, omega arith)
word-held sub5 = (refl, omega arith, refl, omega arith)
word-held mul10 = (refl, omega arith, refl, omega arith)
word-held xor10 = (refl, omega arith, refl, omega arith)
word-held again = (refl, omega arith, refl, omega arith)

-- The loop takes at least nine steps, the last one its branch, and counts CTR down: the steps
-- left, from a place with `lead` steps before the branch.
abbrev Counts : ℕ → ℕ → Machine → Type 0
Counts lead n m = (1 ≤ m.cpu.ctr) × (m.cpu.ctr < 2 ^ 32) × (n ≤ lead + 9 * (m.cpu.ctr - 1))

-- The registers and the steps left at a place.
abbrev At : Place → ℕ → Machine → Type 0
At lo7 n m = (n < 2 ^ 32) × (m.cpu.gpr 7 ≡ 0x7FFF_0000)
At to_ctr n m = (n < 2 ^ 32) × (m.cpu.gpr 7 ≡ 0x7FFF_FFFF)
At add5 n m = Counts 8 n m
At rot8 n m = Counts 7 n m
At xor8 n m = Counts 6 n m
At step4 n m = Counts 5 n m
At sum9 n m = Counts 4 n m
At skip n m = Counts 3 n m
At sub5 n m = Counts 3 n m
At mul10 n m = Counts 2 n m
At xor10 n m = Counts 1 n m
At again n m = Counts 0 n m
At _ n m = n < 2 ^ 32

abbrev Inv : Env → ℕ → Machine → ℕ → Type 0
Inv start n m pc = (m.mem ≡ start) × ((p : Place) × (pc ≡ code_base + 4 * index p) × At p n m)

module _ (start : Env) (n : ℕ) (m : Machine) (same : m.mem ≡ start) where
  -- What the word at a place does.
  abbrev Next : Place → Type 0
  Next p = Returns (sw_dispatch m (word p) (code_base + 4 * index p + 4)) (λ r. Inv start n r.0 r.1)

  skip_next : Counts 3 (suc n) m → Next skip
  unfolding sw_dispatch sw_case find_primary primary_stmt gen_bc bc_taken
  skip_next h = elim (Bool-cases (bc_taken m.cpu (word skip) true).1) [
    | inl e ↦ rw e (same, (mul10, refl, (h.0, h.1, omega (arith, h.2))))
    | inr e ↦ rw e (same, (sub5, refl, (h.0, h.1, omega (arith, h.2))))
  ]

  again_next : Counts 0 (suc n) m → Next again
  unfolding sw_dispatch sw_case find_primary primary_stmt gen_bc bc_taken xor
  again_next h =
      let e : (sub32 m.cpu.ctr 1 == 0) ≡ false = ground (arith, h.0, h.1, h.2) in
      rw e (same, (add5, refl, omega (arith, h.0, h.1, h.2)))

  place_next : (p : Place) → At p (suc n) m → Next p
  unfolding sw_dispatch sw_case find_primary primary_stmt find_op31 do_op31 op31_stmt gen_addi
      gen_mulli gen_logic_d gen_xo_arith gen_x_logic gen_rlwinm gen_mspr record0 set_crf
  place_next skip h = skip_next h
  place_next again h = again_next h
  place_next lo7 h = (same, (to_ctr, refl, (omega (arith, h.0), ap (λ v. bit_or v 0xFFFF) h.1)))
  place_next to_ctr h = (same, (add5, refl, omega (arith, h.0, h.1)))
  place_next hi7 h = (same, (lo7, refl, (omega (arith, h), refl)))
  place_next hi4 h = (same, (lo4, refl, omega (arith, h)))
  place_next lo4 h = (same, (zero5, refl, omega (arith, h)))
  place_next zero5 h = (same, (hi7, refl, omega (arith, h)))
  place_next add5 h = (same, (rot8, refl, (h.0, h.1, omega (arith, h.2))))
  place_next rot8 h = (same, (xor8, refl, (h.0, h.1, omega (arith, h.2))))
  place_next xor8 h = (same, (step4, refl, (h.0, h.1, omega (arith, h.2))))
  place_next step4 h = (same, (sum9, refl, (h.0, h.1, omega (arith, h.2))))
  place_next sum9 h = (same, (skip, refl, (h.0, h.1, omega (arith, h.2))))
  place_next sub5 h = (same, (mul10, refl, (h.0, h.1, omega (arith, h.2))))
  place_next mul10 h = (same, (xor10, refl, (h.0, h.1, omega (arith, h.2))))
  place_next xor10 h = (same, (again, refl, (h.0, h.1, omega (arith, h.2))))

-- A step from a place of the kernel is safe, and leads to a place.
place_step :
    (start : Env)
    → HoldsKernel start 0
    → (n : ℕ) (m : Machine) (pc : ℕ) → Inv start (suc n) m pc
    → SafeStep start m pc (Inv start n)
place_step start held n m pc (same, (p, at, h)) =
    let (there, small, common, short) = word-held p in
    let read = held (index p) (word p) there small in
    rw at (
      safe_at start m (index p) (word p) (Inv start n) (omega (arith, short)) read (rw same read)
        common (place_next start n m same p h))

module _ {ram pages : ℕ} {env : Env} (flat : IsFlat ram 23 pages env) where
  -- From the first kernel set up in a memory that `mem_env_init` set up, for every budget of 32
  -- bits, the switch backend returns and keeps to the kernel's code.
  pub alu_run : (budget : ℕ) → budget < 2 ^ 32 → SafeRun (setup_kernel ram 0 env) budget
  unfolding ppc_run_switch
  alu_run budget h =
      let s = setup_kernel ram 0 env in
      let held = setup_kernel-code (Contained-refl flat) 0 in
      safe_loop s.mem (Inv s.mem) (place_step s.mem held) budget s s.cpu.pc
        (refl, (hi4, ap (λ c. c.pc) (setup_kernel-cpu ram 0 env), h))
