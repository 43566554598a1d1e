-- ===== src/Harness/Ppc/Mem.antt =====
-- The run of the second kernel of ppc/bench_main.c.
use emu_core_bench.Base.{
  ℕ, suc, ◌+◌, ◌-◌, ◌*◌, ◌%◌, ◌^◌, ◌≤◌, ◌<◌, ◌≡◌, refl, ap, ◌∙◌, arith, some, get_elem?, true,
  false, Returns, sub32, add32, bit_and-le, bit_and_window_aligned, bit_or, xor, ◌==◌,
}
use emu_core_bench.Memory.{Env}
use emu_core_bench.Memory.Flat.{IsFlat}
use emu_core_bench.Memory.Contained.{Contained-refl}
use emu_core_bench.Ppc.State.{Machine}
use emu_core_bench.Ppc.Ops.{gen_addi, gen_logic_d, gen_xo_arith, gen_x_logic, record0, set_crf}
use emu_core_bench.Ppc.Transfer.{gen_bc, bc_taken, gen_mspr}
use emu_core_bench.Ppc.Lists.{find_primary, find_op31, primary_stmt, op31_stmt, do_op31}
use emu_core_bench.Ppc.Switch.{sw_case, sw_dispatch, ppc_run_switch}
use emu_core_bench.Ppc.Pdx.Round.{is_common}
use emu_core_bench.Harness.Ppc.Encode.{e_d, e_x, e_bc}
use emu_core_bench.Harness.Ppc.Kernels.{code_base}
use emu_core_bench.Harness.Ppc.Emission.{loop_code, kernel_code}
use emu_core_bench.Harness.Ppc.Setup.{setup_kernel}
use emu_core_bench.Harness.Ppc.Prepared.{
  setup_kernel-code, setup_kernel-Contained, setup_kernel-cpu,
}
use emu_core_bench.Harness.Ppc.Safe.{SafeStep, SafeRun, HoldsKernel, safe_at, safe_loop}
use emu_core_bench.Harness.Ppc.Windows.{
  Kept, Kept-refl, read-Kept, keep_pc-returns, load_x-returns, store_x-returns,
}

-- The places of the kernel.
data Place : Type 0 where
  rd_base wr_base zero3 zero4 hi7 lo7 to_ctr load add4 store byte xor4 step mask again : Place

abbrev index : Place → ℕ
index rd_base = 0
index wr_base = 1
index zero3 = 2
index zero4 = 3
index hi7 = 4
index lo7 = 5
index to_ctr = 6
index load = 7
index add4 = 8
index store = 9
index byte = 10
index xor4 = 11
index step = 12
index mask = 13
index again = 14

-- The kernel, assembled.
abbrev word : Place → ℕ
word rd_base = 0x3E80_0010
word wr_base = 0x3EA0_0018
word zero3 = 0x3860_0000
word zero4 = 0x3880_0000
word hi7 = 0x3CE0_7FFF
word lo7 = 0x60E7_FFFF
word to_ctr = 0x7CE9_03A6
word load = 0x7CD4_182E
word add4 = 0x7C84_3214
word store = 0x7C95_192E
word byte = 0x7D14_18AE
word xor4 = 0x7C84_4278
word step = 0x3863_0004
word mask = 0x7063_3FFC
word again = 0x4200_FFE4

word-held :
    (p : Place)
    → (get_elem? (kernel_code 1) (index p) ≡ some (word p))
      × (word p < 2 ^ 32)
      × (is_common (word p) ≡ true)
      × (index p < 15)
unfolding kernel_code loop_code e_d e_x e_bc
word-held rd_base = (refl, omega arith, refl, omega arith)
word-held wr_base = (refl, omega arith, refl, omega arith)
word-held zero3 = (refl, omega arith, refl, omega arith)
word-held zero4 = (refl, omega arith, refl, omega arith)
word-held hi7 = (refl, omega arith, refl, omega arith)
word-held lo7 = (refl, omega arith, refl, omega arith)
word-held to_ctr = (refl, omega arith, refl, omega arith)
word-held load = (refl, omega arith, refl, omega arith)
word-held add4 = (refl, omega arith, refl, omega arith)
word-held store = (refl, omega arith, refl, omega arith)
word-held byte = (refl, omega arith, refl, omega arith)
word-held xor4 = (refl, omega arith, refl, omega arith)
word-held step = (refl, omega arith, refl, omega arith)
word-held mask = (refl, omega arith, refl, omega arith)
word-held again = (refl, omega arith, refl, omega arith)

-- A round of the loop takes eight steps and counts CTR down: the steps left, from a place with
-- `lead` steps before the branch.
abbrev Counts : ℕ → ℕ → Machine → Type 0
Counts lead n m = (1 ≤ m.cpu.ctr) × (m.cpu.ctr < 2 ^ 32) × (n ≤ lead + 8 * (m.cpu.ctr - 1))

-- The bases of the windows, and the index into them.
abbrev Bases : Machine → Type 0
Bases m = (m.cpu.gpr 20 ≡ 0x10_0000) × (m.cpu.gpr 21 ≡ 0x18_0000)

abbrev Index : Machine → Type 0
Index m = (m.cpu.gpr 3 < 0x4000) × (m.cpu.gpr 3 % 4 ≡ 0)

-- The registers and the steps left at a place.
abbrev At : Place → ℕ → Machine → Type 0
At rd_base n m = n < 2 ^ 32
At wr_base n m = (n < 2 ^ 32) × (m.cpu.gpr 20 ≡ 0x10_0000)
At zero3 n m = (n < 2 ^ 32) × Bases m
At lo7 n m = (n < 2 ^ 32) × Bases m × Index m × (m.cpu.gpr 7 ≡ 0x7FFF_0000)
At to_ctr n m = (n < 2 ^ 32) × Bases m × Index m × (m.cpu.gpr 7 ≡ 0x7FFF_FFFF)
At load n m = Counts 7 n m × Bases m × Index m
At add4 n m = Counts 6 n m × Bases m × Index m
At store n m = Counts 5 n m × Bases m × Index m
At byte n m = Counts 4 n m × Bases m × Index m
At xor4 n m = Counts 3 n m × Bases m × Index m
At step n m = Counts 2 n m × Bases m × Index m
At mask n m = Counts 1 n m × Bases m
At again n m = Counts 0 n m × Bases m × Index m
At _ n m = (n < 2 ^ 32) × Bases m × Index m

module _ (ram pages : ℕ) (start : Env) where
  abbrev Inv : ℕ → Machine → ℕ → Type 0
  Inv n m pc =
      Kept ram pages start m.mem × ((p : Place) × (pc ≡ code_base + 4 * index p) × At p n m)

  module _ (n : ℕ) (m : Machine) (kept : Kept ram pages start m.mem) where
    -- What the word at a place does.
    abbrev Next : Place → Type 0
    Next p = Returns (sw_dispatch m (word p) (code_base + 4 * index p + 4)) (λ r. Inv n r.0 r.1)

    again_next : At again (suc n) m → Next again
    unfolding sw_dispatch sw_case find_primary primary_stmt gen_bc bc_taken xor
    again_next (count, bases, at) =
        let e : (sub32 m.cpu.ctr 1 == 0) ≡ false = ground (arith, count.0, count.1, count.2) in
        rw e (kept, (load, refl, (omega (arith, count.0, count.1, count.2), bases, at)))

    load_next : At load (suc n) m → Next load
    unfolding sw_dispatch sw_case find_primary primary_stmt find_op31 do_op31 op31_stmt
    load_next (c, b, i) =
        let ea : add32 (m.cpu.gpr 20) (m.cpu.gpr 3) % 4 ≡ 0 = omega (arith, b.0, i.1) in
        keep_pc-returns (λ r. Inv n r.0 r.1) _ _
          (load_x-returns (λ m'. Inv n m' _) m kept (word load) 4 ea
            (λ v. (kept, (add4, refl, ((c.0, c.1, omega (arith, c.2)), b, i)))))

    byte_next : At byte (suc n) m → Next byte
    unfolding sw_dispatch sw_case find_primary primary_stmt find_op31 do_op31 op31_stmt
    byte_next (c, b, i) =
        let ea : add32 (m.cpu.gpr 20) (m.cpu.gpr 3) % 4 ≡ 0 = omega (arith, b.0, i.1) in
        keep_pc-returns (λ r. Inv n r.0 r.1) _ _
          (load_x-returns (λ m'. Inv n m' _) m kept (word byte) 1 ea
            (λ v. (kept, (xor4, refl, ((c.0, c.1, omega (arith, c.2)), b, i)))))

    store_next : At store (suc n) m → Next store
    unfolding sw_dispatch sw_case find_primary primary_stmt find_op31 do_op31 op31_stmt
    store_next (c, b, i) =
        let ea : add32 (m.cpu.gpr 21) (m.cpu.gpr 3) ≡ 0x18_0000 + m.cpu.gpr 3 =
          omega (arith, b.1, i.0) in
        keep_pc-returns (λ r. Inv n r.0 r.1) _ _
          (store_x-returns (λ m'. Inv n m' _) m kept (word store) 4 (omega (arith, ea, i.1))
            (omega (arith, ea)) (omega (arith, ea, i.0))
            (λ mem k. (k, (byte, refl, ((c.0, c.1, omega (arith, c.2)), b, i)))))

    mask_next : At mask (suc n) m → Next mask
    unfolding sw_dispatch sw_case find_primary primary_stmt gen_logic_d record0 set_crf
    mask_next (c, b) =
        let small = bit_and-le (m.cpu.gpr 3) 0x3FFC in
        let aligned = bit_and_window_aligned (m.cpu.gpr 3) in
        (kept, (again, refl, ((c.0, c.1, omega (arith, c.2)), b, (omega (arith, small), aligned))))

    place_next : (p : Place) → At p (suc n) m → Next p
    unfolding sw_dispatch sw_case find_primary primary_stmt find_op31 do_op31 op31_stmt gen_addi
        gen_logic_d gen_xo_arith gen_x_logic gen_mspr record0 set_crf
    place_next rd_base h = (kept, (wr_base, refl, (omega (arith, h), refl)))
    place_next wr_base h = (kept, (zero3, refl, (omega (arith, h.0), (h.1, refl))))
    place_next zero3 h = (kept, (zero4, refl, (omega (arith, h.0), h.1, (omega arith, refl))))
    place_next zero4 h = (kept, (hi7, refl, (omega (arith, h.0), h.1, h.2)))
    place_next hi7 h = (kept, (lo7, refl, (omega (arith, h.0), h.1, h.2, refl)))
    place_next lo7 h =
        (kept, (to_ctr, refl, (omega (arith, h.0), h.1, h.2, ap (λ v. bit_or v 0xFFFF) h.3)))
    place_next to_ctr h = (kept, (load, refl, (omega (arith, h.0, h.3), h.1, h.2)))
    place_next load h = load_next h
    place_next add4 (c, b, i) = (kept, (store, refl, ((c.0, c.1, omega (arith, c.2)), b, i)))
    place_next store h = store_next h
    place_next byte h = byte_next h
    place_next xor4 (c, b, i) = (kept, (step, refl, ((c.0, c.1, omega (arith, c.2)), b, i)))
    place_next step (c, b, i) = (kept, (mask, refl, ((c.0, c.1, omega (arith, c.2)), b)))
    place_next mask h = mask_next h
    place_next again h = again_next h

  -- A step from a place of the kernel is safe, and leads to a place.
  place_step :
      IsFlat ram 23 pages start
      → HoldsKernel start 1
      → (n : ℕ) (m : Machine) (pc : ℕ) → Inv (suc n) m pc
      → SafeStep start m pc (Inv n)
  place_step flat held n m pc (kept, (p, at, h)) =
      let (there, small, common, short) = word-held p in
      let read = held (index p) (word p) there small in
      let read' =
        read-Kept kept flat (code_base + 4 * index p) (omega arith) (omega (arith, short)) in
      rw at (
        safe_at start m (index p) (word p) (Inv n) (omega (arith, short)) read (read' ∙ read) common
          (place_next n m kept p h))

module _ {ram pages : ℕ} {env : Env} (flat : IsFlat ram 23 pages env) where
  -- From the second kernel set up in a memory that `mem_env_init` set up, for every budget of 32
  -- bits, the switch backend returns and keeps to the kernel's code.
  pub mem_run : (budget : ℕ) → budget < 2 ^ 32 → SafeRun (setup_kernel ram 1 env) budget
  unfolding ppc_run_switch
  mem_run budget h =
      let s = setup_kernel ram 1 env in
      let held = setup_kernel-code (Contained-refl flat) 1 in
      let flat' = (setup_kernel-Contained (Contained-refl flat) 1).flat in
      safe_loop s.mem (Inv ram pages s.mem) (place_step ram pages s.mem flat' held) budget s
        s.cpu.pc (Kept-refl flat', (rd_base, ap (λ c. c.pc) (setup_kernel-cpu ram 1 env), h))
