-- ===== src/Ppc/Pdx/Fields.antt =====
-- The operands that ppc/ppc_pdx_impl.h extracts against the field extractors of ppc/ppc_ops.h.
use emu_core_bench.Base.{
  ℕ, Bool-cases, inl, inr, ◌+◌, ◌-◌, ◌*◌, ◌/◌, ◌%◌, ◌<◌, ◌≤◌, ◌≡◌, arith, bit_and, bit_and-le, ◌==◌,
  u8, sext16, add32, sub32, shl32, shr32,
}
use emu_core_bench.Ppc.State.{Ppc, set_gpr}
use emu_core_bench.Ppc.Ops.{p_rd, p_ra, p_rb, base_or_zero}
use emu_core_bench.Ppc.Pdx.Format.{gpro, set_gpro, ro}
use emu_core_bench.Ppc.Pdx.Decode.{base_off, cr_shift}
use emu_core_bench.Ppc.Pdx.Exec.{rebuilt_pc}

gpro-ro : (c : Ppc) (r : ℕ) → r ≤ 31 → gpro c (ro r) ≡ c.gpr r
unfolding gpro
gpro-ro c r h = let e : ro r / 4 ≡ r = omega arith in ground (arith, e)

set_gpro-ro : (c : Ppc) (r v : ℕ) → r ≤ 31 → set_gpro c (ro r) v ≡ set_gpr c r v
unfolding set_gpro
set_gpro-ro c r v h = let e : ro r / 4 ≡ r = omega arith in ground (arith, e)

module _ (insn : ℕ) where
  pub gpro-rd : (c : Ppc) → gpro c (ro (p_rd insn)) ≡ c.gpr (p_rd insn)
  gpro-rd c = gpro-ro c _ (bit_and-le _ 31)

  pub gpro-ra : (c : Ppc) → gpro c (ro (p_ra insn)) ≡ c.gpr (p_ra insn)
  gpro-ra c = gpro-ro c _ (bit_and-le _ 31)

  pub gpro-rb : (c : Ppc) → gpro c (ro (p_rb insn)) ≡ c.gpr (p_rb insn)
  gpro-rb c = gpro-ro c _ (bit_and-le _ 31)

  pub set_gpro-rd : (c : Ppc) (v : ℕ) → set_gpro c (ro (p_rd insn)) v ≡ set_gpr c (p_rd insn) v
  set_gpro-rd c v = set_gpro-ro c _ v (bit_and-le _ 31)

  pub set_gpro-ra : (c : Ppc) (v : ℕ) → set_gpro c (ro (p_ra insn)) v ≡ set_gpr c (p_ra insn) v
  set_gpro-ra c v = set_gpro-ro c _ v (bit_and-le _ 31)

  -- The always-zero slot stands for the base register of the `ra = 0` forms.
  pub gpro-base_off :
      (c : Ppc) → c.zero_base ≡ 0 → gpro c (base_off (p_ra insn)) ≡ base_or_zero c (p_ra insn)
  unfolding gpro
  gpro-base_off c z = elim (Bool-cases (p_ra insn == 0)) [
    | inl e ↦ rw e z
    | inr e ↦ rw e (gpro-ra c)
  ]

  pub cr_shift_lem : cr_shift insn ≡ 28 - 4 * bit_and (shr32 insn 23) 7
  cr_shift_lem = omega arith

  -- An immediate added to no base register is the immediate.
  pub li_simm : add32 0 (sext16 insn) ≡ sext16 insn
  li_simm = ground arith

  pub lis_simm : add32 0 (shl32 (sext16 insn) 16) ≡ shl32 (sext16 insn) 16
  lis_simm = omega arith

  pub u8-rb : u8 (p_rb insn) ≡ p_rb insn
  u8-rb = omega (arith, bit_and-le (shr32 insn 11) 31)

  pub u8-bi : u8 (31 - p_ra insn) ≡ 31 - p_ra insn
  u8-bi = omega arith

-- The entry pointer at an aligned address of the region.
module _ (addr : ℕ) (inside : addr < 0x4_0000) (aligned : addr % 4 ≡ 0) where
  pub next_cur : shr32 (add32 addr 4) 2 ≡ shr32 addr 2 + 1
  next_cur = omega arith

  pub rebuilt_pc_lem : rebuilt_pc (shr32 addr 2) ≡ add32 addr 4
  rebuilt_pc_lem = omega arith

  pub cia_lem : sub32 (add32 addr 4) 4 ≡ addr
  cia_lem = omega arith
