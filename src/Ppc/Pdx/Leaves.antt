-- ===== src/Ppc/Pdx/Leaves.antt =====
-- The entries that ppc/ppc_pdx_impl.h makes of opcode 31, against `do_op31` of ppc/ppc_ops.h.
use emu_core_bench.Base.{
  ℕ, ◌+◌, ◌-◌, ◌*◌, ◌/◌, ◌%◌, ◌^◌, ◌<◌, ◌≤◌, ◌≡◌, ◌≢◌, refl, arith, Bool, true, false, bit_and,
  Bool-cases, inl, inr, ◌==◌, if◌then◌else◌, u8, add32, sub32, shl32, shr32, Outcome, ok, fatal,
  ◌>>=◌, bind_assoc,
}
use emu_core_bench.Ppc.State.{Machine, set_gpr}
use emu_core_bench.Ppc.Ops.{p_rd, set_crf, gen_xo_arith, gen_x_logic, gen_srawi, gen_cmp}
use emu_core_bench.Ppc.Transfer.{
  read_width, write_width, gen_load_x, gen_store_x, gen_mspr, spr_field,
}
use emu_core_bench.Ppc.Lists.{Op31, op31_key, op31_stmt}
use emu_core_bench.Ppc.Pdx.Format.{PdxId, ro}
use emu_core_bench.Ppc.Pdx.Decode.{decode31, set_ent, spr_ent}
use emu_core_bench.Ppc.Pdx.Exec.{exec_id, pdx_exec}
use emu_core_bench.Ppc.Pdx.Fields.{
  gpro-rd, gpro-ra, gpro-rb, set_gpro-rd, set_gpro-ra, gpro-base_off, cr_shift_lem, u8-rb, u8-bi,
  next_cur, rebuilt_pc_lem, cia_lem,
}

pub ruleset fields = (
  gpro-rd, gpro-ra, gpro-rb, set_gpro-rd, set_gpro-ra, gpro-base_off, cr_shift_lem, u8-rb,
  bind_assoc,
)

module _ (m : Machine) (insn addr : ℕ) (inside : addr < 0x4_0000) (aligned : addr % 4 ≡ 0)
    (zero : m.cpu.zero_base ≡ 0) where
  next : shr32 (add32 addr 4) 2 ≡ shr32 addr 2 + 1
  next = next_cur addr inside aligned

  -- A move of a special register: LR, CTR, or a number that is neither.
  exec-spr :
      (wide : Bool) (lr ctr : PdxId) (to_spr : Bool)
      → exec_id lr wide (set_ent lr (ro (p_rd insn)) 0 insn) m (shr32 addr 2)
        ≡ ok (
          record m {
            cpu =
                if to_spr
                then record m.cpu { lr = m.cpu.gpr (p_rd insn) }
                else set_gpr m.cpu (p_rd insn) m.cpu.lr;
          },
          shr32 addr 2 + 1,
        )
      → exec_id ctr wide (set_ent ctr (ro (p_rd insn)) 0 insn) m (shr32 addr 2)
        ≡ ok (
          record m {
            cpu =
                if to_spr
                then record m.cpu { ctr = m.cpu.gpr (p_rd insn) }
                else set_gpr m.cpu (p_rd insn) m.cpu.ctr;
          },
          shr32 addr 2 + 1,
        )
      → pdx_exec wide (spr_ent insn lr ctr) m (shr32 addr 2)
        ≡ (gen_mspr m.cpu insn to_spr >>= λ c. ok (record m { cpu = c }, shr32 (add32 addr 4) 2))
  unfolding pdx_exec gen_mspr
  exec-spr wide lr ctr to_spr h₈ h₉ = elim (Bool-cases (spr_field insn == 8)) [
    | inl e ↦ rw (e, next) h₈
    | inr e ↦ elim (Bool-cases (spr_field insn == 9)) [
      | inl e' ↦ rw (e, e', next) h₉
      | inr e' ↦ unfold exec_id in rw (e, e')
    ]
  ]

  -- Each leaf of opcode 31 does what its entry does.
  pub exec31 :
      (wide : Bool) (op : Op31)
      → pdx_exec wide (decode31 (op31_key op) insn) m (shr32 addr 2)
        ≡ (op31_stmt op m insn >>= λ m'. ok (m', shr32 (add32 addr 4) 2))
  unfolding pdx_exec exec_id decode31 op31_stmt
  exec31 wide Op31.cmpw = unfold gen_cmp set_crf in simp (fields, next)
  exec31 wide Op31.cmplw = unfold gen_cmp set_crf in simp (fields, next)
  exec31 wide Op31.add = unfold gen_xo_arith in simp (fields, next)
  exec31 wide Op31.add_rc = unfold gen_xo_arith in simp (fields, next)
  exec31 wide Op31.subf = unfold gen_xo_arith in simp (fields, next)
  exec31 wide Op31.subf_rc = unfold gen_xo_arith in simp (fields, next)
  exec31 wide Op31.mullw = unfold gen_xo_arith in simp (fields, next)
  exec31 wide Op31.mullw_rc = unfold gen_xo_arith in simp (fields, next)
  exec31 wide Op31.and = unfold gen_x_logic in simp (fields, next)
  exec31 wide Op31.and_rc = unfold gen_x_logic in simp (fields, next)
  exec31 wide Op31.or = unfold gen_x_logic in simp (fields, next)
  exec31 wide Op31.or_rc = unfold gen_x_logic in simp (fields, next)
  exec31 wide Op31.xor = unfold gen_x_logic in simp (fields, next)
  exec31 wide Op31.xor_rc = unfold gen_x_logic in simp (fields, next)
  exec31 wide Op31.slw = unfold gen_x_logic in simp (fields, next)
  exec31 wide Op31.srw = unfold gen_x_logic in simp (fields, next)
  exec31 wide Op31.srawi = unfold gen_srawi in simp (fields, next)
  exec31 wide Op31.srawi_rc = unfold gen_srawi in simp (fields, next)
  exec31 wide Op31.lwzx = unfold gen_load_x read_width in simp (fields, next, zero)
  exec31 wide Op31.lhzx = unfold gen_load_x read_width in simp (fields, next, zero)
  exec31 wide Op31.lbzx = unfold gen_load_x read_width in simp (fields, next, zero)
  exec31 wide Op31.stwx = unfold gen_store_x write_width in simp (fields, next, zero)
  exec31 wide Op31.sthx = unfold gen_store_x write_width in simp (fields, next, zero)
  exec31 wide Op31.stbx = unfold gen_store_x write_width in simp (fields, next, zero)
  exec31 wide Op31.mfspr =
      rw bind_assoc (exec-spr wide PdxId.mflr PdxId.mfctr false (simp fields) (simp fields))
  exec31 wide Op31.mtspr =
      rw bind_assoc (exec-spr wide PdxId.mtlr PdxId.mtctr true (simp fields) (simp fields))
