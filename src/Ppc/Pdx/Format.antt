-- ===== src/Ppc/Pdx/Format.antt =====
-- The entries of ppc/ppc_pdx_impl.h and the register file by byte offsets.
use emu_core_bench.Base.{ℕ, ◌*◌, ◌/◌, ◌==◌, if◌then◌else◌, u8}
use emu_core_bench.Ppc.State.{Ppc}

-- The specialized handler ids.
pub data PdxId : Type 0 where
  illegal : PdxId
  add add_rc subf subf_rc mullw mullw_rc : PdxId
  and and_rc or or_rc xor xor_rc slw srw srawi srawi_rc : PdxId
  addi li mulli ori xori andi_rc : PdxId
  rlwinm rlwinm_rc : PdxId
  cmpwi cmplwi cmpw cmplw : PdxId
  lwz lhz lbz lwzu stw sth stb stwu : PdxId
  lwzx lhzx lbzx stwx sthx stbx : PdxId
  b bdnz bc_t bc_f b_gen bc_gen op19_gen : PdxId
  mtctr mfctr mtlr mflr : PdxId

-- `pdx_ent_t`. The field `d` exists with PDX_WIDE only, and is zero without it.
pub record PdxEnt : Type 0 where
  pub id : PdxId
  pub a : ℕ
  pub b : ℕ
  pub c : ℕ
  pub d : ℕ

-- `RO(r)`, and the offset of `zero_base` behind the 32 registers.
abbrev pub ro : ℕ → ℕ
ro r = u8 (r * 4)

abbrev pub zero_off : ℕ
zero_off = 128

-- `GPRO(cpu, off)`, read and written.
unfoldable pub gpro : Ppc → ℕ → ℕ
gpro c off = if off == zero_off then c.zero_base else c.gpr (off / 4)

unfoldable pub set_gpro : Ppc → ℕ → ℕ → Ppc
set_gpro c off v =
    if off == zero_off
    then record c { zero_base = v }
    else record c { gpr = λ q. if q == off / 4 then v else c.gpr q }
