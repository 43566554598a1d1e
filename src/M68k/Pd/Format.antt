-- ===== src/M68k/Pd/Format.antt =====
-- The entries of m68k/m68k_pd_impl.h and their ids.
use emu_core_bench.Base.{ℕ}
use emu_core_bench.M68k.Ops.{Cond}

-- `M68K_ELIDABLE`.
pub data Elidable : Type 0 where
  moveq mv_l_imm_dn mv_w_imm_dn mv_l_dd mv_l_anp_dn mv_l_dn_anp mv_l_d16_dn mv_l_dn_d16 : Elidable
  mv_w_d16_dn mv_w_dn_d16 mv_b_d16_dn mv_b_dn_d16 : Elidable
  add_l_dd sub_l_dd addq_l_dn subq_l_dn and_l_dd or_l_dd eor_l_dd lsl_l_imm lsr_l_imm : Elidable

-- `M68K_PUREFLAG`.
pub data PureFlag : Type 0 where
  cmp_l_dd cmpi_l_dn tst_l_dn tst_w_dn tst_b_dn : PureFlag

-- The handler ids; `twin p` is the no-flags id that follows `pair p`.
pub data MpdId : Type 0 where
  illegal filler nop1 nop2 nop3 : MpdId
  pair twin : Elidable → MpdId
  one : PureFlag → MpdId
  movea_l_imm addq_l_an lea_d16 nop bra dbra : MpdId
  bcc : Cond → MpdId

pub record MpdEnt : Type 0 where
  pub id : MpdId
  pub a : ℕ
  pub b : ℕ
  pub c : ℕ
