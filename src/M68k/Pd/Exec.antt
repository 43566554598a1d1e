-- ===== src/M68k/Pd/Exec.antt =====
-- The hot loop's switch of m68k/m68k_pd_impl.h. The entry pointer `cur` is its index.
use emu_core_bench.Base.{
  ℕ, ◌+◌, ◌-◌, bit_and, bit_or, bit_xor, Bool, true, false, Outcome, ok, ◌>>=◌, u8, u16, add32,
  sub32, shl32, shr32, ltb, ◌==◌, if◌then◌else◌,
}
use emu_core_bench.Memory.{
  memory_read_uint8, memory_read_uint16, memory_read_uint32, memory_write_uint8,
  memory_write_uint16, memory_write_uint32,
}
use emu_core_bench.M68k.State.{M68k, M68kMachine, rego, set_rego, on_regs, m68k_illegal}
use emu_core_bench.M68k.Ops.{
  flag, cc_nz_l, cc_nz_w, cc_nz_b, cc_add_l, cc_sub_l, cc_cmp_l, cond_expr,
}
use emu_core_bench.M68k.Pd.Format.{Elidable, PureFlag, MpdId, MpdEnt}

-- `if (FL) ...`.
abbrev pub with_flags : Bool → (M68k → M68k) → M68k → M68k
with_flags fl f c = if fl then f c else c

-- `m->x = b`.
abbrev pub set_x : M68k → ℕ → M68k
set_x c b = record c { x = b }

-- The codes of a shift, whose carry is X.
abbrev pub shift_flags : ℕ → M68k → M68k
shift_flags r c = record c { cf = c.x; n = shr32 r 31; z = flag (r == 0); v = 0 }

-- The number of words that `HPAIR` advances by.
abbrev pub pair_len : Elidable → ℕ
pair_len Elidable.mv_l_imm_dn = 3
pair_len Elidable.mv_w_imm_dn = 2
pair_len Elidable.mv_l_d16_dn = 2
pair_len Elidable.mv_l_dn_d16 = 2
pair_len Elidable.mv_w_d16_dn = 2
pair_len Elidable.mv_w_dn_d16 = 2
pair_len Elidable.mv_b_d16_dn = 2
pair_len Elidable.mv_b_dn_d16 = 2
pair_len _ = 1

-- The body of `HPAIR(nm, LEN, ...)`, with `FL`.
unfoldable pub hpair : Elidable → Bool → MpdEnt → M68kMachine → Outcome M68kMachine
hpair Elidable.moveq fl e m =
    on_regs m (with_flags fl (λ c. cc_nz_l c e.c) (set_rego m.cpu e.a e.c))
hpair Elidable.mv_l_imm_dn fl e m =
    on_regs m (with_flags fl (λ c. cc_nz_l c e.c) (set_rego m.cpu e.a e.c))
hpair Elidable.mv_w_imm_dn fl e m = on_regs m (
    with_flags fl (λ c. cc_nz_w c (u16 e.c))
      (set_rego m.cpu e.a (bit_or (bit_and (rego m.cpu e.a) 0xFFFF_0000) (bit_and e.c 0xFFFF))))
hpair Elidable.mv_l_dd fl e m =
    let r = rego m.cpu e.b in on_regs m (with_flags fl (λ c. cc_nz_l c r) (set_rego m.cpu e.a r))
hpair Elidable.mv_l_anp_dn fl e m =
    let a = rego m.cpu e.b in
    memory_read_uint32 m.mem a >>= λ r.
    on_regs m (with_flags fl (λ c. cc_nz_l c r) (set_rego (set_rego m.cpu e.b (add32 a 4)) e.a r))
hpair Elidable.mv_l_dn_anp fl e m =
    let a = rego m.cpu e.b in
    let r = rego m.cpu e.a in
    memory_write_uint32 m.mem a r >>= λ mem.
    ok (record {
      cpu = with_flags fl (λ c. cc_nz_l c r) (set_rego m.cpu e.b (add32 a 4));
      mem = mem;
    })
hpair Elidable.mv_l_d16_dn fl e m = memory_read_uint32 m.mem (add32 (rego m.cpu e.b) e.c) >>= λ r.
    on_regs m (with_flags fl (λ c. cc_nz_l c r) (set_rego m.cpu e.a r))
hpair Elidable.mv_l_dn_d16 fl e m =
    let r = rego m.cpu e.a in
    memory_write_uint32 m.mem (add32 (rego m.cpu e.b) e.c) r >>= λ mem.
    ok (record { cpu = with_flags fl (λ c. cc_nz_l c r) m.cpu; mem = mem })
hpair Elidable.mv_w_d16_dn fl e m = memory_read_uint16 m.mem (add32 (rego m.cpu e.b) e.c) >>= λ r.
    on_regs m (
      with_flags fl (λ c. cc_nz_w c r)
        (set_rego m.cpu e.a (bit_or (bit_and (rego m.cpu e.a) 0xFFFF_0000) r)))
hpair Elidable.mv_w_dn_d16 fl e m =
    let r = u16 (rego m.cpu e.a) in
    memory_write_uint16 m.mem (add32 (rego m.cpu e.b) e.c) r >>= λ mem.
    ok (record { cpu = with_flags fl (λ c. cc_nz_w c r) m.cpu; mem = mem })
hpair Elidable.mv_b_d16_dn fl e m = memory_read_uint8 m.mem (add32 (rego m.cpu e.b) e.c) >>= λ r.
    on_regs m (
      with_flags fl (λ c. cc_nz_b c r)
        (set_rego m.cpu e.a (bit_or (bit_and (rego m.cpu e.a) 0xFFFF_FF00) r)))
hpair Elidable.mv_b_dn_d16 fl e m =
    let r = u8 (rego m.cpu e.a) in
    memory_write_uint8 m.mem (add32 (rego m.cpu e.b) e.c) r >>= λ mem.
    ok (record { cpu = with_flags fl (λ c. cc_nz_b c r) m.cpu; mem = mem })
hpair Elidable.add_l_dd fl e m =
    let s = rego m.cpu e.b in
    let d = rego m.cpu e.a in
    let r = add32 d s in
    let c = set_rego m.cpu e.a r in
    on_regs m (if fl then cc_add_l c s d r else set_x c (flag (ltb r s)))
hpair Elidable.sub_l_dd fl e m =
    let s = rego m.cpu e.b in
    let d = rego m.cpu e.a in
    let r = sub32 d s in
    let c = set_rego m.cpu e.a r in
    on_regs m (if fl then cc_sub_l c s d r else set_x c (flag (ltb d s)))
hpair Elidable.addq_l_dn fl e m =
    let s = e.b in
    let d = rego m.cpu e.a in
    let r = add32 d s in
    let c = set_rego m.cpu e.a r in
    on_regs m (if fl then cc_add_l c s d r else set_x c (flag (ltb r s)))
hpair Elidable.subq_l_dn fl e m =
    let s = e.b in
    let d = rego m.cpu e.a in
    let r = sub32 d s in
    let c = set_rego m.cpu e.a r in
    on_regs m (if fl then cc_sub_l c s d r else set_x c (flag (ltb d s)))
hpair Elidable.and_l_dd fl e m =
    let r = bit_and (rego m.cpu e.a) (rego m.cpu e.b) in
    on_regs m (with_flags fl (λ c. cc_nz_l c r) (set_rego m.cpu e.a r))
hpair Elidable.or_l_dd fl e m =
    let r = bit_or (rego m.cpu e.a) (rego m.cpu e.b) in
    on_regs m (with_flags fl (λ c. cc_nz_l c r) (set_rego m.cpu e.a r))
hpair Elidable.eor_l_dd fl e m =
    let r = bit_xor (rego m.cpu e.a) (rego m.cpu e.b) in
    on_regs m (with_flags fl (λ c. cc_nz_l c r) (set_rego m.cpu e.a r))
hpair Elidable.lsl_l_imm fl e m =
    let w = rego m.cpu e.a in
    let r = shl32 w e.b in
    let c = set_x (set_rego m.cpu e.a r) (bit_and (shr32 w (32 - e.b)) 1) in
    on_regs m (with_flags fl (shift_flags r) c)
hpair Elidable.lsr_l_imm fl e m =
    let w = rego m.cpu e.a in
    let r = shr32 w e.b in
    let c = set_x (set_rego m.cpu e.a r) (bit_and (shr32 w (e.b - 1)) 1) in
    on_regs m (with_flags fl (shift_flags r) c)

-- The cases that only set the condition codes, and the words they advance by.
unfoldable pub pure_flag : PureFlag → MpdEnt → M68k → M68k
pure_flag PureFlag.cmp_l_dd e c =
    let s = rego c e.b in let d = rego c e.a in cc_cmp_l c s d (sub32 d s)
pure_flag PureFlag.cmpi_l_dn e c = let d = rego c e.a in cc_cmp_l c e.c d (sub32 d e.c)
pure_flag PureFlag.tst_l_dn e c = cc_nz_l c (rego c e.a)
pure_flag PureFlag.tst_w_dn e c = cc_nz_w c (u16 (rego c e.a))
pure_flag PureFlag.tst_b_dn e c = cc_nz_b c (u8 (rego c e.a))

abbrev pub one_len : PureFlag → ℕ
one_len PureFlag.cmpi_l_dn = 3
one_len _ = 1

-- The `switch (e.id)`.
unfoldable pub mpd_case : MpdId → MpdEnt → M68kMachine → ℕ → Outcome (M68kMachine × ℕ)
mpd_case (MpdId.pair p) e m cur = hpair p true e m >>= λ r. ok (r, cur + pair_len p)
mpd_case (MpdId.twin p) e m cur = hpair p false e m >>= λ r. ok (r, cur + pair_len p)
mpd_case (MpdId.one p) e m cur = ok (record m { cpu = pure_flag p e m.cpu }, cur + one_len p)
mpd_case MpdId.movea_l_imm e m cur = ok (record m { cpu = set_rego m.cpu e.a e.c }, cur + 3)
mpd_case MpdId.addq_l_an e m cur =
    ok (record m { cpu = set_rego m.cpu e.a (add32 (rego m.cpu e.a) e.b) }, cur + 1)
mpd_case MpdId.lea_d16 e m cur =
    ok (record m { cpu = set_rego m.cpu e.a (add32 (rego m.cpu e.b) e.c) }, cur + 2)
mpd_case MpdId.nop e m cur = ok (m, cur + 1)
mpd_case MpdId.nop1 e m cur = ok (m, cur + 1)
mpd_case MpdId.nop2 e m cur = ok (m, cur + 2)
mpd_case MpdId.nop3 e m cur = ok (m, cur + 3)
mpd_case MpdId.bra e m cur = ok (m, e.c)
mpd_case MpdId.dbra e m cur =
    let r = rego m.cpu e.b in
    let w = u16 (sub32 r 1) in
    ok (
      record m { cpu = set_rego m.cpu e.b (bit_or (bit_and r 0xFFFF_0000) w) },
      (if w == 0xFFFF then cur + 2 else e.c),
    )
mpd_case (MpdId.bcc k) e m cur = ok (m, (if cond_expr k m.cpu then e.c else cur + e.a))
mpd_case MpdId.illegal e m cur = m68k_illegal e.c
mpd_case MpdId.filler e m cur = m68k_illegal e.c

-- The loop's body, from the entry to the next entry pointer.
unfoldable pub mpd_exec : MpdEnt → M68kMachine → ℕ → Outcome (M68kMachine × ℕ)
mpd_exec e m cur = mpd_case e.id e m cur
