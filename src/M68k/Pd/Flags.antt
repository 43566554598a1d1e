-- ===== src/M68k/Pd/Flags.antt =====
-- What the handlers of m68k/m68k_pd_impl.h do to, and take from, the condition codes.
use emu_core_bench.Base.{
  ℕ, ◌+◌, ◌≡◌, refl, sym, ap, ◌∙◌, ◌⊎◌, inl, inr, true, false, Outcome, ok, ◌>>=◌, BothEnd,
  BothEnd-same, BothEnd-bind,
}
use emu_core_bench.Memory.{
  Env, memory_read_uint8, memory_read_uint16, memory_read_uint32, memory_write_uint8,
  memory_write_uint16, memory_write_uint32,
}
use emu_core_bench.M68k.State.{M68k, M68kMachine}
use emu_core_bench.M68k.Ops.{cc_nz_l, cc_nz_w, cc_nz_b, cc_add_l, cc_sub_l, cc_cmp_l}
use emu_core_bench.M68k.Pd.Format.{Elidable, PureFlag, MpdId, MpdEnt}
use emu_core_bench.M68k.Pd.Exec.{hpair, pure_flag, mpd_case, mpd_exec, pair_len, one_len}
use emu_core_bench.M68k.Pd.Run.{mpd_writes_all_nzvc, elided}

-- The registers, the pc, X and the memory: all but N, Z, V and C.
abbrev pub without_nzvc : M68kMachine → M68kMachine
without_nzvc m = record m { cpu = record m.cpu { n = 0; z = 0; v = 0; cf = 0 } }

abbrev pub AgreeButNzvc : M68kMachine → M68kMachine → Type 0
AgreeButNzvc m m' = without_nzvc m ≡ without_nzvc m'

-- The same of a machine and an entry pointer.
abbrev pub AgreeAt : M68kMachine × ℕ → M68kMachine × ℕ → Type 0
AgreeAt s s' = AgreeButNzvc s.0 s'.0 × (s.1 ≡ s'.1)

-- A handler that sets the codes takes nothing from them.
hpair-without_nzvc :
    (p : Elidable) (e : MpdEnt) (m : M68kMachine)
    → hpair p true e (without_nzvc m) ≡ hpair p true e m
unfolding hpair cc_nz_l cc_nz_w cc_nz_b cc_add_l cc_sub_l
hpair-without_nzvc Elidable.moveq e m = refl
hpair-without_nzvc Elidable.mv_l_imm_dn e m = refl
hpair-without_nzvc Elidable.mv_w_imm_dn e m = refl
hpair-without_nzvc Elidable.mv_l_dd e m = refl
hpair-without_nzvc Elidable.mv_l_anp_dn e m = refl
hpair-without_nzvc Elidable.mv_l_dn_anp e m = refl
hpair-without_nzvc Elidable.mv_l_d16_dn e m = refl
hpair-without_nzvc Elidable.mv_l_dn_d16 e m = refl
hpair-without_nzvc Elidable.mv_w_d16_dn e m = refl
hpair-without_nzvc Elidable.mv_w_dn_d16 e m = refl
hpair-without_nzvc Elidable.mv_b_d16_dn e m = refl
hpair-without_nzvc Elidable.mv_b_dn_d16 e m = refl
hpair-without_nzvc _ e m = refl

pure_flag-without_nzvc :
    (f : PureFlag) (e : MpdEnt) (m : M68kMachine)
    → pure_flag f e (without_nzvc m).cpu ≡ pure_flag f e m.cpu
unfolding pure_flag cc_nz_l cc_nz_w cc_nz_b cc_cmp_l
pure_flag-without_nzvc PureFlag.cmp_l_dd e m = refl
pure_flag-without_nzvc PureFlag.cmpi_l_dn e m = refl
pure_flag-without_nzvc PureFlag.tst_l_dn e m = refl
pure_flag-without_nzvc PureFlag.tst_w_dn e m = refl
pure_flag-without_nzvc PureFlag.tst_b_dn e m = refl

-- The twin of a handler does the same but for the codes.
hpair-twin :
    (p : Elidable) (e : MpdEnt) (id : MpdId) (m : M68kMachine)
    → BothEnd AgreeButNzvc (hpair p true e m) (hpair p false (record e { id = id }) m)
unfolding hpair cc_nz_l cc_nz_w cc_nz_b cc_add_l cc_sub_l
hpair-twin Elidable.mv_l_anp_dn e id m =
    BothEnd-same AgreeButNzvc (memory_read_uint32 m.mem _) _ _ (λ r. refl)
hpair-twin Elidable.mv_l_dn_anp e id m =
    BothEnd-same AgreeButNzvc (memory_write_uint32 m.mem _ _) _ _ (λ r. refl)
hpair-twin Elidable.mv_l_d16_dn e id m =
    BothEnd-same AgreeButNzvc (memory_read_uint32 m.mem _) _ _ (λ r. refl)
hpair-twin Elidable.mv_l_dn_d16 e id m =
    BothEnd-same AgreeButNzvc (memory_write_uint32 m.mem _ _) _ _ (λ r. refl)
hpair-twin Elidable.mv_w_d16_dn e id m =
    BothEnd-same AgreeButNzvc (memory_read_uint16 m.mem _) _ _ (λ r. refl)
hpair-twin Elidable.mv_w_dn_d16 e id m =
    BothEnd-same AgreeButNzvc (memory_write_uint16 m.mem _ _) _ _ (λ r. refl)
hpair-twin Elidable.mv_b_d16_dn e id m =
    BothEnd-same AgreeButNzvc (memory_read_uint8 m.mem _) _ _ (λ r. refl)
hpair-twin Elidable.mv_b_dn_d16 e id m =
    BothEnd-same AgreeButNzvc (memory_write_uint8 m.mem _ _) _ _ (λ r. refl)
hpair-twin _ e id m = refl

mpd_case-AgreeButNzvc :
    (id : MpdId) (e : MpdEnt) (m m' : M68kMachine) (cur : ℕ)
    → mpd_writes_all_nzvc id ≡ true
    → AgreeButNzvc m m'
    → mpd_case id e m cur ≡ mpd_case id e m' cur
unfolding mpd_case mpd_writes_all_nzvc
mpd_case-AgreeButNzvc (MpdId.pair p) e m m' cur w h =
    ap (λ r. r >>= λ s. ok (s, cur + pair_len p))
      (sym (hpair-without_nzvc p e m) ∙ ap (hpair p true e) h ∙ hpair-without_nzvc p e m')
mpd_case-AgreeButNzvc (MpdId.one f) e m m' cur w h =
    let at : M68k → Env → Outcome (M68kMachine × ℕ) =
      λ c mem. ok (record { cpu = c; mem = mem }, cur + one_len f) in
    ap (λ c. at c m.mem) (sym (pure_flag-without_nzvc f e m))
    ∙ ap (λ k. at (pure_flag f e k.cpu) k.mem) h
    ∙ ap (λ c. at c m'.mem) (pure_flag-without_nzvc f e m')
mpd_case-AgreeButNzvc MpdId.illegal e m m' cur w h = cc
mpd_case-AgreeButNzvc MpdId.filler e m m' cur w h = cc
mpd_case-AgreeButNzvc MpdId.nop1 e m m' cur w h = cc
mpd_case-AgreeButNzvc MpdId.nop2 e m m' cur w h = cc
mpd_case-AgreeButNzvc MpdId.nop3 e m m' cur w h = cc
mpd_case-AgreeButNzvc MpdId.movea_l_imm e m m' cur w h = cc
mpd_case-AgreeButNzvc MpdId.addq_l_an e m m' cur w h = cc
mpd_case-AgreeButNzvc MpdId.lea_d16 e m m' cur w h = cc
mpd_case-AgreeButNzvc MpdId.nop e m m' cur w h = cc
mpd_case-AgreeButNzvc MpdId.bra e m m' cur w h = cc
mpd_case-AgreeButNzvc MpdId.dbra e m m' cur w h = cc
mpd_case-AgreeButNzvc (MpdId.twin p) e m m' cur w h = cc
mpd_case-AgreeButNzvc (MpdId.bcc k) e m m' cur w h = cc

-- An entry whose id writes all of N, Z, V and C does the same from machines that agree on the
-- rest.
pub mpd_exec-AgreeButNzvc :
    (e : MpdEnt) (m m' : M68kMachine) (cur : ℕ)
    → mpd_writes_all_nzvc e.id ≡ true
    → AgreeButNzvc m m'
    → mpd_exec e m cur ≡ mpd_exec e m' cur
unfolding mpd_exec
mpd_exec-AgreeButNzvc e m m' cur w h = mpd_case-AgreeButNzvc e.id e m m' cur w h

-- The words that an instruction whose codes can be elided advances by; for the others, any
-- number will do.
abbrev pub HasLen : MpdId → ℕ → Type 0
HasLen (MpdId.pair p) len = len ≡ pair_len p
HasLen (MpdId.one f) len = len ≡ one_len f
HasLen _ len = Unit

-- The elided id is the same, or the entry with it does the same but for the codes and advances
-- by the instruction's length.
pub mpd_case-elided :
    (id : MpdId) (e : MpdEnt) (m : M68kMachine) (cur len : ℕ)
    → HasLen id len
    → (elided id ≡ id)
      ⊎ BothEnd
          (λ s s'. AgreeAt s s' × (s.1 ≡ cur + len))
          (mpd_case id e m cur)
          (mpd_case (elided id) (record e { id = elided id }) m cur)
unfolding mpd_case elided pure_flag cc_nz_l cc_nz_w cc_nz_b cc_cmp_l
mpd_case-elided (MpdId.pair p) e m cur len h = inr (
    BothEnd-bind AgreeButNzvc (λ s s'. AgreeAt s s' × (s.1 ≡ cur + len)) (hpair p true e m) _ _ _
      (hpair-twin p e _ m) (λ a b k. ((k, refl), rw h)))
mpd_case-elided (MpdId.one PureFlag.cmpi_l_dn) e m cur len h = inr ((refl, refl), rw h)
mpd_case-elided (MpdId.one PureFlag.cmp_l_dd) e m cur len h = inr ((refl, refl), rw h)
mpd_case-elided (MpdId.one PureFlag.tst_l_dn) e m cur len h = inr ((refl, refl), rw h)
mpd_case-elided (MpdId.one PureFlag.tst_w_dn) e m cur len h = inr ((refl, refl), rw h)
mpd_case-elided (MpdId.one PureFlag.tst_b_dn) e m cur len h = inr ((refl, refl), rw h)
mpd_case-elided MpdId.illegal e m cur len h = inl refl
mpd_case-elided MpdId.filler e m cur len h = inl refl
mpd_case-elided MpdId.nop1 e m cur len h = inl refl
mpd_case-elided MpdId.nop2 e m cur len h = inl refl
mpd_case-elided MpdId.nop3 e m cur len h = inl refl
mpd_case-elided MpdId.movea_l_imm e m cur len h = inl refl
mpd_case-elided MpdId.addq_l_an e m cur len h = inl refl
mpd_case-elided MpdId.lea_d16 e m cur len h = inl refl
mpd_case-elided MpdId.nop e m cur len h = inl refl
mpd_case-elided MpdId.bra e m cur len h = inl refl
mpd_case-elided MpdId.dbra e m cur len h = inl refl
mpd_case-elided (MpdId.twin p) e m cur len h = inl refl
mpd_case-elided (MpdId.bcc k) e m cur len h = inl refl
