-- ===== src/M68k/Pd/Run.antt =====
-- `MPD_RUN_NAME` and `mpd_elide_pass` of m68k/m68k_pd_impl.h.
use emu_core_bench.Base.{
  ℕ, zero, suc, ◌+◌, ◌-◌, ◌*◌, ◌/◌, Bool, true, false, ◌&&◌, Fault, Outcome, ok, fatal, ◌>>=◌, u8,
  shr32, shl32, ltb, ◌==◌, if◌then◌else◌,
}
use emu_core_bench.Memory.{Env}
use emu_core_bench.M68k.State.{M68kMachine, set_pc}
use emu_core_bench.M68k.Pd.Format.{PureFlag, MpdId, MpdEnt}
use emu_core_bench.M68k.Pd.Decode.{mpd_decode}
use emu_core_bench.M68k.Pd.Exec.{mpd_exec}

abbrev pub mpd_region_bytes : ℕ
mpd_region_bytes = 256 * 1024

abbrev pub mpd_entries : ℕ
mpd_entries = mpd_region_bytes / 2

-- `MPD_TAB` and `MPD_LEN`; the latter is used by the pass only.
pub record MpdTable : Type 0 where
  pub ent : ℕ → MpdEnt
  pub len : ℕ → ℕ

abbrev pub put_ent : (ℕ → MpdEnt) → ℕ → MpdEnt → ℕ → MpdEnt
put_ent t i e q = if q == i then e else t q

-- `MPD_TAB[i].id = id`.
abbrev pub put_id : (ℕ → MpdEnt) → ℕ → MpdId → ℕ → MpdEnt
put_id t i id = put_ent t i (record (t i) { id = id })

-- The loop on `w`, with the words left and the index of the next; a write past the end of the
-- table is a fault.
unfoldable pub fill_words : ℕ → ℕ → MpdTable → Outcome MpdTable
fill_words zero i tab = ok tab
fill_words (suc k) i tab =
    if ltb i mpd_entries
    then fill_words k (i + 1) (record tab { ent = put_id tab.ent i MpdId.filler })
    else fatal Fault.out_of_bounds

-- The decoding loop from `addr`, in at most `fuel` rounds.
unfoldable pub mpd_fill : ℕ → Env → MpdTable → ℕ → Outcome MpdTable
mpd_fill zero env tab addr = ok tab
mpd_fill (suc fuel) env tab addr =
    if ltb addr mpd_region_bytes
    then (mpd_decode env addr >>= λ r.
        fill_words (r.1 - 1) (shr32 addr 1 + 1) (record {
          ent = put_ent tab.ent (shr32 addr 1) r.0;
          len = λ q. if q == shr32 addr 1 then u8 r.1 else tab.len q;
        })
        >>= λ tab'. mpd_fill fuel env tab' (addr + r.1 * 2))
    else ok tab

unfoldable pub mpd_writes_all_nzvc : MpdId → Bool
mpd_writes_all_nzvc (MpdId.pair p) = true
mpd_writes_all_nzvc (MpdId.one p) = true
mpd_writes_all_nzvc _ = false

-- The id that the pass gives an instruction whose codes are dead: the twin, a sized NOP, or the
-- same id.
unfoldable pub elided : MpdId → MpdId
elided (MpdId.pair p) = MpdId.twin p
elided (MpdId.one PureFlag.cmpi_l_dn) = MpdId.nop3
elided (MpdId.one PureFlag.cmp_l_dd) = MpdId.nop1
elided (MpdId.one PureFlag.tst_l_dn) = MpdId.nop1
elided (MpdId.one PureFlag.tst_w_dn) = MpdId.nop1
elided (MpdId.one PureFlag.tst_b_dn) = MpdId.nop1
elided id = id

-- The walk from `idx`, in at most `fuel` rounds.
unfoldable pub mpd_elide_pass : ℕ → (ℕ → ℕ) → (ℕ → MpdEnt) → ℕ → ℕ → MpdEnt
mpd_elide_pass zero len t idx = t
mpd_elide_pass (suc fuel) len t idx =
    let next = idx + len idx in
    if ltb idx mpd_entries && ltb next mpd_entries
    then mpd_elide_pass fuel len
        (if mpd_writes_all_nzvc (t next).id then put_id t idx (elided (t idx).id) else t) next
    else t

-- `*cur`.
unfoldable pub mpd_fetch : (ℕ → MpdEnt) → ℕ → Outcome MpdEnt
mpd_fetch t cur = if ltb cur mpd_entries then ok (t cur) else fatal Fault.out_of_bounds

-- The hot loop; at the end `m->pc = (uint32_t)(cur - tab) << 1`.
unfoldable pub mpd_loop : (ℕ → MpdEnt) → ℕ → M68kMachine → ℕ → Outcome M68kMachine
mpd_loop t zero m cur = ok (set_pc m (shl32 cur 1))
mpd_loop t (suc n) m cur = mpd_fetch t cur >>= λ e. mpd_exec e m cur >>= λ r. mpd_loop t n r.0 r.1

-- `m68k_run_pd` and, with the pass, `m68k_run_pd_elide`; `MPD_TAB` starts as an earlier run left
-- it.
unfoldable pub m68k_run_pd : MpdTable → M68kMachine → ℕ → Outcome M68kMachine
m68k_run_pd tab m budget =
    mpd_fill mpd_entries m.mem tab 0 >>= λ t. mpd_loop t.ent budget m (shr32 m.cpu.pc 1)

unfoldable pub m68k_run_pd_elide : MpdTable → M68kMachine → ℕ → Outcome M68kMachine
m68k_run_pd_elide tab m budget = mpd_fill mpd_entries m.mem tab 0 >>= λ t.
    mpd_loop (mpd_elide_pass mpd_entries t.len t.ent 0) budget m (shr32 m.cpu.pc 1)
