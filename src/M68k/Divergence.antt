-- ===== src/M68k/Divergence.antt =====
-- Where m68k/m68k_switch.c and m68k/m68k_pd_impl.h part: the conditions that m68k/m68k_ops.h
-- leaves out.
use emu_core_bench.Base.{ℕ, ◌≡◌, refl, false, none, Fault, ok, fatal, ◌>>=◌, shr32, find_case, ◌==◌}
use emu_core_bench.Memory.{Env}
use emu_core_bench.M68k.State.{M68k, M68kMachine}
use emu_core_bench.M68k.Ops.{cond_key, m68k_conds, m68k_cond}
use emu_core_bench.M68k.Switch.{m68k_dispatch, group_6, branch}
use emu_core_bench.M68k.Pd.Decode.{decode_op, decode_6, decode_cond, op_cond, sext8}
use emu_core_bench.M68k.Pd.Exec.{mpd_exec, mpd_case}

m68k_cond-none :
    (m : M68k) (cond : ℕ) → find_case cond_key m68k_conds cond ≡ none → m68k_cond m cond ≡ false
unfolding m68k_cond
m68k_cond-none m cond h = rw (h, m68k_cond) refl

-- On every short Bcc whose condition `M68K_CONDS` does not list (HI, LS, VC and VS), the switch
-- goes on with the next instruction whatever the codes are, while the predecoded backends end the
-- process with the illegal-instruction diagnostic.
pub bcc_diverges :
    (m : M68kMachine) (env : Env) (op addr pc cur : ℕ)
    → shr32 op 12 ≡ 6
    → (sext8 op == 0) ≡ false
    → (op_cond op == 0) ≡ false
    → (op_cond op == 1) ≡ false
    → find_case cond_key m68k_conds (op_cond op) ≡ none
    → (m68k_dispatch m op pc ≡ ok (m, pc))
      × ((decode_op env addr op >>= λ r. mpd_exec r.0 m cur) ≡ fatal (Fault.illegal op))
unfolding m68k_dispatch group_6 branch decode_op decode_6 decode_cond mpd_exec mpd_case
bcc_diverges m env op addr pc cur top d8 c0 c1 none_listed = (
  rw (top, d8, c1, c0, m68k_cond-none m.cpu (op_cond op) none_listed) refl,
  rw (top, d8, c0, none_listed) refl,
)
