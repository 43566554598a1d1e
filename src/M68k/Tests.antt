-- ===== src/M68k/Tests.antt =====
-- A program in a RAM of 64 pages, on the backends of m68k/m68k_switch.c and m68k/m68k_pd_impl.h.
use emu_core_bench.Base.{
  ℕ, arith, ◌^◌, ◌≡◌, refl, none, ok, ◌>>=◌, After, BothEnd, ◌==◌, if◌then◌else◌,
}
use emu_core_bench.Memory.{Env, entry, load_be16, memory_read_uint16}
use emu_core_bench.Memory.Init.{fill_table, mapped_env}
use emu_core_bench.Memory.Flat.{IsFlat, mem_env_init-IsFlat}
use emu_core_bench.Memory.Contained.{Contained}
use emu_core_bench.M68k.State.{M68kMachine}
use emu_core_bench.M68k.Switch.{m68k_dispatch, m68k_step, m68k_run_switch, group_dd, group_7}
use emu_core_bench.M68k.Invariant.{IsCpu}
use emu_core_bench.M68k.Kept.{IsKept}
use emu_core_bench.M68k.Kept.Runs.{m68k_run_switch-IsKept}
use emu_core_bench.M68k.Pd.Format.{Elidable, MpdId, MpdEnt}
use emu_core_bench.M68k.Pd.Decode.{mpd_decode, decode_op, decode_dd}
use emu_core_bench.M68k.Pd.Run.{MpdTable, mpd_entries, mpd_fill, m68k_run_pd, m68k_run_pd_elide}
use emu_core_bench.M68k.Pd.Flags.{AgreeButNzvc}
use emu_core_bench.M68k.Pd.Heads.{here, round}
use emu_core_bench.M68k.Pd.Refine.{
  KeepsCode, m68k_run_pd-m68k_run_switch, m68k_run_pd_elide-m68k_run_switch,
}

-- `MOVEQ #5,D1` and `ADD.L D1,D1`.
abbrev code_bytes : ℕ → ℕ
code_bytes q =
    if q == 0x1_0000
    then 0x72
    else if q == 0x1_0001
    then 5
    else if q == 0x1_0002
    then 0xD2
    else if q == 0x1_0003
    then 0x81
    else 0

abbrev blank : Env
blank = record {
  address_mask = 0xFF_FFFF;
  active_read = λ _. none;
  active_write = λ _. none;
  value_trap_active = 0;
  value_trap_value = 0;
  value_trap_size = 0;
  host = code_bytes;
}

abbrev start : M68kMachine
start = record {
  cpu = record { regs = λ _. 0; pc = 0; n = 0; z = 0; v = 0; cf = 0; x = 0 };
  mem = mapped_env blank 0x1_0000 (2 ^ 18);
}

abbrev empty : MpdTable
empty = record { ent = λ _. record { id = MpdId.illegal; a = 0; b = 0; c = 0 }; len = λ _. 0 }

flat : IsFlat 0x1_0000 18 64 start.mem
flat =
    (mem_env_init-IsFlat blank 0x1_0000 1 1 18 64 refl (omega arith) (omega arith) (omega arith)
      (omega arith) (λ q. ground arith)).1

cpu : IsCpu start.cpu
cpu = record {
  regs = λ _. omega arith;
  n_bit = omega arith;
  z_bit = omega arith;
  v_bit = omega arith;
  cf_bit = omega arith;
  x_bit = omega arith;
}

abbrev moveq_ent : MpdEnt
moveq_ent = record { id = MpdId.pair Elidable.moveq; a = 4; b = 0; c = 5 }

abbrev add_ent : MpdEnt
add_ent = record { id = MpdId.pair Elidable.add_l_dd; a = 4; b = 4; c = 0xD281 }

first_decoded : mpd_decode start.mem 0 ≡ ok (moveq_ent, 1)
unfolding mpd_decode decode_op memory_read_uint16 entry load_be16 fill_table
first_decoded = refl

second_decoded : mpd_decode start.mem 2 ≡ ok (add_ent, 1)
unfolding mpd_decode decode_op decode_dd memory_read_uint16 entry load_be16 fill_table
second_decoded = refl

keeps : KeepsCode start.mem 2 start 0
unfolding m68k_step m68k_dispatch group_7 group_dd memory_read_uint16 entry load_be16 fill_table
keeps = (
  record {
    inside = omega arith;
    even = refl;
    head = here refl;
    same = refl;
    known = rw first_decoded refl;
  },
  (
    record {
      inside = omega arith;
      even = refl;
      head = round (moveq_ent, 1) first_decoded (here refl);
      same = refl;
      known = rw second_decoded refl;
    },
    (refl, omega arith),
  ),
)

m68k_run_pd-m68k_run_switch_example :
    m68k_run_pd empty start 2
    ≡ (mpd_fill mpd_entries start.mem empty 0 >>= λ _. m68k_run_switch start 2)
m68k_run_pd-m68k_run_switch_example = m68k_run_pd-m68k_run_switch empty start 2 flat cpu keeps

m68k_run_pd_elide-m68k_run_switch_example :
    BothEnd AgreeButNzvc
      (mpd_fill mpd_entries start.mem empty 0 >>= λ _. m68k_run_switch start 2)
      (m68k_run_pd_elide empty start 2)
m68k_run_pd_elide-m68k_run_switch_example =
    m68k_run_pd_elide-m68k_run_switch empty start 2 flat cpu keeps

m68k_run_switch-IsKept_example :
    After (m68k_run_switch start 2) (IsKept (Contained 0x1_0000 18 64 start.mem))
m68k_run_switch-IsKept_example = m68k_run_switch-IsKept start 2 flat cpu
