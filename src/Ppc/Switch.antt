-- ===== src/Ppc/Switch.antt =====
-- Backend A, ppc/ppc_switch.c: one loop around one switch.
use emu_core_bench.Base.{ℕ, zero, suc, Option, none, some, Outcome, ok, ◌>>=◌, add32, shr32}
use emu_core_bench.Memory.{memory_read_uint32}
use emu_core_bench.Ppc.State.{Machine}
use emu_core_bench.Ppc.Transfer.{ppc_illegal}
use emu_core_bench.Ppc.Lists.{Primary, find_primary, primary_stmt}

-- The `switch (insn >> 26)`: the case selected, or the default.
unfoldable pub sw_case : Option Primary → Machine → ℕ → ℕ → Outcome (Machine × ℕ)
sw_case (some p) m insn pc = primary_stmt p m insn pc
sw_case none m insn pc = ppc_illegal insn

unfoldable pub sw_dispatch : Machine → ℕ → ℕ → Outcome (Machine × ℕ)
sw_dispatch m insn pc = sw_case (find_primary (shr32 insn 26)) m insn pc

-- `c->pc = pc`.
abbrev pub store_pc : Machine → ℕ → Machine
store_pc m pc = record m { cpu = record m.cpu { pc = pc } }

-- One round of the loop from the local `pc`.
unfoldable pub sw_step : Machine → ℕ → Outcome (Machine × ℕ)
sw_step m pc = memory_read_uint32 m.mem pc >>= λ insn. sw_dispatch m insn (add32 pc 4)

-- The loop, with the budget left and the local `pc`.
unfoldable pub sw_loop : ℕ → Machine → ℕ → Outcome Machine
sw_loop zero m pc = ok (store_pc m pc)
sw_loop (suc n) m pc = sw_step m pc >>= λ r. sw_loop n r.0 r.1

unfoldable pub ppc_run_switch : Machine → ℕ → Outcome Machine
ppc_run_switch m budget = sw_loop budget m m.cpu.pc
