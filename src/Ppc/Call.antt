-- ===== src/Ppc/Call.antt =====
-- Backend C, ppc/ppc_call.c: one function per primary opcode, called through a table from a
-- central loop.
use emu_core_bench.Base.{ℕ, zero, suc, Option, none, some, Outcome, ok, ◌>>=◌, add32, shr32, table}
use emu_core_bench.Memory.{memory_read_uint32}
use emu_core_bench.Ppc.State.{Machine}
use emu_core_bench.Ppc.Transfer.{ppc_illegal}
use emu_core_bench.Ppc.Lists.{Primary, primary_key, ppc_primary, primary_stmt}
use emu_core_bench.Ppc.Switch.{store_pc}

-- The entries of `g_call_dispatch`: `none` is `f_bad`, `some p` the function stamped from `p`.
unfoldable pub g_call_dispatch : ℕ → Option Primary
g_call_dispatch = table primary_key ppc_primary (λ _. none)

-- A call of `f_bad` or of `f_<name>`.
unfoldable pub call_handler : Option Primary → Machine → ℕ → ℕ → Outcome (Machine × ℕ)
call_handler none m insn pc = ppc_illegal insn
call_handler (some p) m insn pc = primary_stmt p m insn pc

unfoldable pub call_loop : ℕ → Machine → ℕ → Outcome Machine
call_loop zero m pc = ok (store_pc m pc)
call_loop (suc n) m pc = memory_read_uint32 m.mem pc >>= λ insn.
    call_handler (g_call_dispatch (shr32 insn 26)) m insn (add32 pc 4) >>= λ r. call_loop n r.0 r.1

unfoldable pub ppc_run_call : Machine → ℕ → Outcome Machine
ppc_run_call m budget = call_loop budget m m.cpu.pc
