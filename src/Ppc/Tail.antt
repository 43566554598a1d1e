-- ===== src/Ppc/Tail.antt =====
-- Backend B, ppc/ppc_tail.c: each handler ends in a tail call of the next one.
use emu_core_bench.Base.{ℕ, zero, suc, Option, none, some, Outcome, ok, ◌>>=◌, add32, shr32, table}
use emu_core_bench.Memory.{memory_read_uint32}
use emu_core_bench.Ppc.State.{Machine}
use emu_core_bench.Ppc.Transfer.{ppc_illegal}
use emu_core_bench.Ppc.Lists.{Primary, primary_key, ppc_primary, primary_stmt}
use emu_core_bench.Ppc.Switch.{store_pc}

-- The entries of `g_dispatch`: `none` is `h_bad`, `some p` the handler stamped from `p`.
unfoldable pub g_dispatch : ℕ → Option Primary
g_dispatch = table primary_key ppc_primary (λ _. none)

-- A handler with `n` instructions left after the current one: `h_bad`, or the statement and
-- then `NEXT()`. The chain of tail calls is the recursion, each link spending one of `n`.
unfoldable pub handler : ℕ → Option Primary → Machine → ℕ → ℕ → Outcome Machine
handler n none m insn pc = ppc_illegal insn
handler zero (some p) m insn pc = primary_stmt p m insn pc >>= λ r. ok (store_pc r.0 r.1)
handler (suc n) (some p) m insn pc = primary_stmt p m insn pc >>= λ r.
    memory_read_uint32 r.0.mem r.1 >>= λ next.
    handler n (g_dispatch (shr32 next 26)) r.0 next (add32 r.1 4)

unfoldable pub ppc_run_tail : Machine → ℕ → Outcome Machine
ppc_run_tail m zero = ok m
ppc_run_tail m (suc budget) =
    let pc = m.cpu.pc in
    memory_read_uint32 m.mem pc >>= λ insn.
    handler budget (g_dispatch (shr32 insn 26)) m insn (add32 pc 4)
