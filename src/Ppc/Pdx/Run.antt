-- ===== src/Ppc/Pdx/Run.antt =====
-- `PDX_RUN_NAME` of ppc/ppc_pdx_impl.h, stamped by ppc/ppc_pdx8.c and ppc/ppc_pdx16.c: the
-- decoding of the region and the hot loop.
use emu_core_bench.Base.{
  ℕ, zero, suc, ◌+◌, ◌*◌, ◌/◌, Bool, true, false, none, some, List, [], ◌∷◌, get_elem?, Fault,
  Outcome, ok, fatal, ◌>>=◌, shl32, shr32,
}
use emu_core_bench.Memory.{Env, memory_read_uint32}
use emu_core_bench.Ppc.State.{Machine}
use emu_core_bench.Ppc.Switch.{store_pc}
use emu_core_bench.Ppc.Pdx.Format.{PdxEnt}
use emu_core_bench.Ppc.Pdx.Decode.{pdx_decode}
use emu_core_bench.Ppc.Pdx.Exec.{pdx_exec}

-- The loop that fills the table, with the entries still to come.
unfoldable pub pdx_fill : Bool → ℕ → Env → ℕ → Outcome (List PdxEnt)
pdx_fill wide zero env addr = ok []
pdx_fill wide (suc n) env addr = memory_read_uint32 env addr >>= λ insn.
    pdx_fill wide n env (addr + 4) >>= λ rest. ok (pdx_decode wide addr insn ∷ rest)

abbrev pub pdx_entries : ℕ
pdx_entries = 256 * 1024 / 4

-- `*cur`.
unfoldable pub pdx_fetch : List PdxEnt → ℕ → Outcome PdxEnt
pdx_fetch tab cur = elim (get_elem? tab cur) [ some e ↦ ok e | none ↦ fatal Fault.out_of_bounds ]

-- The hot loop; at the end `c->pc = (uint32_t)(cur - tab) << 2`.
unfoldable pub pdx_loop : Bool → List PdxEnt → ℕ → Machine → ℕ → Outcome Machine
pdx_loop wide tab zero m cur = ok (store_pc m (shl32 cur 2))
pdx_loop wide tab (suc n) m cur =
    pdx_fetch tab cur >>= λ e. pdx_exec wide e m cur >>= λ r. pdx_loop wide tab n r.0 r.1

unfoldable pub ppc_run_pdx : Bool → Machine → ℕ → Outcome Machine
ppc_run_pdx wide m budget =
    pdx_fill wide pdx_entries m.mem 0 >>= λ tab. pdx_loop wide tab budget m (shr32 m.cpu.pc 2)

abbrev pub ppc_run_pdx8 : Machine → ℕ → Outcome Machine
ppc_run_pdx8 = ppc_run_pdx false

abbrev pub ppc_run_pdx16 : Machine → ℕ → Outcome Machine
ppc_run_pdx16 = ppc_run_pdx true
