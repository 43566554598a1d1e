-- ===== src/Ppc/Predecode.antt =====
-- Backend D, ppc/ppc_predecode.c: the code region is decoded once into entries of a flat handler
-- id and the raw instruction.
use emu_core_bench.Base.{
  ℕ, zero, suc, ◌+◌, ◌*◌, ◌/◌, bit_and, none, some, List, [], ◌∷◌, Fault, Outcome, ok, fatal, ◌>>=◌,
  add32, shr32, ◌==◌, if◌then◌else◌, get_elem?,
}
use emu_core_bench.Memory.{Env, memory_read_uint32}
use emu_core_bench.Ppc.State.{Machine}
use emu_core_bench.Ppc.Transfer.{ppc_illegal, bclr, bcctr}
use emu_core_bench.Ppc.Lists.{
  Op31, find_op31, op31_stmt, Primary, find_primary, primary_stmt, jump, keep_pc,
}
use emu_core_bench.Ppc.Switch.{store_pc}

-- The flat handler ids.
pub data PdId : Type 0 where
  primary : Primary → PdId
  op31 : Op31 → PdId
  pd_bclr pd_bcctr pd_bad : PdId

pub record PdEnt : Type 0 where
  pub id : PdId
  pub insn : ℕ

abbrev pub pd_region_bytes : ℕ
pd_region_bytes = 256 * 1024

abbrev pub pd_entries : ℕ
pd_entries = pd_region_bytes / 4

unfoldable pub pd_decode : ℕ → PdId
pd_decode insn =
    let prim = shr32 insn 26 in
    let xo = bit_and (shr32 insn 1) 0x3FF in
    if prim == 31
    then (elim (find_op31 (bit_and insn 0x7FF)) [ some op ↦ op31 op | none ↦ pd_bad ])
    else if prim == 19
    then (if xo == 16 then pd_bclr else if xo == 528 then pd_bcctr else pd_bad)
    else (elim (find_primary prim) [ some p ↦ primary p | none ↦ pd_bad ])

-- The loop that fills `g_pd`, with the entries still to come and the address of the next.
unfoldable pub pd_fill : ℕ → Env → ℕ → Outcome (List PdEnt)
pd_fill zero env a = ok []
pd_fill (suc n) env a = memory_read_uint32 env a >>= λ insn.
    pd_fill n env (a + 4) >>= λ rest. ok (record { id = pd_decode insn; insn = insn } ∷ rest)

-- The `switch (e.id)`, with `pc` at CIA + 4.
unfoldable pub pd_dispatch : PdId → Machine → ℕ → ℕ → Outcome (Machine × ℕ)
pd_dispatch (primary p) m insn pc = primary_stmt p m insn pc
pd_dispatch (op31 op) m insn pc = keep_pc pc (op31_stmt op m insn)
pd_dispatch pd_bclr m insn pc = jump m (bclr m.cpu insn pc)
pd_dispatch pd_bcctr m insn pc = jump m (bcctr m.cpu insn pc)
pd_dispatch pd_bad m insn pc = ppc_illegal insn

-- `g_pd[pc >> 2]`.
unfoldable pub pd_fetch : List PdEnt → ℕ → Outcome PdEnt
pd_fetch g_pd pc = elim (get_elem? g_pd (shr32 pc 2)) [
  | some e ↦ ok e
  | none ↦ fatal Fault.out_of_bounds
]

unfoldable pub pd_loop : List PdEnt → ℕ → Machine → ℕ → Outcome Machine
pd_loop g_pd zero m pc = ok (store_pc m pc)
pd_loop g_pd (suc n) m pc =
    pd_fetch g_pd pc >>= λ e. pd_dispatch e.id m e.insn (add32 pc 4) >>= λ r. pd_loop g_pd n r.0 r.1

unfoldable pub ppc_run_pd : Machine → ℕ → Outcome Machine
ppc_run_pd m budget = pd_fill pd_entries m.mem 0 >>= λ g_pd. pd_loop g_pd budget m m.cpu.pc
