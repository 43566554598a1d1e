-- ===== src/Ppc/Transfer.antt =====
-- The loads and stores, the branches and the moves of special registers of ppc/ppc_ops.h.
use emu_core_bench.Base.{
  ℕ, ◌-◌, Bool, true, false, not, xor, ◌&&◌, ◌||◌, bit_and, bit_or, ◌==◌, if◌then◌else◌, Fault,
  Outcome, ok, fatal, ◌>>=◌, u8, u16, add32, sub32, shl32, shr32, sext16, asr32,
}
use emu_core_bench.Memory.{
  Env, memory_read_uint8, memory_read_uint16, memory_read_uint32, memory_write_uint8,
  memory_write_uint16, memory_write_uint32,
}
use emu_core_bench.Ppc.State.{Ppc, Machine, set_gpr}
use emu_core_bench.Ppc.Ops.{p_rd, p_ra, p_rb, p_simm, base_or_zero}

-- `(width == 4) ? memory_read_uint32(ea) : (width == 2) ? … : …`, and the same for a store.
unfoldable pub read_width : Env → ℕ → ℕ → Outcome ℕ
read_width env width ea =
    if width == 4
    then memory_read_uint32 env ea
    else if width == 2
    then memory_read_uint16 env ea
    else memory_read_uint8 env ea

unfoldable pub write_width : Env → ℕ → ℕ → ℕ → Outcome Env
write_width env width ea v =
    if width == 4
    then memory_write_uint32 env ea v
    else if width == 2
    then memory_write_uint16 env ea (u16 v)
    else memory_write_uint8 env ea (u8 v)

unfoldable pub gen_load_d : Machine → ℕ → ℕ → Bool → Outcome Machine
gen_load_d m insn width update =
    let ra = p_ra insn in
    let ea = add32 (base_or_zero m.cpu ra) (p_simm insn) in
    read_width m.mem width ea >>= λ v.
    let c = set_gpr m.cpu (p_rd insn) v in
    ok (record m { cpu = if update then set_gpr c ra ea else c })

unfoldable pub gen_store_d : Machine → ℕ → ℕ → Bool → Outcome Machine
gen_store_d m insn width update =
    let ra = p_ra insn in
    let ea = add32 (base_or_zero m.cpu ra) (p_simm insn) in
    write_width m.mem width ea (m.cpu.gpr (p_rd insn)) >>= λ mem.
    ok (record { cpu = if update then set_gpr m.cpu ra ea else m.cpu; mem = mem })

unfoldable pub gen_load_x : Machine → ℕ → ℕ → Outcome Machine
gen_load_x m insn width =
    let ea = add32 (base_or_zero m.cpu (p_ra insn)) (m.cpu.gpr (p_rb insn)) in
    read_width m.mem width ea >>= λ v. ok (record m { cpu = set_gpr m.cpu (p_rd insn) v })

unfoldable pub gen_store_x : Machine → ℕ → ℕ → Outcome Machine
gen_store_x m insn width =
    let ea = add32 (base_or_zero m.cpu (p_ra insn)) (m.cpu.gpr (p_rb insn)) in
    write_width m.mem width ea (m.cpu.gpr (p_rd insn)) >>= λ mem. ok (record m { mem = mem })

-- `c->lr = pc` under the LK bit.
abbrev pub link : Ppc → ℕ → ℕ → Ppc
link c insn pc = if bit_and insn 1 == 0 then c else record c { lr = pc }

-- `((int32_t)(insn << 6) >> 6) & ~3`.
abbrev pub branch_offset : ℕ → ℕ
branch_offset insn = bit_and (asr32 (shl32 insn 6) 6) 0xFFFF_FFFC

-- A branch gives the new state and the address of the next instruction.
unfoldable pub gen_b : Ppc → ℕ → ℕ → Ppc × ℕ
gen_b c insn pc =
    let li = branch_offset insn in
    (link c insn pc, if bit_and insn 2 == 0 then add32 (sub32 pc 4) li else li)

unfoldable pub bc_taken : Ppc → ℕ → Bool → Ppc × Bool
bc_taken c insn allow_ctr =
    let bo = p_rd insn in
    let bi = p_ra insn in
    let counts = allow_ctr && bit_and bo 4 == 0 in
    let ctr : ℕ = if counts then sub32 c.ctr 1 else c.ctr in
    let ctr_ok =
      if counts then xor (not (ctr == 0)) (not (bit_and (shr32 bo 1) 1 == 0)) else true in
    let cond_ok =
      not (bit_and bo 16 == 0) || bit_and (shr32 c.cr (31 - bi)) 1 == bit_and (shr32 bo 3) 1 in
    (record c { ctr = ctr }, ctr_ok && cond_ok)

unfoldable pub gen_bc : Ppc → ℕ → ℕ → Ppc × ℕ
gen_bc c insn pc =
    let (c', taken) = bc_taken c insn true in
    let bd = sext16 (bit_and insn 0xFFFC) in
    (
      link c' insn pc,
      if taken then (if bit_and insn 2 == 0 then add32 (sub32 pc 4) bd else bd) else pc,
    )

-- The cases 16 and 528 of `do_op19`.
unfoldable pub bclr : Ppc → ℕ → ℕ → Ppc × ℕ
bclr c insn pc =
    let (c', taken) = bc_taken c insn true in
    let target = bit_and c'.lr 0xFFFF_FFFC in (link c' insn pc, if taken then target else pc)

unfoldable pub bcctr : Ppc → ℕ → ℕ → Ppc × ℕ
bcctr c insn pc =
    let (c', taken) = bc_taken c insn false in
    let c'' = link c' insn pc in (c'', if taken then bit_and c''.ctr 0xFFFF_FFFC else pc)

-- `ppc_illegal` ends the process. The pc that its diagnostic adds is not modelled.
abbrev pub ppc_illegal {ℓ} : {A : Type ℓ} → ℕ → Outcome A
ppc_illegal insn = fatal (Fault.illegal insn)

-- The register number of mfspr and mtspr, its two halves swapped.
abbrev pub spr_field : ℕ → ℕ
spr_field insn = bit_or (bit_and (shr32 insn 16) 31) (shl32 (bit_and (shr32 insn 11) 31) 5)

unfoldable pub gen_mspr : Ppc → ℕ → Bool → Outcome Ppc
gen_mspr c insn to_spr =
    let spr = spr_field insn in
    let rd = p_rd insn in
    if spr == 8
    then ok (if to_spr then record c { lr = c.gpr rd } else set_gpr c rd c.lr)
    else if spr == 9
    then ok (if to_spr then record c { ctr = c.gpr rd } else set_gpr c rd c.ctr)
    else ppc_illegal insn
