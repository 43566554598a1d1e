-- ===== src/Ppc/Lists.antt =====
-- The X-macro lists of ppc/ppc_ops.h: an entry is a constructor, with its key and its statement,
-- and each backend expands the same lists. A statement has `c`, `insn` and `pc` in scope, the
-- last one being CIA + 4, and gives the machine and the pc that it leaves.
use emu_core_bench.Base.{
  ℕ, true, false, bit_and, shr32, Option, none, some, List, [], ◌∷◌, ◌==◌, if◌then◌else◌, Outcome,
  ok, ◌>>=◌, find_case,
}
use emu_core_bench.Ppc.State.{Ppc, Machine}
use emu_core_bench.Ppc.Ops.{
  Kind, gen_addi, gen_mulli, gen_logic_d, gen_xo_arith, gen_x_logic, gen_srawi, gen_rlwinm, gen_cmp,
}
use emu_core_bench.Ppc.Transfer.{
  gen_load_d, gen_store_d, gen_load_x, gen_store_x, gen_b, gen_bc, bclr, bcctr, ppc_illegal,
  gen_mspr,
}

-- A register body, and a branch, as statements over the machine.
abbrev pub on_cpu : Machine → Ppc → Outcome Machine
on_cpu m c = ok (record m { cpu = c })

abbrev pub jump : Machine → Ppc × ℕ → Outcome (Machine × ℕ)
jump m (c, pc) = ok (record m { cpu = c }, pc)

abbrev pub keep_pc : ℕ → Outcome Machine → Outcome (Machine × ℕ)
keep_pc pc r = r >>= λ m. ok (m, pc)

-- `PPC_OP31`.
pub data Op31 : Type 0 where
  cmpw cmplw add add_rc subf subf_rc mullw mullw_rc : Op31
  and and_rc or or_rc xor xor_rc slw srw srawi srawi_rc : Op31
  lwzx lhzx lbzx stwx sthx stbx mfspr mtspr : Op31

abbrev pub op31_key : Op31 → ℕ
op31_key cmpw = 0
op31_key cmplw = 64
op31_key add = 532
op31_key add_rc = 533
op31_key subf = 80
op31_key subf_rc = 81
op31_key mullw = 470
op31_key mullw_rc = 471
op31_key and = 56
op31_key and_rc = 57
op31_key or = 888
op31_key or_rc = 889
op31_key xor = 632
op31_key xor_rc = 633
op31_key slw = 48
op31_key srw = 1072
op31_key srawi = 1648
op31_key srawi_rc = 1649
op31_key lwzx = 46
op31_key lhzx = 558
op31_key lbzx = 174
op31_key stwx = 302
op31_key sthx = 814
op31_key stbx = 430
op31_key mfspr = 678
op31_key mtspr = 934

abbrev pub ppc_op31 : List Op31
ppc_op31 =
    cmpw ∷ cmplw ∷ add ∷ add_rc ∷ subf ∷ subf_rc ∷ mullw ∷ mullw_rc ∷ and ∷ and_rc ∷ or ∷ or_rc
    ∷ xor ∷ xor_rc ∷ slw ∷ srw ∷ srawi ∷ srawi_rc ∷ lwzx ∷ lhzx ∷ lbzx ∷ stwx ∷ sthx ∷ stbx ∷ mfspr
    ∷ mtspr ∷ []

unfoldable pub op31_stmt : Op31 → Machine → ℕ → Outcome Machine
op31_stmt cmpw m insn = on_cpu m (gen_cmp m.cpu insn false false)
op31_stmt cmplw m insn = on_cpu m (gen_cmp m.cpu insn false true)
op31_stmt add m insn = on_cpu m (gen_xo_arith m.cpu insn Kind.k_add false)
op31_stmt add_rc m insn = on_cpu m (gen_xo_arith m.cpu insn Kind.k_add true)
op31_stmt subf m insn = on_cpu m (gen_xo_arith m.cpu insn Kind.k_subf false)
op31_stmt subf_rc m insn = on_cpu m (gen_xo_arith m.cpu insn Kind.k_subf true)
op31_stmt mullw m insn = on_cpu m (gen_xo_arith m.cpu insn Kind.k_mullw false)
op31_stmt mullw_rc m insn = on_cpu m (gen_xo_arith m.cpu insn Kind.k_mullw true)
op31_stmt and m insn = on_cpu m (gen_x_logic m.cpu insn Kind.k_and false)
op31_stmt and_rc m insn = on_cpu m (gen_x_logic m.cpu insn Kind.k_and true)
op31_stmt or m insn = on_cpu m (gen_x_logic m.cpu insn Kind.k_or false)
op31_stmt or_rc m insn = on_cpu m (gen_x_logic m.cpu insn Kind.k_or true)
op31_stmt xor m insn = on_cpu m (gen_x_logic m.cpu insn Kind.k_xor false)
op31_stmt xor_rc m insn = on_cpu m (gen_x_logic m.cpu insn Kind.k_xor true)
op31_stmt slw m insn = on_cpu m (gen_x_logic m.cpu insn Kind.k_slw false)
op31_stmt srw m insn = on_cpu m (gen_x_logic m.cpu insn Kind.k_srw false)
op31_stmt srawi m insn = on_cpu m (gen_srawi m.cpu insn false)
op31_stmt srawi_rc m insn = on_cpu m (gen_srawi m.cpu insn true)
op31_stmt lwzx m insn = gen_load_x m insn 4
op31_stmt lhzx m insn = gen_load_x m insn 2
op31_stmt lbzx m insn = gen_load_x m insn 1
op31_stmt stwx m insn = gen_store_x m insn 4
op31_stmt sthx m insn = gen_store_x m insn 2
op31_stmt stbx m insn = gen_store_x m insn 1
op31_stmt mfspr m insn = gen_mspr m.cpu insn false >>= on_cpu m
op31_stmt mtspr m insn = gen_mspr m.cpu insn true >>= on_cpu m

-- The case that `switch (insn & 0x7FF)` selects, and the nested switch.
unfoldable pub find_op31 : ℕ → Option Op31
find_op31 = find_case op31_key ppc_op31

unfoldable pub do_op31 : Machine → ℕ → Outcome Machine
do_op31 m insn = elim (find_op31 (bit_and insn 0x7FF)) [
  | some op ↦ op31_stmt op m insn
  | none ↦ ppc_illegal insn
]

-- The switch on the extended opcode of the branches to a register.
unfoldable pub do_op19 : Machine → ℕ → ℕ → Outcome (Machine × ℕ)
do_op19 m insn pc =
    let xo = bit_and (shr32 insn 1) 0x3FF in
    if xo == 16
    then jump m (bclr m.cpu insn pc)
    else if xo == 528
    then jump m (bcctr m.cpu insn pc)
    else ppc_illegal insn

-- `PPC_PRIMARY`.
pub data Primary : Type 0 where
  mulli cmplwi cmpwi addi addis bc b grp19 rlwinm ori oris xori andi_rc grp31 : Primary
  lwz lwzu lbz stw stwu stb lhz sth : Primary

abbrev pub primary_key : Primary → ℕ
primary_key mulli = 7
primary_key cmplwi = 10
primary_key cmpwi = 11
primary_key addi = 14
primary_key addis = 15
primary_key bc = 16
primary_key b = 18
primary_key grp19 = 19
primary_key rlwinm = 21
primary_key ori = 24
primary_key oris = 25
primary_key xori = 26
primary_key andi_rc = 28
primary_key grp31 = 31
primary_key lwz = 32
primary_key lwzu = 33
primary_key lbz = 34
primary_key stw = 36
primary_key stwu = 37
primary_key stb = 38
primary_key lhz = 40
primary_key sth = 44

abbrev pub ppc_primary : List Primary
ppc_primary =
    mulli ∷ cmplwi ∷ cmpwi ∷ addi ∷ addis ∷ bc ∷ b ∷ grp19 ∷ rlwinm ∷ ori ∷ oris ∷ xori ∷ andi_rc
    ∷ grp31 ∷ lwz ∷ lwzu ∷ lbz ∷ stw ∷ stwu ∷ stb ∷ lhz ∷ sth ∷ []

-- The case that `switch (insn >> 26)` selects.
unfoldable pub find_primary : ℕ → Option Primary
find_primary = find_case primary_key ppc_primary

unfoldable pub primary_stmt : Primary → Machine → ℕ → ℕ → Outcome (Machine × ℕ)
primary_stmt mulli m insn pc = keep_pc pc (on_cpu m (gen_mulli m.cpu insn))
primary_stmt cmplwi m insn pc = keep_pc pc (on_cpu m (gen_cmp m.cpu insn true true))
primary_stmt cmpwi m insn pc = keep_pc pc (on_cpu m (gen_cmp m.cpu insn true false))
primary_stmt addi m insn pc = keep_pc pc (on_cpu m (gen_addi m.cpu insn false))
primary_stmt addis m insn pc = keep_pc pc (on_cpu m (gen_addi m.cpu insn true))
primary_stmt bc m insn pc = jump m (gen_bc m.cpu insn pc)
primary_stmt b m insn pc = jump m (gen_b m.cpu insn pc)
primary_stmt grp19 m insn pc = do_op19 m insn pc
primary_stmt rlwinm m insn pc = keep_pc pc (on_cpu m (gen_rlwinm m.cpu insn))
primary_stmt ori m insn pc = keep_pc pc (on_cpu m (gen_logic_d m.cpu insn Kind.k_or false false))
primary_stmt oris m insn pc = keep_pc pc (on_cpu m (gen_logic_d m.cpu insn Kind.k_or true false))
primary_stmt xori m insn pc = keep_pc pc (on_cpu m (gen_logic_d m.cpu insn Kind.k_xor false false))
primary_stmt andi_rc m insn pc =
    keep_pc pc (on_cpu m (gen_logic_d m.cpu insn Kind.k_and false true))
primary_stmt grp31 m insn pc = keep_pc pc (do_op31 m insn)
primary_stmt lwz m insn pc = keep_pc pc (gen_load_d m insn 4 false)
primary_stmt lwzu m insn pc = keep_pc pc (gen_load_d m insn 4 true)
primary_stmt lbz m insn pc = keep_pc pc (gen_load_d m insn 1 false)
primary_stmt stw m insn pc = keep_pc pc (gen_store_d m insn 4 false)
primary_stmt stwu m insn pc = keep_pc pc (gen_store_d m insn 4 true)
primary_stmt stb m insn pc = keep_pc pc (gen_store_d m insn 1 false)
primary_stmt lhz m insn pc = keep_pc pc (gen_load_d m insn 2 false)
primary_stmt sth m insn pc = keep_pc pc (gen_store_d m insn 2 false)
