-- ===== src/Ppc/Invariant.antt =====
-- What every statement of ppc/ppc_ops.h keeps: the alignment and range of the pc, and the
-- always-zero slot of `ppc_t`.
use emu_core_bench.Base.{
  ℕ, zero, suc, ◌∙◌, ◌%◌, ◌^◌, ◌<◌, ◌≡◌, refl, arith, Bool, true, false, bit_and, bit_and-le,
  bit_and_word_aligned, bit_and_short_aligned, Bool-cases, inl, inr, ◌==◌, add32, sub32, shr32,
  sext16, Option, some, none, Outcome, After, After-bind, After-bind_all,
}
use emu_core_bench.Memory.{memory_read_uint32}
use emu_core_bench.Ppc.State.{Ppc, Machine}
use emu_core_bench.Ppc.Ops.{
  record0, set_crf, gen_addi, gen_mulli, gen_logic_d, gen_xo_arith, gen_x_logic, gen_srawi,
  gen_rlwinm, gen_cmp,
}
use emu_core_bench.Ppc.Transfer.{
  read_width, write_width, gen_load_d, gen_store_d, gen_load_x, gen_store_x, gen_mspr, gen_b,
  gen_bc, bc_taken, bclr, bcctr, link, ppc_illegal, spr_field,
}
use emu_core_bench.Ppc.Lists.{
  find_primary, Primary, primary_stmt, Op31, op31_stmt, do_op31, do_op19, find_op31, keep_pc,
}
use emu_core_bench.Ppc.Switch.{sw_case, sw_dispatch, sw_step, sw_loop, ppc_run_switch}

-- A branch target or the next address: a multiple of four on 32 bits.
abbrev pub IsPc : ℕ → Type 0
IsPc pc = (pc % 4 ≡ 0) × (pc < 2 ^ 32)

module _ (c : Ppc) (insn pc : ℕ) (h : IsPc pc) where
  target : (li : ℕ) → li % 4 ≡ 0 → IsPc (add32 (sub32 pc 4) li)
  target li h' = omega arith

  short_lt : sext16 (bit_and insn 0xFFFC) < 2 ^ 32
  short_lt = ground arith

  short_aligned : sext16 (bit_and insn 0xFFFC) % 4 ≡ 0
  short_aligned = ground (arith, bit_and_short_aligned insn, bit_and-le insn 0xFFFC)

  word_IsPc : (x : ℕ) → IsPc (bit_and x 0xFFFF_FFFC)
  word_IsPc x = omega (arith, bit_and_word_aligned x, bit_and-le x 0xFFFF_FFFC)

  gen_b-IsPc : IsPc (gen_b c insn pc).1
  unfolding gen_b
  gen_b-IsPc = elim (Bool-cases (bit_and insn 2 == 0)) [
    | inl e ↦ rw e (target _ (word_IsPc _).0)
    | inr e ↦ rw e (word_IsPc _)
  ]

  gen_bc-IsPc : IsPc (gen_bc c insn pc).1
  unfolding gen_bc
  gen_bc-IsPc = elim (Bool-cases (bc_taken c insn true).1) [
    | inr t ↦ rw t h
    | inl t ↦ elim (Bool-cases (bit_and insn 2 == 0)) [
      | inl e ↦ rw (t, e) (target _ short_aligned)
      | inr e ↦ rw (t, e) (short_aligned, short_lt)
    ]
  ]

  bclr-IsPc : IsPc (bclr c insn pc).1
  unfolding bclr
  bclr-IsPc = elim (Bool-cases (bc_taken c insn true).1) [
    | inr t ↦ rw t h
    | inl t ↦ rw t (word_IsPc _)
  ]

  bcctr-IsPc : IsPc (bcctr c insn pc).1
  unfolding bcctr
  bcctr-IsPc = elim (Bool-cases (bc_taken c insn false).1) [
    | inr t ↦ rw t h
    | inl t ↦ rw t (word_IsPc _)
  ]

  link-zero_base : (c' : Ppc) → (link c' insn pc).zero_base ≡ c'.zero_base
  link-zero_base c' = ground arith

  gen_b-zero_base : (gen_b c insn pc).0.zero_base ≡ c.zero_base
  unfolding gen_b
  gen_b-zero_base = link-zero_base c

  gen_bc-zero_base : (gen_bc c insn pc).0.zero_base ≡ c.zero_base
  unfolding gen_bc bc_taken
  gen_bc-zero_base = link-zero_base _

  bclr-zero_base : (bclr c insn pc).0.zero_base ≡ c.zero_base
  unfolding bclr bc_taken
  bclr-zero_base = link-zero_base _

  bcctr-zero_base : (bcctr c insn pc).0.zero_base ≡ c.zero_base
  unfolding bcctr bc_taken
  bcctr-zero_base = link-zero_base _

-- What a statement of opcode 31, a load or a store does not change.
abbrev pub KeepsZero : Ppc → Ppc → Type 0
KeepsZero c c' = c'.zero_base ≡ c.zero_base

abbrev pub SameZero : Ppc → Machine → Type 0
SameZero c m = KeepsZero c m.cpu

module _ (m : Machine) (insn : ℕ) where
  rlwinm-SameZero : KeepsZero m.cpu (gen_rlwinm m.cpu insn)
  unfolding gen_rlwinm record0 set_crf
  rlwinm-SameZero = elim (Bool-cases (bit_and insn 1 == 0)) [ inl e ↦ rw e | inr e ↦ rw e ]

  load_d-SameZero :
      (width : ℕ) (update : Bool) → After (gen_load_d m insn width update) (SameZero m.cpu)
  unfolding gen_load_d
  load_d-SameZero width true = After-bind_all (SameZero m.cpu) (read_width _ width _) _ (λ v. refl)
  load_d-SameZero width false = After-bind_all (SameZero m.cpu) (read_width _ width _) _ (λ v. refl)

  store_d-SameZero :
      (width : ℕ) (update : Bool) → After (gen_store_d m insn width update) (SameZero m.cpu)
  unfolding gen_store_d
  store_d-SameZero width true =
      After-bind_all (SameZero m.cpu) (write_width _ width _ _) _ (λ v. refl)
  store_d-SameZero width false =
      After-bind_all (SameZero m.cpu) (write_width _ width _ _) _ (λ v. refl)

  load_x-SameZero : (width : ℕ) → After (gen_load_x m insn width) (SameZero m.cpu)
  unfolding gen_load_x
  load_x-SameZero width = After-bind_all (SameZero m.cpu) (read_width _ width _) _ (λ v. refl)

  store_x-SameZero : (width : ℕ) → After (gen_store_x m insn width) (SameZero m.cpu)
  unfolding gen_store_x
  store_x-SameZero width = After-bind_all (SameZero m.cpu) (write_width _ width _ _) _ (λ v. refl)

  mspr-SameZero : (to_spr : Bool) → After (gen_mspr m.cpu insn to_spr) (KeepsZero m.cpu)
  unfolding gen_mspr
  mspr-SameZero to_spr = elim (Bool-cases (spr_field insn == 8)) [
    | inl e ↦ rw e (ground arith)
    | inr e ↦ elim (Bool-cases (spr_field insn == 9)) [
      | inl e' ↦ rw (e, e') (ground arith)
      | inr e' ↦ rw (e, e') tt
    ]
  ]

  op31-SameZero : (op : Op31) → After (op31_stmt op m insn) (SameZero m.cpu)
  unfolding op31_stmt gen_cmp gen_xo_arith gen_x_logic gen_srawi set_crf record0
  op31-SameZero Op31.cmpw = refl
  op31-SameZero Op31.lwzx = load_x-SameZero 4
  op31-SameZero Op31.lhzx = load_x-SameZero 2
  op31-SameZero Op31.lbzx = load_x-SameZero 1
  op31-SameZero Op31.stwx = store_x-SameZero 4
  op31-SameZero Op31.sthx = store_x-SameZero 2
  op31-SameZero Op31.stbx = store_x-SameZero 1
  op31-SameZero Op31.mfspr =
      After-bind (KeepsZero m.cpu) (SameZero m.cpu) (gen_mspr m.cpu insn false) _
        (mspr-SameZero false) (λ c h. h)
  op31-SameZero Op31.mtspr =
      After-bind (KeepsZero m.cpu) (SameZero m.cpu) (gen_mspr m.cpu insn true) _
        (mspr-SameZero true) (λ c h. h)
  op31-SameZero _ = refl

  do_op31-SameZero : After (do_op31 m insn) (SameZero m.cpu)
  unfolding do_op31
  do_op31-SameZero = by_case (find_op31 (bit_and insn 0x7FF))
    where
      by_case :
          (o : Option Op31)
          → After
              (elim o as (λ _. Outcome Machine) [
                | some op ↦ op31_stmt op m insn
                | none ↦ ppc_illegal insn
              ])
              (SameZero m.cpu)
      by_case (some op) = op31-SameZero op
      by_case none = tt

  -- A statement that leaves the pc alone.
  keep_pc-Sound :
      (pc : ℕ) (r : Outcome Machine)
      → IsPc pc
      → After r (SameZero m.cpu)
      → After (keep_pc pc r) (λ s. SameZero m.cpu s.0 × IsPc s.1)
  keep_pc-Sound pc r h k =
      After-bind (SameZero m.cpu) (λ s. SameZero m.cpu s.0 × IsPc s.1) r _ k (λ m' z. (z, h))

  do_op19-Sound :
      (pc : ℕ) → IsPc pc → After (do_op19 m insn pc) (λ s. SameZero m.cpu s.0 × IsPc s.1)
  unfolding do_op19
  do_op19-Sound pc h = elim (Bool-cases (bit_and (shr32 insn 1) 0x3FF == 16)) [
    | inl e ↦ rw e (bclr-zero_base m.cpu insn pc h, bclr-IsPc m.cpu insn pc h)
    | inr e ↦ elim (Bool-cases (bit_and (shr32 insn 1) 0x3FF == 528)) [
      | inl e' ↦ rw (e, e') (bcctr-zero_base m.cpu insn pc h, bcctr-IsPc m.cpu insn pc h)
      | inr e' ↦ rw (e, e') tt
    ]
  ]

  -- Every statement keeps the pc a multiple of four on 32 bits, and the always-zero slot.
  primary-Sound :
      (p : Primary) (pc : ℕ)
      → IsPc pc
      → After (primary_stmt p m insn pc) (λ s. SameZero m.cpu s.0 × IsPc s.1)
  unfolding primary_stmt gen_mulli gen_cmp gen_addi gen_logic_d gen_rlwinm set_crf record0
  primary-Sound Primary.mulli pc h = (refl, h)
  primary-Sound Primary.bc pc h = (gen_bc-zero_base m.cpu insn pc h, gen_bc-IsPc m.cpu insn pc h)
  primary-Sound Primary.b pc h = (gen_b-zero_base m.cpu insn pc h, gen_b-IsPc m.cpu insn pc h)
  primary-Sound Primary.grp19 pc h = do_op19-Sound pc h
  primary-Sound Primary.rlwinm pc h = (rlwinm-SameZero, h)
  primary-Sound Primary.grp31 pc h = keep_pc-Sound pc _ h do_op31-SameZero
  primary-Sound Primary.lwz pc h = keep_pc-Sound pc _ h (load_d-SameZero 4 false)
  primary-Sound Primary.lwzu pc h = keep_pc-Sound pc _ h (load_d-SameZero 4 true)
  primary-Sound Primary.lbz pc h = keep_pc-Sound pc _ h (load_d-SameZero 1 false)
  primary-Sound Primary.stw pc h = keep_pc-Sound pc _ h (store_d-SameZero 4 false)
  primary-Sound Primary.stwu pc h = keep_pc-Sound pc _ h (store_d-SameZero 4 true)
  primary-Sound Primary.stb pc h = keep_pc-Sound pc _ h (store_d-SameZero 1 false)
  primary-Sound Primary.lhz pc h = keep_pc-Sound pc _ h (load_d-SameZero 2 false)
  primary-Sound Primary.sth pc h = keep_pc-Sound pc _ h (store_d-SameZero 2 false)
  primary-Sound _ pc h = (refl, h)

  -- Whatever the word, if the switch returns then the next pc is again a multiple of four on 32
  -- bits, and the always-zero slot of the state is as it was.
  pub sw_dispatch-Sound :
      (pc : ℕ) → IsPc pc → After (sw_dispatch m insn pc) (λ s. SameZero m.cpu s.0 × IsPc s.1)
  unfolding sw_dispatch
  sw_dispatch-Sound pc h = by_case (find_primary (shr32 insn 26))
    where
      by_case :
          (o : Option Primary) → After (sw_case o m insn pc) (λ s. SameZero m.cpu s.0 × IsPc s.1)
      by_case (some p) = unfold sw_case in primary-Sound p pc h
      by_case none = unfold sw_case in tt

abbrev pub Sound : Ppc → Machine × ℕ → Type 0
Sound c s = SameZero c s.0 × IsPc s.1

pub sw_step-Sound : (m : Machine) (pc : ℕ) → IsPc pc → After (sw_step m pc) (Sound m.cpu)
unfolding sw_step
sw_step-Sound m pc h =
    After-bind_all (Sound m.cpu) (memory_read_uint32 m.mem pc) _
      (λ insn. sw_dispatch-Sound m insn (add32 pc 4) (omega arith))

sw_loop-Sound :
    (n : ℕ) (m : Machine) (pc z : ℕ)
    → m.cpu.zero_base ≡ z
    → IsPc pc
    → After (sw_loop n m pc) (λ m'. (m'.cpu.zero_base ≡ z) × IsPc m'.cpu.pc)
unfolding sw_loop
sw_loop-Sound zero m pc z e h = (e, h)
sw_loop-Sound (suc n) m pc z e h =
    After-bind (Sound m.cpu) (λ m'. (m'.cpu.zero_base ≡ z) × IsPc m'.cpu.pc) (sw_step m pc) _
      (sw_step-Sound m pc h) (λ r k. sw_loop-Sound n r.0 r.1 z (k.0 ∙ e) k.1)

-- A run of the switch backend from a word-aligned 32-bit pc that returns leaves such a pc, and
-- the always-zero slot as it was, for every budget and whatever the code.
pub run_switch-IsPc :
    (m : Machine) (budget : ℕ)
    → IsPc m.cpu.pc
    → After (ppc_run_switch m budget) (λ m'. (m'.cpu.zero_base ≡ m.cpu.zero_base) × IsPc m'.cpu.pc)
unfolding ppc_run_switch
run_switch-IsPc m budget h = sw_loop-Sound budget m m.cpu.pc m.cpu.zero_base refl h
