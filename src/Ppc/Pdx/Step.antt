-- ===== src/Ppc/Pdx/Step.antt =====
-- One entry of ppc/ppc_pdx_impl.h against one round of ppc/ppc_switch.c.
use emu_core_bench.Base.{
  ℕ, ◌+◌, ◌-◌, ◌%◌, ◌<◌, ◌≡◌, refl, arith, Bool, true, false, ◌&&◌, not, xor, sext16, bit_and,
  bit_and-le, bit_and_three, eq_of_==, Bool-cases, inl, inr, ◌==◌, if◌then◌else◌, add32, sub32,
  shr32, ok, bind_assoc, Option, some, none, key-find_case,
}
use emu_core_bench.Ppc.State.{Ppc, Machine}
use emu_core_bench.Ppc.Ops.{
  p_rd, p_ra, set_crf, gen_addi, gen_mulli, gen_logic_d, gen_rlwinm, gen_cmp,
}
use emu_core_bench.Ppc.Transfer.{
  read_width, write_width, gen_load_d, gen_store_d, gen_b, gen_bc, bc_taken,
}
use emu_core_bench.Ppc.Lists.{
  keep_pc, Primary, primary_key, primary_stmt, Op31, op31_key, do_op31, find_op31, jump, ppc_op31,
}
use emu_core_bench.Ppc.Pdx.Decode.{
  decode_primary, decode31, decode_bc, decode_b, decode_rlwinm, fresh,
}
use emu_core_bench.Ppc.Pdx.Exec.{generic, exec_id, pdx_exec}
use emu_core_bench.Ppc.Pdx.Leaves.{fields, exec31}
use emu_core_bench.Ppc.Pdx.Fields.{u8-bi, next_cur, rebuilt_pc_lem, cia_lem, li_simm, lis_simm}

bo_16 : (bo bi : ℕ) → (bo == 16 && bi == 0) ≡ true → bo ≡ 16
bo_16 bo bi h = ground arith

bdnz_bits : (b : Bool) {c : Ppc} → ◌≡◌ {A = Ppc × Bool} (c, xor (not b) false && true) (c, not b)
unfolding xor
bdnz_bits true = refl
bdnz_bits false = refl

op31_of_key : (key : ℕ) (op : Op31) → find_op31 key ≡ some op → key ≡ op31_key op
unfolding find_op31
op31_of_key key op = key-find_case op31_key ppc_op31 key op

decode31-none : (key insn : ℕ) → find_op31 key ≡ none → decode31 key insn ≡ fresh insn
unfolding find_op31 decode31
decode31-none key insn h = ground arith

module _ (m : Machine) (insn addr : ℕ) (inside : addr < 0x4_0000) (aligned : addr % 4 ≡ 0)
    (zero : m.cpu.zero_base ≡ 0) where
  next : shr32 (add32 addr 4) 2 ≡ shr32 addr 2 + 1
  next = next_cur addr inside aligned

  exec_rlwinm :
      (wide : Bool)
      → pdx_exec wide (decode_rlwinm wide insn) m (shr32 addr 2)
        ≡ ok (record m { cpu = gen_rlwinm m.cpu insn }, shr32 (add32 addr 4) 2)
  unfolding pdx_exec exec_id decode_rlwinm gen_rlwinm
  exec_rlwinm true = elim (Bool-cases (bit_and insn 1 == 0)) [
    | inl e ↦ rw e (simp (fields, next))
    | inr e ↦ rw e (simp (fields, next))
  ]
  exec_rlwinm false = elim (Bool-cases (bit_and insn 1 == 0)) [
    | inl e ↦ rw e (simp (fields, next))
    | inr e ↦ rw e (simp (fields, next))
  ]

  exec_b :
      (wide : Bool)
      → pdx_exec wide (decode_b addr insn) m (shr32 addr 2)
        ≡ generic (jump m (gen_b m.cpu insn (add32 addr 4)))
  unfolding pdx_exec exec_id decode_b gen_b
  exec_b wide = elim (Bool-cases (bit_and insn 3 == 0)) [
    | inl e ↦
        let (lk, aa) = bit_and_three insn (eq_of_== _ _ e) in
        rw (e, lk, aa, cia_lem addr inside aligned)
    | inr e ↦ rw (e, rebuilt_pc_lem addr inside aligned)
  ]

  gen_bc_plain :
      (bit_and insn 3 == 0) ≡ true
      → gen_bc m.cpu insn (add32 addr 4) ≡ (
        (bc_taken m.cpu insn true).0,
        if (bc_taken m.cpu insn true).1
            then add32 addr (sext16 (bit_and insn 0xFFFC))
            else add32 addr 4,
      )
  unfolding gen_bc
  gen_bc_plain e =
      let (lk, aa) = bit_and_three insn (eq_of_== _ _ e) in rw (lk, aa, cia_lem addr inside aligned)

  bc_taken_bdnz :
      p_rd insn ≡ 16
      → bc_taken m.cpu insn true
        ≡ (record m.cpu { ctr = sub32 m.cpu.ctr 1 }, not (sub32 m.cpu.ctr 1 == 0))
  unfolding bc_taken
  bc_taken_bdnz h = rw h (bdnz_bits (sub32 m.cpu.ctr 1 == 0))

  bc_taken-true :
      p_rd insn ≡ 12
      → bc_taken m.cpu insn true ≡ (m.cpu, bit_and (shr32 m.cpu.cr (31 - p_ra insn)) 1 == 1)
  unfolding bc_taken
  bc_taken-true h = rw h

  bc_taken-false :
      p_rd insn ≡ 4
      → bc_taken m.cpu insn true ≡ (m.cpu, bit_and (shr32 m.cpu.cr (31 - p_ra insn)) 1 == 0)
  unfolding bc_taken
  bc_taken-false h = rw h

  exec_bc :
      (wide : Bool)
      → pdx_exec wide (decode_bc addr insn) m (shr32 addr 2)
        ≡ generic (jump m (gen_bc m.cpu insn (add32 addr 4)))
  unfolding pdx_exec exec_id decode_bc
  exec_bc wide = elim (Bool-cases (bit_and insn 3 == 0)) [
    | inr e ↦ rw (e, rebuilt_pc_lem addr inside aligned)
    | inl e ↦ elim (Bool-cases (p_rd insn == 16 && p_ra insn == 0)) [
      | inl h ↦ rw (e, h, gen_bc_plain e, bc_taken_bdnz (bo_16 _ _ h)) (ground (arith, next))
      | inr h ↦ elim (Bool-cases (p_rd insn == 12)) [
        | inl h' ↦
            rw (e, h, h', gen_bc_plain e, bc_taken-true (eq_of_== _ _ h'), u8-bi insn)
              (ground (arith, next, bit_and-le (shr32 m.cpu.cr (31 - p_ra insn)) 1))
        | inr h' ↦ elim (Bool-cases (p_rd insn == 4)) [
          | inl h'' ↦
              rw (e, h, h', h'', gen_bc_plain e, bc_taken-false (eq_of_== _ _ h''), u8-bi insn)
                (ground (arith, next, bit_and-le (shr32 m.cpu.cr (31 - p_ra insn)) 1))
          | inr h'' ↦ rw (e, h, h', h'', rebuilt_pc_lem addr inside aligned)
        ]
      ]
    ]
  ]

  exec_grp31 :
      (wide : Bool)
      → pdx_exec wide (decode31 (bit_and insn 0x7FF) insn) m (shr32 addr 2)
        ≡ generic (keep_pc (add32 addr 4) (do_op31 m insn))
  unfolding do_op31
  exec_grp31 wide = by_case (find_op31 (bit_and insn 0x7FF)) refl
    where
      by_case :
          (o : Option Op31)
          → find_op31 (bit_and insn 0x7FF) ≡ o
          → pdx_exec wide (decode31 (bit_and insn 0x7FF) insn) m (shr32 addr 2)
            ≡ generic (keep_pc (add32 addr 4) (do_op31 m insn))
      by_case (some op) e =
          rw (e, do_op31, op31_of_key _ op e, bind_assoc)
            (exec31 m insn addr inside aligned zero wide op)
      by_case none e = rw (e, do_op31, decode31-none _ insn e) (unfold pdx_exec exec_id in refl)

  -- Each primary opcode does what its entry does, if an update form names a base register.
  pub exec_primary :
      (wide : Bool) (p : Primary)
      → (p ≡ Primary.lwzu → (p_ra insn == 0) ≡ false)
      → (p ≡ Primary.stwu → (p_ra insn == 0) ≡ false)
      → pdx_exec wide (decode_primary wide (primary_key p) addr insn) m (shr32 addr 2)
        ≡ generic (primary_stmt p m insn (add32 addr 4))
  unfolding pdx_exec exec_id decode_primary primary_stmt
  exec_primary wide Primary.mulli l s = unfold gen_mulli in simp (fields, next)
  exec_primary wide Primary.cmplwi l s = unfold gen_cmp set_crf in simp (fields, next)
  exec_primary wide Primary.cmpwi l s = unfold gen_cmp set_crf in simp (fields, next)
  exec_primary wide Primary.addi l s = elim (Bool-cases (p_ra insn == 0)) [
    | inl e ↦ unfold gen_addi in rw e (simp (fields, next, li_simm))
    | inr e ↦ unfold gen_addi in rw e (simp (fields, next))
  ]
  exec_primary wide Primary.addis l s = elim (Bool-cases (p_ra insn == 0)) [
    | inl e ↦ unfold gen_addi in rw e (simp (fields, next, lis_simm))
    | inr e ↦ unfold gen_addi in rw e (simp (fields, next))
  ]
  exec_primary wide Primary.bc l s = exec_bc wide
  exec_primary wide Primary.b l s = exec_b wide
  exec_primary wide Primary.grp19 l s = rw (rebuilt_pc_lem addr inside aligned)
  exec_primary wide Primary.rlwinm l s = exec_rlwinm wide
  exec_primary wide Primary.ori l s = unfold gen_logic_d in simp (fields, next)
  exec_primary wide Primary.oris l s = unfold gen_logic_d in simp (fields, next)
  exec_primary wide Primary.xori l s = unfold gen_logic_d in simp (fields, next)
  exec_primary wide Primary.andi_rc l s = unfold gen_logic_d in simp (fields, next)
  exec_primary wide Primary.grp31 l s = exec_grp31 wide
  exec_primary wide Primary.lwz l s = unfold gen_load_d read_width in simp (fields, next, zero)
  exec_primary wide Primary.lwzu l s =
      unfold gen_load_d read_width in rw (l refl) (simp (fields, next))
  exec_primary wide Primary.lbz l s = unfold gen_load_d read_width in simp (fields, next, zero)
  exec_primary wide Primary.stw l s = unfold gen_store_d write_width in simp (fields, next, zero)
  exec_primary wide Primary.stwu l s =
      unfold gen_store_d write_width in rw (s refl) (simp (fields, next))
  exec_primary wide Primary.stb l s = unfold gen_store_d write_width in simp (fields, next, zero)
  exec_primary wide Primary.lhz l s = unfold gen_load_d read_width in simp (fields, next, zero)
  exec_primary wide Primary.sth l s = unfold gen_store_d write_width in simp (fields, next, zero)
