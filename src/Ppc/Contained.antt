-- ===== src/Ppc/Contained.antt =====
-- What a run of ppc/ppc_switch.c keeps of the memory, from what every store keeps.
use emu_core_bench.Base.{
  ℕ, zero, suc, Bool, true, false, Bool-cases, inl, inr, ◌==◌, bit_and, shr32, Option, some, none,
  u8, u16, Outcome, After, After-bind, After-bind_all,
}
use emu_core_bench.Memory.{Env, memory_read_uint32}
use emu_core_bench.Memory.Flat.{IsFlat}
use emu_core_bench.Memory.Contained.{
  Contained, Contained-refl, write_uint8-Contained, write_uint16-Contained, write_uint32-Contained,
}
use emu_core_bench.Ppc.State.{Machine}
use emu_core_bench.Ppc.Transfer.{
  read_width, write_width, gen_load_d, gen_store_d, gen_load_x, gen_store_x, gen_mspr, ppc_illegal,
}
use emu_core_bench.Ppc.Lists.{
  find_primary, Primary, primary_stmt, Op31, op31_stmt, do_op31, do_op19, find_op31, keep_pc,
}
use emu_core_bench.Ppc.Switch.{sw_case, sw_dispatch, sw_step, sw_loop, ppc_run_switch}

-- A condition on the memory that every store keeps.
module _ (Q : Env → Type 0)
    (store : (env : Env) (width ea v : ℕ) → Q env → After (write_width env width ea v) Q) where
  abbrev Holds : Machine → Type 0
  Holds m = Q m.mem

  module _ (m : Machine) (insn : ℕ) (h : Q m.mem) where
    load_d-Holds : (width : ℕ) (update : Bool) → After (gen_load_d m insn width update) Holds
    unfolding gen_load_d
    load_d-Holds width update = After-bind_all Holds (read_width _ width _) _ (λ v. h)

    store_d-Holds : (width : ℕ) (update : Bool) → After (gen_store_d m insn width update) Holds
    unfolding gen_store_d
    store_d-Holds width update =
        After-bind Q Holds (write_width _ width _ _) _ (store _ width _ _ h) (λ mem q. q)

    load_x-Holds : (width : ℕ) → After (gen_load_x m insn width) Holds
    unfolding gen_load_x
    load_x-Holds width = After-bind_all Holds (read_width _ width _) _ (λ v. h)

    store_x-Holds : (width : ℕ) → After (gen_store_x m insn width) Holds
    unfolding gen_store_x
    store_x-Holds width =
        After-bind Q Holds (write_width _ width _ _) _ (store _ width _ _ h) (λ mem q. q)

    op31-Holds : (op : Op31) → After (op31_stmt op m insn) Holds
    unfolding op31_stmt
    op31-Holds Op31.lwzx = load_x-Holds 4
    op31-Holds Op31.lhzx = load_x-Holds 2
    op31-Holds Op31.lbzx = load_x-Holds 1
    op31-Holds Op31.stwx = store_x-Holds 4
    op31-Holds Op31.sthx = store_x-Holds 2
    op31-Holds Op31.stbx = store_x-Holds 1
    op31-Holds Op31.mfspr = After-bind_all Holds (gen_mspr m.cpu insn false) _ (λ c. h)
    op31-Holds Op31.mtspr = After-bind_all Holds (gen_mspr m.cpu insn true) _ (λ c. h)
    op31-Holds _ = h

    find-Holds :
        (o : Option Op31)
        → After
            (elim o as (λ _. Outcome Machine) [
              | some op ↦ op31_stmt op m insn
              | none ↦ ppc_illegal insn
            ])
            Holds
    find-Holds (some op) = op31-Holds op
    find-Holds none = tt

    do_op31-Holds : After (do_op31 m insn) Holds
    unfolding do_op31
    do_op31-Holds = find-Holds (find_op31 (bit_and insn 0x7FF))

    do_op19-Holds : (pc : ℕ) → After (do_op19 m insn pc) (λ s. Q s.0.mem)
    unfolding do_op19
    do_op19-Holds pc = elim (Bool-cases (bit_and (shr32 insn 1) 0x3FF == 16)) [
      | inl e ↦ rw e h
      | inr e ↦ elim (Bool-cases (bit_and (shr32 insn 1) 0x3FF == 528)) [
        | inl e' ↦ rw (e, e') h
        | inr e' ↦ rw (e, e') tt
      ]
    ]

    keep_pc-Holds :
        (pc : ℕ) (r : Outcome Machine) → After r Holds → After (keep_pc pc r) (λ s. Q s.0.mem)
    keep_pc-Holds pc r k = After-bind Holds (λ s. Q s.0.mem) r _ k (λ m' q. q)

    primary-Holds : (p : Primary) (pc : ℕ) → After (primary_stmt p m insn pc) (λ s. Q s.0.mem)
    unfolding primary_stmt
    primary-Holds Primary.grp19 pc = do_op19-Holds pc
    primary-Holds Primary.grp31 pc = keep_pc-Holds pc _ do_op31-Holds
    primary-Holds Primary.lwz pc = keep_pc-Holds pc _ (load_d-Holds 4 false)
    primary-Holds Primary.lwzu pc = keep_pc-Holds pc _ (load_d-Holds 4 true)
    primary-Holds Primary.lbz pc = keep_pc-Holds pc _ (load_d-Holds 1 false)
    primary-Holds Primary.stw pc = keep_pc-Holds pc _ (store_d-Holds 4 false)
    primary-Holds Primary.stwu pc = keep_pc-Holds pc _ (store_d-Holds 4 true)
    primary-Holds Primary.stb pc = keep_pc-Holds pc _ (store_d-Holds 1 false)
    primary-Holds Primary.lhz pc = keep_pc-Holds pc _ (load_d-Holds 2 false)
    primary-Holds Primary.sth pc = keep_pc-Holds pc _ (store_d-Holds 2 false)
    primary-Holds _ pc = h

    sw_case-Holds : (o : Option Primary) (pc : ℕ) → After (sw_case o m insn pc) (λ s. Q s.0.mem)
    unfolding sw_case
    sw_case-Holds (some p) pc = primary-Holds p pc
    sw_case-Holds none pc = tt

  sw_step-Holds : (m : Machine) (pc : ℕ) → Q m.mem → After (sw_step m pc) (λ s. Q s.0.mem)
  unfolding sw_step sw_dispatch
  sw_step-Holds m pc h =
      After-bind_all (λ s. Q s.0.mem) (memory_read_uint32 m.mem pc) _
        (λ insn. sw_case-Holds m insn h (find_primary (shr32 insn 26)) _)

  sw_loop-Holds : (n : ℕ) (m : Machine) (pc : ℕ) → Q m.mem → After (sw_loop n m pc) Holds
  unfolding sw_loop
  sw_loop-Holds zero m pc h = h
  sw_loop-Holds (suc n) m pc h =
      After-bind (λ s. Q s.0.mem) Holds (sw_step m pc) _ (sw_step-Holds m pc h)
        (λ s q. sw_loop-Holds n s.0 s.1 q)

  -- What every store keeps, a run keeps.
  pub run_switch-Holds :
      (m : Machine) (budget : ℕ) → Q m.mem → After (ppc_run_switch m budget) Holds
  unfolding ppc_run_switch
  run_switch-Holds m budget h = sw_loop-Holds budget m m.cpu.pc h

module _ {ram bits pages : ℕ} {start : Env} where
  pub write_width-Contained :
      (env : Env) (width ea v : ℕ)
      → Contained ram bits pages start env
      → After (write_width env width ea v) (Contained ram bits pages start)
  unfolding write_width
  write_width-Contained env width ea v h = elim (Bool-cases (width == 4)) [
    | inl e ↦ rw e (write_uint32-Contained h ea v)
    | inr e ↦ elim (Bool-cases (width == 2)) [
      | inl e' ↦ rw (e, e') (write_uint16-Contained h ea (u16 v))
      | inr e' ↦ rw (e, e') (write_uint8-Contained h ea (u8 v))
    ]
  ]

-- In the environment that `mem_env_init` sets up, whatever the code, the registers and the
-- budget: a run of the switch backend that returns has kept the tables, the mask and every byte
-- of the host's memory outside the guest's RAM, and the environment well formed.
pub run_switch-Contained :
    {ram bits pages : ℕ} (m : Machine) (budget : ℕ)
    → IsFlat ram bits pages m.mem
    → After (ppc_run_switch m budget) (λ m'. Contained ram bits pages m.mem m'.mem)
run_switch-Contained {ram} {bits} {pages} m budget flat =
    run_switch-Holds (Contained ram bits pages m.mem) write_width-Contained m budget
      (Contained-refl flat)
