-- ===== src/Harness/Ppc/Stress/Forms.antt =====
-- What the instructions that ppc/bench_main.c assembles do to the registers that the stress
-- kernel relies on, whatever their operands.
use emu_core_bench.Base.{
  ℕ, ◌+◌, ◌*◌, ◌^◌, ◌<◌, ◌≡◌, refl, arith, Bool, true, false, not, ◌&&◌, ◌||◌, some, ◌==◌, Returns,
  bit_and, shr32,
}
use emu_core_bench.Memory.{Env}
use emu_core_bench.Ppc.State.{Ppc, Machine, set_gpr}
use emu_core_bench.Ppc.Ops.{
  Kind, record_if, record0, set_crf, gen_addi, gen_mulli, gen_xo_arith, gen_x_logic, gen_srawi,
  gen_rlwinm, gen_cmp,
}
use emu_core_bench.Ppc.Lists.{
  Op31, find_op31, op31_stmt, do_op31, Primary, find_primary, primary_stmt, keep_pc, on_cpu,
}
use emu_core_bench.Ppc.Switch.{sw_case, sw_dispatch}
use emu_core_bench.Ppc.Pdx.Round.{is_common}
use emu_core_bench.Harness.Ppc.Encode.{e_d, e_x, e_rlwinm}
use emu_core_bench.Harness.Ppc.Fields.{e_d-fields, e_x-fields, e_rlwinm-fields}
use emu_core_bench.Harness.Ppc.Windows.{Kept}

-- The bases of the windows.
abbrev pub Bases : Ppc → Type 0
Bases c = (c.gpr 20 ≡ 0x10_0000) × (c.gpr 21 ≡ 0x18_0000)

-- A register below the bases may be written.
pub set_gpr-Bases : (c : Ppc) (d v : ℕ) → d < 20 → Bases c → Bases (set_gpr c d v)
set_gpr-Bases c d v h b = (ground (arith, b.0), ground (arith, b.1))

record_if-gpr : (rc : Bool) (c : Ppc) (r : ℕ) → (record_if rc c r).gpr ≡ c.gpr
unfolding record0 set_crf
record_if-gpr true c r = refl
record_if-gpr false c r = refl

record_if-Bases : (rc : Bool) (c : Ppc) (r : ℕ) → Bases c → Bases (record_if rc c r)
record_if-Bases rc c r b = rw (record_if-gpr rc c r) b

do_op31-found :
    (m : Machine) (w key : ℕ) (op : Op31)
    → bit_and w 0x7FF ≡ key
    → find_op31 key ≡ some op
    → do_op31 m w ≡ op31_stmt op m w
unfolding do_op31
do_op31-found m w key op at found = rw (at, found, do_op31)

pub sw_dispatch-found :
    (m : Machine) (w pc key : ℕ) (p : Primary)
    → shr32 w 26 ≡ key
    → find_primary key ≡ some p
    → sw_dispatch m w pc ≡ primary_stmt p m w pc
unfolding sw_dispatch sw_case
sw_dispatch-found m w pc key p at found = rw (at, found) refl

find_at_31 : find_primary 31 ≡ some Primary.grp31
unfolding find_primary
find_at_31 = refl

module _ (ram pages : ℕ) (start : Env) (m : Machine) (pc : ℕ) where
  -- A 32-bit word that all decoders read alike, and that returns what satisfies `P`.
  abbrev pub Returning : (Machine × ℕ → Type 0) → ℕ → Type 0
  Returning P w = (w < 2 ^ 32) × (is_common w ≡ true) × Returns (sw_dispatch m w pc) P

  -- The state that the kernel relies on, with the pc at the next word.
  abbrev pub Goes : Machine × ℕ → Type 0
  Goes r = Kept ram pages start r.0.mem × Bases r.0.cpu × (r.1 ≡ pc)

  -- An instruction of the nested switch.
  x_form :
      (P : Machine × ℕ → Type 0) (op : Op31) (d a b xo rc : ℕ)
      → d < 32
      → a < 32
      → b < 32
      → xo < 1024
      → rc < 2
      → find_op31 (xo * 2 + rc) ≡ some op
      → Returns (keep_pc pc (op31_stmt op m (e_x d a b xo rc))) P
      → Returning P (e_x d a b xo rc)
  unfolding primary_stmt
  x_form P op d a b xo rc hd ha hb hx hr found next =
      let f = e_x-fields d a b xo rc hd ha hb hx hr in
      (
        f.0,
        rw f.1 refl,
        rw
            (
              sw_dispatch-found m (e_x d a b xo rc) pc 31 Primary.grp31 f.1 find_at_31,
              do_op31-found m (e_x d a b xo rc) (xo * 2 + rc) op f.5 found,
            )
            next,
      )

  pub d_form :
      (P : Machine × ℕ → Type 0) (p : Primary) (op d a imm : ℕ)
      → op < 64
      → d < 32
      → a < 32
      → find_primary op ≡ some p
      → (not (op == 27) && not (op == 33 || op == 37)) ≡ true
      → Returns (primary_stmt p m (e_d op d a imm) pc) P
      → Returning P (e_d op d a imm)
  d_form P p op d a imm ho hd ha found common next =
      let f = e_d-fields op d a ho hd ha imm in
      (
        f.0,
        rw f.1 (ground (arith, common)),
        rw (sw_dispatch-found m (e_d op d a imm) pc op p f.1 found) next,
      )

  module _ (kept : Kept ram pages start m.mem) (bases : Bases m.cpu) where
    -- A register below the bases is written.
    writes :
        (rc : Bool) (d v r : ℕ)
        → d < 20
        → Goes (record m { cpu = record_if rc (set_gpr m.cpu d v) r }, pc)
    writes rc d v r h = (kept, record_if-Bases rc _ r (set_gpr-Bases m.cpu d v h bases), refl)

    module _ (d a b xo : ℕ) (hd : d < 20) (ha : a < 32) (hb : b < 32) (hx : xo < 1024) (op : Op31)
        (found : find_op31 (xo * 2 + 0) ≡ some op) where
      pub arith-Goes :
          (operation : Kind)
          → ((w : ℕ) → op31_stmt op m w ≡ on_cpu m (gen_xo_arith m.cpu w operation false))
          → Returning Goes (e_x d a b xo 0)
      unfolding gen_xo_arith
      arith-Goes operation stmt =
          let f = e_x-fields d a b xo 0 (omega arith) ha hb hx (omega arith) in
          x_form Goes op d a b xo 0 (omega arith) ha hb hx (omega arith) found
            (rw (stmt (e_x d a b xo 0), f.2) (writes false d _ 0 hd))

      -- The target of a logical form is in the second field.
      pub logic-Goes :
          (operation : Kind)
          → ((w : ℕ) → op31_stmt op m w ≡ on_cpu m (gen_x_logic m.cpu w operation false))
          → Returning Goes (e_x a d b xo 0)
      unfolding gen_x_logic
      logic-Goes operation stmt =
          let f = e_x-fields a d b xo 0 ha (omega arith) hb hx (omega arith) in
          x_form Goes op a d b xo 0 ha (omega arith) hb hx (omega arith) found
            (rw (stmt (e_x a d b xo 0), f.3) (writes false d _ 0 hd))

    module _ (d a b : ℕ) (hd : d < 20) (ha : a < 32) (hb : b < 32) where
      pub srawi-Goes : Returning Goes (e_x a d b 824 0)
      unfolding op31_stmt gen_srawi find_op31
      srawi-Goes =
          let f = e_x-fields a d b 824 0 ha (omega arith) hb (omega arith) (omega arith) in
          x_form Goes Op31.srawi a d b 824 0 ha (omega arith) hb (omega arith) (omega arith) refl
            (rw f.3 (writes false d _ 0 hd))

      pub rlwinm-Goes : (mb : ℕ) → mb < 32 → Returning Goes (e_rlwinm d a b mb 31)
      unfolding primary_stmt gen_rlwinm find_primary
      rlwinm-Goes mb hm =
          let f = e_rlwinm-fields d a b mb 31 (omega arith) ha hb hm (omega arith) in
          let w = e_rlwinm d a b mb 31 in
          (
            f.0,
            rw f.1 refl,
            rw (sw_dispatch-found m w pc 21 Primary.rlwinm f.1 refl, f.3)
                (writes (not (bit_and w 1 == 0)) d _ _ hd),
          )

    module _ (d a imm : ℕ) (hd : d < 20) (ha : a < 32) where
      pub addi-Goes : Returning Goes (e_d 14 d a imm)
      unfolding primary_stmt gen_addi find_primary
      addi-Goes =
          let f = e_d-fields 14 d a (omega arith) (omega arith) ha imm in
          d_form Goes Primary.addi 14 d a imm (omega arith) (omega arith) ha refl refl
            (rw f.2 (writes false d _ 0 hd))

      pub addis-Goes : Returning Goes (e_d 15 d a imm)
      unfolding primary_stmt gen_addi find_primary
      addis-Goes =
          let f = e_d-fields 15 d a (omega arith) (omega arith) ha imm in
          d_form Goes Primary.addis 15 d a imm (omega arith) (omega arith) ha refl refl
            (rw f.2 (writes false d _ 0 hd))

      pub mulli-Goes : Returning Goes (e_d 7 d a imm)
      unfolding primary_stmt gen_mulli find_primary
      mulli-Goes =
          let f = e_d-fields 7 d a (omega arith) (omega arith) ha imm in
          d_form Goes Primary.mulli 7 d a imm (omega arith) (omega arith) ha refl refl
            (rw f.2 (writes false d _ 0 hd))

    pub cmpwi-Goes : (d a imm : ℕ) → d < 32 → a < 32 → Returning Goes (e_d 11 d a imm)
    unfolding primary_stmt gen_cmp find_primary set_crf
    cmpwi-Goes d a imm hd ha =
        d_form Goes Primary.cmpwi 11 d a imm (omega arith) hd ha refl refl (kept, bases, refl)
