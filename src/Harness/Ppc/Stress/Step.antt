-- ===== src/Harness/Ppc/Stress/Step.antt =====
-- One random instruction of the stress kernel of ppc/bench_main.c.
use emu_core_bench.Base.{
  ℕ, ◌+◌, ◌*◌, ◌%◌, ◌^◌, ◌≤◌, ◌<◌, ◌≡◌, ◌⊎◌, refl, ap, arith, Bool, true, false, not, ◌&&◌, ◌||◌,
  Bool-cases, inl, inr, some, ok, fatal, Outcome, ◌==◌, ltb, if◌then◌else◌, Returns, bit_and,
  bit_and-le, bit_and_offset_aligned, sub32, shr32,
}
use emu_core_bench.Memory.{Env}
use emu_core_bench.Ppc.State.{Machine}
use emu_core_bench.Ppc.Ops.{Kind, gen_xo_arith, gen_x_logic}
use emu_core_bench.Ppc.Lists.{
  Op31, find_op31, op31_stmt, Primary, find_primary, primary_stmt, on_cpu, keep_pc,
}
use emu_core_bench.Ppc.Transfer.{gen_load_d, gen_store_d}
use emu_core_bench.Ppc.Switch.{sw_dispatch}
use emu_core_bench.Ppc.Pdx.Round.{is_common}
use emu_core_bench.Harness.Ppc.Kernels.{stress_insn}
use emu_core_bench.Harness.Ppc.Encode.{
  e_d, e_x, e_add, e_subf, e_xor, e_or, e_and, e_mullw, e_srawi, e_bc, e_rlwinm, e_addi, e_addis,
  e_mulli, e_cmpwi, e_lwz, e_lhz, e_lbz, e_stw, e_sth, e_stb,
}
use emu_core_bench.Harness.Ppc.Windows.{Kept}
use emu_core_bench.Harness.Ppc.Stress.Forms.{
  Bases, Returning, Goes, arith-Goes, logic-Goes, srawi-Goes, rlwinm-Goes, addi-Goes, addis-Goes,
  mulli-Goes, cmpwi-Goes,
}
use emu_core_bench.Harness.Ppc.Stress.Windows.{IsOffset, Skips, load-Goes, store-Goes, bc-Skips}

-- The pc at the next word, or, but after the last word, at the one after.
abbrev pub Ahead : Bool → ℕ → ℕ → Type 0
Ahead last pc pc' = (pc' ≡ pc) ⊎ ((last ≡ false) × (pc' ≡ pc + 4))

-- A word after which the kernel goes on.
pub record GoesOn (ram pages : ℕ) (start : Env) (m : Machine) (pc : ℕ) (last : Bool) (w : ℕ)
    : Type 0 where
  pub small : w < 2 ^ 32
  pub common : is_common w ≡ true
  pub next :
      Returns
        (sw_dispatch m w pc)
        (λ r. Kept ram pages start r.0.mem × Bases r.0.cpu × Ahead last pc r.1)

pub Returns-weaken :
    {A : Type 0} (P Q : A → Type 0) (r : Outcome A)
    → Returns r P
    → ((a : A) → P a → Q a)
    → Returns r Q
Returns-weaken P Q (ok a) h k = k a h
Returns-weaken P Q (fatal e) h k = absurd h

module _ (ram pages : ℕ) (start : Env) (m : Machine) (pc : ℕ) (last : Bool) where
  abbrev On : ℕ → Type 0
  On w = GoesOn ram pages start m pc last w

  goes : {w : ℕ} → Returning ram pages start m pc (Goes ram pages start m pc) w → On w
  goes {w} h = record {
    small = h.0;
    common = h.1;
    next =
        Returns-weaken (Goes ram pages start m pc) _ (sw_dispatch m w pc) h.2
          (λ r g. (g.0, g.1, inl g.2));
  }

  skips :
      {w : ℕ} → last ≡ false → Returning ram pages start m pc (Skips ram pages start m pc) w → On w
  skips {w} inner h = record {
    small = h.0;
    common = h.1;
    next =
        Returns-weaken (Skips ram pages start m pc) _ (sw_dispatch m w pc) h.2
          (λ r g. (g.0, g.1, elim g.2 [ inl e ↦ inl e | inr e ↦ inr (inner, e) ]));
  }

  either : (b : Bool) {x y : ℕ} → On x → On y → On (if b then x else y)
  either true h k = h
  either false h k = k

  -- The branch is not emitted at the end of the stream.
  unless_last : {x y : ℕ} → (last ≡ false → On x) → On y → On (if not last then x else y)
  unless_last {x} {y} h k = elim (Bool-cases last) [
    | inl e ↦ rw (ap (λ b. if not b then x else y) e) k
    | inr e ↦ rw (ap (λ b. if not b then x else y) e) (h e)
  ]

abbrev stress_branch : ℕ → ℕ
stress_branch r = e_bc (if bit_and (shr32 r 5) 1 == 0 then 4 else 12) (28 + bit_and (shr32 r 6) 3) 8

window-IsOffset : (r : ℕ) → IsOffset (bit_and (shr32 r 20) 0x7FC)
window-IsOffset r =
    (omega (arith, bit_and-le (shr32 r 20) 0x7FC), bit_and_offset_aligned (shr32 r 20))

five_bits : (x : ℕ) → bit_and x 31 < 32
five_bits x = omega (arith, bit_and-le x 31)

module _ (ram pages : ℕ) (start : Env) (m : Machine) (pc : ℕ) (last : Bool)
    (kept : Kept ram pages start m.mem) (bases : Bases m.cpu) where
  abbrev OnFrom : ℕ → Type 0
  OnFrom w = GoesOn ram pages start m pc last w

  module _ (d a b : ℕ) (hd : d < 20) (ha : a < 32) (hb : b < 32) where
    arith_on :
        (op : Op31) (kind : Kind) (xo : ℕ)
        → xo < 1024
        → find_op31 (xo * 2 + 0) ≡ some op
        → ((w : ℕ) → op31_stmt op m w ≡ on_cpu m (gen_xo_arith m.cpu w kind false))
        → OnFrom (e_x d a b xo 0)
    arith_on op kind xo hx found stmt =
        goes ram pages start m pc last
          (arith-Goes ram pages start m pc kept bases d a b xo hd ha hb hx op found kind stmt)

    logic_on :
        (op : Op31) (kind : Kind) (xo : ℕ)
        → xo < 1024
        → find_op31 (xo * 2 + 0) ≡ some op
        → ((w : ℕ) → op31_stmt op m w ≡ on_cpu m (gen_x_logic m.cpu w kind false))
        → OnFrom (e_x a d b xo 0)
    logic_on op kind xo hx found stmt =
        goes ram pages start m pc last
          (logic-Goes ram pages start m pc kept bases d a b xo hd ha hb hx op found kind stmt)

    -- The forms with three registers, by name.
    three_registers :
        OnFrom (e_add d a b)
        × OnFrom (e_subf d a b)
        × OnFrom (e_mullw d a b)
        × OnFrom (e_xor d a b)
        × OnFrom (e_or d a b)
        × OnFrom (e_and d a b)
    unfolding op31_stmt find_op31
    three_registers = (
      arith_on Op31.add Kind.k_add 266 (omega arith) refl (λ w. refl),
      arith_on Op31.subf Kind.k_subf 40 (omega arith) refl (λ w. refl),
      arith_on Op31.mullw Kind.k_mullw 235 (omega arith) refl (λ w. refl),
      logic_on Op31.xor Kind.k_xor 316 (omega arith) refl (λ w. refl),
      logic_on Op31.or Kind.k_or 444 (omega arith) refl (λ w. refl),
      logic_on Op31.and Kind.k_and 28 (omega arith) refl (λ w. refl),
    )

  module _ (d off : ℕ) (hd : d < 20) (h : IsOffset off) where
    load_on :
        (p : Primary) (op width : ℕ)
        → op < 64
        → find_primary op ≡ some p
        → (not (op == 27) && not (op == 33 || op == 37)) ≡ true
        → ((w : ℕ) → primary_stmt p m w pc ≡ keep_pc pc (gen_load_d m w width false))
        → OnFrom (e_d op d 20 off)
    load_on p op width ho found common stmt =
        goes ram pages start m pc last
          (load-Goes ram pages start m pc kept bases p op width d off ho hd h found common stmt)

    store_on :
        (p : Primary) (op width : ℕ)
        → op < 64
        → find_primary op ≡ some p
        → (not (op == 27) && not (op == 33 || op == 37)) ≡ true
        → ((w : ℕ) → primary_stmt p m w pc ≡ keep_pc pc (gen_store_d m w width false))
        → OnFrom (e_d op d 21 off)
    store_on p op width ho found common stmt =
        goes ram pages start m pc last
          (store-Goes ram pages start m pc kept bases p op width d off ho hd h found common stmt)

    windows :
        OnFrom (e_lwz d 20 off)
        × OnFrom (e_lhz d 20 off)
        × OnFrom (e_lbz d 20 off)
        × OnFrom (e_stw d 21 off)
        × OnFrom (e_sth d 21 off)
        × OnFrom (e_stb d 21 off)
    unfolding primary_stmt find_primary
    windows = (
      load_on Primary.lwz 32 4 (omega arith) refl refl (λ w. refl),
      load_on Primary.lhz 40 2 (omega arith) refl refl (λ w. refl),
      load_on Primary.lbz 34 1 (omega arith) refl refl (λ w. refl),
      store_on Primary.stw 36 4 (omega arith) refl refl (λ w. refl),
      store_on Primary.sth 44 2 (omega arith) refl refl (λ w. refl),
      store_on Primary.stb 38 1 (omega arith) refl refl (λ w. refl),
    )

  module _ (d a sh : ℕ) (hd : d < 20) (ha : a < 32) (hs : sh < 32) where
    -- The forms with an immediate, and the rotation and the shift.
    displaced :
        ((mb : ℕ) → mb < 32 → OnFrom (e_rlwinm d a sh mb 31))
        × ((imm : ℕ) → OnFrom (e_addi d a imm))
        × ((imm : ℕ) → OnFrom (e_addis d a imm))
        × ((imm : ℕ) → OnFrom (e_mulli d a imm))
        × ((imm : ℕ) → OnFrom (e_cmpwi 7 a imm))
        × OnFrom (e_srawi d a sh)
    displaced = (
      λ mb h.
          goes ram pages start m pc last
            (rlwinm-Goes ram pages start m pc kept bases d a sh hd ha hs mb h),
      λ imm.
          goes ram pages start m pc last (addi-Goes ram pages start m pc kept bases d a imm hd ha),
      λ imm.
          goes ram pages start m pc last (addis-Goes ram pages start m pc kept bases d a imm hd ha),
      λ imm.
          goes ram pages start m pc last (mulli-Goes ram pages start m pc kept bases d a imm hd ha),
      λ imm.
          goes ram pages start m pc last
            (cmpwi-Goes ram pages start m pc kept bases 28 a imm (omega arith) ha),
      goes ram pages start m pc last (srawi-Goes ram pages start m pc kept bases d a sh hd ha hs),
    )

  step_either : (b : Bool) {x y : ℕ} → OnFrom x → OnFrom y → OnFrom (if b then x else y)
  step_either b h k = either ram pages start m pc last b h k

  module _ (low : 4 ≤ pc) (high : pc + 4 < 2 ^ 32) where
    branch_on : (bo bi : ℕ) → bo < 32 → bi < 32 → last ≡ false → OnFrom (e_bc bo bi 8)
    branch_on bo bi ho hi inner =
        skips ram pages start m pc last inner
          (bc-Skips ram pages start m pc kept bases bo bi ho hi low high)

    -- BO is 4 or 12, and BI a bit of CR7.
    branch_last : (r : ℕ) → last ≡ false → OnFrom (stress_branch r)
    branch_last r inner =
        let bi : 28 + bit_and (shr32 r 6) 3 < 32 = omega (arith, bit_and-le (shr32 r 6) 3) in
        elim (Bool-cases (bit_and (shr32 r 5) 1 == 0)) [
          | inl e ↦ rw e (branch_on 4 (28 + bit_and (shr32 r 6) 3) (omega arith) bi inner)
          | inr e ↦ rw e (branch_on 12 (28 + bit_and (shr32 r 6) 3) (omega arith) bi inner)
        ]

    -- Every random word lets the kernel go on.
    pub stress_insn-GoesOn : (r : ℕ) → OnFrom (stress_insn r last)
    unfolding stress_insn
    stress_insn-GoesOn r =
        let rd = 3 + shr32 r 8 % 10 in
        let ra = 3 + shr32 r 12 % 10 in
        let rb = 3 + shr32 r 16 % 10 in
        let sh = bit_and (shr32 r 3) 31 in
        let d : rd < 20 = omega arith in
        let a : ra < 32 = omega arith in
        let b : rb < 32 = omega arith in
        let regs = three_registers rd ra rb d a b in
        let win = windows rd (bit_and (shr32 r 20) 0x7FC) d (window-IsOffset r) in
        let others = displaced rd ra sh d a (five_bits (shr32 r 3)) in
        let pick = r % 100 in
        let at_end : OnFrom (if not last then stress_branch r else e_add rd ra rb) =
          unless_last ram pages start m pc last (branch_last r) regs.0 in
        step_either (ltb pick 8) regs.0 (
          step_either (ltb pick 14) regs.1 (
            step_either (ltb pick 20) regs.3 (
              step_either (ltb pick 24) regs.4 (
                step_either (ltb pick 28) regs.5 (
                  step_either (ltb pick 36)
                    (others.0 (bit_and (shr32 r 26) 31) (five_bits (shr32 r 26)))
                    (step_either (ltb pick 44) (others.1 (sub32 (bit_and r 0xFF) 128)) (
                      step_either (ltb pick 48) (others.2 1) (
                        step_either (ltb pick 52) (others.3 13) (
                          step_either (ltb pick 56) regs.2 (
                            step_either (ltb pick 61) others.5 (
                              step_either (ltb pick 68) win.0 (
                                step_either (ltb pick 72) win.1 (
                                  step_either (ltb pick 76) win.2 (
                                    step_either (ltb pick 82) win.3 (
                                      step_either (ltb pick 85) win.4 (
                                        step_either (ltb pick 88) win.5 (
                                          step_either (ltb pick 94)
                                            (others.4 (sub32 (bit_and r 0x7FFF) 16384))
                                            at_end)))))))))))))))))
