-- ===== src/Harness/Ppc/Stress/Windows.antt =====
-- The loads, stores and branches of the stress kernel of ppc/bench_main.c.
use emu_core_bench.Base.{
  ℕ, ◌+◌, ◌%◌, ◌^◌, ◌≤◌, ◌<◌, ◌≡◌, ◌⊎◌, refl, sym, ◌∙◌, arith, true, false, not, ◌&&◌, ◌||◌,
  Bool-cases, inl, inr, some, ◌==◌, bit_and, bit_and_ones, bit_and_three, add32, sub32,
}
use emu_core_bench.Memory.{Env}
use emu_core_bench.Ppc.State.{Ppc, Machine}
use emu_core_bench.Ppc.Ops.{p_ra, p_simm, base_or_zero}
use emu_core_bench.Ppc.Transfer.{gen_bc, bc_taken, link, gen_load_d, gen_store_d}
use emu_core_bench.Ppc.Lists.{Primary, find_primary, primary_stmt, keep_pc}
use emu_core_bench.Harness.Ppc.Encode.{e_d, e_bc}
use emu_core_bench.Harness.Ppc.Fields.{e_d-fields, e_bc-fields}
use emu_core_bench.Harness.Ppc.Windows.{Kept, keep_pc-returns, load_d-returns, store_d-returns}
use emu_core_bench.Harness.Ppc.Stress.Forms.{
  Bases, set_gpr-Bases, Returning, Goes, d_form, sw_dispatch-found,
}

-- An offset into a window.
abbrev pub IsOffset : ℕ → Type 0
IsOffset off = (off < 0x800) × (off % 4 ≡ 0)

p_simm-e_d :
    (op d a off : ℕ) → op < 64 → d < 32 → a < 32 → IsOffset off → p_simm (e_d op d a off) ≡ off
p_simm-e_d op d a off ho hd ha h =
    let f = e_d-fields op d a ho hd ha off in
    let low : e_d op d a off % 2 ^ 16 ≡ off =
      omega (arith, sym (bit_and_ones 16 (e_d op d a off)) ∙ f.4, h.0) in
    rw low (ground (arith, h.0))

module _ (ram pages : ℕ) (start : Env) (m : Machine) (pc : ℕ) where
  -- The state that the kernel relies on, with the pc at the next word or at the one after.
  abbrev pub Skips : Machine × ℕ → Type 0
  Skips r = Kept ram pages start r.0.mem × Bases r.0.cpu × ((r.1 ≡ pc) ⊎ (r.1 ≡ pc + 4))

module _ (ram pages : ℕ) (start : Env) (m : Machine) (pc : ℕ) (kept : Kept ram pages start m.mem)
    (bases : Bases m.cpu) where
  load_address :
      (op d off : ℕ)
      → op < 64
      → d < 32
      → IsOffset off
      → add32 (base_or_zero m.cpu (p_ra (e_d op d 20 off))) (p_simm (e_d op d 20 off)) % 4 ≡ 0
  load_address op d off ho hd h =
      let f = e_d-fields op d 20 ho hd (omega arith) off in
      rw (f.3, p_simm-e_d op d 20 off ho hd (omega arith) h) (omega (arith, bases.0, h.0, h.1))

  store_address :
      (op d off : ℕ)
      → op < 64
      → d < 32
      → IsOffset off
      → add32 (base_or_zero m.cpu (p_ra (e_d op d 21 off))) (p_simm (e_d op d 21 off))
        ≡ 0x18_0000 + off
  store_address op d off ho hd h =
      let f = e_d-fields op d 21 ho hd (omega arith) off in
      rw (f.3, p_simm-e_d op d 21 off ho hd (omega arith) h) (omega (arith, bases.1, h.0))

  module _ (p : Primary) (op width d off : ℕ) (ho : op < 64) (hd : d < 20) (h : IsOffset off)
      (found : find_primary op ≡ some p)
      (common : (not (op == 27) && not (op == 33 || op == 37)) ≡ true) where
    pub load-Goes :
        ((w : ℕ) → primary_stmt p m w pc ≡ keep_pc pc (gen_load_d m w width false))
        → Returning ram pages start m pc (Goes ram pages start m pc) (e_d op d 20 off)
    load-Goes stmt =
        let f = e_d-fields op d 20 ho (omega arith) (omega arith) off in
        let w = e_d op d 20 off in
        d_form ram pages start m pc (Goes ram pages start m pc) p op d 20 off ho (omega arith)
          (omega arith) found common
          (rw (stmt w) (
            keep_pc-returns (Goes ram pages start m pc) pc (gen_load_d m w width false) (
              load_d-returns (λ m'. Goes ram pages start m pc (m', pc)) m kept w width
                (load_address op d off ho (omega arith) h)
                (λ v. rw f.2 (kept, set_gpr-Bases m.cpu d v hd bases, refl)))))

    pub store-Goes :
        ((w : ℕ) → primary_stmt p m w pc ≡ keep_pc pc (gen_store_d m w width false))
        → Returning ram pages start m pc (Goes ram pages start m pc) (e_d op d 21 off)
    store-Goes stmt =
        let w = e_d op d 21 off in
        let at = store_address op d off ho (omega arith) h in
        d_form ram pages start m pc (Goes ram pages start m pc) p op d 21 off ho (omega arith)
          (omega arith) found common
          (rw (stmt w) (
            keep_pc-returns (Goes ram pages start m pc) pc (gen_store_d m w width false) (
              store_d-returns (λ m'. Goes ram pages start m pc (m', pc)) m kept w width
                (omega (arith, at, h.1)) (omega (arith, at)) (omega (arith, at, h.0))
                (λ mem k. (k, bases, refl)))))

  link-Bases : (c : Ppc) (insn : ℕ) → Bases c → Bases (link c insn pc)
  link-Bases c insn b = elim (Bool-cases (bit_and insn 1 == 0)) [ inl e ↦ rw e b | inr e ↦ rw e b ]

  taken-Bases : (w : ℕ) → Bases (bc_taken m.cpu w true).0
  unfolding bc_taken
  taken-Bases w = bases

  pub bc-Skips :
      (bo bi : ℕ)
      → bo < 32
      → bi < 32
      → 4 ≤ pc
      → pc + 4 < 2 ^ 32
      → Returning ram pages start m pc (Skips ram pages start m pc) (e_bc bo bi 8)
  unfolding primary_stmt gen_bc find_primary
  bc-Skips bo bi ho hi low high =
      let f = e_bc-fields bo bi 8 ho hi (omega arith) refl refl in
      let w = e_bc bo bi 8 in
      let relative = (bit_and_three w f.5).1 in
      let target : add32 (sub32 pc 4) 8 ≡ pc + 4 = omega (arith, low, high) in
      (
        f.0,
        rw f.1 refl,
        rw (sw_dispatch-found m w pc 16 Primary.bc f.1 refl, f.4, relative)
            (elim (Bool-cases (bc_taken m.cpu w true).1) [
              | inl e ↦ rw (e, target) (kept, link-Bases _ w (taken-Bases w), inr refl)
              | inr e ↦ rw e (kept, link-Bases _ w (taken-Bases w), inl refl)
            ]),
      )
