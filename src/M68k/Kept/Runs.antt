-- ===== src/M68k/Kept/Runs.antt =====
-- The rounds and runs of m68k/m68k_switch.c: the widths that they keep, and what they keep of the
-- memory.
use emu_core_bench.Base.{
  ℕ, zero, suc, ◌<◌, Bool-cases, inl, inr, After, After-bind, After-bind_all, u8, u16, add32, shr32,
  ltb, ◌==◌,
}
use emu_core_bench.Memory.{Env, memory_read_uint16}
use emu_core_bench.M68k.State.{M68kMachine}
use emu_core_bench.M68k.Move.{write_size}
use emu_core_bench.M68k.Switch.{m68k_dispatch, m68k_step, m68k_loop, m68k_run_switch}
use emu_core_bench.M68k.Invariant.{IsCpu}
use emu_core_bench.M68k.Kept.{either, IsKept, Keeps}
use emu_core_bench.M68k.Kept.Groups.{
  group_0-Keeps, group_4-Keeps, group_5-Keeps, group_6-Keeps, group_7-Keeps, group_dd-Keeps,
  group_e-Keeps,
}
use emu_core_bench.M68k.Kept.Moves.{group_move-Keeps}
use emu_core_bench.Memory.Flat.{IsFlat}
use emu_core_bench.Memory.Contained.{
  Contained, Contained-refl, write_uint8-Contained, write_uint16-Contained, write_uint32-Contained,
}

module _ (P : Env → Type 0) (bytes : (env : Env) → P env → (q : ℕ) → env.host q < 256)
    (writes : (env : Env) (size a w : ℕ) → P env → After (write_size env size a w) P) where
  dispatch-Keeps : (m : M68kMachine) → IsKept P m → (op pc : ℕ) → Keeps P (m68k_dispatch m op pc)
  unfolding m68k_dispatch
  dispatch-Keeps m h op pc = either (shr32 op 12 == 0) (group_0-Keeps P bytes m h op pc) (
      either (ltb (shr32 op 12) 4) (group_move-Keeps P bytes writes m h op pc) (
        either (shr32 op 12 == 4) (group_4-Keeps P bytes m h op pc) (
          either (shr32 op 12 == 5) (group_5-Keeps P bytes m h op pc) (
            either (shr32 op 12 == 6) (group_6-Keeps P bytes m h op pc) (
              either (shr32 op 12 == 7) (group_7-Keeps P bytes m h op pc) (
                either (shr32 op 12 == 0xE) (group_e-Keeps P bytes m h op pc)
                  (group_dd-Keeps P bytes m h op pc)))))))

  pub step-IsKept :
      (m : M68kMachine) (pc : ℕ) → IsKept P m → After (m68k_step m pc) (λ r. IsKept P r.0)
  unfolding m68k_step
  step-IsKept m pc h =
      After-bind_all (λ r. IsKept P r.0) (memory_read_uint16 m.mem pc) _
        (λ op. (dispatch-Keeps m h op (add32 pc 2)).after)

  pub loop-IsKept :
      (n : ℕ) (m : M68kMachine) (pc : ℕ) → IsKept P m → After (m68k_loop n m pc) (IsKept P)
  unfolding m68k_loop
  loop-IsKept zero m pc h = record {
    cpu = record {
      regs = h.cpu.regs;
      n_bit = h.cpu.n_bit;
      z_bit = h.cpu.z_bit;
      v_bit = h.cpu.v_bit;
      cf_bit = h.cpu.cf_bit;
      x_bit = h.cpu.x_bit;
    };
    mem = h.mem;
  }
  loop-IsKept (suc n) m pc h =
      After-bind (λ r. IsKept P r.0) (IsKept P) (m68k_step m pc) _ (step-IsKept m pc h)
        (λ r k. loop-IsKept n r.0 r.1 k)

module _ {ram bits pages : ℕ} {start : Env} where
  pub write_size-Contained :
      (env : Env) (size a w : ℕ)
      → Contained ram bits pages start env
      → After (write_size env size a w) (Contained ram bits pages start)
  unfolding write_size
  write_size-Contained env size a w h = elim (Bool-cases (size == 4)) [
    | inl e ↦ rw e (write_uint32-Contained h a w)
    | inr e ↦ elim (Bool-cases (size == 2)) [
      | inl e' ↦ rw (e, e') (write_uint16-Contained h a (u16 w))
      | inr e' ↦ rw (e, e') (write_uint8-Contained h a (u8 w))
    ]
  ]

-- In the environment that `mem_env_init` sets up, from registers of 32 bits and codes that are 0
-- or 1, whatever the code and the budget: a run of the switch backend that returns leaves
-- registers of 32 bits and codes that are 0 or 1, and has kept the tables, the mask and every
-- byte of the host's memory outside the guest's RAM.
pub m68k_run_switch-IsKept :
    {ram bits pages : ℕ} (m : M68kMachine) (budget : ℕ)
    → IsFlat ram bits pages m.mem
    → IsCpu m.cpu
    → After (m68k_run_switch m budget) (IsKept (Contained ram bits pages m.mem))
unfolding m68k_run_switch
m68k_run_switch-IsKept {ram} {bits} {pages} m budget flat cpu =
    loop-IsKept (Contained ram bits pages m.mem) (λ env h. h.flat.bytes) write_size-Contained budget
      m m.cpu.pc (record { cpu = cpu; mem = Contained-refl flat })
