-- ===== src/Harness/Ppc/Safe.antt =====
-- Runs of ppc/ppc_switch.c that never leave the code that was set up and never end in a fault.
use emu_core_bench.Base.{
  ℕ, zero, suc, ◌+◌, ◌*◌, ◌^◌, ◌<◌, ◌≡◌, refl, sym, ◌∙◌, true, some, arith, get_elem?, ok, Returns,
  Returns-ok, add32,
}
use emu_core_bench.Memory.{Env, memory_read_uint32}
use emu_core_bench.Harness.Ppc.Kernels.{code_base}
use emu_core_bench.Harness.Ppc.Emission.{kernel_code}
use emu_core_bench.Ppc.State.{Machine}
use emu_core_bench.Ppc.Switch.{sw_dispatch, sw_step, sw_loop, ppc_run_switch}
use emu_core_bench.Ppc.Predecode.{pd_region_bytes}
use emu_core_bench.Ppc.Pdx.Round.{is_common}
use emu_core_bench.Ppc.Equiv.Preextracted.{KeepsCommonCode}

-- One step from `pc` fetches from the code region a word that it held in `start` and that all
-- decoders read alike, and returns what satisfies `P`.
abbrev pub SafeStep : Env → Machine → ℕ → (Machine → ℕ → Type 0) → Type 0
SafeStep start m pc P =
    (w : ℕ) × (pc < pd_region_bytes)
    × (memory_read_uint32 start pc ≡ ok w)
    × (memory_read_uint32 m.mem pc ≡ ok w)
    × (is_common w ≡ true)
    × Returns (sw_dispatch m w (add32 pc 4)) (λ r. P r.0 r.1)

-- The code region of a memory holds a kernel.
abbrev pub HoldsKernel : Env → ℕ → Type 0
HoldsKernel start k =
    (i w : ℕ)
    → get_elem? (kernel_code k) i ≡ some w
    → w < 2 ^ 32
    → memory_read_uint32 start (code_base + 4 * i) ≡ ok w

pub safe_at :
    (start : Env) (m : Machine) (i w : ℕ) (P : Machine → ℕ → Type 0)
    → i < 0xF000
    → memory_read_uint32 start (code_base + 4 * i) ≡ ok w
    → memory_read_uint32 m.mem (code_base + 4 * i) ≡ ok w
    → is_common w ≡ true
    → Returns (sw_dispatch m w (code_base + 4 * i + 4)) (λ r. P r.0 r.1)
    → SafeStep start m (code_base + 4 * i) P
safe_at start m i w P short held read common next =
    let after : add32 (code_base + 4 * i) 4 ≡ code_base + 4 * i + 4 = omega (arith, short) in
    (w, omega (arith, short), held, read, common, rw after next)

-- A run of the switch backend that keeps to the code region and to common words, and returns.
abbrev pub SafeRun : Machine → ℕ → Type 0
SafeRun s budget =
    KeepsCommonCode s.mem budget s s.cpu.pc × ((m : Machine) × (ppc_run_switch s budget ≡ ok m))

-- A condition on the steps left, the machine and the pc under which a step is safe and leaves the
-- condition.
module _ (start : Env) (Inv : ℕ → Machine → ℕ → Type 0)
    (step : (n : ℕ) (m : Machine) (pc : ℕ) → Inv (suc n) m pc → SafeStep start m pc (Inv n)) where
  pub safe_loop :
      (n : ℕ) (m : Machine) (pc : ℕ)
      → Inv n m pc
      → KeepsCommonCode start n m pc × ((m' : Machine) × (sw_loop n m pc ≡ ok m'))
  unfolding sw_loop sw_step
  safe_loop zero m pc h = (tt, (_, refl))
  safe_loop (suc n) m pc h =
      let (w, inside, held, read, common, next) = step n m pc h in
      let (r, run, h') = Returns-ok (λ r. Inv n r.0 r.1) (sw_dispatch m w (add32 pc 4)) next in
      let (keeps, (m', rest)) = safe_loop n r.0 r.1 h' in
      ((inside, read ∙ sym held, rw held common, rw (read, run) keeps), (m', rw (read, run) rest))
