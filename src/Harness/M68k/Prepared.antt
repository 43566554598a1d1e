-- ===== src/Harness/M68k/Prepared.antt =====
-- What `setup_kernel` of m68k/bench_main.c leaves.
use emu_core_bench.Base.{
  ℕ, zero, suc, ◌+◌, ◌*◌, ◌%◌, ◌^◌, ◌≤◌, ◌≡◌, refl, sym, ap, ◌∙◌, inl, inr, arith, Bool, true,
  false, not, Bool-cases, List, ltb, leb, ◌==◌, if◌then◌else◌, bit_and, shr32,
}
use emu_core_bench.Memory.{Env}
use emu_core_bench.Memory.Contained.{Contained}
use emu_core_bench.M68k.State.{M68kMachine}
use emu_core_bench.Harness.{lcg}
use emu_core_bench.Harness.Ppc.Setup as PpcSetup
use emu_core_bench.Harness.Ppc.Prepared.{clear_ram-same, clear_ram-Contained, fill_window-Contained}
use emu_core_bench.Harness.M68k.Assemble.{Macro, assemble}
use emu_core_bench.Harness.M68k.Kernels.{
  code_base, emit_kernel_alu, emit_kernel_mem, emit_kernel_stress, stress_macro, stress_seeds,
  stress_stream, stream_len,
}
use emu_core_bench.Harness.M68k.Setup.{clear_ram, fill_window, emit_kernel, reset_cpu, setup_kernel}
use emu_core_bench.Harness.M68k.Emission.{count, IsShort, AllShort, Written, assemble-Written}

-- The setups of the two programs clear and fill alike.
clear_ram-eq : (ram : ℕ) (host : ℕ → ℕ) → clear_ram ram host ≡ PpcSetup.clear_ram ram host
unfolding clear_ram PpcSetup.clear_ram
clear_ram-eq ram host = refl

fill_window-eq :
    (ram n i seed : ℕ) (host : ℕ → ℕ)
    → fill_window ram n i seed host ≡ PpcSetup.fill_window ram n i seed host
unfolding fill_window PpcSetup.fill_window
fill_window-eq ram zero i seed host = refl
fill_window-eq ram (suc n) i seed host = fill_window-eq ram n (i + 4) (lcg seed) _

-- What the body of the stress loop assembles.
record ShortStep (p : Macro × ℕ × Bool) : Type 0 where
  short : IsShort p.0

either :
    (b : Bool) {p q : Macro × ℕ × Bool} → ShortStep p → ShortStep q → ShortStep (if b then p else q)
either true h k = h
either false h k = k

at_most : {macro : Macro} {seed : ℕ} {force : Bool} → IsShort macro → ShortStep (macro, seed, force)
at_most h = record { short = h }

one_of : (b : Bool) (p q : Macro) → IsShort p → IsShort q → IsShort (if b then p else q)
one_of true p q h k = h
one_of false p q h k = k

stress_macro-ShortStep :
    (r seed : ℕ) (force last : Bool) → ShortStep (stress_macro r seed force last)
unfolding stress_macro
stress_macro-ShortStep r seed force last =
    let pick = if force then r % 40 else r % 100 in
    let dn = bit_and (shr32 r 8) 7 in
    let q = 1 + bit_and (shr32 r 26) 7 in
    let set = not (bit_and r 0x10_0000 == 0) in
    either (ltb pick 8) (at_most λ g_pc. omega arith) (
      either (ltb pick 14) (at_most λ g_pc. omega arith) (
        either (ltb pick 19) (at_most λ g_pc. omega arith) (
          either (ltb pick 23) (at_most λ g_pc. omega arith) (
            either (ltb pick 26) (at_most λ g_pc. omega arith) (
              either (ltb pick 30) (at_most λ g_pc. omega arith) (
                either (ltb pick 33) (at_most λ g_pc. omega arith) (
                  either (ltb pick 36)
                    (at_most (one_of set _ _ (λ g_pc. omega arith) (λ g_pc. omega arith)))
                    (either (ltb pick 40)
                      (at_most (one_of set _ _ (λ g_pc. omega arith) (λ g_pc. omega arith)))
                      (either (ltb pick 46) (at_most λ g_pc. omega arith) (
                        either (ltb pick 50) (at_most λ g_pc. omega arith) (
                          either (ltb pick 53) (at_most λ g_pc. omega arith) (
                            either (ltb pick 59) (at_most λ g_pc. omega arith) (
                              either (ltb pick 62) (at_most λ g_pc. omega arith) (
                                either (ltb pick 65) (at_most λ g_pc. omega arith) (
                                  either (ltb pick 70) (at_most λ g_pc. omega arith) (
                                    either (ltb pick 76) (at_most λ g_pc. omega arith) (
                                      either (ltb pick 80) (at_most λ g_pc. omega arith) (
                                        either (ltb pick 84) (at_most λ g_pc. omega arith) (
                                          either (not last) (at_most λ g_pc. omega arith)
                                            (at_most λ g_pc. omega arith))))))))))))))))))))

stress_seeds-AllShort :
    (n r seed : ℕ) → AllShort (stress_seeds n r seed).0 × (count (stress_seeds n r seed).0 ≡ n)
unfolding stress_seeds
stress_seeds-AllShort zero r seed = (tt, refl)
stress_seeds-AllShort (suc n) r seed =
    let (short, n') = stress_seeds-AllShort n (r + 1) (lcg (lcg seed)) in
    (((λ g_pc. omega arith), short), ap suc n')

stress_stream-AllShort :
    (n seed : ℕ) (force : Bool)
    → AllShort (stress_stream n seed force) × (count (stress_stream n seed force) ≡ n)
unfolding stress_stream
stress_stream-AllShort zero seed force = (tt, refl)
stress_stream-AllShort (suc n) seed force =
    let r = lcg seed in
    let (_, seed', force') = stress_macro r r force (leb n 1) in
    let (short, n') = stress_stream-AllShort n seed' force' in
    (((stress_macro-ShortStep r r force (leb n 1)).short, short), ap suc n')

-- The next macros, after those that end by `last`.
and_then :
    {ram pages : ℕ} {start : Env} (r : Env × ℕ) (last : ℕ) (macros : List Macro)
    → Written ram pages start r last
    → AllShort macros
    → last + 6 * count macros ≤ 2 ^ 23
    → Written ram pages start (assemble ram r.0 r.1 macros) (last + 6 * count macros)
and_then {ram} {pages} {start} r last macros (kept, at) short room =
    let (kept', at') =
      assemble-Written ram pages start macros r.0 r.1 short (omega (arith, at, room)) kept in
    (kept', omega (arith, at, at'))

module _ {ram pages : ℕ} {start env : Env} (h : Contained ram 23 pages start env) where
  begin : Written ram pages start (env, code_base) code_base
  begin = (h, omega arith)

  alu-Written : (last : ℕ) × Written ram pages start (emit_kernel_alu ram env code_base) last
  unfolding emit_kernel_alu
  alu-Written = (
    _,
    and_then _ _ _
        (and_then _ _ _
          (and_then (env, code_base) code_base _ begin ((λ _. omega arith), tt) (omega arith))
          ((λ _. omega arith), tt) (omega arith))
        (omega arith) (omega arith),
  )

  mem-Written : (last : ℕ) × Written ram pages start (emit_kernel_mem ram env code_base) last
  unfolding emit_kernel_mem
  mem-Written = (
    _,
    and_then _ _ _ (and_then (env, code_base) code_base _ begin (omega arith) (omega arith))
        (omega arith) (omega arith),
  )

  stress-Written : (last : ℕ) × Written ram pages start (emit_kernel_stress ram env code_base) last
  unfolding emit_kernel_stress
  stress-Written =
      let (seeds, n) = stress_seeds-AllShort 8 0 0xC0FF_EE02 in
      let (stream, n') = stress_stream-AllShort stream_len (stress_seeds 8 0 0xC0FF_EE02).1 false in
      (
        _,
        and_then _ _ _
            (and_then _ _ _
              (and_then _ _ _
                (and_then (env, code_base) code_base _ begin (omega arith) (omega arith)) seeds
                (omega (arith, n)))
              stream (omega (arith, n, n')))
            (omega arith) (omega (arith, n, n')),
      )

  kernel-Contained : (k : ℕ) → Contained ram 23 pages start (emit_kernel k ram env code_base).0
  unfolding emit_kernel
  kernel-Contained k = elim (Bool-cases (k == 0)) [
    | inl e ↦ rw e alu-Written.1.0
    | inr e ↦ elim (Bool-cases (k == 1)) [
      | inl e' ↦ rw (e, e') mem-Written.1.0
      | inr e' ↦ rw (e, e') stress-Written.1.0
    ]
  ]

-- The setup changes the RAM only.
pub setup_kernel-Contained :
    {ram pages : ℕ} {start env : Env}
    → Contained ram 23 pages start env
    → (k : ℕ) → Contained ram 23 pages start (setup_kernel ram k env).mem
unfolding setup_kernel
setup_kernel-Contained {ram} {pages} {start} {env} h k =
    kernel-Contained
      (rw
        (
          fill_window-eq ram 0x4000 0 0xDEAD_BEEF (clear_ram ram env.host),
          clear_ram-eq ram env.host,
        )
        (fill_window-Contained ram pages 0x4000 0 0xDEAD_BEEF _ (omega arith)
          (clear_ram-Contained ram pages env h)))
      k

-- The setup does not depend on what a run before it did to the RAM.
pub setup_kernel-again :
    {ram pages : ℕ} {env env' : Env} (k : ℕ)
    → Contained ram 23 pages env env'
    → setup_kernel ram k env' ≡ setup_kernel ram k env
unfolding setup_kernel
setup_kernel-again {ram} {pages} {env} {env'} k h =
    let window = fill_window ram 0x4000 0 0xDEAD_BEEF in
    let cleared : clear_ram ram env'.host ≡ clear_ram ram env.host =
      clear_ram-eq ram env'.host
      ∙ clear_ram-same ram pages env.host env'.host h.outside
      ∙ sym (clear_ram-eq ram env.host) in
    let host_of : (ℕ → ℕ) → Env → Env = λ host e. record e { host = host } in
    ap {A = Env} {B = M68kMachine}
      (λ e. record { cpu = reset_cpu; mem = (emit_kernel k ram e code_base).0 })
      (ap (host_of (window (clear_ram ram env'.host))) h.kept
        ∙ ap (λ host. host_of (window host) env) cleared)
