-- ===== src/Harness/Ppc/Prepared.antt =====
-- What `setup_kernel` of ppc/bench_main.c leaves.
use emu_core_bench.Base.{
  ℕ, zero, suc, ◌+◌, ◌*◌, ◌^◌, ◌≤◌, ◌<◌, ◌≡◌, refl, ap, ◌∙◌, inl, inr, arith, Bool-cases, some, ok,
  get_elem?, List, [], ◌∷◌, ltb, leb,
}
use mathlib.Core.Path.{fun_ext}
use emu_core_bench.Memory.{Env, store_be32, memory_read_uint32}
use emu_core_bench.Memory.Access.{store_be32-eq-put32}
use emu_core_bench.Memory.RoundTrip.{put32-lt}
use emu_core_bench.Memory.Contained.{Outside, Contained, put-Contained}
use emu_core_bench.Ppc.State.{Machine}
use emu_core_bench.Harness.{
  lcg, emit_all, emit_all-cons, emit_all-nil, put_word, words, emit_all-fetch,
}
use emu_core_bench.Harness.Ppc.Kernels.{code_base, data_base}
use emu_core_bench.Harness.Ppc.Emission.{kernel_code, emit_kernel-all, kernel_code-fits}
use emu_core_bench.Harness.Ppc.Setup.{
  clear_ram, fill_window, emit_kernel, setup_kernel, ram_size, reset_cpu,
}

small : 2 ^ 23 < 2 ^ 32
small = omega arith

module _ (ram pages : ℕ) where
  -- Clearing forgets what the RAM held.
  pub clear_ram-same :
      (host host' : ℕ → ℕ)
      → ((q : ℕ) → Outside ram 23 q → host' q ≡ host q)
      → clear_ram ram host' ≡ clear_ram ram host
  unfolding clear_ram
  clear_ram-same host host' same = fun_ext λ q. elim (Bool-cases (leb ram q)) [
    | inl e ↦ elim (Bool-cases (ltb q (ram + ram_size))) [
      | inl e' ↦ rw (e, e') refl
      | inr e' ↦ rw (e, e') (same q (inr (ground arith)))
    ]
    | inr e ↦ rw e (same q (inl (ground arith)))
  ]

  -- The setup does not depend on what a run before it did to the RAM.
  pub setup_kernel-again :
      {env env' : Env} (k : ℕ)
      → Contained ram 23 pages env env'
      → setup_kernel ram k env' ≡ setup_kernel ram k env
  unfolding setup_kernel
  setup_kernel-again {env} {env'} k h =
      let window = fill_window ram 0x4000 0 0xDEAD_BEEF in
      let same : window (clear_ram ram env'.host) ≡ window (clear_ram ram env.host) =
        ap window (clear_ram-same env.host env'.host h.outside) in
      let host_of : (ℕ → ℕ) → Env → Env = λ host e. record e { host = host } in
      ap {A = Env} {B = Machine}
        (λ e. record { cpu = reset_cpu; mem = (emit_kernel k ram e code_base).0 })
        (ap (host_of (window (clear_ram ram env'.host))) h.kept
          ∙ ap (λ host. host_of host env) same)

  module _ {start : Env} where
    -- A word stored into the RAM.
    store_be32-Contained :
        (env : Env) (p v : ℕ)
        → ram ≤ p
        → p + 4 ≤ ram + 2 ^ 23
        → Contained ram 23 pages start env
        → Contained ram 23 pages start (record env { host = store_be32 env.host p v })
    store_be32-Contained env p v low high h =
        rw (store_be32-eq-put32 env.host p v)
          (put-Contained h _ (put32-lt h.flat _ v) (λ q out. ground arith))

    pub emit_all-Contained :
        (code : List ℕ) (env : Env) (pc : ℕ)
        → pc + 4 * words code ≤ 2 ^ 23
        → Contained ram 23 pages start env
        → Contained ram 23 pages start (emit_all ram env pc code).0
          × ((emit_all ram env pc code).1 ≡ pc + 4 * words code)
    emit_all-Contained [] env pc room h = rw (emit_all-nil ram 23 small env pc) (h, omega arith)
    emit_all-Contained (insn ∷ rest) env pc room h =
        let first : Contained ram 23 pages start (put_word ram env pc insn) =
          put-Contained h _ (put32-lt h.flat _ insn) (λ q out. ground arith) in
        let (kept, last) = emit_all-Contained rest _ (pc + 4) (omega (arith, room)) first in
        rw (emit_all-cons ram 23 small env pc insn rest (omega (arith, room)))
          (kept, omega (arith, last))

    pub fill_window-Contained :
        (n i seed : ℕ) (env : Env)
        → data_base + i + 4 * n ≤ 2 ^ 23
        → Contained ram 23 pages start env
        → Contained ram 23 pages start (record env { host = fill_window ram n i seed env.host })
    unfolding fill_window
    fill_window-Contained zero i seed env room h = h
    fill_window-Contained (suc n) i seed env room h =
        fill_window-Contained n (i + 4) (lcg seed) _ (omega (arith, room)) (
          store_be32-Contained env (ram + data_base + i) (lcg seed) (omega arith)
            (omega (arith, room)) h)

    pub clear_ram-Contained :
        (env : Env)
        → Contained ram 23 pages start env
        → Contained ram 23 pages start (record env { host = clear_ram ram env.host })
    unfolding clear_ram
    clear_ram-Contained env h =
        put-Contained h (clear_ram ram env.host) (λ q. ground (arith, h.flat.bytes q))
          (λ q out. ground arith)

-- The memory before the kernel is emitted.
abbrev windowed : ℕ → Env → Env
windowed ram env = record env {
  host = fill_window ram 0x4000 0 0xDEAD_BEEF (clear_ram ram env.host);
}

module _ {ram pages : ℕ} {start env : Env} (h : Contained ram 23 pages start env) where
  windowed-Contained : Contained ram 23 pages start (windowed ram env)
  windowed-Contained =
      fill_window-Contained ram pages 0x4000 0 0xDEAD_BEEF _ (omega arith)
        (clear_ram-Contained ram pages env h)

  -- The setup changes the RAM only.
  pub setup_kernel-Contained : (k : ℕ) → Contained ram 23 pages start (setup_kernel ram k env).mem
  unfolding setup_kernel
  setup_kernel-Contained k =
      rw (emit_kernel-all k)
        (emit_all-Contained ram pages (kernel_code k) _ code_base
          (omega (arith, kernel_code-fits k)) windowed-Contained).0

  -- The code region holds the kernel's program.
  pub setup_kernel-code :
      (k i w : ℕ)
      → get_elem? (kernel_code k) i ≡ some w
      → w < 2 ^ 32
      → memory_read_uint32 (setup_kernel ram k env).mem (code_base + 4 * i) ≡ ok w
  unfolding setup_kernel
  setup_kernel-code k i w at lt = rw (emit_kernel-all k) (
      (emit_all-fetch windowed-Contained.flat code_base (kernel_code k) refl
          (omega (arith, kernel_code-fits k)) (omega arith)).1
        i w at lt)

pub setup_kernel-cpu : (ram k : ℕ) (env : Env) → (setup_kernel ram k env).cpu ≡ reset_cpu
unfolding setup_kernel
setup_kernel-cpu ram k env = refl
