-- ===== src/Harness/M68k/Assembled.antt =====
-- The code that `setup_kernel` of m68k/bench_main.c leaves in the RAM.
use emu_core_bench.Base.{
  ℕ, zero, suc, ◌+◌, ◌*◌, ◌^◌, ◌≤◌, ◌<◌, ◌≡◌, refl, ap, ◌∙◌, arith, List, true, leb, ltb, ◌&&◌,
}
use emu_core_bench.Memory.{Env, store_be32}
use emu_core_bench.Memory.Flat.{IsFlat}
use emu_core_bench.Memory.Access.{be16}
use emu_core_bench.Memory.Contained.{Contained-refl}
use emu_core_bench.M68k.Pd.Run.{mpd_region_bytes}
use emu_core_bench.Harness.{lcg, words}
use emu_core_bench.Harness.M68k.Assemble.{ew_all}
use emu_core_bench.Harness.M68k.Kernels.{code_base}
use emu_core_bench.Harness.M68k.Setup.{clear_ram, emit_kernel, fill_window, setup_kernel}
use emu_core_bench.Harness.M68k.Fetch.{ew_all-at, ew_all-below, ew_all-past}
use emu_core_bench.Harness.M68k.Prepared.{setup_kernel-Contained}
use emu_core_bench.Harness.M68k.Placed.{AllWords, in_list, HasCode}

store_be32-below : (f : ℕ → ℕ) (p v q : ℕ) → q < p → store_be32 f p v q ≡ f q
unfolding store_be32
store_be32-below f p v q h = ground arith

fill_window-below :
    (ram n i seed : ℕ) (host : ℕ → ℕ) (q : ℕ)
    → q < ram + 0x10_0000
    → fill_window ram n i seed host q ≡ host q
unfolding fill_window
fill_window-below ram zero i seed host q h = refl
fill_window-below ram (suc n) i seed host q h =
    fill_window-below ram n (i + 4) (lcg seed) (store_be32 host (ram + 0x10_0000 + i) (lcg seed)) q
      h
    ∙ store_be32-below host (ram + 0x10_0000 + i) (lcg seed) q (omega (arith, h))

-- The host as the kernel's assembly finds it.
abbrev before : ℕ → Env → Env
before ram start = record start {
  host = fill_window ram 0x4000 0 0xDEAD_BEEF (clear_ram ram start.host);
}

blank_byte :
    (ram : ℕ) (start : Env) (q : ℕ) → ram ≤ q → q < ram + 0x10_0000 → (before ram start).host q ≡ 0
unfolding clear_ram
blank_byte ram start q low high =
    let in_ram : (leb ram q && ltb q (ram + 2 ^ 23)) ≡ true = ground (arith, low, high) in
    fill_window-below ram 0x4000 0 0xDEAD_BEEF (clear_ram ram start.host) q high ∙ rw in_ram refl

module _ {ram pages : ℕ} {start : Env} (flat : IsFlat ram 23 pages start) (k : ℕ) (ws : List ℕ)
    (all : AllWords ws) (small : words ws < 0x1000)
    (emits : (env : Env) → emit_kernel k ram env code_base ≡ ew_all ram env code_base ws) where
  setup_mem : (setup_kernel ram k start).mem ≡ (ew_all ram (before ram start) code_base ws).0
  unfolding setup_kernel
  setup_mem = ap (λ r. r.0) (emits (before ram start))

  setup_half :
      (a v : ℕ)
      → be16 (ew_all ram (before ram start) code_base ws).0.host (ram + a) ≡ v
      → be16 (setup_kernel ram k start).mem.host (ram + a) ≡ v
  setup_half a v h = rw setup_mem h

  -- A word that the assembly leaves alone.
  empty_at :
      (a : ℕ)
      → a < mpd_region_bytes
      → be16 (ew_all ram (before ram start) code_base ws).0.host (ram + a)
        ≡ be16 (before ram start).host (ram + a)
      → be16 (setup_kernel ram k start).mem.host (ram + a) ≡ 0
  empty_at a inside stays =
      let first = blank_byte ram start (ram + a) (omega arith) (omega (arith, inside)) in
      let second = blank_byte ram start (ram + a + 1) (omega arith) (omega (arith, inside)) in
      setup_half a 0 (stays ∙ rw (first, second) refl)

  pub setup_kernel-HasCode : HasCode ram pages ws (setup_kernel ram k start).mem
  setup_kernel-HasCode = record {
    flat = (setup_kernel-Contained (Contained-refl flat) k).flat;
    small = small;
    half = λ i w at.
        let (low, lt) = in_list ws i w all at in
        (
          low,
          setup_half (0x1000 + 2 * i) w
              (ew_all-at ram ws (before ram start) code_base i w at lt (omega (arith, small))),
        );
    below = λ a inside even. empty_at a (omega (arith, inside)) (
        ew_all-below ram ws (before ram start) code_base a (omega (arith, inside, even))
          (omega (arith, small)));
    past = λ a low inside even. empty_at a inside (
        ew_all-past ram ws (before ram start) code_base a (omega (arith, low))
          (omega (arith, small)));
  }
