-- ===== src/Micro.antt =====
-- micro/be_micro.c: big-endian loads in three formulations over one buffer, and the loops that
-- time them. A pointer into the buffer is an index of it, and the host is little-endian.
mod Swaps
mod Tests
use emu_core_bench.Base.{
  ℕ, zero, suc, ◌+◌, ◌-◌, ◌*◌, ◌%◌, ◌^◌, bit_and, bit_or, Bool, true, false, List, [], ◌∷◌, ◌==◌,
  if◌then◌else◌, u32, add32, mul32, shl32, shr32,
}
use emu_core_bench.Memory.{bswap32}

abbrev pub buf_words : ℕ
buf_words = 16384

-- The loads, of the word `x` that the pointer leads to.
abbrev pub ld_le : ℕ → ℕ
ld_le x = x

unfoldable pub ld_bswap : ℕ → ℕ
ld_bswap x = bswap32 x

unfoldable pub ld_rot : ℕ → ℕ
ld_rot x =
    let t = bit_or (shl32 x 16) (shr32 x 16) in
    bit_or (bit_and (shl32 t 8) 0xFF00_FF00) (bit_and (shr32 t 8) 0x00FF_00FF)

abbrev pub next_lcg : ℕ → ℕ
next_lcg s = u32 (s * 1664525 + 1013904223)

-- The locals of `run`.
pub record Pass : Type 0 where
  pub sum : ℕ
  pub lin : ℕ
  pub idx : ℕ

abbrev pub load : ℕ → ℕ → ℕ
load kind x = if kind == 0 then ld_le x else if kind == 1 then ld_bswap x else ld_rot x

-- One round of the loop of `run`.
unfoldable pub run_step : ℕ → Bool → (ℕ → ℕ) → Pass → Pass
run_step kind dep buf s =
    let lin = next_lcg s.lin in
    let p = bit_and (if dep then s.idx else shr32 lin 8) (buf_words - 1) in
    record {
      sum = (s.sum + load kind (buf p)) % 2 ^ 64;
      lin = lin;
      idx = u32 (s.idx * 5 + buf p % 256 + 1);
    }

unfoldable pub run_loop : ℕ → Bool → (ℕ → ℕ) → ℕ → Pass → Pass
run_loop kind dep buf zero s = s
run_loop kind dep buf (suc n) s = run_loop kind dep buf n (run_step kind dep buf s)

abbrev pub start : Pass
start = record { sum = 0; lin = 0x9E37_79B9; idx = 0 }

-- `run`, less its timing.
unfoldable pub run : ℕ → Bool → (ℕ → ℕ) → ℕ → ℕ
run kind dep buf iters = (run_loop kind dep buf iters start).sum

-- The loop of `main` that fills the buffer, with the rounds left, `i` and `s`.
unfoldable pub fill_buf : ℕ → ℕ → ℕ → (ℕ → ℕ) → (ℕ → ℕ)
fill_buf zero i s buf = buf
fill_buf (suc n) i s buf =
    let s' = next_lcg s in fill_buf n (i + 1) s' (λ q. if q == i then s' else buf q)

-- The repetitions of one row, each of which overwrites `sum`.
abbrev pub repeat_run : ℕ → ℕ → Bool → (ℕ → ℕ) → ℕ → ℕ → ℕ
repeat_run zero kind dep buf iters sum = sum
repeat_run (suc r) kind dep buf iters sum = repeat_run r kind dep buf iters (run kind dep buf iters)

abbrev pub checksum : (ℕ → ℕ) → ℕ → Bool → ℕ → ℕ
checksum buf iters dep kind = repeat_run 5 kind dep buf iters 0

-- The checksums that `main` prints, in its order; `static` storage starts as zeros.
unfoldable pub main_checksums : ℕ → List ℕ
main_checksums iters =
    let buf = fill_buf buf_words 0 12345 (λ _. 0) in
    checksum buf iters false 0
    ∷ checksum buf iters false 1
    ∷ checksum buf iters false 2
    ∷ checksum buf iters true 0
    ∷ checksum buf iters true 1
    ∷ checksum buf iters true 2
    ∷ []
