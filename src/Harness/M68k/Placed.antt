-- ===== src/Harness/M68k/Placed.antt =====
-- Code at the start of a kernel in the RAM, and the instructions that the decoder comes to around it.
use emu_core_bench.Base.{
  ℕ, zero, suc, ◌+◌, ◌*◌, ◌%◌, ◌^◌, ◌≤◌, ◌<◌, ◌≡◌, refl, ap, ◌∙◌, arith, some, get_elem?, List, [],
  ◌∷◌, ok, ◌>>=◌,
}
use emu_core_bench.Memory.{Env, memory_read_uint16, memory_read_uint32}
use emu_core_bench.Memory.Flat.{IsFlat}
use emu_core_bench.Memory.Access.{be16, put32}
use emu_core_bench.Memory.RoundTrip.{host-IsFlat, put32-lt}
use emu_core_bench.M68k.Pd.Decode.{mpd_decode, decode_op}
use emu_core_bench.M68k.Pd.Run.{mpd_region_bytes}
use emu_core_bench.M68k.Pd.Heads.{Walk, blank-Walk}
use emu_core_bench.Harness.{words}
use emu_core_bench.Harness.M68k.Fetch.{none-ne, some-same, read_word, read_long}

-- The words of a list that are in 16 bits.
abbrev pub AllWords : List ℕ → Type 0
AllWords [] = Unit {0}
AllWords (w ∷ ws) = (w < 2 ^ 16) × AllWords ws

pub in_list :
    (ws : List ℕ) (i w : ℕ) → AllWords ws → get_elem? ws i ≡ some w → (i < words ws) × (w < 2 ^ 16)
in_list [] i w all at = absurd (none-ne i w at)
in_list (v ∷ rest) zero w (lt, all) at = (omega arith, rw (some-same at) at lt)
in_list (v ∷ rest) (suc i) w (_, all) at =
    let (low, lt) = in_list rest i w all at in (omega (arith, low), lt)

-- A memory with the words at `code_base`, and nothing else in the decoded region.
pub record HasCode (ram pages : ℕ) (ws : List ℕ) (env : Env) : Type 0 where
  pub flat : IsFlat ram 23 pages env
  pub small : words ws < 0x1000
  pub half :
      (i w : ℕ)
      → get_elem? ws i ≡ some w
      → (i < words ws) × (be16 env.host (ram + (0x1000 + 2 * i)) ≡ w)
  pub below : (a : ℕ) → a < 0x1000 → a % 2 ≡ 0 → be16 env.host (ram + a) ≡ 0
  pub past :
      (a : ℕ)
      → 0x1000 + 2 * words ws ≤ a
      → a < mpd_region_bytes
      → a % 2 ≡ 0
      → be16 env.host (ram + a) ≡ 0

module _ {ram pages : ℕ} {ws : List ℕ} {env : Env} (has : HasCode ram pages ws env) where
  pub word : (i w : ℕ) → get_elem? ws i ≡ some w → memory_read_uint16 env (0x1000 + 2 * i) ≡ ok w
  word i w at =
      let (low, e) = has.half i w at in
      read_word has.flat (0x1000 + 2 * i) (omega (arith, low, has.small)) (omega arith) ∙ ap ok e

  pub long :
      (i high low : ℕ)
      → get_elem? ws i ≡ some high
      → get_elem? ws (i + 1) ≡ some low
      → (0x1000 + 2 * i) % 4096 ≤ 4092
      → memory_read_uint32 env (0x1000 + 2 * i) ≡ ok (high * 0x1_0000 + low)
  long i high low at at' short =
      let (inside, e) = has.half i high at in
      let (_, e') = has.half (i + 1) low at' in
      let next : 0x1000 + 2 * (i + 1) ≡ 0x1000 + 2 * i + 2 = omega arith in
      read_long has.flat (0x1000 + 2 * i) (omega (arith, inside, has.small)) short
      ∙ rw (e, rw next at e') refl

  pub to_code : Walk env 0 0x1000
  to_code = blank-Walk env 0x800 0 0x1000 refl refl λ c low high even.
      read_word has.flat c (omega (arith, high)) even ∙ ap ok (has.below c high even)

  -- From the end of the code to that of the region.
  pub past_code :
      (n : ℕ)
      → 0x1000 + 2 * words ws + 2 * n ≡ mpd_region_bytes
      → Walk env (0x1000 + 2 * words ws) mpd_region_bytes
  past_code n at =
      blank-Walk env n (0x1000 + 2 * words ws) mpd_region_bytes at (omega arith) λ c low high even.
        read_word has.flat c (omega (arith, high)) even ∙ ap ok (has.past c low high even)

  -- The decoder reads the word there first.
  pub at_word :
      (i w : ℕ)
      → get_elem? ws i ≡ some w
      → mpd_decode env (0x1000 + 2 * i) ≡ decode_op env (0x1000 + 2 * i) w
  unfolding mpd_decode
  at_word i w at = ap (λ r. r >>= λ op. decode_op env (0x1000 + 2 * i) op) (word i w at)

  -- A store past the region keeps the code.
  pub put32-HasCode :
      (a v : ℕ)
      → mpd_region_bytes ≤ a
      → HasCode ram pages ws (record env { host = put32 env.host (ram + a) v })
  put32-HasCode a v far = record {
    flat = host-IsFlat has.flat (put32 env.host (ram + a) v) (λ q. put32-lt has.flat (ram + a) v q);
    small = has.small;
    half = λ i w at.
        let (low, e) = has.half i w at in
        (low, apart (0x1000 + 2 * i) (omega (arith, low, has.small, far)) ∙ e);
    below = λ c low even. apart c (omega (arith, low, far)) ∙ has.below c low even;
    past = λ c low high even. apart c (omega (arith, high, even, far)) ∙ has.past c low high even;
  }
    where
      apart :
          (c : ℕ)
          → c + 2 ≤ a
          → be16 (put32 env.host (ram + a) v) (ram + c) ≡ be16 env.host (ram + c)
      apart c h = ground (arith, h)
