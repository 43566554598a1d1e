-- ===== src/Memory/RoundTrip.antt =====
-- Reads after writes through the accessors of common/mem_fastpath.h.
use emu_core_bench.Base.{
  ℕ, refl, sym, ◌∙◌, ◌+◌, ◌*◌, ◌/◌, ◌%◌, ◌^◌, ◌≤◌, ◌<◌, ◌≡◌, ◌≢◌, ◌⊎◌, arith, ok, leb, ap, true,
  inl, inr,
}
use native.Mathlib.Nat.{div-add-mod, mod-add-mod, mod-lt, one-le-pow, mod-eq_of_lt}
use native.Mathlib.Decide.{dec_lt}
use emu_core_bench.Memory.{
  Env, memory_read_uint8, memory_read_uint16, memory_read_uint32, memory_write_uint16,
  memory_write_uint32,
}
use emu_core_bench.Memory.Flat.{IsFlat}
use emu_core_bench.Memory.Access.{
  be16, be32, put8, memory_read_uint8_lem, memory_read_uint16_lem, put16, put32,
  memory_read_uint32_lem, memory_write_uint16_lem, memory_write_uint32_lem,
}

pub be32-put32_self : (f : ℕ → ℕ) (p v : ℕ) → be32 (put32 f p v) p ≡ v % 2 ^ 32
be32-put32_self f p v = ground arith

pub be32-put32_apart :
    (f : ℕ → ℕ) (p q v : ℕ) → (q + 4 ≤ p) ⊎ (p + 4 ≤ q) → be32 (put32 f p v) q ≡ be32 f q
be32-put32_apart f p q v (inl h) = ground arith
be32-put32_apart f p q v (inr h) = ground arith

module _ {ram bits pages : ℕ} {env : Env} (flat : IsFlat ram bits pages env) where
  aligned_mod : (addr : ℕ) → addr % 4 ≡ 0 → addr % 2 ^ bits % 4 ≡ 0
  aligned_mod addr h =
      let split : 4 * (1024 * (pages * (addr / 2 ^ bits))) + addr % 2 ^ bits ≡ addr =
        omega (arith, div-add-mod addr (2 ^ bits), ap (λ t. t * (addr / 2 ^ bits)) flat.size) in
      omega (arith, split)

  -- A word-aligned address never crosses a page.
  aligned_inside : (addr : ℕ) → addr % 4 ≡ 0 → leb (addr % 2 ^ bits % 4096) 4092 ≡ true
  aligned_inside addr h = ground (arith, aligned_mod addr h)

  -- A word-aligned 32-bit read returns: the RAM's big-endian word, modulo the RAM's size.
  pub memory_read_uint32_aligned :
      (addr : ℕ)
      → addr % 4 ≡ 0
      → memory_read_uint32 env addr ≡ ok (be32 env.host (ram + addr % 2 ^ bits))
  memory_read_uint32_aligned addr h = rw (memory_read_uint32_lem flat addr, aligned_inside addr h)

  pub host-IsFlat :
      (host : ℕ → ℕ) → ((q : ℕ) → host q < 256) → IsFlat ram bits pages (record env { host = host })
  host-IsFlat host bytes = record {
    mask = flat.mask;
    size = flat.size;
    reads = flat.reads;
    writes = flat.writes;
    mapped = flat.mapped;
    fits = flat.fits;
    bytes = bytes;
  }

  pub put8-lt : (p v q : ℕ) → put8 env.host p v q < 256
  put8-lt p v q = ground (arith, flat.bytes q)

  pub put16-lt : (p v q : ℕ) → put16 env.host p v q < 256
  put16-lt p v q = ground (arith, flat.bytes q)

  pub put32-lt : (p v q : ℕ) → put32 env.host p v q < 256
  put32-lt p v q = ground (arith, flat.bytes q)

module _ {ram bits pages : ℕ} {env : Env} (flat : IsFlat ram bits pages env) where
  -- In the environment that `mem_env_init` sets up, a write of a 32-bit value to a word-aligned
  -- address returns; the same address then reads back the value written, and every other aligned
  -- word, modulo the RAM's size, is as before.
  pub memory_read-memory_write :
      (addr v : ℕ)
      → addr % 4 ≡ 0
      → v < 2 ^ 32
      → (env' : Env) × (memory_write_uint32 env addr v ≡ ok env')
        × (memory_read_uint32 env' addr ≡ ok v)
        × ((other : ℕ)
            → other % 4 ≡ 0
            → other % 2 ^ bits ≢ addr % 2 ^ bits
            → memory_read_uint32 env' other ≡ memory_read_uint32 env other)
  memory_read-memory_write addr v h lt =
      let p = ram + addr % 2 ^ bits in
      let after : IsFlat ram bits pages (record env { host = put32 env.host p v }) =
        host-IsFlat flat _ (put32-lt flat p v) in
      (
        record env { host = put32 env.host p v },
        rw (memory_write_uint32_lem flat addr v, aligned_inside flat addr h),
        rw (memory_read_uint32_aligned after addr h, be32-put32_self env.host p v, mod-eq_of_lt lt),
        λ other ho ne. rw (
          memory_read_uint32_aligned after other ho,
          memory_read_uint32_aligned flat other ho,
          be32-put32_apart env.host p (ram + other % 2 ^ bits) v (apart other ho ne),
        ),
      )
    where
      apart :
          (other : ℕ)
          → other % 4 ≡ 0
          → other % 2 ^ bits ≢ addr % 2 ^ bits
          → (ram + other % 2 ^ bits + 4 ≤ ram + addr % 2 ^ bits)
            ⊎ (ram + addr % 2 ^ bits + 4 ≤ ram + other % 2 ^ bits)
      apart other ho ne = elim (dec_lt (other % 2 ^ bits) (addr % 2 ^ bits)) [
        | yes l ↦ inl (omega (arith, aligned_mod flat addr h, aligned_mod flat other ho))
        | no l ↦ inr (omega (arith, aligned_mod flat addr h, aligned_mod flat other ho))
      ]

be16-put16 : (f : ℕ → ℕ) (p v : ℕ) → v < 2 ^ 16 → be16 (put16 f p v) p ≡ v
be16-put16 f p v lt = ground (arith, lt)

put16-apart : (f : ℕ → ℕ) (p v q : ℕ) → q ≢ p → q ≢ p + 1 → put16 f p v q ≡ f q
put16-apart f p v q ne ne' = ground (arith, ne, ne')

module _ {ram bits pages : ℕ} {env : Env} (flat : IsFlat ram bits pages env) where
  -- In the environment that `mem_env_init` sets up, a write of a 16-bit value to an even address
  -- returns; 16 bits read at that address are the value, the byte there is its high half and the
  -- byte after it its low half; every other byte, modulo the RAM's size, reads as before.
  pub memory_read_uint8-memory_write_uint16 :
      (addr v : ℕ)
      → addr % 2 ≡ 0
      → v < 2 ^ 16
      → (env' : Env) × (memory_write_uint16 env addr v ≡ ok env')
        × (memory_read_uint16 env' addr ≡ ok v)
        × (memory_read_uint8 env' addr ≡ ok (v / 2 ^ 8))
        × (memory_read_uint8 env' (addr + 1) ≡ ok (v % 2 ^ 8))
        × ((other : ℕ)
            → other % 2 ^ bits ≢ addr % 2 ^ bits
            → other % 2 ^ bits ≢ (addr + 1) % 2 ^ bits
            → memory_read_uint8 env' other ≡ memory_read_uint8 env other)
  memory_read_uint8-memory_write_uint16 addr v h lt =
      let p = ram + addr % 2 ^ bits in
      let host = put16 env.host p v in
      let after : IsFlat ram bits pages (record env { host = host }) =
        host-IsFlat flat host (put16-lt flat p v) in
      let split : 2 * (2048 * (pages * (addr / 2 ^ bits))) + addr % 2 ^ bits ≡ addr =
        omega (arith, div-add-mod addr (2 ^ bits), ap (λ t. t * (addr / 2 ^ bits)) flat.size) in
      let even : addr % 2 ^ bits % 2 ≡ 0 = omega (arith, split, h) in
      let low : addr % 2 ^ bits < 2 ^ bits = mod-lt addr (one-le-pow bits 2 (omega arith)) in
      let inside : leb (addr % 2 ^ bits % 4096) 4094 ≡ true = ground (arith, even) in
      let next : (addr + 1) % 2 ^ bits ≡ addr % 2 ^ bits + 1 =
        sym (mod-add-mod addr (2 ^ bits) 1) ∙ mod-eq_of_lt (omega (arith, low, even, flat.size)) in
      let byte : ram + (addr % 2 ^ bits + 1) ≡ p + 1 = omega arith in
      let first : host p ≡ v / 2 ^ 8 = ground (arith, lt) in
      let second : host (p + 1) ≡ v % 2 ^ 8 = ground (arith, lt) in
      (
        record env { host = host },
        rw (memory_write_uint16_lem flat addr v, inside) refl,
        rw (memory_read_uint16_lem after addr, inside, be16-put16 env.host p v lt) refl,
        rw (memory_read_uint8_lem after addr, first) refl,
        rw (memory_read_uint8_lem after (addr + 1), next, byte, second) refl,
        λ other ne ne'.
            rw
              (
                memory_read_uint8_lem after other,
                memory_read_uint8_lem flat other,
                put16-apart env.host p v (ram + other % 2 ^ bits) (ground (arith, ne))
                    (λ e. ne' (omega (arith, e, next))),
              )
              refl,
      )
