-- ===== src/Memory/Access.antt =====
-- What the accessors of common/mem_fastpath.h do in the environment of common/mem_env.c.
use emu_core_bench.Base.{
  ℕ, ◌+◌, ◌-◌, ◌*◌, ◌/◌, ◌%◌, ◌^◌, ◌<◌, ◌≡◌, arith, ok, fatal, ◌==◌, if◌then◌else◌, leb, bit_and,
  bit_and_ones, Fault, Bool, true, not, After, After-bind_all, Bool-cases, inl, inr,
}
use mathlib.Core.Path.{fun_ext}
use native.Mathlib.Nat.{mod-lt, one-le-pow}
use emu_core_bench.Memory.{
  Env, entry, on_fast_path, host_pointer, load_be8, load_be16, load_be32, store_be8, store_be16,
  store_be32, memory_read_uint8, memory_read_uint16, memory_read_uint32, memory_write_uint8,
  memory_write_uint16, memory_write_uint32, value_trap_check,
}
use emu_core_bench.Memory.Flat.{IsFlat}

-- Big-endian numbers in a byte array.
abbrev pub be16 : (ℕ → ℕ) → ℕ → ℕ
be16 f p = f p * 0x100 + f (p + 1)

abbrev pub be32 : (ℕ → ℕ) → ℕ → ℕ
be32 f p = f p * 0x100_0000 + f (p + 1) * 0x1_0000 + f (p + 2) * 0x100 + f (p + 3)

-- The byte array with a number written into it, most significant byte first.
abbrev pub put8 : (ℕ → ℕ) → ℕ → ℕ → ℕ → ℕ
put8 f p v q = if q == p then v % 256 else f q

abbrev pub put16 : (ℕ → ℕ) → ℕ → ℕ → ℕ → ℕ
put16 f p v q = if q == p then v / 0x100 % 256 else if q == p + 1 then v % 256 else f q

abbrev pub put32 : (ℕ → ℕ) → ℕ → ℕ → ℕ → ℕ
put32 f p v q =
    if q == p
    then v / 0x100_0000 % 256
    else if q == p + 1
    then v / 0x1_0000 % 256
    else if q == p + 2
    then v / 0x100 % 256
    else if q == p + 3
    then v % 256
    else f q

module _ (f : ℕ → ℕ) (bytes : (q : ℕ) → f q < 256) (p : ℕ) where
  load_be16-eq-be16 : load_be16 f p ≡ be16 f p
  unfolding load_be16
  load_be16-eq-be16 = omega (arith, bytes p, bytes (p + 1))

  load_be32-eq-be32 : load_be32 f p ≡ be32 f p
  unfolding load_be32
  load_be32-eq-be32 = omega (arith, bytes p, bytes (p + 1), bytes (p + 2), bytes (p + 3))

module _ (f : ℕ → ℕ) (p v : ℕ) where
  store_be8-eq-put8 : store_be8 f p v ≡ put8 f p v
  unfolding store_be8
  store_be8-eq-put8 = fun_ext λ q. ground arith

  pub store_be16-eq-put16 : store_be16 f p v ≡ put16 f p v
  unfolding store_be16
  store_be16-eq-put16 = fun_ext λ q. ground arith

  pub store_be32-eq-put32 : store_be32 f p v ≡ put32 f p v
  unfolding store_be32
  store_be32-eq-put32 = fun_ext λ q. ground arith

trap_lem :
    (b : Bool) (la v size : ℕ) (env : Env)
    → (if b then value_trap_check la v size env else env) ≡ env
unfolding value_trap_check
trap_lem b la v size env = ground arith

module _ {ram bits pages : ℕ} {env : Env} (flat : IsFlat ram bits pages env) (addr : ℕ) where
  masked_lem : bit_and addr env.address_mask ≡ addr % 2 ^ bits
  masked_lem = rw flat.mask (bit_and_ones bits addr)

  masked-lt : addr % 2 ^ bits < 2 ^ bits
  masked-lt = mod-lt addr (one-le-pow bits 2 (omega arith))

  page-lt : addr % 2 ^ bits / 4096 < pages
  page-lt = omega (arith, masked-lt, flat.size)

  entry_read : entry env.active_read (addr % 2 ^ bits) ≡ ok ram
  unfolding entry
  entry_read = rw (flat.reads (addr % 2 ^ bits / 4096) page-lt, entry)

  entry_write : entry env.active_write (addr % 2 ^ bits) ≡ ok ram
  unfolding entry
  entry_write = rw (flat.writes (addr % 2 ^ bits / 4096) page-lt, entry)

  pointer_lem : host_pointer ram (addr % 2 ^ bits) ≡ ram + addr % 2 ^ bits
  pointer_lem = omega (arith, masked-lt, flat.fits)

  not_null : not (ram == 0) ≡ true
  not_null = ground (arith, flat.mapped)

  fast_path_lem :
      (size : ℕ)
      → on_fast_path ram (addr % 2 ^ bits) size ≡ leb (addr % 2 ^ bits % 4096) (4096 - size)
  fast_path_lem size = rw (not_null, bit_and_ones 12 (addr % 2 ^ bits))

  -- A byte read gives the RAM's byte at the address modulo the RAM's size.
  pub memory_read_uint8_lem : memory_read_uint8 env addr ≡ ok (env.host (ram + addr % 2 ^ bits))
  unfolding memory_read_uint8
  memory_read_uint8_lem = rw (masked_lem, entry_read, not_null, pointer_lem)

  -- A 16-bit read gives the RAM's big-endian number, or ends the process where it would cross a
  -- page.
  pub memory_read_uint16_lem : memory_read_uint16 env addr ≡ (
      if leb (addr % 2 ^ bits % 4096) 4094
      then ok (be16 env.host (ram + addr % 2 ^ bits))
      else fatal (Fault.bad_access 2 (addr % 2 ^ bits)))
  unfolding memory_read_uint16
  memory_read_uint16_lem =
      rw (masked_lem, entry_read, fast_path_lem, pointer_lem, load_be16-eq-be16 env.host flat.bytes)

  -- In the environment that `mem_env_init` sets up, a 32-bit read at any address gives the RAM's
  -- big-endian number at the address modulo the RAM's size, or ends the process where it would
  -- cross a page.
  pub memory_read_uint32_lem : memory_read_uint32 env addr ≡ (
      if leb (addr % 2 ^ bits % 4096) 4092
      then ok (be32 env.host (ram + addr % 2 ^ bits))
      else fatal (Fault.bad_access 4 (addr % 2 ^ bits)))
  unfolding memory_read_uint32
  memory_read_uint32_lem =
      rw (masked_lem, entry_read, fast_path_lem, pointer_lem, load_be32-eq-be32 env.host flat.bytes)

  -- A byte write changes the RAM's byte at the address modulo the RAM's size.
  pub memory_write_uint8_lem :
      (v : ℕ)
      → memory_write_uint8 env addr v
        ≡ ok (record env { host = put8 env.host (ram + addr % 2 ^ bits) v })
  unfolding memory_write_uint8
  memory_write_uint8_lem v =
      rw (masked_lem, entry_write, not_null, pointer_lem, trap_lem, store_be8-eq-put8)

  -- A 16-bit write puts the big-endian number there, or ends the process where it would cross a
  -- page.
  pub memory_write_uint16_lem :
      (v : ℕ)
      → memory_write_uint16 env addr v ≡ (
          if leb (addr % 2 ^ bits % 4096) 4094
          then ok (record env { host = put16 env.host (ram + addr % 2 ^ bits) v })
          else fatal (Fault.bad_access 18 (addr % 2 ^ bits)))
  unfolding memory_write_uint16
  memory_write_uint16_lem v = rw (
    masked_lem,
    entry_write,
    fast_path_lem,
    pointer_lem,
    trap_lem,
    store_be16-eq-put16 env.host (ram + addr % 2 ^ bits) v,
  )

  -- In the environment that `mem_env_init` sets up, a 32-bit write at any address puts the number
  -- into the RAM, most significant byte first, at the address modulo the RAM's size, and changes
  -- nothing else; or it ends the process where it would cross a page.
  pub memory_write_uint32_lem :
      (v : ℕ)
      → memory_write_uint32 env addr v ≡ (
          if leb (addr % 2 ^ bits % 4096) 4092
          then ok (record env { host = put32 env.host (ram + addr % 2 ^ bits) v })
          else fatal (Fault.bad_access 20 (addr % 2 ^ bits)))
  unfolding memory_write_uint32
  memory_write_uint32_lem v = rw (
    masked_lem,
    entry_write,
    fast_path_lem,
    pointer_lem,
    trap_lem,
    store_be32-eq-put32 env.host (ram + addr % 2 ^ bits) v,
  )

-- What is read has the width of the access, in a host that holds bytes.
module _ (env : Env) (bytes : (q : ℕ) → env.host q < 256) (addr : ℕ) where
  pub memory_read_uint8-small : After (memory_read_uint8 env addr) (λ w. w < 2 ^ 8)
  unfolding memory_read_uint8 load_be8
  memory_read_uint8-small =
      After-bind_all (λ w. w < 2 ^ 8) (entry env.active_read (bit_and addr env.address_mask)) _
        λ base. elim (Bool-cases (not (base == 0))) [
          | inl e ↦ rw e (bytes (host_pointer base (bit_and addr env.address_mask)))
          | inr e ↦ rw e tt
        ]

  pub memory_read_uint16-small : After (memory_read_uint16 env addr) (λ w. w < 2 ^ 16)
  unfolding memory_read_uint16
  memory_read_uint16-small =
      After-bind_all (λ w. w < 2 ^ 16) (entry env.active_read (bit_and addr env.address_mask)) _
        λ base.
          let p = host_pointer base (bit_and addr env.address_mask) in
          elim (Bool-cases (on_fast_path base (bit_and addr env.address_mask) 2)) [
            | inl e ↦
                rw e (omega (arith, load_be16-eq-be16 env.host bytes p, bytes p, bytes (p + 1)))
            | inr e ↦ rw e tt
          ]

  pub memory_read_uint32-small : After (memory_read_uint32 env addr) (λ w. w < 2 ^ 32)
  unfolding memory_read_uint32
  memory_read_uint32-small =
      After-bind_all (λ w. w < 2 ^ 32) (entry env.active_read (bit_and addr env.address_mask)) _
        λ base.
          let p = host_pointer base (bit_and addr env.address_mask) in
          elim (Bool-cases (on_fast_path base (bit_and addr env.address_mask) 4)) [
            | inl e ↦ rw e (
                omega (
                  arith,
                  load_be32-eq-be32 env.host bytes p,
                  bytes p,
                  bytes (p + 1),
                  bytes (p + 2),
                  bytes (p + 3),
                ))
            | inr e ↦ rw e tt
          ]
