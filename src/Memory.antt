-- ===== src/Memory.antt =====
-- The memory fast path, common/mem_fastpath.h: per-page tables of adjusted host bases, the
-- page-crossing checks and the big-endian accessors; and the slow path and `value_trap_check` of
-- common/mem_env.c.
pub mod Init
pub mod Flat
pub mod Access
pub mod RoundTrip
pub mod Contained
mod Tests
use emu_core_bench.Base.{
  ℕ, ◌+◌, ◌-◌, ◌*◌, ◌/◌, ◌%◌, ◌^◌, bit_and, Bool, not, ◌&&◌, Option, none, some, Fault, Outcome, ok,
  fatal, ◌>>=◌, u8, u16, u32, ◌==◌, leb, if◌then◌else◌,
}

-- The globals of the fast path, and the host's memory by byte address. A table is `none` past
-- its end.
pub record Env : Type 0 where
  pub address_mask : ℕ
  pub active_read : ℕ → Option ℕ
  pub active_write : ℕ → Option ℕ
  pub value_trap_active : ℕ
  pub value_trap_value : ℕ
  pub value_trap_size : ℕ
  pub host : ℕ → ℕ

abbrev pub page_shift : ℕ
page_shift = 12

abbrev pub mem_page_size : ℕ
mem_page_size = 2 ^ page_shift

abbrev pub page_mask : ℕ
page_mask = mem_page_size - 1

-- `__builtin_bswap16` and `__builtin_bswap32`.
abbrev pub bswap16 : ℕ → ℕ
bswap16 v = v % 256 * 256 + v / 256 % 256

abbrev pub bswap32 : ℕ → ℕ
bswap32 v =
    v % 256 * 0x100_0000
    + v / 0x100 % 256 * 0x1_0000
    + v / 0x1_0000 % 256 * 0x100
    + v / 0x100_0000 % 256

-- `*(const uint16_t *)p` and `*(const uint32_t *)p` on a little-endian host.
abbrev pub load16 : (ℕ → ℕ) → ℕ → ℕ
load16 host p = host p + host (p + 1) * 0x100

abbrev pub load32 : (ℕ → ℕ) → ℕ → ℕ
load32 host p = host p + host (p + 1) * 0x100 + host (p + 2) * 0x1_0000 + host (p + 3) * 0x100_0000

abbrev pub store8 : (ℕ → ℕ) → ℕ → ℕ → ℕ → ℕ
store8 host p v q = if q == p then u8 v else host q

abbrev pub store16 : (ℕ → ℕ) → ℕ → ℕ → ℕ → ℕ
store16 host p v = store8 (store8 host p v) (p + 1) (v / 0x100)

abbrev pub store32 : (ℕ → ℕ) → ℕ → ℕ → ℕ → ℕ
store32 host p v = store16 (store16 host p v) (p + 2) (v / 0x1_0000)

unfoldable pub load_be8 : (ℕ → ℕ) → ℕ → ℕ
load_be8 host p = host p

unfoldable pub load_be16 : (ℕ → ℕ) → ℕ → ℕ
load_be16 host p = bswap16 (load16 host p)

unfoldable pub load_be32 : (ℕ → ℕ) → ℕ → ℕ
load_be32 host p = bswap32 (load32 host p)

unfoldable pub store_be8 : (ℕ → ℕ) → ℕ → ℕ → ℕ → ℕ
store_be8 host p v = store8 host p (u8 v)

unfoldable pub store_be16 : (ℕ → ℕ) → ℕ → ℕ → ℕ → ℕ
store_be16 host p v = store16 host p (bswap16 (u16 v))

unfoldable pub store_be32 : (ℕ → ℕ) → ℕ → ℕ → ℕ → ℕ
store_be32 host p v = store32 host p (bswap32 (u32 v))

-- `base + masked` on a 64-bit uintptr_t.
abbrev pub host_pointer : ℕ → ℕ → ℕ
host_pointer base masked = (base + masked) % 2 ^ 64

-- `g_active_read[masked >> PAGE_SHIFT]`, or the same of the write table.
unfoldable pub entry : (ℕ → Option ℕ) → ℕ → Outcome ℕ
entry soa masked = elim (soa (masked / 2 ^ page_shift)) [
  | none ↦ fatal Fault.out_of_bounds
  | some base ↦ ok base
]

-- The slow paths end the process with a diagnostic; the access is named by its bytes, plus 16
-- for a write.
abbrev pub memory_read_slow : ℕ → ℕ → Outcome ℕ
memory_read_slow size addr = fatal (Fault.bad_access size addr)

abbrev pub memory_write_slow : ℕ → ℕ → Outcome Env
memory_write_slow size addr = fatal (Fault.bad_access (16 + size) addr)

-- Does nothing in this environment.
unfoldable pub value_trap_check : ℕ → ℕ → ℕ → Env → Env
value_trap_check la v size env = env

-- `base != 0 && (masked & PAGE_MASK) <= MEM_PAGE_SIZE - size`.
abbrev pub on_fast_path : ℕ → ℕ → ℕ → Bool
on_fast_path base masked size =
    not (base == 0) && leb (bit_and masked page_mask) (mem_page_size - size)

unfoldable pub memory_read_uint8 : Env → ℕ → Outcome ℕ
unfolding entry load_be8
memory_read_uint8 env addr =
    let masked = bit_and addr env.address_mask in
    entry env.active_read masked >>= λ base.
    if not (base == 0)
    then ok (load_be8 env.host (host_pointer base masked))
    else memory_read_slow 1 masked

unfoldable pub memory_read_uint16 : Env → ℕ → Outcome ℕ
unfolding entry load_be16
memory_read_uint16 env addr =
    let masked = bit_and addr env.address_mask in
    entry env.active_read masked >>= λ base.
    if on_fast_path base masked 2
    then ok (load_be16 env.host (host_pointer base masked))
    else memory_read_slow 2 masked

unfoldable pub memory_read_uint32 : Env → ℕ → Outcome ℕ
unfolding entry load_be32
memory_read_uint32 env addr =
    let masked = bit_and addr env.address_mask in
    entry env.active_read masked >>= λ base.
    if on_fast_path base masked 4
    then ok (load_be32 env.host (host_pointer base masked))
    else memory_read_slow 4 masked

unfoldable pub memory_write_uint8 : Env → ℕ → ℕ → Outcome Env
unfolding entry value_trap_check store_be8
memory_write_uint8 env addr value =
    let masked = bit_and addr env.address_mask in
    entry env.active_write masked >>= λ base.
    let trapped =
      not (env.value_trap_active == 0)
      && env.value_trap_size == 1
      && u8 value == u8 env.value_trap_value in
    let env' : Env = if trapped then value_trap_check masked value 1 env else env in
    if not (base == 0)
    then ok (record env' { host = store_be8 env'.host (host_pointer base masked) value })
    else memory_write_slow 1 masked

unfoldable pub memory_write_uint16 : Env → ℕ → ℕ → Outcome Env
unfolding entry value_trap_check store_be16
memory_write_uint16 env addr value =
    let masked = bit_and addr env.address_mask in
    entry env.active_write masked >>= λ base.
    let trapped =
      not (env.value_trap_active == 0)
      && env.value_trap_size == 2
      && u16 value == u16 env.value_trap_value in
    let env' : Env = if trapped then value_trap_check masked value 2 env else env in
    if on_fast_path base masked 2
    then ok (record env' { host = store_be16 env'.host (host_pointer base masked) value })
    else memory_write_slow 2 masked

unfoldable pub memory_write_uint32 : Env → ℕ → ℕ → Outcome Env
unfolding entry value_trap_check store_be32
memory_write_uint32 env addr value =
    let masked = bit_and addr env.address_mask in
    entry env.active_write masked >>= λ base.
    let trapped =
      not (env.value_trap_active == 0)
      && env.value_trap_size == 4
      && value == env.value_trap_value in
    let env' : Env = if trapped then value_trap_check masked value 4 env else env in
    if on_fast_path base masked 4
    then ok (record env' { host = store_be32 env'.host (host_pointer base masked) value })
    else memory_write_slow 4 masked
