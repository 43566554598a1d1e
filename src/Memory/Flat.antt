-- ===== src/Memory/Flat.antt =====
-- The environment that common/mem_env.c sets up: guest RAM contiguous in the host's memory.
use emu_core_bench.Base.{
  ℕ, zero, suc, ◌+◌, ◌-◌, ◌*◌, ◌/◌, ◌^◌, ◌≤◌, ◌<◌, ◌≡◌, ◌≢◌, refl, arith, Option, none, some, ok,
  ◌==◌, if◌then◌else◌, ltb,
}
use emu_core_bench.Memory.{Env}
use emu_core_bench.Memory.Init.{fill_table, mapped_env, mem_env_init}

-- Every page of a RAM of `2 ^ bits` bytes is mapped to the host at `ram`, in both tables; the
-- host's addresses do not wrap, and it holds bytes.
pub record IsFlat (ram bits pages : ℕ) (env : Env) : Type 0 where
  pub mask : env.address_mask ≡ 2 ^ bits - 1
  pub size : 2 ^ bits ≡ pages * 4096
  pub reads : (p : ℕ) → p < pages → env.active_read p ≡ some ram
  pub writes : (p : ℕ) → p < pages → env.active_write p ≡ some ram
  pub mapped : ram ≢ 0
  pub fits : ram + 2 ^ bits ≤ 2 ^ 64
  pub bytes : (q : ℕ) → env.host q < 256

fill_table-get :
    (left p g_ram : ℕ) (t : ℕ → Option ℕ) (q : ℕ)
    → fill_table left p g_ram t q
      ≡ (if ltb q p then t q else if ltb q (p + left) then some g_ram else t q)
unfolding fill_table
fill_table-get zero p g_ram t q = ground arith
fill_table-get (suc left) p g_ram t q =
    ground (arith, fill_table-get left (p + 1) g_ram (λ r. if r == p then some g_ram else t r) q)

-- With a RAM and tables that could be allocated, for a size that is a power of two and a whole
-- number of pages, in a host that holds bytes and whose addresses of the RAM fit in 64 bits,
-- `mem_env_init` returns and maps every page to the RAM in both tables.
pub mem_env_init-IsFlat :
    (env : Env) (g_ram rd wr bits pages : ℕ)
    → 2 ^ bits ≡ pages * 4096
    → 0 < g_ram
    → 0 < rd
    → 0 < wr
    → g_ram + 2 ^ bits ≤ 2 ^ 64
    → ((q : ℕ) → env.host q < 256)
    → (mem_env_init env g_ram rd wr (2 ^ bits) ≡ ok (mapped_env env g_ram (2 ^ bits)))
      × IsFlat g_ram bits pages (mapped_env env g_ram (2 ^ bits))
unfolding mem_env_init
mem_env_init-IsFlat env g_ram rd wr bits pages size r0 d0 w0 fits bytes = (
  ground arith,
  record {
    mask = refl;
    size = size;
    reads = λ p h. ground (arith, fill_table-get (2 ^ bits / 4096) 0 g_ram (λ _. none) p);
    writes = λ p h. ground (arith, fill_table-get (2 ^ bits / 4096) 0 g_ram (λ _. none) p);
    mapped = omega arith;
    fits = fits;
    bytes = bytes;
  },
)
