-- ===== src/Memory/Init.antt =====
-- `mem_env_init` of common/mem_env.c. What `malloc` returns is a parameter: the addresses of the
-- RAM and of the two tables, zero where it fails.
use emu_core_bench.Base.{
  ℕ, zero, suc, ◌+◌, ◌-◌, ◌/◌, ◌^◌, ◌||◌, Option, none, some, Fault, Outcome, ok, fatal, ◌==◌,
  if◌then◌else◌,
}
use emu_core_bench.Memory.{Env, page_shift}

-- The loop over the pages `p`, with `left` of them to come; an entry not yet written is `none`.
unfoldable pub fill_table : ℕ → ℕ → ℕ → (ℕ → Option ℕ) → ℕ → Option ℕ
fill_table zero p g_ram t = t
fill_table (suc left) p g_ram t =
    fill_table left (p + 1) g_ram (λ q. if q == p then some g_ram else t q)

-- The globals after the loop: the host's memory and the value trap are as they were.
abbrev pub mapped_env : Env → ℕ → ℕ → Env
mapped_env env g_ram ram_bytes =
    let pages = ram_bytes / 2 ^ page_shift in
    record env {
      address_mask = ram_bytes - 1;
      active_read = fill_table pages 0 g_ram (λ _. none);
      active_write = fill_table pages 0 g_ram (λ _. none);
    }

unfoldable pub mem_env_init : Env → ℕ → ℕ → ℕ → ℕ → Outcome Env
mem_env_init env g_ram rd wr ram_bytes =
    if g_ram == 0 || rd == 0 || wr == 0
    then fatal Fault.alloc_failed
    else ok (mapped_env env g_ram ram_bytes)
