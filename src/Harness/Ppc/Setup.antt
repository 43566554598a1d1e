-- ===== src/Harness/Ppc/Setup.antt =====
-- `setup_kernel` and `state_hash` of ppc/bench_main.c.
use emu_core_bench.Base.{
  ℕ, zero, suc, ◌+◌, ◌*◌, ◌/◌, ◌%◌, ◌^◌, bit_xor, ◌&&◌, ltb, leb, ◌==◌, if◌then◌else◌,
}
use emu_core_bench.Memory.{Env, load32, store_be32}
use emu_core_bench.Ppc.State.{Ppc, Machine}
use emu_core_bench.Harness.{lcg}
use emu_core_bench.Harness.Ppc.Kernels.{
  code_base, data_base, emit_kernel_alu, emit_kernel_mem, emit_kernel_stress,
}

abbrev pub ram_size : ℕ
ram_size = 2 ^ 23

-- `memset(g_ram, 0, RAM_SIZE)`.
unfoldable pub clear_ram : ℕ → (ℕ → ℕ) → ℕ → ℕ
clear_ram g_ram host q = if leb g_ram q && ltb q (g_ram + ram_size) then 0 else host q

-- The loop that fills the read window, with the words left, the offset and the seed.
unfoldable pub fill_window : ℕ → ℕ → ℕ → ℕ → (ℕ → ℕ) → ℕ → ℕ
fill_window g_ram zero i seed host = host
fill_window g_ram (suc n) i seed host =
    let v = lcg seed in fill_window g_ram n (i + 4) v (store_be32 host (g_ram + data_base + i) v)

unfoldable pub emit_kernel : ℕ → ℕ → Env → ℕ → Env × ℕ
emit_kernel k =
    if k == 0 then emit_kernel_alu else if k == 1 then emit_kernel_mem else emit_kernel_stress

-- `memset(c, 0, sizeof(*c)); c->pc = CODE_BASE`.
abbrev pub reset_cpu : Ppc
reset_cpu = record {
  gpr = λ _. 0;
  zero_base = 0;
  pc = code_base;
  lr = 0;
  ctr = 0;
  cr = 0;
  xer_ca = 0;
}

unfoldable pub setup_kernel : ℕ → ℕ → Env → Machine
setup_kernel g_ram k env =
    let host = fill_window g_ram 0x4000 0 0xDEAD_BEEF (clear_ram g_ram env.host) in
    record { cpu = reset_cpu; mem = (emit_kernel k g_ram (record env { host = host }) code_base).0 }

-- `MIX`: the hash and the value are 64-bit.
unfoldable pub mix : ℕ → ℕ → ℕ
mix h v = bit_xor h v * 0x100_0000_01B3 % 2 ^ 64

unfoldable pub mix_gprs : ℕ → ℕ → (ℕ → ℕ) → ℕ → ℕ
mix_gprs zero i gpr h = h
mix_gprs (suc n) i gpr h = mix_gprs n (i + 1) gpr (mix h (gpr i))

-- The loop over the RAM, by words of eight bytes of the little-endian host.
unfoldable pub mix_ram : ℕ → ℕ → (ℕ → ℕ) → ℕ → ℕ
mix_ram zero p host h = h
mix_ram (suc n) p host h =
    mix_ram n (p + 8) host (mix h (load32 host p + load32 host (p + 4) * 2 ^ 32))

unfoldable pub state_hash : ℕ → Machine → ℕ
state_hash g_ram m =
    let c = m.cpu in
    let h = mix_gprs 32 0 c.gpr 0xCBF2_9CE4_8422_2325 in
    mix_ram (ram_size / 8) g_ram m.mem.host
      (mix (mix (mix (mix (mix h c.pc) c.lr) c.ctr) c.cr) c.xer_ca)
