-- ===== src/Harness/M68k/Setup.antt =====
-- `setup_kernel` and `state_hash` of m68k/bench_main.c.
use emu_core_bench.Base.{
  ℕ, zero, suc, ◌+◌, ◌*◌, ◌/◌, ◌%◌, ◌^◌, bit_xor, Bool, ◌&&◌, ltb, leb, ◌==◌, if◌then◌else◌,
}
use emu_core_bench.Memory.{Env, load32, store_be32}
use emu_core_bench.M68k.State.{M68k, M68kMachine}
use emu_core_bench.Harness.{lcg}
use emu_core_bench.Harness.M68k.Kernels.{
  code_base, data_base, emit_kernel_alu, emit_kernel_mem, emit_kernel_stress,
}

abbrev pub ram_size : ℕ
ram_size = 2 ^ 23

-- `memset(g_ram, 0, RAM_SIZE)`.
unfoldable pub clear_ram : ℕ → (ℕ → ℕ) → ℕ → ℕ
clear_ram g_ram host q = if leb g_ram q && ltb q (g_ram + ram_size) then 0 else host q

-- The loop that fills the read window, with the words left, the offset and the seed.
unfoldable pub fill_window : ℕ → ℕ → ℕ → ℕ → (ℕ → ℕ) → ℕ → ℕ
fill_window g_ram zero i seed host = host
fill_window g_ram (suc n) i seed host =
    let v = lcg seed in fill_window g_ram n (i + 4) v (store_be32 host (g_ram + data_base + i) v)

unfoldable pub emit_kernel : ℕ → ℕ → Env → ℕ → Env × ℕ
emit_kernel k =
    if k == 0 then emit_kernel_alu else if k == 1 then emit_kernel_mem else emit_kernel_stress

-- `memset(m, 0, sizeof(*m)); m->pc = CODE_BASE`.
abbrev pub reset_cpu : M68k
reset_cpu = record { regs = λ _. 0; pc = code_base; n = 0; z = 0; v = 0; cf = 0; x = 0 }

unfoldable pub setup_kernel : ℕ → ℕ → Env → M68kMachine
setup_kernel g_ram k env =
    let host = fill_window g_ram 0x4000 0 0xDEAD_BEEF (clear_ram g_ram env.host) in
    record { cpu = reset_cpu; mem = (emit_kernel k g_ram (record env { host = host }) code_base).0 }

-- `MIX`: the hash and the value are 64-bit.
unfoldable pub mix : ℕ → ℕ → ℕ
mix h v = bit_xor h v * 0x100_0000_01B3 % 2 ^ 64

unfoldable pub mix_regs : ℕ → ℕ → (ℕ → ℕ) → ℕ → ℕ
mix_regs zero i regs h = h
mix_regs (suc n) i regs h = mix_regs n (i + 1) regs (mix h (regs i))

abbrev pub mix_flags : M68k → ℕ → ℕ
mix_flags c h = mix (mix (mix (mix (mix h c.n) c.z) c.v) c.cf) c.x

-- The loop over the RAM, by words of eight bytes of the little-endian host.
unfoldable pub mix_ram : ℕ → ℕ → (ℕ → ℕ) → ℕ → ℕ
mix_ram zero p host h = h
mix_ram (suc n) p host h =
    mix_ram n (p + 8) host (mix h (load32 host p + load32 host (p + 4) * 2 ^ 32))

unfoldable pub state_hash : ℕ → M68kMachine → Bool → ℕ
state_hash g_ram m with_flags =
    let c = m.cpu in
    let h = mix (mix_regs 16 0 c.regs 0xCBF2_9CE4_8422_2325) c.pc in
    mix_ram (ram_size / 8) g_ram m.mem.host (if with_flags then mix_flags c h else h)
