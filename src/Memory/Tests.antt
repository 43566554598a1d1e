-- ===== src/Memory/Tests.antt =====
-- Runs of common/mem_env.c and common/mem_fastpath.h on a RAM of 64 pages.
use emu_core_bench.Base.{
  ℕ, ◌+◌, ◌%◌, ◌^◌, ◌<◌, ◌≡◌, ◌≢◌, refl, arith, none, Fault, ok, fatal, ◌==◌, if◌then◌else◌, leb,
}
use emu_core_bench.Memory.{
  Env, memory_read_uint8, memory_read_uint16, entry, load_be32, memory_read_uint32,
  memory_write_uint16, memory_write_uint32,
}
use emu_core_bench.Memory.Init.{fill_table, mapped_env, mem_env_init}
use emu_core_bench.Memory.Flat.{IsFlat, mem_env_init-IsFlat}
use emu_core_bench.Memory.Access.{be32, put32, memory_read_uint32_lem, memory_write_uint32_lem}
use emu_core_bench.Memory.RoundTrip.{
  memory_read_uint8-memory_write_uint16, memory_read-memory_write,
}

-- Before `mem_env_init`: no tables, and a host that holds one byte in four.
abbrev blank : Env
blank = record {
  address_mask = 0xFF_FFFF;
  active_read = λ _. none;
  active_write = λ _. none;
  value_trap_active = 0;
  value_trap_value = 0;
  value_trap_size = 0;
  host = λ q. if q % 4 == 0 then 0x12 else 0x34;
}

blank-bytes : (q : ℕ) → blank.host q < 256
blank-bytes q = ground arith

abbrev ready : Env
ready = mapped_env blank 0x1_0000 (2 ^ 18)

mem_env_init-IsFlat_example :
    (mem_env_init blank 0x1_0000 1 1 (2 ^ 18) ≡ ok ready) × IsFlat 0x1_0000 18 64 ready
mem_env_init-IsFlat_example =
    mem_env_init-IsFlat blank 0x1_0000 1 1 18 64 refl (omega arith) (omega arith) (omega arith)
      (omega arith) blank-bytes

flat : IsFlat 0x1_0000 18 64 ready
flat =
    (mem_env_init-IsFlat blank 0x1_0000 1 1 18 64 refl (omega arith) (omega arith) (omega arith)
      (omega arith) blank-bytes).1

memory_read_uint32_lem_example : memory_read_uint32 ready 0x4_0FFE ≡ (
    if leb (0x4_0FFE % 2 ^ 18 % 4096) 4092
    then ok (be32 ready.host (0x1_0000 + 0x4_0FFE % 2 ^ 18))
    else fatal (Fault.bad_access 4 (0x4_0FFE % 2 ^ 18)))
memory_read_uint32_lem_example = memory_read_uint32_lem flat 0x4_0FFE

memory_write_uint32_lem_example : memory_write_uint32 ready 0x4_0100 0xDEAD_BEEF ≡ (
    if leb (0x4_0100 % 2 ^ 18 % 4096) 4092
    then ok (record ready { host = put32 ready.host (0x1_0000 + 0x4_0100 % 2 ^ 18) 0xDEAD_BEEF })
    else fatal (Fault.bad_access 20 (0x4_0100 % 2 ^ 18)))
memory_write_uint32_lem_example = memory_write_uint32_lem flat 0x4_0100 0xDEAD_BEEF

memory_read_uint8-memory_write_uint16_example :
    (env' : Env) × (memory_write_uint16 ready 0x3_FFFE 0xBEEF ≡ ok env')
    × (memory_read_uint16 env' 0x3_FFFE ≡ ok 0xBEEF)
    × (memory_read_uint8 env' 0x3_FFFE ≡ ok 0xBE)
    × (memory_read_uint8 env' (0x3_FFFE + 1) ≡ ok 0xEF)
    × ((other : ℕ)
        → other % 2 ^ 18 ≢ 0x3_FFFE % 2 ^ 18
        → other % 2 ^ 18 ≢ (0x3_FFFE + 1) % 2 ^ 18
        → memory_read_uint8 env' other ≡ memory_read_uint8 ready other)
memory_read_uint8-memory_write_uint16_example =
    memory_read_uint8-memory_write_uint16 flat 0x3_FFFE 0xBEEF refl (omega arith)

memory_read-memory_write_example :
    (env' : Env) × (memory_write_uint32 ready 0x100 0xDEAD_BEEF ≡ ok env')
    × (memory_read_uint32 env' 0x100 ≡ ok 0xDEAD_BEEF)
    × ((other : ℕ)
        → other % 4 ≡ 0
        → other % 2 ^ 18 ≢ 0x100 % 2 ^ 18
        → memory_read_uint32 env' other ≡ memory_read_uint32 ready other)
memory_read-memory_write_example =
    memory_read-memory_write flat 0x100 0xDEAD_BEEF refl (omega arith)

-- The word of the RAM at an aligned address, most significant byte first.
read_aligned : memory_read_uint32 ready 0x104 ≡ ok 0x1234_3434
unfolding memory_read_uint32 entry load_be32 fill_table
read_aligned = refl

-- A word across two pages ends the process.
read_crossing : memory_read_uint32 ready 0xFFE ≡ fatal (Fault.bad_access 4 0xFFE)
unfolding memory_read_uint32 entry load_be32 fill_table
read_crossing = refl
