-- ===== src/Harness/Tests.antt =====
-- The emitter of ppc/bench_main.c on the first two instructions of its first kernel.
use emu_core_bench.Base.{
  ℕ, ◌+◌, ◌-◌, ◌*◌, ◌^◌, ◌<◌, ◌≡◌, refl, arith, none, some, get_elem?, ok, List, [], ◌∷◌, u32,
}
use emu_core_bench.Memory.{Env, memory_read_uint32}
use emu_core_bench.Memory.Init.{mapped_env}
use emu_core_bench.Memory.Flat.{IsFlat, mem_env_init-IsFlat}
use emu_core_bench.Harness.{lcg, lcg_inverse, emit_all, emit_all-fetch}

abbrev ready : Env
ready =
    mapped_env
      (record {
        address_mask = 0xFF_FFFF;
        active_read = λ _. none;
        active_write = λ _. none;
        value_trap_active = 0;
        value_trap_value = 0;
        value_trap_size = 0;
        host = λ _. 0;
      })
      0x1_0000 (2 ^ 18)

flat : IsFlat 0x1_0000 18 64 ready
flat =
    (mem_env_init-IsFlat ready 0x1_0000 1 1 18 64 refl (omega arith) (omega arith) (omega arith)
      (omega arith) (λ q. omega arith)).1

-- `addis r4,0,0x1234` and `ori r4,r4,0x5678`.
abbrev code : List ℕ
code = 0x3C80_1234 ∷ 0x6084_5678 ∷ []

emit_all-fetch_example :
    IsFlat 0x1_0000 18 64 (emit_all 0x1_0000 ready 0x1000 code).0
    × ((i w : ℕ)
        → get_elem? code i ≡ some w
        → w < 2 ^ 32
        → memory_read_uint32 (emit_all 0x1_0000 ready 0x1000 code).0 (0x1000 + 4 * i) ≡ ok w)
emit_all-fetch_example = emit_all-fetch flat 0x1000 code refl (omega arith) (omega arith)

-- The second word is fetched.
second_fetch :
    memory_read_uint32 (emit_all 0x1_0000 ready 0x1000 code).0 (0x1000 + 4 * 1) ≡ ok 0x6084_5678
second_fetch =
    (emit_all-fetch flat 0x1000 code refl (omega arith) (omega arith)).1 1 0x6084_5678 refl
      (omega arith)

lcg_inverse_example : u32 ((lcg 0xC0FF_EE11 + 2 ^ 32 - 1013904223) * 4276115653) ≡ 0xC0FF_EE11
lcg_inverse_example = lcg_inverse 0xC0FF_EE11 (omega arith)
