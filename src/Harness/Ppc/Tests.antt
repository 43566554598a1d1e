-- ===== src/Harness/Ppc/Tests.antt =====
-- The encoders and the program of ppc/bench_main.c on concrete inputs.
use emu_core_bench.Base.{
  ◌+◌, ◌*◌, ◌%◌, ◌^◌, ◌<◌, ◌≡◌, refl, arith, true, none, ok, ◌>>=◌, bit_and, shr32,
}
use emu_core_bench.Memory.{Env}
use emu_core_bench.Memory.Init.{mapped_env}
use emu_core_bench.Memory.Flat.{IsFlat, mem_env_init-IsFlat}
use emu_core_bench.Ppc.Ops.{p_rd, p_ra, p_rb, p_uimm}
use emu_core_bench.Ppc.Switch.{ppc_run_switch}
use emu_core_bench.Harness.Ppc.Encode.{e_d, e_x}
use emu_core_bench.Harness.Ppc.Fields.{e_d-fields, e_x-fields}
use emu_core_bench.Harness.Ppc.Setup.{setup_kernel}
use emu_core_bench.Harness.Ppc.Main.{g_backends, run_backends, no_divergence, main}
use emu_core_bench.Harness.Ppc.Safe.{SafeRun}
use emu_core_bench.Harness.Ppc.Verify.{run_backends-no_divergence}
use emu_core_bench.Harness.Ppc.Total.{kernels_run, main_returns}

abbrev blank : Env
blank = record {
  address_mask = 0xFF_FFFF;
  active_read = λ _. none;
  active_write = λ _. none;
  value_trap_active = 0;
  value_trap_value = 0;
  value_trap_size = 0;
  host = λ _. 0;
}

abbrev ready : Env
ready = mapped_env blank 0x1_0000 (2 ^ 23)

flat : IsFlat 0x1_0000 23 2048 ready
flat =
    (mem_env_init-IsFlat blank 0x1_0000 1 1 23 2048 refl (omega arith) (omega arith) (omega arith)
      (omega arith) (λ q. omega arith)).1

-- `lwz r5,0x1FC(r20)` and `add. r9,r5,r4`.
lwz_word : e_d 32 5 20 0x1FC ≡ 0x80B4_01FC
unfolding e_d
lwz_word = refl

add_word : e_x 9 5 4 266 1 ≡ 0x7D25_2215
unfolding e_x
add_word = refl

e_d-fields_example :
    (e_d 14 5 3 0xFFFF_FF80 < 2 ^ 32)
    × (shr32 (e_d 14 5 3 0xFFFF_FF80) 26 ≡ 14)
    × (p_rd (e_d 14 5 3 0xFFFF_FF80) ≡ 5)
    × (p_ra (e_d 14 5 3 0xFFFF_FF80) ≡ 3)
    × (p_uimm (e_d 14 5 3 0xFFFF_FF80) ≡ 0xFFFF_FF80 % 2 ^ 16)
e_d-fields_example = e_d-fields 14 5 3 (omega arith) (omega arith) (omega arith) 0xFFFF_FF80

e_x-fields_example :
    (e_x 9 5 4 266 1 < 2 ^ 32)
    × (shr32 (e_x 9 5 4 266 1) 26 ≡ 31)
    × (p_rd (e_x 9 5 4 266 1) ≡ 9)
    × (p_ra (e_x 9 5 4 266 1) ≡ 5)
    × (p_rb (e_x 9 5 4 266 1) ≡ 4)
    × (bit_and (e_x 9 5 4 266 1) 0x7FF ≡ 266 * 2 + 1)
e_x-fields_example =
    e_x-fields 9 5 4 266 1 (omega arith) (omega arith) (omega arith) (omega arith) (omega arith)

kernels_run_example : SafeRun (setup_kernel 0x1_0000 1 ready) 1000
kernels_run_example = kernels_run flat 1 1000 (omega arith) (omega arith)

run_backends-no_divergence_example :
    (run_backends 0x1_0000 2 1000 g_backends ready >>= λ r. ok (no_divergence r.0))
    ≡ (ppc_run_switch (setup_kernel 0x1_0000 2 ready) 1000 >>= λ m. ok true)
run_backends-no_divergence_example =
    run_backends-no_divergence flat 2 1000 (kernels_run flat 2 1000 (omega arith) (omega arith)).0

main_returns_example : main blank 0x1_0000 1 1 100000000 5 ≡ ok 0
main_returns_example =
    main_returns blank 0x1_0000 1 1 100000000 5 (omega arith) (omega arith) (omega arith)
      (omega arith) (λ q. omega arith) (omega arith)
