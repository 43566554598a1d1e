-- ===== src/Ppc/Tests.antt =====
-- Runs of the backends of ppc/ on a short loop in a RAM of 64 pages.
use emu_core_bench.Base.{
  if◌then◌else◌, ◌==◌, ◌+◌, ◌≢◌, ℕ, ◌^◌, ◌≡◌, refl, arith, true, false, none, Fault, ok, fatal,
  ◌>>=◌, After, add32, shr32,
}
use emu_core_bench.Memory.{
  Env, entry, load_be32, store_be32, memory_read_uint32, memory_write_uint32,
}
use emu_core_bench.Memory.Init.{fill_table, mapped_env}
use emu_core_bench.Memory.Flat.{IsFlat, mem_env_init-IsFlat}
use emu_core_bench.Memory.Access.{put32}
use emu_core_bench.Memory.Contained.{Contained}
use emu_core_bench.Ppc.Contained.{run_switch-Contained}
use emu_core_bench.Ppc.State.{Machine, set_gpr}
use emu_core_bench.Ppc.Ops.{gen_addi}
use emu_core_bench.Ppc.Transfer.{gen_store_d, write_width, gen_b}
use emu_core_bench.Ppc.Lists.{find_primary, primary_stmt}
use emu_core_bench.Ppc.Switch.{sw_case, sw_dispatch, sw_step, sw_loop, ppc_run_switch}
use emu_core_bench.Ppc.Call.{ppc_run_call}
use emu_core_bench.Ppc.Tail.{ppc_run_tail}
use emu_core_bench.Ppc.Predecode.{pd_decode, pd_dispatch, ppc_run_pd}
use emu_core_bench.Ppc.Pdx.Decode.{pdx_decode}
use emu_core_bench.Ppc.Pdx.Exec.{pdx_exec, generic}
use emu_core_bench.Ppc.Pdx.Run.{ppc_run_pdx}
use emu_core_bench.Ppc.Pdx.Round.{exec-sw_dispatch}
use emu_core_bench.Ppc.Invariant.{IsPc, run_switch-IsPc}
use emu_core_bench.Ppc.Equiv.Threaded.{run_call-run_switch, run_tail-run_switch}
use emu_core_bench.Ppc.Equiv.Predecoded.{KeepsCode, pd_dispatch-pd_decode, run_pd-run_switch}
use emu_core_bench.Ppc.Equiv.Preextracted.{KeepsCommonCode, run_pdx-run_switch}
use emu_core_bench.Ppc.Equiv.Divergence.{xoris_diverges, lwzu_diverges}

-- `addi r3,r3,5`, `stw r3,0x100(0)` and `b` back to the first.
abbrev loop_bytes : ℕ → ℕ
loop_bytes =
    put32 (put32 (put32 (λ q. 0) 0x1_0000 0x3863_0005) 0x1_0004 0x9060_0100) 0x1_0008 0x4BFF_FFF8

abbrev blank : Env
blank = record {
  address_mask = 0xFF_FFFF;
  active_read = λ _. none;
  active_write = λ _. none;
  value_trap_active = 0;
  value_trap_value = 0;
  value_trap_size = 0;
  host = loop_bytes;
}

abbrev ready : Machine
ready = record {
  cpu = record { gpr = λ _. 0; zero_base = 0; pc = 0; lr = 0; ctr = 0; cr = 0; xer_ca = 0 };
  mem = mapped_env blank 0x1_0000 (2 ^ 18);
}

flat : IsFlat 0x1_0000 18 64 ready.mem
flat =
    (mem_env_init-IsFlat blank 0x1_0000 1 1 18 64 refl (omega arith) (omega arith) (omega arith)
      (omega arith) (λ q. ground arith)).1

ready-IsPc : IsPc ready.cpu.pc
ready-IsPc = (refl, omega arith)

ready-KeepsCode : KeepsCode ready.mem 4 ready 0
unfolding memory_read_uint32 memory_write_uint32 entry load_be32 store_be32 fill_table sw_step
    sw_dispatch sw_case find_primary primary_stmt gen_addi gen_store_d gen_b write_width
ready-KeepsCode = (
  omega arith,
  refl,
  refl,
  (omega arith, refl, refl, (omega arith, refl, refl, (omega arith, refl, refl, tt))),
)

ready-KeepsCommonCode : KeepsCommonCode ready.mem 4 ready 0
unfolding memory_read_uint32 memory_write_uint32 entry load_be32 store_be32 fill_table sw_step
    sw_dispatch sw_case find_primary primary_stmt gen_addi gen_store_d gen_b write_width
ready-KeepsCommonCode = (
  omega arith,
  refl,
  refl,
  (omega arith, refl, refl, (omega arith, refl, refl, (omega arith, refl, refl, tt))),
)

run_pdx-run_switch_example : ppc_run_pdx true ready 4 ≡ ppc_run_switch ready 4
run_pdx-run_switch_example =
    run_pdx-run_switch true ready 4 flat refl ready-IsPc ready-KeepsCommonCode

run_pd-run_switch_example : ppc_run_pd ready 4 ≡ ppc_run_switch ready 4
run_pd-run_switch_example = run_pd-run_switch ready 4 flat ready-KeepsCode

run_tail-run_switch_example : ppc_run_tail ready 4 ≡ ppc_run_switch ready 4
run_tail-run_switch_example = run_tail-run_switch ready 4

run_call-run_switch_example : ppc_run_call ready 4 ≡ ppc_run_switch ready 4
run_call-run_switch_example = run_call-run_switch ready 4

exec-sw_dispatch_example :
    pdx_exec false (pdx_decode false 8 0x4BFF_FFF8) ready (shr32 8 2)
    ≡ generic (sw_dispatch ready 0x4BFF_FFF8 (add32 8 4))
exec-sw_dispatch_example = exec-sw_dispatch ready 0x4BFF_FFF8 8 (omega arith) refl refl false refl

pd_dispatch-pd_decode_example :
    pd_dispatch (pd_decode 0x4E80_0020) ready 0x4E80_0020 4 ≡ sw_dispatch ready 0x4E80_0020 4
pd_dispatch-pd_decode_example = pd_dispatch-pd_decode ready 0x4E80_0020 4

run_switch-IsPc_example :
    After (ppc_run_switch ready 4) (λ m'. (m'.cpu.zero_base ≡ 0) × IsPc m'.cpu.pc)
run_switch-IsPc_example = run_switch-IsPc ready 4 ready-IsPc

-- `xoris r3,r3,1`.
xoris_diverges_example :
    (sw_dispatch ready 0x6C63_0001 4 ≡ fatal (Fault.illegal 0x6C63_0001))
    × (pdx_exec false (pdx_decode false 0 0x6C63_0001) ready 0
        ≡ ok (record ready { cpu = set_gpr ready.cpu 3 0x1_0000 }, 1))
xoris_diverges_example = xoris_diverges false ready 0x6C63_0001 0 4 0 refl

-- `lwzu r3,8(0)` with 4 in r0.
abbrev with_four : Machine
with_four = record ready { cpu = record ready.cpu { gpr = λ q. if q == 0 then 4 else 0 } }

lwzu_diverges_example :
    (m₁ : Machine) × (m₂ : Machine) × (sw_dispatch with_four 0x8460_0008 4 ≡ ok (m₁, 4))
    × (pdx_exec false (pdx_decode false 0 0x8460_0008) with_four 0 ≡ ok (m₂, 0 + 1))
    × (m₁.cpu.gpr 0 ≢ m₂.cpu.gpr 0)
lwzu_diverges_example =
    lwzu_diverges false with_four 0x8460_0008 0 4 0 flat refl refl (omega arith) (omega arith) refl
      refl

-- Two rounds of the loop on the switch: r3 is 10.
switch_result : (ppc_run_switch ready 6 >>= λ m. ok (m.cpu.gpr 3)) ≡ ok 10
unfolding memory_read_uint32 memory_write_uint32 entry load_be32 store_be32 fill_table sw_step
    sw_dispatch sw_case find_primary primary_stmt gen_addi gen_store_d gen_b write_width sw_loop
    ppc_run_switch
switch_result = refl

-- And 10 is the word stored.
switch_stored : (ppc_run_switch ready 6 >>= λ m. memory_read_uint32 m.mem 0x100) ≡ ok 10
unfolding memory_read_uint32 memory_write_uint32 entry load_be32 store_be32 fill_table sw_step
    sw_dispatch sw_case find_primary primary_stmt gen_addi gen_store_d gen_b write_width sw_loop
    ppc_run_switch
switch_stored = refl

run_switch-Contained_example :
    After (ppc_run_switch ready 4) (λ m'. Contained 0x1_0000 18 64 ready.mem m'.mem)
run_switch-Contained_example = run_switch-Contained ready 4 flat
