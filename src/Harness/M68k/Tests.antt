-- ===== src/Harness/M68k/Tests.antt =====
-- The assembler and the hashes of m68k/bench_main.c on concrete inputs.
use emu_core_bench.Base.{
  ℕ, Returns, if◌then◌else◌, ◌==◌, true, ◌+◌, ◌^◌, ◌≡◌, refl, arith, [], ◌∷◌, ok, false, none,
  ◌>>=◌, add32,
}
use emu_core_bench.Memory.{Env}
use emu_core_bench.Memory.Init.{mapped_env}
use emu_core_bench.M68k.Pd.Format.{MpdId}
use emu_core_bench.M68k.Pd.Run.{MpdTable, mpd_entries, mpd_fill}
use emu_core_bench.M68k.State.{M68kMachine, set_pc, dr_off}
use emu_core_bench.M68k.Move.{with_cpu}
use emu_core_bench.M68k.Switch.{m68k_dispatch}
use emu_core_bench.M68k.Pd.Decode.{ent_of, decode_op}
use emu_core_bench.M68k.Pd.Exec.{mpd_exec}
use emu_core_bench.Harness.M68k.Fields.{add_l, eor_l, dd_macro, dd_id, first_word}
use emu_core_bench.Harness.M68k.Rounds.{dd_result, dd_macro-decoded, dd_macro-runs}
use emu_core_bench.Harness.M68k.Assemble.{add_l_dd, dbra}
use emu_core_bench.Harness.M68k.Setup.{reset_cpu, setup_kernel, state_hash}
use emu_core_bench.Harness.M68k.Hash.{WordSized, with_regs, state_hash-pc, state_hash-register}
use emu_core_bench.Harness.M68k.Main.{Tables, g_backends, run_backends, no_divergence, bench_kernel}
use emu_core_bench.Harness.M68k.Agree.{m68k_run_backends-no_divergence}
use emu_core_bench.Harness.M68k.Passes.{Passed}
use emu_core_bench.Harness.M68k.Runs.{kernel-InCode, bench_kernel-Passed}
use emu_core_bench.Memory.Flat.{IsFlat, mem_env_init-IsFlat}
use emu_core_bench.M68k.Switch.{m68k_run_switch}

abbrev blank : Env
blank = record {
  address_mask = 0xFF_FFFF;
  active_read = λ _. none;
  active_write = λ _. none;
  value_trap_active = 0;
  value_trap_value = 0;
  value_trap_size = 0;
  host = λ _. 0;
}

abbrev ready : Env
ready = mapped_env blank 0x1_0000 (2 ^ 23)

abbrev empty_table : MpdTable
empty_table = record { ent = λ _. record { id = MpdId.illegal; a = 0; b = 0; c = 0 }; len = λ _. 0 }

-- `add.l d2,d1`, and a `dbra d0` at 0x1014 back to 0x1006.
add_word : add_l_dd 1 2 0 ≡ 0xD282 ∷ []
add_word = refl

dbra_words : dbra 0 0x1006 0x1014 ≡ 0x51C8 ∷ 0xFFF0 ∷ []
dbra_words = refl

flat : IsFlat 0x1_0000 23 2048 ready
flat =
    (mem_env_init-IsFlat blank 0x1_0000 1 1 23 2048 refl (omega arith) (omega arith) (omega arith)
      (omega arith) (λ q. omega arith)).1

abbrev tables : Tables
tables = record { pd = empty_table; elide = empty_table }

m68k_run_backends-no_divergence_example :
    (run_backends 0x1_0000 1 1000 g_backends (ready, tables) >>= λ r. ok (no_divergence r.0)) ≡ (
      m68k_run_switch (setup_kernel 0x1_0000 1 ready) 1000 >>= λ _.
      mpd_fill mpd_entries (setup_kernel 0x1_0000 1 ready).mem empty_table 0 >>= λ _. ok true)
m68k_run_backends-no_divergence_example =
    m68k_run_backends-no_divergence flat 1 1000 tables
      ((kernel-InCode flat 1 (omega arith)).runs 1000)

bench_kernel-Passed_example :
    Returns
      (bench_kernel 0x1_0000 20000000 100000000 5 1 (ready, tables))
      (Passed 0x1_0000 2048 ready)
bench_kernel-Passed_example = bench_kernel-Passed flat 1 (omega arith) 20000000 100000000 5 tables

abbrev start : M68kMachine
start = record { cpu = reset_cpu; mem = ready }

-- `eor.l d5,d3` and `add.l d5,d3`.
dd_macro-decoded_example :
    decode_op ready 0x1000 (first_word (dd_macro eor_l 3 5 0x1000))
    ≡ ent_of (dd_id eor_l) (dr_off 3) (dr_off 5) (first_word (dd_macro eor_l 3 5 0x1000)) 1
dd_macro-decoded_example =
    dd_macro-decoded 3 5 (omega arith) (omega arith) eor_l 0x1000 ready 0x1000

dd_macro-runs_example :
    (m68k_dispatch start (first_word (dd_macro add_l 3 5 0x1000)) (add32 0x1000 2)
      ≡ ok (with_cpu start (dd_result add_l start.cpu 3 5), add32 0x1000 2))
    × ((decode_op start.mem 0x1000 (first_word (dd_macro add_l 3 5 0x1000)) >>= λ r.
          mpd_exec r.0 start 0x800)
        ≡ ok (with_cpu start (dd_result add_l start.cpu 3 5), 0x800 + 1))
dd_macro-runs_example =
    dd_macro-runs 3 5 (omega arith) (omega arith) add_l 0x1000 start 0x1000 0x800

abbrev zeroed : M68kMachine
zeroed = record start { mem = record ready { host = λ _. 0 } }

zeroed-WordSized : WordSized zeroed
zeroed-WordSized = record {
  bytes = λ q. omega arith;
  n_word = omega arith;
  z_word = omega arith;
  v_word = omega arith;
  cf_word = omega arith;
  x_word = omega arith;
}

state_hash-pc_example : ¬ (
    state_hash 0x1_0000 (set_pc zeroed 0x1000) true
    ≡ state_hash 0x1_0000 (set_pc zeroed 0x1002) true)
state_hash-pc_example =
    state_hash-pc zeroed zeroed-WordSized 0x1_0000 true 0x1000 0x1002 (omega arith) (omega arith)
      (omega arith)

-- A register file with `w` in D2.
abbrev only_two : ℕ → ℕ → ℕ
only_two w q = if q == 2 then w else 0

state_hash-register_example : ¬ (
    state_hash 0x1_0000 (with_regs zeroed (only_two 7)) false
    ≡ state_hash 0x1_0000 (with_regs zeroed (only_two 8)) false)
state_hash-register_example =
    state_hash-register zeroed zeroed-WordSized 0x1_0000 false 2 (only_two 7) (only_two 8)
      (omega arith) (omega arith) (λ q. ground arith) (λ q. ground arith) (λ q l. ground arith)
      (λ q l. ground arith) (omega arith)
