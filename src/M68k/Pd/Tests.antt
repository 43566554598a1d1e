-- ===== src/M68k/Pd/Tests.antt =====
-- Runs of the predecoded backends of m68k/m68k_pd_impl.h in a RAM of 64 pages.
use emu_core_bench.Base.{
  ℕ, leb, ◌<◌, ◌%◌, true, arith, sub32, ◌+◌, ◌^◌, ◌≡◌, refl, none, Fault, ok, fatal, ◌>>=◌, After,
  BothEnd, ◌==◌, if◌then◌else◌,
}
use emu_core_bench.Memory.{Env, entry, load_be16, load_be32, memory_read_uint16, memory_read_uint32}
use emu_core_bench.Memory.Init.{fill_table, mapped_env}
use emu_core_bench.Memory.Access.{be16, put16, memory_read_uint16_lem}
use emu_core_bench.M68k.State.{M68kMachine}
use emu_core_bench.M68k.Ops.{Cond, cond_expr, cc_add_l, cc_cmp_l}
use emu_core_bench.M68k.Compare.{cond_expr-cc_cmp_l, cc_add_l_lem}
use emu_core_bench.M68k.Switch.{m68k_dispatch}
use emu_core_bench.M68k.Divergence.{bcc_diverges}
use emu_core_bench.M68k.Pd.Format.{Elidable, PureFlag, MpdId}
use emu_core_bench.M68k.Pd.Decode.{mpd_decode, decode_op, decode_dd}
use emu_core_bench.M68k.Pd.Exec.{hpair, pure_flag, mpd_case, mpd_exec}
use emu_core_bench.M68k.Pd.Run.{
  MpdTable, mpd_entries, mpd_fill, mpd_elide_pass, mpd_writes_all_nzvc, elided, mpd_fetch, mpd_loop,
  m68k_run_pd, m68k_run_pd_elide,
}
use emu_core_bench.M68k.Pd.Flags.{AgreeButNzvc}
use emu_core_bench.M68k.Pd.Elide.{run_pd_elide-run_pd}
use emu_core_bench.M68k.Pd.Fuel.{Fills, Elides, loops_end}
use emu_core_bench.M68k.Pd.Overflow.{mpd_fill_overflows}
use emu_core_bench.M68k.Pd.Heads.{blank-Walk}
use emu_core_bench.Memory.Flat.{IsFlat, mem_env_init-IsFlat}

-- `MOVEQ #5,D1`, `ADD.L D1,D1` and `CMP.L D0,D1`.
abbrev code_bytes : ℕ → ℕ
code_bytes = put16 (put16 (put16 (λ q. 0) 0x1_0000 0x7205) 0x1_0002 0xD281) 0x1_0004 0xB280

abbrev blank : Env
blank = record {
  address_mask = 0xFF_FFFF;
  active_read = λ _. none;
  active_write = λ _. none;
  value_trap_active = 0;
  value_trap_value = 0;
  value_trap_size = 0;
  host = code_bytes;
}

abbrev ready : M68kMachine
ready = record {
  cpu = record { regs = λ _. 0; pc = 0; n = 0; z = 0; v = 0; cf = 0; x = 0 };
  mem = mapped_env blank 0x1_0000 (2 ^ 18);
}

abbrev empty : MpdTable
empty = record { ent = λ _. record { id = MpdId.illegal; a = 0; b = 0; c = 0 }; len = λ _. 0 }

-- The three instructions of the code, decoded.
abbrev decoded : MpdTable
decoded = record {
  ent = λ q.
      if q == 0
      then record { id = MpdId.pair Elidable.moveq; a = 4; b = 0; c = 5 }
      else if q == 1
      then record { id = MpdId.pair Elidable.add_l_dd; a = 4; b = 4; c = 0xD281 }
      else record { id = MpdId.one PureFlag.cmp_l_dd; a = 4; b = 0; c = 0xB280 };
  len = λ _. 1;
}

run_pd_elide-run_pd_example :
    BothEnd AgreeButNzvc (m68k_run_pd empty ready 3) (m68k_run_pd_elide empty ready 3)
run_pd_elide-run_pd_example = run_pd_elide-run_pd empty ready 3

loops_end_example :
    Fills ready.mem empty 0 (mpd_fill mpd_entries ready.mem empty 0)
    × After
        (mpd_fill mpd_entries ready.mem empty 0)
        (λ t. Elides t.len t.ent 0 (mpd_elide_pass mpd_entries t.len t.ent 0))
loops_end_example = loops_end ready.mem empty

-- A RAM of 64 pages with `CMPI.L` in its last word; the word after it is the first again.
abbrev full : Env
full = mapped_env (record blank { host = put16 (λ q. 0) 0x4_FFFE 0x0C80 }) 0x1_0000 (2 ^ 18)

full_flat : IsFlat 0x1_0000 18 64 full
full_flat =
    (mem_env_init-IsFlat (record blank { host = put16 (λ q. 0) 0x4_FFFE 0x0C80 }) 0x1_0000 1 1 18 64
      refl (omega arith) (omega arith) (omega arith) (omega arith) (λ q. ground arith)).1

empty_before : (c : ℕ) → c < 0x3_FFFE → c % 2 ≡ 0 → memory_read_uint16 full c ≡ ok 0
empty_before c low even =
    let masked : c % 2 ^ 18 ≡ c = omega (arith, low) in
    let fits : leb (c % 4096) 4094 ≡ true = ground (arith, even) in
    let zero : be16 full.host (0x1_0000 + c) ≡ 0 = ground (arith, low) in
    rw (memory_read_uint16_lem full_flat c, masked, fits, zero) refl

last_word :
    mpd_decode full 0x3_FFFE
    ≡ ok (record { id = MpdId.one PureFlag.cmpi_l_dn; a = 0; b = 0; c = 0 }, 3)
unfolding mpd_decode decode_op memory_read_uint16 memory_read_uint32 entry load_be16 load_be32
    fill_table
last_word = refl

mpd_fill_overflows_example : mpd_fill mpd_entries full empty 0 ≡ fatal Fault.out_of_bounds
mpd_fill_overflows_example =
    mpd_fill_overflows full empty 0x3_FFFE
      (record { id = MpdId.one PureFlag.cmpi_l_dn; a = 0; b = 0; c = 0 }, 3)
      (blank-Walk full 0x1_FFFF 0 0x3_FFFE refl refl (λ c low. empty_before c)) (omega arith)
      last_word (omega arith)

-- `MOVEQ` and `ADD.L` are followed by an instruction that sets the codes.
elided_ids :
    ((mpd_elide_pass 2 decoded.len decoded.ent 0 0).id ≡ MpdId.twin Elidable.moveq)
    × ((mpd_elide_pass 2 decoded.len decoded.ent 0 1).id ≡ MpdId.twin Elidable.add_l_dd)
    × ((mpd_elide_pass 2 decoded.len decoded.ent 0 2).id ≡ MpdId.one PureFlag.cmp_l_dd)
unfolding mpd_elide_pass mpd_writes_all_nzvc elided
elided_ids = (refl, refl, refl)

-- Three rounds of the loop on the elided table.
three_rounds :
    (mpd_loop (mpd_elide_pass 3 decoded.len decoded.ent 0) 3 ready 0 >>= λ m. ok (m.cpu.regs 1))
    ≡ ok 10
unfolding mpd_loop mpd_fetch mpd_exec mpd_case hpair pure_flag cc_cmp_l mpd_elide_pass
    mpd_writes_all_nzvc elided
three_rounds = refl

-- The second word, decoded.
second_word :
    mpd_decode ready.mem 2
    ≡ ok (record { id = MpdId.pair Elidable.add_l_dd; a = 4; b = 4; c = 0xD281 }, 1)
unfolding mpd_decode decode_op decode_dd memory_read_uint16 entry load_be16 fill_table
second_word = refl

-- `BHI` by four bytes.
bcc_diverges_example :
    (m68k_dispatch ready 0x6204 2 ≡ ok (ready, 2))
    × ((decode_op ready.mem 0 0x6204 >>= λ r. mpd_exec r.0 ready 0) ≡ fatal (Fault.illegal 0x6204))
bcc_diverges_example = bcc_diverges ready ready.mem 0x6204 0 2 0 refl refl refl refl refl

-- `CMP.L`: -1 is less than 1 as a signed word.
cond_expr-cc_cmp_l_example :
    cond_expr Cond.lt (cc_cmp_l ready.cpu 1 0xFFFF_FFFF (sub32 0xFFFF_FFFF 1)) ≡ true
cond_expr-cc_cmp_l_example =
    cond_expr-cc_cmp_l Cond.lt ready.cpu 1 0xFFFF_FFFF (omega arith) (omega arith)

-- `ADD.L` of the greatest signed word and 1.
cc_add_l_lem_example :
    ((cc_add_l ready.cpu 1 0x7FFF_FFFF 0x8000_0000).cf ≡ 0)
    × ((cc_add_l ready.cpu 1 0x7FFF_FFFF 0x8000_0000).x ≡ 0)
    × ((cc_add_l ready.cpu 1 0x7FFF_FFFF 0x8000_0000).v ≡ 1)
    × ((cc_add_l ready.cpu 1 0x7FFF_FFFF 0x8000_0000).z ≡ 0)
    × ((cc_add_l ready.cpu 1 0x7FFF_FFFF 0x8000_0000).n ≡ 1)
cc_add_l_lem_example = cc_add_l_lem ready.cpu 1 0x7FFF_FFFF (omega arith) (omega arith)
