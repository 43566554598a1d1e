-- ===== src/Lib.antt =====
-- Verification of the interpreters of emu-core-bench and of the memory fast path under them.
--
-- The benchmark runs the same guest code through several interpreter backends that should differ
-- in speed only. A guest memory (common/mem_fastpath.h, common/mem_env.c) maps guest addresses
-- through tables of page bases to the host's memory; the PPC lane (ppc/) stamps one header of
-- instruction bodies, ppc/ppc_ops.h, into six backends: a switch, tail calls, calls through a
-- table, a predecoded table, and predecoded tables with pre-extracted operands at two widths. The
-- M68K lane (m68k/) has a switch and a predecoded backend that comes in two stampings: plain, and
-- with a pass that drops the computation of condition codes that nothing reads.
--
-- Files:
--   Base             helpers: Boolean tests, 32-bit words, faults and their bind (Faults), the
--                    look-up of a case by its key (Dispatch), lists, bit masks as remainders
--   Memory           common/mem_fastpath.h: Env is the globals and the host's bytes, one function
--                    for each accessor; the fatal slow paths of common/mem_env.c
--   Memory/Init      mem_env_init of common/mem_env.c, with malloc's results as arguments
--   Memory/Flat      the well-formedness of the environment that mem_env_init sets up
--   Memory/Access    what each accessor does in it; Memory/RoundTrip reads after writes
--   Ppc/State        ppc_t of ppc/ppc_bench.h, and Machine, the state with the memory
--   Ppc/Ops          the arithmetic, logical and compare bodies of ppc/ppc_ops.h
--   Ppc/Transfer     its loads, stores, branches and moves to and from LR and CTR
--   Ppc/Lists        its instruction lists PPC_OP31 and PPC_PRIMARY, do_op31 and do_op19
--   Ppc/Switch, Call, Tail, Predecode
--                    ppc/ppc_switch.c, ppc/ppc_call.c, ppc/ppc_tail.c, ppc/ppc_predecode.c
--   Ppc/Pdx          ppc/ppc_pdx_impl.h: Format, Decode, Exec and Run the code; Fields, Leaves,
--                    Step and Round the proofs that compare an entry with the switch
--   Ppc/Invariant    the pc and the always-zero slot through a run
--   Ppc/Equiv        each backend against the switch, and the words where they part
--   M68k/State       m68k_t of m68k/m68k_bench.h; M68k/Ops the codes and conditions of
--                    m68k/m68k_ops.h, M68k/Compare what they say of the operands
--   M68k/Move, Switch
--                    m68k/m68k_switch.c; groups of opcodes are functions group_0 to group_e
--   M68k/Pd          m68k/m68k_pd_impl.h as m68k/m68k_pd.c and m68k/m68k_pd_elide.c stamp it:
--                    Format, Decode, Exec and Run the code; Flags, Sized, Fill, Elide and Fuel the
--                    proofs about the codes, the lengths, the table, the pass and the end of the
--                    two loops; Overflow the write past the table;
--                    Matches, Groups, Operands, Moves, Step, Heads and Refine the backends
--                    against m68k/m68k_switch.c, from one instruction to a run; Ends and Total
--                    how the decoding loop ends
--   M68k/Invariant, Kept
--                    the widths of registers and codes, and what a run keeps of the memory
--   M68k/Divergence  conditions that the two kinds of backend treat differently
--   Harness          the emitter and the pseudo-random numbers of ppc/bench_main.c
--   Harness/Ppc      the rest of ppc/bench_main.c: Encode, Kernels, Setup and Main the code;
--                    Fields, Emission, Prepared, Windows, Safe, Verify and Total the proofs about
--                    the encoders, the emitted programs, the setup, the stores and the runs; Alu,
--                    Mem and Stress the runs of the three kernels
--   Harness/M68k     m68k/bench_main.c: Assemble, Kernels, Setup and Main the code; Fields and
--                    Rounds what the backends make of the macros' words, Hash what the hash tells
--                    apart, Emission, Prepared, Fetch, Assembled and Placed the assembled words
--                    in the RAM, Agree the check of the hashes, Alu and Mem the first two kernels
--                    by their instructions, Passes and Runs the body of the loop over kernels
--   Micro            micro/be_micro.c: its three loads and its loops; Micro/Swaps the proofs
--
-- Conventions. A uint32_t is a native natural number with its wrap-around written out. The host is
-- little-endian with 64-bit addresses. A diagnostic that ends the process is a Fault; what it
-- prints of the pc is not modelled. An access past the end of a table is the fault out_of_bounds.
-- The registers are a function of their number. A run takes its budget as a natural number and
-- recurs on it, so every run ends. The loops that fill and walk the M68K table take as many rounds
-- as the table has entries, which is enough since every instruction has at least one word: Fuel
-- states the two loops without a number of rounds. The size of the RAM is a natural number; the
-- programs pass 8 MB.
-- Signed multiplication and shifts wrap as two's complement does. The width of a pre-extracted
-- entry is a Boolean, and a narrow entry has zero in the field that only wide ones have. A pointer
-- into a table is an index. The arguments of a program are numbers, and the addresses that malloc
-- returns are parameters; the loops of main are over their own counts.
--
-- Not modelled: the clocks, the printing and the arithmetic on times of the three programs, the
-- NO_TAIL build, and tools/. The third M68K kernel is not followed through its runs.
pub mod Base
pub mod Memory
pub mod Ppc
pub mod M68k
pub mod Harness
pub mod Micro
