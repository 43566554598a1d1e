-- ===== src/Harness/M68k/Mem.antt =====
-- The second kernel of m68k/bench_main.c: its code, its loop and its rounds.
pub mod Code
pub mod Loop
pub mod Rounds
