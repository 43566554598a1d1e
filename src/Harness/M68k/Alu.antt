-- ===== src/Harness/M68k/Alu.antt =====
-- The first kernel of m68k/bench_main.c: its code and its rounds.
pub mod Code
pub mod Rounds
