-- ===== src/Harness/M68k.antt =====
-- The harness of m68k/bench_main.c: its assembler, its kernels, its setup, its hashes and its main.
mod Assemble
mod Kernels
mod Setup
mod Main
mod Fields
mod Rounds
mod Hash
mod Emission
mod Prepared
mod Agree
mod Fetch
mod Placed
mod Assembled
mod Passes
mod Runs
mod Alu
mod Mem
mod Tests
