-- ===== src/Harness/Ppc.antt =====
-- The harness of ppc/bench_main.c: its assembler, its kernels, and the check that the backends
-- agree.
mod Encode
mod Fields
mod Kernels
pub mod Setup
mod Main
mod Emission
pub mod Prepared
mod Verify
mod Safe
mod Alu
mod Windows
mod Mem
mod Stress
mod Total
mod Tests
