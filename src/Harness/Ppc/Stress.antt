-- ===== src/Harness/Ppc/Stress.antt =====
-- The third kernel of ppc/bench_main.c: random instructions in a straight line.
mod Forms
mod Windows
mod Step
mod Words
pub mod Run
