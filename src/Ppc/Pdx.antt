-- ===== src/Ppc/Pdx.antt =====
-- Backends E and F, ppc/ppc_pdx_impl.h: predecoding with pre-extracted operands and specialized
-- ids. `wide` stands for PDX_WIDE: false in ppc/ppc_pdx8.c, true in ppc/ppc_pdx16.c.
pub mod Format
pub mod Decode
pub mod Exec
pub mod Run
pub mod Fields
pub mod Leaves
pub mod Step
pub mod Round
