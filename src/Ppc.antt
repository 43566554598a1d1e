-- ===== src/Ppc.antt =====
-- The PowerPC lane, ppc/: the opcode header and the backends stamped from it.
pub mod State
pub mod Ops
pub mod Transfer
pub mod Lists
pub mod Switch
pub mod Call
pub mod Tail
pub mod Predecode
pub mod Pdx
pub mod Invariant
pub mod Contained
pub mod Equiv
mod Tests
