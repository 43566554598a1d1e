-- ===== src/M68k.antt =====
-- The M68K lane, m68k/.
pub mod State
pub mod Ops
pub mod Compare
pub mod Move
pub mod Switch
pub mod Invariant
pub mod Kept
pub mod Pd
pub mod Divergence
mod Tests
