-- ===== src/Ppc/Equiv.antt =====
-- The backends of ppc/ compared with the switch backend.
pub mod Threaded
pub mod Predecoded
pub mod Preextracted
pub mod Divergence
