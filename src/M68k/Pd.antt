-- ===== src/M68k/Pd.antt =====
-- The predecoded backends of m68k/m68k_pd_impl.h, stamped by m68k/m68k_pd.c and, with the pass
-- that elides condition codes, by m68k/m68k_pd_elide.c.
pub mod Format
pub mod Decode
pub mod Exec
pub mod Run
pub mod Flags
pub mod Sized
pub mod Fill
pub mod Fuel
pub mod Elide
mod Tests
pub mod Matches
mod Groups
mod Operands
mod Moves
pub mod Step
pub mod Heads
pub mod Refine
pub mod Ends
pub mod Total
pub mod Overflow
