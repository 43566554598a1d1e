-- ===== src/M68k/State.antt =====
-- The 68000-subset state of m68k/m68k_bench.h, with the guest memory beside it.
use emu_core_bench.Base.{ℕ, ◌+◌, ◌*◌, ◌/◌, Fault, Outcome, ok, fatal, u8, ◌==◌, if◌then◌else◌}
use emu_core_bench.Memory.{Env}

-- `m68k_t`: D0-D7 and A0-A7 in one file, the condition codes as words that are 0 or 1.
pub record M68k : Type 0 where
  pub regs : ℕ → ℕ
  pub pc : ℕ
  pub n : ℕ
  pub z : ℕ
  pub v : ℕ
  pub cf : ℕ
  pub x : ℕ

-- What a backend reads and writes: `*m`, and the memory behind the accessors.
pub record M68kMachine : Type 0 where
  pub cpu : M68k
  pub mem : Env

abbrev pub dr_off : ℕ → ℕ
dr_off n = u8 (n * 4)

abbrev pub ar_off : ℕ → ℕ
ar_off n = u8 (32 + n * 4)

-- `REGO(m, off)`, read and written; every offset is a multiple of four below 64.
abbrev pub rego : M68k → ℕ → ℕ
rego c off = c.regs (off / 4)

abbrev pub set_rego : M68k → ℕ → ℕ → M68k
set_rego c off w = record c { regs = λ q. if q == off / 4 then w else c.regs q }

-- A change of the registers and codes only, and one of the memory too.
abbrev pub on_regs : M68kMachine → M68k → Outcome M68kMachine
on_regs m c = ok (record m { cpu = c })

abbrev pub m68k_illegal {ℓ} : {A : Type ℓ} → ℕ → Outcome A
m68k_illegal opcode = fatal (Fault.illegal opcode)

-- `m->pc = pc`.
abbrev pub set_pc : M68kMachine → ℕ → M68kMachine
set_pc m pc = record m { cpu = record m.cpu { pc = pc } }
