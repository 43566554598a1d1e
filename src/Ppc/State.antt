-- ===== src/Ppc/State.antt =====
-- The integer state of ppc/ppc_bench.h, with the guest memory beside it.
use emu_core_bench.Base.{ℕ, ◌==◌, if◌then◌else◌}
use emu_core_bench.Memory.{Env}

-- `ppc_t`. The backends index `gpr` by fields of five bits only.
pub record Ppc : Type 0 where
  pub gpr : ℕ → ℕ
  pub zero_base : ℕ
  pub pc : ℕ
  pub lr : ℕ
  pub ctr : ℕ
  pub cr : ℕ
  pub xer_ca : ℕ

-- What a backend reads and writes: `*c`, and the memory behind the accessors.
pub record Machine : Type 0 where
  pub cpu : Ppc
  pub mem : Env

-- `c->gpr[r] = v`.
abbrev pub set_gpr : Ppc → ℕ → ℕ → Ppc
set_gpr c r v = record c { gpr = λ q. if q == r then v else c.gpr q }
