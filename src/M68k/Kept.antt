-- ===== src/M68k/Kept.antt =====
-- What calls of m68k/m68k_switch.c keep: the widths of the registers and codes, and a condition on the
-- memory.
mod Groups
mod Moves
pub mod Runs
use emu_core_bench.Base.{
  ℕ, zero, suc, ◌+◌, ◌-◌, ◌*◌, ◌/◌, ◌%◌, ◌^◌, ◌<◌, ◌≡◌, refl, arith, Bool, true, false, not, ◌&&◌,
  ◌||◌, Bool-cases, inl, inr, Outcome, ok, fatal, ◌>>=◌, After, After-bind, After-bind_all,
  After-weaken, bit_and, bit_or, bit_xor, bit_and-le, bit_xor-lt, bit_or-lt, u8, u16, add32, sub32,
  shl32, shr32, sext16, ltb, ◌==◌, if◌then◌else◌,
}
use native.Mathlib.Nat.{div-le_self}
use emu_core_bench.Memory.{Env, memory_read_uint8, memory_read_uint16, memory_read_uint32}
use emu_core_bench.Memory.Access.{
  memory_read_uint8-small, memory_read_uint16-small, memory_read_uint32-small,
}
use emu_core_bench.M68k.State.{M68k, M68kMachine, m68k_illegal, set_pc}
use emu_core_bench.M68k.Ops.{cc_nz_l, cc_nz_w, cc_nz_b, cc_add_l, cc_sub_l, cc_cmp_l, m68k_cond}
use emu_core_bench.M68k.Pd.Decode.{sext8, op_sm, op_dm, op_dr, op_sr, op_cond, quick}
use emu_core_bench.M68k.Move.{
  Stepped, set_reg, with_cpu, read_size, write_size, cc_size, move_size, move_source, move_dest,
}
use emu_core_bench.M68k.Switch.{
  set_with, group_0, group_move, group_4, dbcc, group_5, branch, group_6, group_7, group_dd,
  group_e, shift_codes, m68k_dispatch, m68k_step, m68k_loop, m68k_run_switch,
}
use emu_core_bench.M68k.Invariant.{
  IsCpu, set_reg-IsCpu, cc_nz_l-IsCpu, cc_nz_w-IsCpu, cc_nz_b-IsCpu, cc_size-IsCpu, cc_add_l-IsCpu,
  cc_sub_l-IsCpu, cc_cmp_l-IsCpu, flag-lt, sign-lt,
}

-- What a `uint32_t` holds.
abbrev pub Word : ℕ → Type 0
Word w = w < 2 ^ 32

-- `Q` holds of what a call gives.
pub record Ends {A : Type 0} (Q : A → Type 0) (r : Outcome A) : Type 0 where
  pub after : After r Q

module _ {A : Type 0} {Q : A → Type 0} where
  pub either : (b : Bool) {r r' : Outcome A} → Ends Q r → Ends Q r' → Ends Q (if b then r else r')
  either true h k = h
  either false h k = k

  pub bad : (op : ℕ) → Ends Q (m68k_illegal op)
  bad op = record { after = tt }

  pub calling :
      {B : Type 0} (R : B → Type 0) (r : Outcome B) {f : B → Outcome A}
      → After r R
      → ((b : B) → R b → Ends Q (f b))
      → Ends Q (r >>= f)
  calling R r {f} h k = record { after = After-bind R Q r f h (λ b l. (k b l).after) }

-- The machine keeps its widths and `P`.
pub record IsKept (P : Env → Type 0) (m : M68kMachine) : Type 0 where
  pub cpu : IsCpu m.cpu
  pub mem : P m.mem

abbrev pub Keeps : (Env → Type 0) → Stepped → Type 0
Keeps P s = Ends (λ r. IsKept P r.0) s

pub done : {P : Env → Type 0} {m : M68kMachine} {pc : ℕ} → IsKept P m → Keeps P (ok (m, pc))
done h = record { after = h }

module _ (P : Env → Type 0) (bytes : (env : Env) → P env → (q : ℕ) → env.host q < 256)
    (m : M68kMachine) (h : IsKept P m) where
  pub reg : (i : ℕ) → Word (m.cpu.regs i)
  reg i = h.cpu.regs i

  pub new_cpu : {c : M68k} {pc : ℕ} → IsCpu c → Keeps P (ok (with_cpu m c, pc))
  new_cpu k = done (record { cpu = k; mem = h.mem })

  pub read16 : (a : ℕ) → After (memory_read_uint16 m.mem a) Word
  read16 a =
      After-weaken (λ w. w < 2 ^ 16) Word (memory_read_uint16 m.mem a)
        (memory_read_uint16-small m.mem (bytes m.mem h.mem) a) (λ w l. omega (arith, l))

  pub read32 : (a : ℕ) → After (memory_read_uint32 m.mem a) Word
  read32 a = memory_read_uint32-small m.mem (bytes m.mem h.mem) a
