-- ===== src/M68k/Invariant.antt =====
-- What every round of m68k/m68k_switch.c keeps: registers of 32 bits, and condition codes of one.
use emu_core_bench.Base.{
  ℕ, ◌^◌, ◌<◌, arith, Bool, true, false, Bool-cases, inl, inr, bit_and, bit_xor, bit_and-le,
  bit_xor-lt, u8, u16, shr32, ltb, ◌==◌,
}
use emu_core_bench.M68k.State.{M68k}
use emu_core_bench.M68k.Ops.{flag, cc_nz_l, cc_nz_w, cc_nz_b, cc_add_l, cc_sub_l, cc_cmp_l}
use emu_core_bench.M68k.Move.{set_reg, cc_size}

-- Registers of 32 bits, and codes that are 0 or 1.
pub record IsCpu (c : M68k) : Type 0 where
  pub regs : (i : ℕ) → c.regs i < 2 ^ 32
  pub n_bit : c.n < 2
  pub z_bit : c.z < 2
  pub v_bit : c.v < 2
  pub cf_bit : c.cf < 2
  pub x_bit : c.x < 2

pub flag-lt : (b : Bool) → flag b < 2
flag-lt true = omega arith
flag-lt false = omega arith

pub sign-lt : (r : ℕ) → r < 2 ^ 32 → shr32 r 31 < 2
sign-lt r h = omega arith

module _ (c : M68k) (h : IsCpu c) where
  pub set_reg-IsCpu : (i w : ℕ) → w < 2 ^ 32 → IsCpu (set_reg c i w)
  set_reg-IsCpu i w small = record {
    regs = λ q. elim (Bool-cases (q == i)) [ inl e ↦ rw e small | inr e ↦ rw e (h.regs q) ];
    n_bit = h.n_bit;
    z_bit = h.z_bit;
    v_bit = h.v_bit;
    cf_bit = h.cf_bit;
    x_bit = h.x_bit;
  }

  pub cc_nz_l-IsCpu : (r : ℕ) → r < 2 ^ 32 → IsCpu (cc_nz_l c r)
  unfolding cc_nz_l
  cc_nz_l-IsCpu r small = record {
    n_bit = omega (arith, small);
    z_bit = flag-lt (r == 0);
    v_bit = omega arith;
    cf_bit = omega arith;
    regs = h.regs;
    x_bit = h.x_bit;
  }

  pub cc_nz_w-IsCpu : (r : ℕ) → r < 2 ^ 16 → IsCpu (cc_nz_w c r)
  unfolding cc_nz_w
  cc_nz_w-IsCpu r small = record {
    n_bit = omega (arith, small);
    z_bit = flag-lt (r == 0);
    v_bit = omega arith;
    cf_bit = omega arith;
    regs = h.regs;
    x_bit = h.x_bit;
  }

  pub cc_nz_b-IsCpu : (r : ℕ) → r < 2 ^ 8 → IsCpu (cc_nz_b c r)
  unfolding cc_nz_b
  cc_nz_b-IsCpu r small = record {
    n_bit = omega (arith, small);
    z_bit = flag-lt (r == 0);
    v_bit = omega arith;
    cf_bit = omega arith;
    regs = h.regs;
    x_bit = h.x_bit;
  }

  pub cc_size-IsCpu : (size w : ℕ) → w < 2 ^ 32 → IsCpu (cc_size c size w)
  unfolding cc_size
  cc_size-IsCpu size w small = elim (Bool-cases (size == 4)) [
    | inl e ↦ rw e (cc_nz_l-IsCpu w small)
    | inr e ↦ elim (Bool-cases (size == 2)) [
      | inl e' ↦ rw (e, e') (cc_nz_w-IsCpu (u16 w) (omega arith))
      | inr e' ↦ rw (e, e') (cc_nz_b-IsCpu (u8 w) (omega arith))
    ]
  ]

  module _ (s d r : ℕ) (hs : s < 2 ^ 32) (hd : d < 2 ^ 32) (hr : r < 2 ^ 32) where
    overflow-lt : (a b : ℕ) → b < 2 ^ 32 → shr32 (bit_and a b) 31 < 2
    overflow-lt a b l = sign-lt (bit_and a b) (omega (arith, bit_and-le a b, l))

    pub cc_add_l-IsCpu : IsCpu (cc_add_l c s d r)
    unfolding cc_add_l
    cc_add_l-IsCpu = record {
      n_bit = sign-lt r hr;
      z_bit = flag-lt (r == 0);
      v_bit = overflow-lt (bit_xor s r) (bit_xor d r) (bit_xor-lt 32 d r hd hr);
      cf_bit = flag-lt (ltb r s);
      x_bit = flag-lt (ltb r s);
      regs = h.regs;
    }

    pub cc_sub_l-IsCpu : IsCpu (cc_sub_l c s d r)
    unfolding cc_sub_l
    cc_sub_l-IsCpu = record {
      n_bit = sign-lt r hr;
      z_bit = flag-lt (r == 0);
      v_bit = overflow-lt (bit_xor d s) (bit_xor d r) (bit_xor-lt 32 d r hd hr);
      cf_bit = flag-lt (ltb d s);
      x_bit = flag-lt (ltb d s);
      regs = h.regs;
    }

    pub cc_cmp_l-IsCpu : IsCpu (cc_cmp_l c s d r)
    unfolding cc_cmp_l
    cc_cmp_l-IsCpu = record {
      n_bit = sign-lt r hr;
      z_bit = flag-lt (r == 0);
      v_bit = overflow-lt (bit_xor d s) (bit_xor d r) (bit_xor-lt 32 d r hd hr);
      cf_bit = flag-lt (ltb d s);
      regs = h.regs;
      x_bit = h.x_bit;
    }
