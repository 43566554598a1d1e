-- ===== src/M68k/Ops.antt =====
-- The condition codes of m68k/m68k_ops.h. A word or a byte comes in as its low bits.
use emu_core_bench.Base.{
  ℕ, bit_and, bit_xor, Bool, false, not, ◌&&◌, ◌||◌, none, some, List, [], ◌∷◌, find_case, shr32,
  ltb, ◌==◌, if◌then◌else◌,
}
use emu_core_bench.M68k.State.{M68k}

-- A comparison stored in a word.
abbrev pub flag : Bool → ℕ
flag b = if b then 1 else 0

unfoldable pub cc_nz_l : M68k → ℕ → M68k
cc_nz_l m r = record m { n = shr32 r 31; z = flag (r == 0); v = 0; cf = 0 }

unfoldable pub cc_nz_w : M68k → ℕ → M68k
cc_nz_w m r = record m { n = shr32 r 15; z = flag (r == 0); v = 0; cf = 0 }

unfoldable pub cc_nz_b : M68k → ℕ → M68k
cc_nz_b m r = record m { n = shr32 r 7; z = flag (r == 0); v = 0; cf = 0 }

unfoldable pub cc_add_l : M68k → ℕ → ℕ → ℕ → M68k
cc_add_l m s d r = record m {
  cf = flag (ltb r s);
  x = flag (ltb r s);
  v = shr32 (bit_and (bit_xor s r) (bit_xor d r)) 31;
  n = shr32 r 31;
  z = flag (r == 0);
}

unfoldable pub cc_sub_l : M68k → ℕ → ℕ → ℕ → M68k
cc_sub_l m s d r = record m {
  cf = flag (ltb d s);
  x = flag (ltb d s);
  v = shr32 (bit_and (bit_xor d s) (bit_xor d r)) 31;
  n = shr32 r 31;
  z = flag (r == 0);
}

unfoldable pub cc_cmp_l : M68k → ℕ → ℕ → ℕ → M68k
cc_cmp_l m s d r = record m {
  cf = flag (ltb d s);
  v = shr32 (bit_and (bit_xor d s) (bit_xor d r)) 31;
  n = shr32 r 31;
  z = flag (r == 0);
}

-- `M68K_CONDS`: the names, the codes and the expressions.
pub data Cond : Type 0 where
  cc cs ne eq pl mi ge lt gt le : Cond

abbrev pub cond_key : Cond → ℕ
cond_key cc = 4
cond_key cs = 5
cond_key ne = 6
cond_key eq = 7
cond_key pl = 10
cond_key mi = 11
cond_key ge = 12
cond_key lt = 13
cond_key gt = 14
cond_key le = 15

abbrev pub m68k_conds : List Cond
m68k_conds = cc ∷ cs ∷ ne ∷ eq ∷ pl ∷ mi ∷ ge ∷ lt ∷ gt ∷ le ∷ []

unfoldable pub cond_expr : Cond → M68k → Bool
cond_expr cc m = m.cf == 0
cond_expr cs m = not (m.cf == 0)
cond_expr ne m = m.z == 0
cond_expr eq m = not (m.z == 0)
cond_expr pl m = m.n == 0
cond_expr mi m = not (m.n == 0)
cond_expr ge m = m.n == m.v
cond_expr lt m = not (m.n == m.v)
cond_expr gt m = m.z == 0 && m.n == m.v
cond_expr le m = not (m.z == 0) || not (m.n == m.v)

-- The `switch (cond)`, with its default.
unfoldable pub m68k_cond : M68k → ℕ → Bool
m68k_cond m cond = elim (find_case cond_key m68k_conds cond) [
  | some k ↦ cond_expr k m
  | none ↦ false
]
