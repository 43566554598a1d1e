-- ===== src/Harness/M68k/Fields.antt =====
-- The words of the macros of m68k/bench_main.c with two data registers, and the fields that the
-- backends read from them.
use emu_core_bench.Base.{
  ℕ, ◌+◌, ◌*◌, ◌/◌, ◌%◌, ◌^◌, ◌<◌, ◌≡◌, ap, ◌∙◌, arith, bit_and, bit_or, shl32, shr32, bit_and_ones,
  bit_or_disjoint, bit_and_fields, bit_or_fields, bit_or-zero, bit_and-zero, List, [], ◌∷◌,
}
use emu_core_bench.M68k.Pd.Format.{Elidable, PureFlag, MpdId}
use emu_core_bench.M68k.Pd.Decode.{op_sm, op_dm, op_dr, op_sr}
use emu_core_bench.Harness.M68k.Assemble.{
  Macro, two_fields, move_l_dd, add_l_dd, sub_l_dd, cmp_l_dd, eor_l_dd, and_l_dd, or_l_dd,
}

-- The macros with two data registers.
pub data DdOp : Type 0 where
  move_l add_l sub_l cmp_l eor_l and_l or_l : DdOp

abbrev pub dd_macro : DdOp → ℕ → ℕ → Macro
dd_macro move_l = move_l_dd
dd_macro add_l = add_l_dd
dd_macro sub_l = sub_l_dd
dd_macro cmp_l = cmp_l_dd
dd_macro eor_l = eor_l_dd
dd_macro and_l = and_l_dd
dd_macro or_l = or_l_dd

abbrev pub dd_id : DdOp → MpdId
dd_id move_l = MpdId.pair Elidable.mv_l_dd
dd_id add_l = MpdId.pair Elidable.add_l_dd
dd_id sub_l = MpdId.pair Elidable.sub_l_dd
dd_id cmp_l = MpdId.one PureFlag.cmp_l_dd
dd_id eor_l = MpdId.pair Elidable.eor_l_dd
dd_id and_l = MpdId.pair Elidable.and_l_dd
dd_id or_l = MpdId.pair Elidable.or_l_dd

-- The word of a macro that has one.
abbrev pub first_word : List ℕ → ℕ
first_word [] = 0
first_word (w ∷ rest) = w

-- The group of a macro's word and its digits between the register fields.
abbrev pub dd_top : DdOp → ℕ
dd_top move_l = 2
dd_top add_l = 13
dd_top sub_l = 9
dd_top cmp_l = 11
dd_top eor_l = 11
dd_top and_l = 12
dd_top or_l = 8

abbrev pub dd_mid : DdOp → ℕ
dd_mid move_l = 0
dd_mid eor_l = 48
dd_mid _ = 16

dd_top-lt : (op : DdOp) → dd_top op < 16
dd_top-lt move_l = omega arith
dd_top-lt add_l = omega arith
dd_top-lt sub_l = omega arith
dd_top-lt cmp_l = omega arith
dd_top-lt eor_l = omega arith
dd_top-lt and_l = omega arith
dd_top-lt or_l = omega arith

dd_mid-lt : (op : DdOp) → dd_mid op < 64
dd_mid-lt move_l = omega arith
dd_mid-lt add_l = omega arith
dd_mid-lt sub_l = omega arith
dd_mid-lt cmp_l = omega arith
dd_mid-lt eor_l = omega arith
dd_mid-lt and_l = omega arith
dd_mid-lt or_l = omega arith

abbrev pub dd_word : DdOp → ℕ → ℕ → ℕ
dd_word op hi lo = (dd_top op * 8 + hi) * 2 ^ 9 + (dd_mid op * 8 + lo)

module _ (op : DdOp) (hi lo : ℕ) (hh : hi < 8) (hl : lo < 8) where
  pub two_fields_lem : two_fields (dd_top op * 2 ^ 12 + dd_mid op * 8) hi lo ≡ dd_word op hi lo
  two_fields_lem =
      let base : dd_top op * 2 ^ 12 + dd_mid op * 8 ≡ (dd_top op * 8) * 2 ^ 9 + dd_mid op * 8 =
        omega (arith, dd_mid-lt op) in
      let field : shl32 hi 9 ≡ hi * 2 ^ 9 + 0 = omega (arith, dd_mid-lt op) in
      let joined =
        bit_or_fields 9 (dd_top op * 8) (dd_mid op * 8) hi 0
          (omega (arith, dd_top-lt op, dd_mid-lt op)) (omega (arith, dd_top-lt op, dd_mid-lt op)) in
      let high : bit_or (dd_top op * 8) hi ≡ dd_top op * 8 + hi =
        bit_or_disjoint 3 (dd_top op * 8) hi (omega (arith, dd_top-lt op, dd_mid-lt op))
          (omega (arith, dd_top-lt op, dd_mid-lt op)) in
      rw
        (
          base,
          field,
          joined,
          high,
          bit_or-zero (dd_mid op * 8),
          bit_or_disjoint 3 ((dd_top op * 8 + hi) * 2 ^ 9 + dd_mid op * 8) lo
              (omega (arith, dd_top-lt op, dd_mid-lt op))
              (omega (arith, dd_top-lt op, dd_mid-lt op)),
        )
        (omega (arith, dd_top-lt op, dd_mid-lt op))

  pub word_top : shr32 (dd_word op hi lo) 12 ≡ dd_top op
  word_top = omega (arith, dd_mid-lt op)

  pub word_dr : op_dr (dd_word op hi lo) ≡ hi
  word_dr = bit_and_ones 3 (shr32 (dd_word op hi lo) 9) ∙ omega (arith, dd_mid-lt op)

  pub word_sr : op_sr (dd_word op hi lo) ≡ lo
  word_sr = bit_and_ones 3 (dd_word op hi lo) ∙ omega (arith, dd_mid-lt op)

  pub word_sm : op_sm (dd_word op hi lo) ≡ dd_mid op % 8
  word_sm = bit_and_ones 3 (shr32 (dd_word op hi lo) 3) ∙ omega (arith, dd_mid-lt op)

  pub word_dm : op_dm (dd_word op hi lo) ≡ dd_mid op / 8
  word_dm = bit_and_ones 3 (shr32 (dd_word op hi lo) 6) ∙ omega (arith, dd_mid-lt op)

  pub word_mid : bit_and (dd_word op hi lo) 0x1F8 ≡ dd_mid op * 8
  word_mid =
      let outer =
        bit_and_fields 9 (dd_top op * 8 + hi) (dd_mid op * 8 + lo) 0 0x1F8
          (omega (arith, dd_top-lt op, dd_mid-lt op)) (omega (arith, dd_top-lt op, dd_mid-lt op)) in
      let inner =
        bit_and_fields 3 (dd_mid op) lo 0x3F 0 (omega (arith, dd_top-lt op, dd_mid-lt op))
          (omega (arith, dd_top-lt op, dd_mid-lt op)) in
      let six = bit_and_ones 6 (dd_mid op) in
      outer
      ∙ rw (bit_and-zero (dd_top op * 8 + hi)) (
          ap (λ t. 0 * 2 ^ 9 + t) inner
          ∙ rw (six, bit_and-zero lo) (omega (arith, dd_top-lt op, dd_mid-lt op)))
