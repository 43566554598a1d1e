-- ===== src/M68k/Compare.antt =====
-- The conditions of m68k/m68k_ops.h after `cc_cmp_l`, the compare of two words.
use emu_core_bench.Base.{
  ℕ, ◌+◌, ◌%◌, ◌^◌, ◌<◌, ◌≡◌, refl, arith, bit_and, bit_xor, Bool, true, false, not, ◌&&◌, sub32,
  shr32, add32, leb, ltb, ltb_ℤ, int32, ◌==◌, if◌then◌else◌, shr-bit_and, shr-bit_xor,
}
use emu_core_bench.M68k.State.{M68k}
use emu_core_bench.M68k.Ops.{Cond, cond_expr, cc_cmp_l, cc_add_l, flag}

-- What V is: the top bits of `d`, `s` and the difference decide it.
overflow :
    (s d r : ℕ)
    → shr32 (bit_and (bit_xor d s) (bit_xor d r)) 31
      ≡ bit_and (bit_xor (shr32 d 31) (shr32 s 31)) (bit_xor (shr32 d 31) (shr32 r 31))
overflow s d r =
    rw (shr-bit_and 31 (bit_xor d s) (bit_xor d r), shr-bit_xor 31 d s, shr-bit_xor 31 d r) refl

-- The same of three bits.
bits_lem :
    (x y z : Bool)
    → bit_and (bit_xor (flag x) (flag y)) (bit_xor (flag x) (flag z))
      ≡ (if x then (if y then 0 else if z then 0 else 1) else if y then (if z then 1 else 0) else 0)
bits_lem true true true = refl
bits_lem true true false = refl
bits_lem true false true = refl
bits_lem true false false = refl
bits_lem false true true = refl
bits_lem false true false = refl
bits_lem false false true = refl
bits_lem false false false = refl

-- A word has one bit at the top, its sign.
top_bit : (a : ℕ) → a < 2 ^ 32 → shr32 a 31 ≡ flag (not (ltb a 0x8000_0000))
top_bit a h = ground arith

-- N and V are the same where the difference, taken as signed, is not negative.
lt_lem :
    (s d : ℕ)
    → s < 2 ^ 32
    → d < 2 ^ 32
    → (shr32 (sub32 d s) 31 == shr32 (bit_and (bit_xor d s) (bit_xor d (sub32 d s))) 31)
      ≡ not (ltb_ℤ (int32 d) (int32 s))
lt_lem s d hs hd =
    let r : sub32 d s < 2 ^ 32 = omega arith in
    rw
      (
        overflow s d (sub32 d s),
        top_bit s hs,
        top_bit d hd,
        top_bit (sub32 d s) r,
        bits_lem (not (ltb d 0x8000_0000)) (not (ltb s 0x8000_0000))
            (not (ltb (sub32 d s) 0x8000_0000)),
      )
      (ground arith)

-- What each condition says of the operands of `CMP.L s,d`: an unsigned or a signed order, an
-- equation, or the sign of the difference.
abbrev pub compared : Cond → ℕ → ℕ → Bool
compared Cond.cc s d = not (ltb d s)
compared Cond.cs s d = ltb d s
compared Cond.ne s d = not (d == s)
compared Cond.eq s d = d == s
compared Cond.pl s d = ltb (sub32 d s) 0x8000_0000
compared Cond.mi s d = not (ltb (sub32 d s) 0x8000_0000)
compared Cond.ge s d = not (ltb_ℤ (int32 d) (int32 s))
compared Cond.lt s d = ltb_ℤ (int32 d) (int32 s)
compared Cond.gt s d = ltb_ℤ (int32 s) (int32 d)
compared Cond.le s d = not (ltb_ℤ (int32 s) (int32 d))

-- After the compare of two 32-bit words, each condition holds exactly where its order, equation
-- or sign does: CS is the unsigned order, LT, GE, GT and LE the signed one.
pub cond_expr-cc_cmp_l :
    (k : Cond) (c : M68k) (s d : ℕ)
    → s < 2 ^ 32
    → d < 2 ^ 32
    → cond_expr k (cc_cmp_l c s d (sub32 d s)) ≡ compared k s d
unfolding cond_expr cc_cmp_l
cond_expr-cc_cmp_l Cond.cc c s d hs hd = ground arith
cond_expr-cc_cmp_l Cond.cs c s d hs hd = ground arith
cond_expr-cc_cmp_l Cond.ne c s d hs hd = ground arith
cond_expr-cc_cmp_l Cond.eq c s d hs hd = ground arith
cond_expr-cc_cmp_l Cond.pl c s d hs hd = ground arith
cond_expr-cc_cmp_l Cond.mi c s d hs hd = ground arith
cond_expr-cc_cmp_l Cond.ge c s d hs hd = lt_lem s d hs hd
cond_expr-cc_cmp_l Cond.lt c s d hs hd = rw (lt_lem s d hs hd) (ground arith)
cond_expr-cc_cmp_l Cond.gt c s d hs hd = rw (lt_lem s d hs hd) (ground arith)
cond_expr-cc_cmp_l Cond.le c s d hs hd = rw (lt_lem s d hs hd) (ground arith)

-- The signed sum of two words is out of the range of a word.
abbrev pub sum_overflows : ℕ → ℕ → Bool
sum_overflows s d =
    if ltb s 0x8000_0000 && ltb d 0x8000_0000
    then leb 0x8000_0000 (d + s)
    else not (ltb s 0x8000_0000) && (not (ltb d 0x8000_0000) && ltb (d + s) 0x1_8000_0000)

sum_bits :
    (x y z : Bool)
    → bit_and (bit_xor (flag x) (flag z)) (bit_xor (flag y) (flag z))
      ≡ (if x then (if y then (if z then 0 else 1) else 0) else if y then 0 else if z then 1 else 0)
sum_bits true true true = refl
sum_bits true true false = refl
sum_bits true false true = refl
sum_bits true false false = refl
sum_bits false true true = refl
sum_bits false true false = refl
sum_bits false false true = refl
sum_bits false false false = refl

-- After the addition of two 32-bit words, C and X are the carry out of the word, V says that the
-- signed sum is out of range, Z that the sum is zero and N that it is negative as a signed word.
pub cc_add_l_lem :
    (c : M68k) (s d : ℕ)
    → s < 2 ^ 32
    → d < 2 ^ 32
    → ((cc_add_l c s d (add32 d s)).cf ≡ flag (leb (2 ^ 32) (d + s)))
      × ((cc_add_l c s d (add32 d s)).x ≡ flag (leb (2 ^ 32) (d + s)))
      × ((cc_add_l c s d (add32 d s)).v ≡ flag (sum_overflows s d))
      × ((cc_add_l c s d (add32 d s)).z ≡ flag ((d + s) % 2 ^ 32 == 0))
      × ((cc_add_l c s d (add32 d s)).n ≡ flag (not (ltb (add32 d s) 0x8000_0000)))
unfolding cc_add_l
cc_add_l_lem c s d hs hd =
    let r : add32 d s < 2 ^ 32 = omega arith in
    (
      ground arith,
      ground arith,
      rw
          (
            shr-bit_and 31 (bit_xor s (add32 d s)) (bit_xor d (add32 d s)),
            shr-bit_xor 31 s (add32 d s),
            shr-bit_xor 31 d (add32 d s),
            top_bit s hs,
            top_bit d hd,
            top_bit (add32 d s) r,
            sum_bits (not (ltb s 0x8000_0000)) (not (ltb d 0x8000_0000))
                (not (ltb (add32 d s) 0x8000_0000)),
          )
          (ground arith),
      refl,
      top_bit (add32 d s) r,
    )
