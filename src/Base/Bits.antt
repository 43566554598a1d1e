-- ===== src/Base/Bits.antt =====
-- Laws of `&` and `|` with masks, at every width.
use Prim.Native.Nat.{
  ℕ, zero, suc, ◌+◌, ◌-◌, ◌*◌, ◌/◌, ◌%◌, ◌^◌, ◌≤◌, min, digits, bit_and, bit_and-bitwise,
}
use mathlib.Core.Path.{◌≡◌, refl}
use native.Mathlib.Nat.{pow-suc, one-le-pow, div-add-mod, div-div-eq-div-mul}
use native.Mathlib.Omega.{arith}

-- The fuel of the digit recursion does not matter once it is enough.
and_fuel : (n m a b : ℕ) → a ≤ n → a ≤ m → digits (λ _. 0) min n a b ≡ digits (λ _. 0) min m a b
and_fuel zero zero a b p q = refl
and_fuel zero (suc m) zero b p q = refl
and_fuel zero (suc m) (suc a) b p q = absurd (omega arith)
and_fuel (suc n) zero zero b p q = refl
and_fuel (suc n) zero (suc a) b p q = absurd (omega arith)
and_fuel (suc n) (suc m) zero b p q = refl
and_fuel (suc n) (suc m) (suc a) b p q =
    omega (arith, and_fuel n m (suc a / 2) (b / 2) (omega arith) (omega arith))

-- The lowest digit of a conjunction.
pub bit_and_digit : (a b : ℕ) → bit_and a b ≡ bit_and (a / 2) (b / 2) * 2 + min (a % 2) (b % 2)
bit_and_digit zero b = omega (arith, bit_and-bitwise 0 b, bit_and-bitwise 0 (b / 2))
bit_and_digit (suc a) b = omega (
  arith,
  bit_and-bitwise (suc a) b,
  bit_and-bitwise (suc a / 2) (b / 2),
  and_fuel a (suc a / 2) (suc a / 2) (b / 2) (omega arith) (omega arith),
)

-- A conjunction is at most its right side.
bit_and-le_fuel : (n a b : ℕ) → a ≤ n → bit_and a b ≤ b
bit_and-le_fuel n zero b h = omega (arith, bit_and-bitwise 0 b)
bit_and-le_fuel zero (suc a) b h = absurd (omega arith)
bit_and-le_fuel (suc n) (suc a) b h =
    omega (arith, bit_and_digit (suc a) b, bit_and-le_fuel n (suc a / 2) (b / 2) (omega arith))

pub bit_and-le : (a b : ℕ) → bit_and a b ≤ b
bit_and-le a b = bit_and-le_fuel a a b (omega arith)

pub bit_and-zero : (a : ℕ) → bit_and a 0 ≡ 0
bit_and-zero a = omega (arith, bit_and-le a 0)

mod_double : (a m : ℕ) → 1 ≤ m → a % (2 * m) ≡ a / 2 % m * 2 + a % 2
mod_double a m h =
    ground (arith, div-div-eq-div-mul a 2 m, div-add-mod a (2 * m), div-add-mod (a / 2) m)

-- A mask of `k` ones keeps the remainder by `2 ^ k`.
pub bit_and_ones : (k a : ℕ) → bit_and a (2 ^ k - 1) ≡ a % 2 ^ k
bit_and_ones zero a = omega (arith, bit_and-zero a)
bit_and_ones (suc k) a = ground (
  arith,
  bit_and_digit a (2 ^ suc k - 1),
  pow-suc 2 k,
  one-le-pow k 2,
  bit_and_ones k (a / 2),
  mod_double a (2 ^ k),
)

-- Clearing the two lowest bits leaves a multiple of four.
pub bit_and_word_aligned : (a : ℕ) → bit_and a 0xFFFF_FFFC % 4 ≡ 0
bit_and_word_aligned a =
    omega (arith, bit_and_digit a 0xFFFF_FFFC, bit_and_digit (a / 2) 0x7FFF_FFFE)

pub bit_and_short_aligned : (a : ℕ) → bit_and a 0xFFFC % 4 ≡ 0
bit_and_short_aligned a = omega (arith, bit_and_digit a 0xFFFC, bit_and_digit (a / 2) 0x7FFE)

-- No bit of a two-bit mask is set when the mask gives zero.
pub bit_and_three : (a : ℕ) → bit_and a 3 ≡ 0 → (bit_and a 1 ≡ 0) × (bit_and a 2 ≡ 0)
bit_and_three a h =
    omega (arith, bit_and_digit a 3, bit_and_digit a 1, bit_and_digit a 2, bit_and-zero (a / 2))

pub bit_and_window_aligned : (a : ℕ) → bit_and a 0x3FFC % 4 ≡ 0
bit_and_window_aligned a = omega (arith, bit_and_digit a 0x3FFC, bit_and_digit (a / 2) 0x1FFE)

pub bit_and_offset_aligned : (a : ℕ) → bit_and a 0x7FC % 4 ≡ 0
bit_and_offset_aligned a = omega (arith, bit_and_digit a 0x7FC, bit_and_digit (a / 2) 0x3FE)
