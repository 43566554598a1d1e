-- ===== src/Base/TopBit.antt =====
-- The digits of `^`, and what `^` and `&` do to the top bit of a word.
use Prim.Native.Nat.{
  ℕ, zero, suc, ◌+◌, ◌*◌, ◌/◌, ◌%◌, ◌^◌, ◌≤◌, ◌<◌, digits, differ, bit_and, bit_xor,
  bit_xor-bitwise,
}
use mathlib.Core.Path.{◌≡◌, refl}
use native.Mathlib.Nat.{pow-suc, div-div-eq-div-mul}
use native.Mathlib.Omega.{arith}
use emu_core_bench.Base.Bits.{bit_and_digit}

xor_fuel :
    (n m a b : ℕ) → a ≤ n → a ≤ m → digits (λ c. c) differ n a b ≡ digits (λ c. c) differ m a b
xor_fuel zero zero a b p q = refl
xor_fuel zero (suc m) zero b p q = refl
xor_fuel zero (suc m) (suc a) b p q = absurd (omega arith)
xor_fuel (suc n) zero zero b p q = refl
xor_fuel (suc n) zero (suc a) b p q = absurd (omega arith)
xor_fuel (suc n) (suc m) zero b p q = refl
xor_fuel (suc n) (suc m) (suc a) b p q =
    omega (arith, xor_fuel n m (suc a / 2) (b / 2) (omega arith) (omega arith))

-- The lowest digit of an exclusive or.
pub bit_xor_digit : (a b : ℕ) → bit_xor a b ≡ bit_xor (a / 2) (b / 2) * 2 + differ (a % 2) (b % 2)
bit_xor_digit zero b = omega (arith, bit_xor-bitwise 0 b, bit_xor-bitwise 0 (b / 2))
bit_xor_digit (suc a) b = omega (
  arith,
  bit_xor-bitwise (suc a) b,
  bit_xor-bitwise (suc a / 2) (b / 2),
  xor_fuel a (suc a / 2) (suc a / 2) (b / 2) (omega arith) (omega arith),
)

div_one : (a : ℕ) → a / 1 ≡ a
div_one a = omega arith

half_first : (k a : ℕ) → a / 2 ^ suc k ≡ a / 2 / 2 ^ k
half_first k a =
    let split : 2 ^ suc k ≡ 2 * 2 ^ k = omega (arith, pow-suc 2 k) in
    rw split (omega (arith, div-div-eq-div-mul a 2 (2 ^ k)))

pub differ-lt : (a b : ℕ) → a < 2 → b < 2 → differ a b < 2
differ-lt zero b h k = k
differ-lt (suc a) zero h k = h
differ-lt (suc a) (suc b) h k = differ-lt a b (omega arith) (omega arith)

pub half-bit_xor : (a b : ℕ) → bit_xor a b / 2 ≡ bit_xor (a / 2) (b / 2)
half-bit_xor a b =
    omega (arith, bit_xor_digit a b, differ-lt (a % 2) (b % 2) (omega arith) (omega arith))

half-bit_and : (a b : ℕ) → bit_and a b / 2 ≡ bit_and (a / 2) (b / 2)
half-bit_and a b = omega (arith, bit_and_digit a b)

-- Shifting right commutes with both.
pub shr-bit_xor : (k a b : ℕ) → bit_xor a b / 2 ^ k ≡ bit_xor (a / 2 ^ k) (b / 2 ^ k)
shr-bit_xor zero a b = rw (div_one a, div_one b, div_one (bit_xor a b)) refl
shr-bit_xor (suc k) a b =
    rw (half_first k a, half_first k b, half_first k (bit_xor a b), half-bit_xor a b)
      (shr-bit_xor k (a / 2) (b / 2))

pub shr-bit_and : (k a b : ℕ) → bit_and a b / 2 ^ k ≡ bit_and (a / 2 ^ k) (b / 2 ^ k)
shr-bit_and zero a b = rw (div_one a, div_one b, div_one (bit_and a b)) refl
shr-bit_and (suc k) a b =
    rw (half_first k a, half_first k b, half_first k (bit_and a b), half-bit_and a b)
      (shr-bit_and k (a / 2) (b / 2))
