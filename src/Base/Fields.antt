-- ===== src/Base/Fields.antt =====
-- The operations on digits, field by field: words that are split at the same bit.
use Prim.Native.Nat.{
  ℕ, zero, suc, ◌+◌, ◌*◌, ◌/◌, ◌%◌, ◌^◌, ◌≤◌, ◌<◌, max, digits, bit_and, bit_or, bit_and-bitwise,
  bit_or-bitwise,
}
use mathlib.Core.Path.{◌≡◌, refl, sym, ap, ◌∙◌}
use native.Mathlib.Nat.{pow-suc, one-le-pow, div-add-mod}
use native.Mathlib.Omega.{arith}
use emu_core_bench.Base.Bits.{bit_and_digit}

or_fuel : (n m a b : ℕ) → a ≤ n → a ≤ m → digits (λ c. c) max n a b ≡ digits (λ c. c) max m a b
or_fuel zero zero a b p q = refl
or_fuel zero (suc m) zero b p q = refl
or_fuel zero (suc m) (suc a) b p q = absurd (omega arith)
or_fuel (suc n) zero zero b p q = refl
or_fuel (suc n) zero (suc a) b p q = absurd (omega arith)
or_fuel (suc n) (suc m) zero b p q = refl
or_fuel (suc n) (suc m) (suc a) b p q =
    omega (arith, or_fuel n m (suc a / 2) (b / 2) (omega arith) (omega arith))

-- The lowest digit of a disjunction.
pub bit_or_digit : (a b : ℕ) → bit_or a b ≡ bit_or (a / 2) (b / 2) * 2 + max (a % 2) (b % 2)
bit_or_digit zero b = omega (arith, bit_or-bitwise 0 b, bit_or-bitwise 0 (b / 2))
bit_or_digit (suc a) b = omega (
  arith,
  bit_or-bitwise (suc a) b,
  bit_or-bitwise (suc a / 2) (b / 2),
  or_fuel a (suc a / 2) (suc a / 2) (b / 2) (omega arith) (omega arith),
)

pub zero-bit_or : (a : ℕ) → bit_or 0 a ≡ a
zero-bit_or a = omega (arith, bit_or-bitwise 0 a)

bit_or-zero_fuel : (n a : ℕ) → a ≤ n → bit_or a 0 ≡ a
bit_or-zero_fuel n zero h = omega (arith, bit_or-bitwise 0 0)
bit_or-zero_fuel zero (suc a) h = absurd (omega arith)
bit_or-zero_fuel (suc n) (suc a) h =
    omega (arith, bit_or_digit (suc a) 0, bit_or-zero_fuel n (suc a / 2) (omega arith))

pub bit_or-zero : (a : ℕ) → bit_or a 0 ≡ a
bit_or-zero a = bit_or-zero_fuel a a (omega arith)

pub zero-bit_and : (a : ℕ) → bit_and 0 a ≡ 0
zero-bit_and a = omega (arith, bit_and-bitwise 0 a)

double_field : (k q : ℕ) → q * 2 ^ suc k ≡ q * 2 ^ k * 2
double_field k q = omega (arith, ap (λ t. q * t) (pow-suc 2 k))

half_field : (k q r : ℕ) → (q * 2 ^ suc k + r) / 2 ≡ q * 2 ^ k + r / 2
half_field k q r = omega (arith, double_field k q)

low_field : (k q r : ℕ) → (q * 2 ^ suc k + r) % 2 ≡ r % 2
low_field k q r = omega (arith, double_field k q)

half-lt : (k r : ℕ) → r < 2 ^ suc k → r / 2 < 2 ^ k
half-lt k r h = ground (arith, pow-suc 2 k)

pub bit_and_fields :
    (k q r s t : ℕ)
    → r < 2 ^ k
    → t < 2 ^ k
    → bit_and (q * 2 ^ k + r) (s * 2 ^ k + t) ≡ bit_and q s * 2 ^ k + bit_and r t
bit_and_fields zero q r s t h g =
    let z : r ≡ 0 = omega arith in
    let z' : t ≡ 0 = omega arith in
    let one : (n : ℕ) → n * 2 ^ 0 + 0 ≡ n = λ n. omega arith in
    rw (z, z', one q, one s, zero-bit_and 0, one (bit_and q s)) refl
bit_and_fields (suc k) q r s t h g =
    let ih : bit_and (q * 2 ^ k + r / 2) (s * 2 ^ k + t / 2)
        ≡ bit_and q s * 2 ^ k + bit_and (r / 2) (t / 2) =
      bit_and_fields k q (r / 2) s (t / 2) (half-lt k r h) (half-lt k t g) in
    let whole = bit_and_digit (q * 2 ^ suc k + r) (s * 2 ^ suc k + t) in
    rw (whole, half_field k q r, half_field k s t, low_field k q r, low_field k s t, ih)
      (omega (arith, bit_and_digit r t, double_field k (bit_and q s)))

pub bit_or_fields :
    (k q r s t : ℕ)
    → r < 2 ^ k
    → t < 2 ^ k
    → bit_or (q * 2 ^ k + r) (s * 2 ^ k + t) ≡ bit_or q s * 2 ^ k + bit_or r t
bit_or_fields zero q r s t h g =
    let z : r ≡ 0 = omega arith in
    let z' : t ≡ 0 = omega arith in
    let one : (n : ℕ) → n * 2 ^ 0 + 0 ≡ n = λ n. omega arith in
    rw (z, z', one q, one s, zero-bit_or 0, one (bit_or q s)) refl
bit_or_fields (suc k) q r s t h g =
    let ih : bit_or (q * 2 ^ k + r / 2) (s * 2 ^ k + t / 2)
        ≡ bit_or q s * 2 ^ k + bit_or (r / 2) (t / 2) =
      bit_or_fields k q (r / 2) s (t / 2) (half-lt k r h) (half-lt k t g) in
    let whole = bit_or_digit (q * 2 ^ suc k + r) (s * 2 ^ suc k + t) in
    rw (whole, half_field k q r, half_field k s t, low_field k q r, low_field k s t, ih)
      (omega (arith, bit_or_digit r t, double_field k (bit_or q s)))

-- A field beside another.
pub bit_or_beside : (k q r : ℕ) → r < 2 ^ k → bit_or (q * 2 ^ k) r ≡ q * 2 ^ k + r
bit_or_beside k q r h =
    let whole : bit_or (q * 2 ^ k + 0) (0 * 2 ^ k + r) ≡ bit_or q 0 * 2 ^ k + bit_or 0 r =
      bit_or_fields k q 0 0 r (omega (arith, one-le-pow k 2)) h in
    let left : q * 2 ^ k + 0 ≡ q * 2 ^ k = omega arith in
    let right : 0 * 2 ^ k + r ≡ r = omega arith in
    ap (λ a. bit_or a r) (sym left)
    ∙ ap (λ b. bit_or (q * 2 ^ k + 0) b) (sym right)
    ∙ whole
    ∙ rw (bit_or-zero q, zero-bit_or r) refl

-- A multiple of a power of two, and a number below that power.
pub bit_or_disjoint : (k x y : ℕ) → x % 2 ^ k ≡ 0 → y < 2 ^ k → bit_or x y ≡ x + y
bit_or_disjoint k x y h g =
    let split : x ≡ x / 2 ^ k * 2 ^ k = omega (arith, div-add-mod x (2 ^ k), h) in
    ap (λ t. bit_or t y) split ∙ bit_or_beside k (x / 2 ^ k) y g ∙ ap (λ t. t + y) (sym split)

max-lt : (a b : ℕ) → a < 2 → b < 2 → max a b < 2
max-lt a b h k = omega arith

pub bit_or-lt : (k a b : ℕ) → a < 2 ^ k → b < 2 ^ k → bit_or a b < 2 ^ k
bit_or-lt zero a b ha hb =
    let za : a ≡ 0 = omega arith in
    let zb : b ≡ 0 = omega arith in rw (za, zb) (omega (arith, zero-bit_or 0))
bit_or-lt (suc k) a b ha hb = omega (
  arith,
  bit_or_digit a b,
  max-lt (a % 2) (b % 2) (omega arith) (omega arith),
  pow-suc 2 k,
  bit_or-lt k (a / 2) (b / 2) (omega (arith, pow-suc 2 k)) (omega (arith, pow-suc 2 k)),
)
