-- ===== src/Base/Cancel.antt =====
-- Exclusive or with one word is injective on words.
use Prim.Native.Nat.{ℕ, zero, suc, ◌/◌, ◌%◌, ◌^◌, ◌<◌, differ, bit_xor}
use mathlib.Core.Path.{◌≡◌, refl, sym, ap, ◌∙◌}
use native.Mathlib.Nat.{pow-suc}
use native.Mathlib.Omega.{arith}
use emu_core_bench.Base.TopBit.{bit_xor_digit, half-bit_xor, differ-lt}

differ-cancel : (d b c : ℕ) → b < 2 → c < 2 → d < 2 → differ d b ≡ differ d c → b ≡ c
differ-cancel zero b c hb hc hd h = h
differ-cancel (suc d) zero zero hb hc hd h = refl
differ-cancel (suc zero) zero (suc zero) hb hc hd h = absurd (omega (arith, h))
differ-cancel (suc zero) (suc zero) zero hb hc hd h = absurd (omega (arith, h))
differ-cancel (suc d) (suc b) (suc c) hb hc hd h = omega arith
differ-cancel (suc d) zero (suc (suc c)) hb hc hd h = absurd (omega arith)
differ-cancel (suc d) (suc (suc b)) zero hb hc hd h = absurd (omega arith)
differ-cancel (suc (suc d)) zero (suc zero) hb hc hd h = absurd (omega arith)
differ-cancel (suc (suc d)) (suc zero) zero hb hc hd h = absurd (omega arith)

pub bit_xor-cancel : (k a b c : ℕ) → b < 2 ^ k → c < 2 ^ k → bit_xor a b ≡ bit_xor a c → b ≡ c
bit_xor-cancel zero a b c hb hc h = omega arith
bit_xor-cancel (suc k) a b c hb hc h =
    let low : differ (a % 2) (b % 2) ≡ differ (a % 2) (c % 2) =
      omega (arith, bit_xor_digit a b, bit_xor_digit a c, h, half-bit_xor a b, half-bit_xor a c) in
    let high : bit_xor (a / 2) (b / 2) ≡ bit_xor (a / 2) (c / 2) =
      sym (half-bit_xor a b) ∙ ap (λ t. t / 2) h ∙ half-bit_xor a c in
    omega (
      arith,
      bit_xor-cancel k (a / 2) (b / 2) (c / 2) (omega (arith, pow-suc 2 k))
          (omega (arith, pow-suc 2 k)) high,
      differ-cancel (a % 2) (b % 2) (c % 2) (omega arith) (omega arith) (omega arith) low,
    )

pub bit_xor-lt : (k a b : ℕ) → a < 2 ^ k → b < 2 ^ k → bit_xor a b < 2 ^ k
bit_xor-lt zero a b ha hb =
    let z : a ≡ 0 = omega arith in let y : b ≡ 0 = omega arith in rw (z, y) (omega arith)
bit_xor-lt (suc k) a b ha hb = omega (
  arith,
  bit_xor_digit a b,
  differ-lt (a % 2) (b % 2) (omega arith) (omega arith),
  pow-suc 2 k,
  bit_xor-lt k (a / 2) (b / 2) (omega (arith, pow-suc 2 k)) (omega (arith, pow-suc 2 k)),
)

pub bit_xor_comm : (k a b : ℕ) → a < 2 ^ k → b < 2 ^ k → bit_xor a b ≡ bit_xor b a
bit_xor_comm zero a b ha hb =
    let z : a ≡ 0 = omega arith in let y : b ≡ 0 = omega arith in rw (z, y) refl
bit_xor_comm (suc k) a b ha hb = omega (
  arith,
  bit_xor_digit a b,
  bit_xor_digit b a,
  swap (a % 2) (b % 2),
  bit_xor_comm k (a / 2) (b / 2) (omega (arith, pow-suc 2 k)) (omega (arith, pow-suc 2 k)),
)
  where
    swap : (x y : ℕ) → differ x y ≡ differ y x
    swap zero zero = refl
    swap zero (suc y) = refl
    swap (suc x) zero = refl
    swap (suc x) (suc y) = swap x y
