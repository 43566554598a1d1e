-- ===== src/Base/Word.antt =====
-- Fixed-width words as native numbers: casts, wrap-around arithmetic, shifts, and the signed
-- reading of a 32-bit pattern.
use Prim.Native.Nat.{ℕ, ◌+◌, ◌-◌, ◌*◌, ◌/◌, ◌%◌, ◌^◌}
use mathlib.Core.Bool.{Bool, true, false}
use emu_core_bench.Base.Tests.{ltb, if◌then◌else◌}

abbrev pub u8 : ℕ → ℕ
u8 n = n % 2 ^ 8

abbrev pub u16 : ℕ → ℕ
u16 n = n % 2 ^ 16

abbrev pub u32 : ℕ → ℕ
u32 n = n % 2 ^ 32

-- `a + b`, `a - b` and `a * b` on uint32_t.
abbrev pub add32 : ℕ → ℕ → ℕ
add32 a b = u32 (a + b)

abbrev pub sub32 : ℕ → ℕ → ℕ
sub32 a b = u32 (a + 2 ^ 32 - b)

abbrev pub mul32 : ℕ → ℕ → ℕ
mul32 a b = u32 (a * b)

-- `x << k`, `x >> k` and `~x` on uint32_t, for `k < 32`.
abbrev pub shl32 : ℕ → ℕ → ℕ
shl32 x k = u32 (x * 2 ^ k)

abbrev pub shr32 : ℕ → ℕ → ℕ
shr32 x k = x / 2 ^ k

abbrev pub not32 : ℕ → ℕ
not32 x = 0xFFFF_FFFF - x

-- `(uint32_t)(int32_t)(int16_t)x`.
abbrev pub sext16 : ℕ → ℕ
sext16 x = let d = u16 x in if ltb d 0x8000 then d else d + 0xFFFF_0000

-- `(uint32_t)((int32_t)x >> k)`: the sign bit is shifted in.
abbrev pub asr32 : ℕ → ℕ → ℕ
asr32 x k = if ltb x 0x8000_0000 then x / 2 ^ k else not32 (not32 x / 2 ^ k)

-- `negsuc n` is -(n + 1).
pub data ℤ : Type 0 where
  pos : ℕ → ℤ
  negsuc : ℕ → ℤ

abbrev pub ltb_ℤ : ℤ → ℤ → Bool
ltb_ℤ (pos a) (pos b) = ltb a b
ltb_ℤ (pos a) (negsuc b) = false
ltb_ℤ (negsuc a) (pos b) = true
ltb_ℤ (negsuc a) (negsuc b) = ltb b a

-- `(int32_t)x`.
abbrev pub int32 : ℕ → ℤ
int32 x = if ltb x 0x8000_0000 then pos x else negsuc (not32 x)
