-- ===== src/Memory/Contained.antt =====
-- Writes of common/mem_fastpath.h stay inside the guest's RAM.
use emu_core_bench.Base.{
  ℕ, ◌+◌, ◌%◌, ◌^◌, ◌≤◌, ◌<◌, ◌≡◌, refl, ap, ◌∙◌, ◌⊎◌, inl, inr, arith, After, leb, true,
  Bool-cases,
}
use native.Mathlib.Nat.{mod-lt, one-le-pow}
use emu_core_bench.Memory.{Env, memory_write_uint8, memory_write_uint16, memory_write_uint32}
use emu_core_bench.Memory.Flat.{IsFlat}
use emu_core_bench.Memory.Access.{
  put8, put16, put32, memory_write_uint8_lem, memory_write_uint16_lem, memory_write_uint32_lem,
}
use emu_core_bench.Memory.RoundTrip.{host-IsFlat, put8-lt, put16-lt, put32-lt}

-- An address of the host that is not in the RAM.
abbrev pub Outside : ℕ → ℕ → ℕ → Type 0
Outside ram bits q = (q < ram) ⊎ (ram + 2 ^ bits ≤ q)

-- `env` differs from `start` in the bytes of the RAM only.
pub record Contained (ram bits pages : ℕ) (start env : Env) : Type 0 where
  pub flat : IsFlat ram bits pages env
  pub kept : env ≡ record start { host = env.host }
  pub outside : (q : ℕ) → Outside ram bits q → env.host q ≡ start.host q

pub Contained-refl :
    {ram bits pages : ℕ} {env : Env} → IsFlat ram bits pages env → Contained ram bits pages env env
Contained-refl flat = record { flat = flat; kept = refl; outside = λ q h. refl }

module _ {ram bits pages : ℕ} {start env : Env} (h : Contained ram bits pages start env) where
  -- Bytes of the RAM put into it.
  pub put-Contained :
      (host : ℕ → ℕ)
      → ((q : ℕ) → host q < 256)
      → ((q : ℕ) → Outside ram bits q → host q ≡ env.host q)
      → Contained ram bits pages start (record env { host = host })
  put-Contained host bytes same = record {
    flat = host-IsFlat h.flat host bytes;
    kept = ap {A = Env} {B = Env} (λ e. record e { host = host }) h.kept;
    outside = λ q out. same q out ∙ h.outside q out;
  }

  masked-lt : (addr : ℕ) → addr % 2 ^ bits < 2 ^ bits
  masked-lt addr = mod-lt addr (one-le-pow bits 2 (omega arith))

  module _ (addr v q : ℕ) (out : Outside ram bits q) where
    put8-outside : put8 env.host (ram + addr % 2 ^ bits) v q ≡ env.host q
    put8-outside = ground (arith, masked-lt addr)

    put16-outside :
        leb (addr % 2 ^ bits % 4096) 4094 ≡ true
        → put16 env.host (ram + addr % 2 ^ bits) v q ≡ env.host q
    put16-outside inside =
        let fits : addr % 2 ^ bits + 2 ≤ 2 ^ bits =
          ground (arith, inside, masked-lt addr, h.flat.size) in
        ground (arith, fits)

    put32-outside :
        leb (addr % 2 ^ bits % 4096) 4092 ≡ true
        → put32 env.host (ram + addr % 2 ^ bits) v q ≡ env.host q
    put32-outside inside =
        let fits : addr % 2 ^ bits + 4 ≤ 2 ^ bits =
          ground (arith, inside, masked-lt addr, h.flat.size) in
        ground (arith, fits)

  pub write_uint8-Contained :
      (addr v : ℕ) → After (memory_write_uint8 env addr v) (Contained ram bits pages start)
  write_uint8-Contained addr v =
      rw (memory_write_uint8_lem h.flat addr v)
        (put-Contained _ (put8-lt h.flat _ v) (put8-outside addr v))

  pub write_uint16-Contained :
      (addr v : ℕ) → After (memory_write_uint16 env addr v) (Contained ram bits pages start)
  write_uint16-Contained addr v = elim (Bool-cases (leb (addr % 2 ^ bits % 4096) 4094)) [
    | inl e ↦
        rw (memory_write_uint16_lem h.flat addr v, e)
          (put-Contained _ (put16-lt h.flat _ v) (λ q out. put16-outside addr v q out e))
    | inr e ↦ rw (memory_write_uint16_lem h.flat addr v, e) tt
  ]

  pub write_uint32-Contained :
      (addr v : ℕ) → After (memory_write_uint32 env addr v) (Contained ram bits pages start)
  write_uint32-Contained addr v = elim (Bool-cases (leb (addr % 2 ^ bits % 4096) 4092)) [
    | inl e ↦
        rw (memory_write_uint32_lem h.flat addr v, e)
          (put-Contained _ (put32-lt h.flat _ v) (λ q out. put32-outside addr v q out e))
    | inr e ↦ rw (memory_write_uint32_lem h.flat addr v, e) tt
  ]
