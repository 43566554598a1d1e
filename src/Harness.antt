-- ===== src/Harness.antt =====
-- The code emitter and the pseudo-random numbers of ppc/bench_main.c.
mod Tests
mod Ppc
mod M68k
use emu_core_bench.Base.{
  ℕ, zero, suc, ◌+◌, ◌-◌, ◌*◌, ◌/◌, ◌%◌, ◌^◌, ◌≤◌, ◌<◌, ◌≡◌, refl, sym, ap, ◌∙◌, ◌⊎◌, inl, inr,
  arith, Option, none, some, List, [], ◌∷◌, get_elem?, Outcome, ok, add32, u32,
}
use native.Mathlib.Nat.{mod-eq_of_lt}
use emu_core_bench.Memory.{Env, store_be32, memory_read_uint32}
use emu_core_bench.Memory.Flat.{IsFlat}
use emu_core_bench.Memory.Access.{be32, put32, store_be32-eq-put32}
use emu_core_bench.Memory.RoundTrip.{
  be32-put32_self, be32-put32_apart, host-IsFlat, put32-lt, memory_read_uint32_aligned,
}

-- The step of the generator on its state `*s`, which is also the number returned.
unfoldable pub lcg : ℕ → ℕ
lcg s = u32 (s * 1664525 + 1013904223)

-- From the successor of any 32-bit state, the inverse of the multiplier gives the state back, so
-- no two states have the same successor.
pub lcg_inverse : (s : ℕ) → s < 2 ^ 32 → u32 ((lcg s + 2 ^ 32 - 1013904223) * 4276115653) ≡ s
unfolding lcg
lcg_inverse s h = omega arith

-- `emit`: `g_ram` is the address of the RAM on the host and `pc` is `g_emit_pc`.
unfoldable pub emit : ℕ → Env → ℕ → ℕ → Env × ℕ
emit g_ram env pc insn = (record env { host = store_be32 env.host (g_ram + pc) insn }, add32 pc 4)

-- A run of calls of `emit`.
unfoldable pub emit_all : ℕ → Env → ℕ → List ℕ → Env × ℕ
emit_all g_ram env pc [] = (env, pc)
emit_all g_ram env pc (insn ∷ rest) = let r = emit g_ram env pc insn in emit_all g_ram r.0 r.1 rest

-- The number of words of a program, and that they are 32-bit words.
abbrev pub words : List ℕ → ℕ
words [] = 0
words (insn ∷ rest) = suc (words rest)

get_elem-none : (i w : ℕ) → get_elem? [] i ≡ some w → ⊥
get_elem-none i w h = cc

some-injective : {a b : ℕ} → some a ≡ some b → a ≡ b
some-injective h = cc

get_elem-lt : (code : List ℕ) (i w : ℕ) → get_elem? code i ≡ some w → i < words code
get_elem-lt [] i w h = absurd (get_elem-none i w h)
get_elem-lt (insn ∷ rest) zero w h = omega arith
get_elem-lt (insn ∷ rest) (suc i) w h = omega (arith, get_elem-lt rest i w h)

-- The environment with a word put into the RAM.
abbrev pub put_word : ℕ → Env → ℕ → ℕ → Env
put_word ram env pc insn = record env { host = put32 env.host (ram + pc) insn }

module _ (ram bits : ℕ) (small : 2 ^ bits < 2 ^ 32) where
  -- The first call of a run.
  pub emit_all-cons :
      (env : Env) (pc insn : ℕ) (rest : List ℕ)
      → pc + 4 ≤ 2 ^ bits
      → emit_all ram env pc (insn ∷ rest) ≡ emit_all ram (put_word ram env pc insn) (pc + 4) rest
  unfolding emit_all emit
  emit_all-cons env pc insn rest room =
      let next : add32 pc 4 ≡ pc + 4 = omega (arith, room, small) in
      ap (λ p. emit_all ram (record env { host = store_be32 env.host (ram + pc) insn }) p rest) next
      ∙ ap (λ h. emit_all ram (record env { host = h }) (pc + 4) rest)
          (store_be32-eq-put32 env.host (ram + pc) insn)

  pub emit_all-nil : (env : Env) (pc : ℕ) → emit_all ram env pc [] ≡ (env, pc)
  unfolding emit_all
  emit_all-nil env pc = refl

  emit_all-IsFlat :
      (pages : ℕ) (code : List ℕ) (env : Env) (pc : ℕ)
      → IsFlat ram bits pages env
      → pc + 4 * words code ≤ 2 ^ bits
      → IsFlat ram bits pages (emit_all ram env pc code).0
  emit_all-IsFlat pages [] env pc flat room = rw (emit_all-nil env pc) flat
  emit_all-IsFlat pages (insn ∷ rest) env pc flat room =
      rw (emit_all-cons env pc insn rest (omega (arith, room))) (
        emit_all-IsFlat pages rest (put_word ram env pc insn) (pc + 4)
          (host-IsFlat flat _ (put32-lt flat (ram + pc) insn)) (omega (arith, room)))

  -- What is below the place of emission stays.
  emit_all-below :
      (code : List ℕ) (env : Env) (pc a : ℕ)
      → a + 4 ≤ pc
      → pc + 4 * words code ≤ 2 ^ bits
      → be32 (emit_all ram env pc code).0.host (ram + a) ≡ be32 env.host (ram + a)
  emit_all-below [] env pc a h room = rw (emit_all-nil env pc) refl
  emit_all-below (insn ∷ rest) env pc a h room =
      rw (emit_all-cons env pc insn rest (omega (arith, room))) (
        emit_all-below rest (put_word ram env pc insn) (pc + 4) a (omega (arith, h))
          (omega (arith, room))
        ∙ be32-put32_apart env.host (ram + pc) (ram + a) insn (inl (omega (arith, h))))

  -- What stands at the place of the `i`-th word.
  emit_all-at :
      (code : List ℕ) (env : Env) (pc i w : ℕ)
      → get_elem? code i ≡ some w
      → w < 2 ^ 32
      → pc + 4 * words code ≤ 2 ^ bits
      → be32 (emit_all ram env pc code).0.host (ram + (pc + 4 * i)) ≡ w
  emit_all-at [] env pc i w at lt room = absurd (get_elem-none i w at)
  emit_all-at (insn ∷ rest) env pc zero w at lt room =
      let here : pc + 4 * 0 ≡ pc = omega arith in
      let same : insn ≡ w = some-injective at in
      rw (emit_all-cons env pc insn rest (omega (arith, room)), here)
        (emit_all-below rest (put_word ram env pc insn) (pc + 4) pc (omega arith)
            (omega (arith, room))
          ∙ be32-put32_self env.host (ram + pc) insn
          ∙ omega (arith, same, lt))
  emit_all-at (insn ∷ rest) env pc (suc i) w at lt room =
      let there : pc + 4 * suc i ≡ pc + 4 + 4 * i = omega arith in
      rw (emit_all-cons env pc insn rest (omega (arith, room)), there)
        (emit_all-at rest (put_word ram env pc insn) (pc + 4) i w at lt (omega (arith, room)))

-- In the environment that `mem_env_init` sets up for a RAM of less than 4 GB: after a program is
-- emitted from a word-aligned address, with room for it in the RAM, the memory is still such an
-- environment, and the accessor that the backends fetch with reads, at the place of each 32-bit
-- word of the program, that word.
pub emit_all-fetch :
    {ram bits pages : ℕ} {env : Env} (flat : IsFlat ram bits pages env) (pc : ℕ) (code : List ℕ)
    → pc % 4 ≡ 0
    → pc + 4 * words code ≤ 2 ^ bits
    → 2 ^ bits < 2 ^ 32
    → IsFlat ram bits pages (emit_all ram env pc code).0
      × ((i w : ℕ)
          → get_elem? code i ≡ some w
          → w < 2 ^ 32
          → memory_read_uint32 (emit_all ram env pc code).0 (pc + 4 * i) ≡ ok w)
emit_all-fetch {ram} {bits} {pages} {env} flat pc code aligned room small =
    let after = emit_all-IsFlat ram bits small pages code env pc flat room in
    (
      after,
      λ i w at lt.
          let inside : i < words code = get_elem-lt code i w at in
          let masked : (pc + 4 * i) % 2 ^ bits ≡ pc + 4 * i =
            mod-eq_of_lt (omega (arith, inside, room)) in
          rw (memory_read_uint32_aligned after (pc + 4 * i) (omega (arith, aligned)), masked)
            (ap ok (emit_all-at ram bits small code env pc i w at lt room)),
    )
