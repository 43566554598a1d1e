-- ===== src/Harness/M68k/Fetch.antt =====
-- The words that `ew` of m68k/bench_main.c leaves in the RAM, as the accessors read them.
use emu_core_bench.Base.{
  ℕ, zero, suc, ◌+◌, ◌*◌, ◌%◌, ◌^◌, ◌≤◌, ◌<◌, ◌≡◌, refl, ap, ◌∙◌, arith, some, get_elem?, List, [],
  ◌∷◌, ok, add32, u16, leb, true,
}
use emu_core_bench.Memory.{Env, memory_read_uint16, memory_read_uint32}
use emu_core_bench.Memory.Flat.{IsFlat}
use emu_core_bench.Memory.Access.{
  be16, put16, store_be16-eq-put16, memory_read_uint16_lem, memory_read_uint32_lem,
}
use emu_core_bench.Harness.{words}
use emu_core_bench.Harness.M68k.Assemble.{ew, ew_all}

-- The environment with a word put into the RAM.
abbrev pub put_half : ℕ → Env → ℕ → ℕ → Env
put_half ram env pc w = record env { host = put16 env.host (ram + pc) (u16 w) }

ew_all-cons :
    (ram : ℕ) (env : Env) (pc w : ℕ) (rest : List ℕ)
    → pc + 2 < 2 ^ 32
    → ew_all ram env pc (w ∷ rest) ≡ ew_all ram (put_half ram env pc w) (pc + 2) rest
unfolding ew_all ew
ew_all-cons ram env pc w rest room =
    let next : add32 pc 2 ≡ pc + 2 = omega (arith, room) in
    rw (next, store_be16-eq-put16 env.host (ram + pc) (u16 w)) refl

pub be16-put16_apart : (f : ℕ → ℕ) (p q v : ℕ) → q + 2 ≤ p → be16 (put16 f p v) q ≡ be16 f q
be16-put16_apart f p q v h = ground arith

be16-put16_before : (f : ℕ → ℕ) (p q v : ℕ) → p + 2 ≤ q → be16 (put16 f p v) q ≡ be16 f q
be16-put16_before f p q v h = ground arith

be16-put16_self : (f : ℕ → ℕ) (p w : ℕ) → w < 2 ^ 16 → be16 (put16 f p (u16 w)) p ≡ w
be16-put16_self f p w h = let low : u16 w ≡ w = omega (arith, h) in rw low (ground (arith, h))

-- What is below the place of assembly stays.
pub ew_all-below :
    (ram : ℕ) (ws : List ℕ) (env : Env) (pc a : ℕ)
    → a + 2 ≤ pc
    → pc + 2 * words ws < 2 ^ 32
    → be16 (ew_all ram env pc ws).0.host (ram + a) ≡ be16 env.host (ram + a)
ew_all-below ram [] env pc a h room = unfold ew_all in refl
ew_all-below ram (w ∷ rest) env pc a h room =
    rw (ew_all-cons ram env pc w rest (omega (arith, room))) (
      ew_all-below ram rest (put_half ram env pc w) (pc + 2) a (omega (arith, h))
        (omega (arith, room))
      ∙ be16-put16_apart env.host (ram + pc) (ram + a) (u16 w) (omega (arith, h)))

-- What is past the assembled words stays.
pub ew_all-past :
    (ram : ℕ) (ws : List ℕ) (env : Env) (pc a : ℕ)
    → pc + 2 * words ws ≤ a
    → pc + 2 * words ws < 2 ^ 32
    → be16 (ew_all ram env pc ws).0.host (ram + a) ≡ be16 env.host (ram + a)
ew_all-past ram [] env pc a h room = unfold ew_all in refl
ew_all-past ram (w ∷ rest) env pc a h room =
    rw (ew_all-cons ram env pc w rest (omega (arith, room))) (
      ew_all-past ram rest (put_half ram env pc w) (pc + 2) a (omega (arith, h))
        (omega (arith, room))
      ∙ be16-put16_before env.host (ram + pc) (ram + a) (u16 w) (omega (arith, h)))

pub none-ne : (i w : ℕ) → get_elem? [] i ≡ some w → ⊥
none-ne i w h = cc

pub some-same : {a b : ℕ} → some a ≡ some b → a ≡ b
some-same h = cc

-- What stands at the place of the `i`-th word.
pub ew_all-at :
    (ram : ℕ) (ws : List ℕ) (env : Env) (pc i w : ℕ)
    → get_elem? ws i ≡ some w
    → w < 2 ^ 16
    → pc + 2 * words ws < 2 ^ 32
    → be16 (ew_all ram env pc ws).0.host (ram + (pc + 2 * i)) ≡ w
ew_all-at ram [] env pc i w at lt room = absurd (none-ne i w at)
ew_all-at ram (v ∷ rest) env pc zero w at lt room =
    let here : pc + 2 * 0 ≡ pc = omega arith in
    let same : v ≡ w = some-same at in
    rw (ew_all-cons ram env pc v rest (omega (arith, room)), here, same)
      (ew_all-below ram rest (put_half ram env pc w) (pc + 2) pc (omega arith) (omega (arith, room))
        ∙ be16-put16_self env.host (ram + pc) w lt)
ew_all-at ram (v ∷ rest) env pc (suc i) w at lt room =
    let there : pc + 2 * suc i ≡ pc + 2 + 2 * i = omega arith in
    rw (ew_all-cons ram env pc v rest (omega (arith, room)), there)
      (ew_all-at ram rest (put_half ram env pc v) (pc + 2) i w at lt (omega (arith, room)))

-- The accessors in a RAM of 8 MB.
module _ {ram pages : ℕ} {env : Env} (flat : IsFlat ram 23 pages env) (a : ℕ)
    (inside : a < 2 ^ 23) where
  masked : a % 2 ^ 23 ≡ a
  masked = omega (arith, inside)

  pub read_word : a % 2 ≡ 0 → memory_read_uint16 env a ≡ ok (be16 env.host (ram + a))
  read_word even =
      let fits : leb (a % 4096) 4094 ≡ true = ground (arith, even) in
      rw (memory_read_uint16_lem flat a, masked, fits) refl

  pub read_long :
      a % 4096 ≤ 4092
      → memory_read_uint32 env a
        ≡ ok (be16 env.host (ram + a) * 0x1_0000 + be16 env.host (ram + (a + 2)))
  read_long short =
      let fits : leb (a % 4096) 4092 ≡ true = ground (arith, short) in
      let third : ram + (a + 2) ≡ ram + a + 2 = omega arith in
      let fourth : ram + a + 2 + 1 ≡ ram + a + 3 = omega arith in
      rw (memory_read_uint32_lem flat a, masked, fits, third, fourth) (ap ok (omega arith))
