-- ===== src/Harness/Ppc/Stress/Words.antt =====
-- The words of the stress kernel of ppc/bench_main.c, by their places.
use emu_core_bench.Base.{
  ℕ, zero, suc, ◌+◌, ◌*◌, ◌≤◌, ◌<◌, ◌≡◌, refl, ap, ◌∙◌, arith, some, List, [], ◌∷◌, get_elem?, ◌==◌,
  bit_and, shr32, sub32,
}
use mathlib.Core.List.{◌++◌}
use emu_core_bench.Harness.{lcg, words}
use emu_core_bench.Harness.Ppc.Encode.{e_d, e_addis, e_ori, e_b}
use emu_core_bench.Harness.Ppc.Kernels.{stress_insn, stress_seeds, stress_stream, stream_len}
use emu_core_bench.Harness.Ppc.Emission.{
  loop_code, kernel_code, stress_code, stress_start, stress_prologue, words-stress_seeds,
  words-stress_stream, get_elem-++_left, get_elem-++_right,
}

-- An instruction of the part that sets r3 to r12.
pub data IsSeed : ℕ → Type 0 where
  high : (r imm : ℕ) → r < 20 → IsSeed (e_d 15 r 0 imm)
  low : (r imm : ℕ) → r < 20 → IsSeed (e_d 24 r r imm)

seeds_at :
    (n r seed i : ℕ)
    → r + n ≤ 13
    → i < 2 * n
    → (w : ℕ) × (get_elem? (stress_seeds n r seed).0 i ≡ some w) × IsSeed w
unfolding stress_seeds
seeds_at zero r seed i h lt = absurd (omega (arith, lt))
seeds_at (suc n) r seed zero h lt =
    (e_addis r 0 (shr32 (lcg seed) 16), refl, high r _ (omega (arith, h)))
seeds_at (suc n) r seed (suc zero) h lt =
    (e_ori r r (bit_and (lcg seed) 0xFFFF), refl, low r _ (omega (arith, h)))
seeds_at (suc n) r seed (suc (suc i)) h lt =
    seeds_at n (r + 1) (lcg seed) i (omega (arith, h)) (omega (arith, lt))

suc-== : (a b : ℕ) → (a == b) ≡ (suc a == suc b)
suc-== a b = ground arith

stream_at :
    (n seed j : ℕ)
    → j < n
    → (r : ℕ) × (get_elem? (stress_stream n seed) j ≡ some (stress_insn r (n == suc j)))
unfolding stress_stream
stream_at zero seed j lt = absurd (omega (arith, lt))
stream_at (suc n) seed zero lt = (lcg seed, ap (λ b. some (stress_insn (lcg seed) b)) (suc-== n 0))
stream_at (suc n) seed (suc j) lt =
    let (r, at) = stream_at n (lcg seed) j (omega (arith, lt)) in
    (r, at ∙ ap (λ b. some (stress_insn r b)) (suc-== n (suc j)))

abbrev stream : List ℕ
stream = stress_stream stream_len stress_start.1

abbrev after_seeds : List ℕ
after_seeds = loop_code stress_prologue stream e_b 0x1050

at_after : (j : ℕ) → get_elem? stress_code (20 + j) ≡ get_elem? after_seeds j
at_after j = get_elem-++_right stress_start.0 after_seeds 20 j (words-stress_seeds 10 3 0xC0FF_EE01)

pub IsSeed-word : (i : ℕ) → i < 20 → (w : ℕ) × (get_elem? (kernel_code 2) i ≡ some w) × IsSeed w
unfolding kernel_code
IsSeed-word i lt =
    let (w, at, seed) = seeds_at 10 3 0xC0FF_EE01 i (omega arith) lt in
    (w, get_elem-++_left stress_start.0 after_seeds i w at, seed)

pub base_words :
    (get_elem? (kernel_code 2) 20 ≡ some (e_addis 20 0 0x10))
    × (get_elem? (kernel_code 2) 21 ≡ some (e_addis 21 0 0x18))
unfolding kernel_code loop_code
base_words = (at_after 0, at_after 1)

-- The branch back to the start of the stream.
abbrev back_word : ℕ
back_word = e_b (sub32 0x1058 (0x1058 + 4 * words stream))

at_stream : (j : ℕ) → get_elem? after_seeds (2 + j) ≡ get_elem? (stream ++ (back_word ∷ [])) j
unfolding loop_code
at_stream j = get_elem-++_right stress_prologue (stream ++ (back_word ∷ [])) 2 j refl

at_place : (j : ℕ) → get_elem? stress_code (22 + j) ≡ get_elem? (stream ++ (back_word ∷ [])) j
at_place j =
    let split : 22 + j ≡ 20 + (2 + j) = omega arith in
    ap (λ t. get_elem? stress_code t) split ∙ at_after (2 + j) ∙ at_stream j

pub stream_word :
    (j : ℕ)
    → j < 16384
    → (r : ℕ) × (get_elem? (kernel_code 2) (22 + j) ≡ some (stress_insn r (16384 == suc j)))
unfolding kernel_code
stream_word j lt =
    let (r, at) = stream_at stream_len stress_start.1 j lt in
    (r, at_place j ∙ get_elem-++_left stream (back_word ∷ []) j _ at)

back_word_lem : back_word ≡ 0x4BFF_0000
unfolding e_b
back_word_lem = rw (words-stress_stream stream_len stress_start.1) refl

pub last_word : get_elem? (kernel_code 2) 16406 ≡ some 0x4BFF_0000
unfolding kernel_code
last_word =
    at_place 16384
    ∙ get_elem-++_right stream (back_word ∷ []) 16384 0
        (words-stress_stream stream_len stress_start.1)
    ∙ ap some back_word_lem
