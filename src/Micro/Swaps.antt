-- ===== src/Micro/Swaps.antt =====
-- The formulations of micro/be_micro.c against each other.
use emu_core_bench.Base.{
  ℕ, zero, suc, ◌+◌, ◌-◌, ◌*◌, ◌/◌, ◌%◌, ◌^◌, ◌<◌, ◌≡◌, refl, ap, ◌∙◌, arith, bit_and, bit_or, Bool,
  true, false, some, get_elem?, ◌==◌, if◌then◌else◌, shl32, shr32, bit_and_ones, bit_and_fields,
  bit_or_fields, bit_and-zero, bit_or-zero, zero-bit_or,
}
use emu_core_bench.Memory.{bswap32}
use emu_core_bench.Micro.{
  Pass, ld_bswap, ld_rot, run_step, run_loop, run, fill_buf, main_checksums, buf_words, start,
  next_lcg, checksum,
}

-- A word of four bytes.
abbrev word : ℕ → ℕ → ℕ → ℕ → ℕ
word a b c d = ((a * 2 ^ 8 + b) * 2 ^ 8 + c) * 2 ^ 8 + d

module _ (a b c d e f g h : ℕ) (b8 : b < 2 ^ 8) (c8 : c < 2 ^ 8) (d8 : d < 2 ^ 8) (f8 : f < 2 ^ 8)
    (g8 : g < 2 ^ 8) (h8 : h < 2 ^ 8) where
  bit_and-word :
      bit_and (word a b c d) (word e f g h)
      ≡ word (bit_and a e) (bit_and b f) (bit_and c g) (bit_and d h)
  bit_and-word =
      rw
        (
          bit_and_fields 8 ((a * 2 ^ 8 + b) * 2 ^ 8 + c) d ((e * 2 ^ 8 + f) * 2 ^ 8 + g) h d8 h8,
          bit_and_fields 8 (a * 2 ^ 8 + b) c (e * 2 ^ 8 + f) g c8 g8,
          bit_and_fields 8 a b e f b8 f8,
        )
        refl

  bit_or-word :
      bit_or (word a b c d) (word e f g h)
      ≡ word (bit_or a e) (bit_or b f) (bit_or c g) (bit_or d h)
  bit_or-word =
      rw
        (
          bit_or_fields 8 ((a * 2 ^ 8 + b) * 2 ^ 8 + c) d ((e * 2 ^ 8 + f) * 2 ^ 8 + g) h d8 h8,
          bit_or_fields 8 (a * 2 ^ 8 + b) c (e * 2 ^ 8 + f) g c8 g8,
          bit_or_fields 8 a b e f b8 f8,
        )
        refl

keep_byte : (a : ℕ) → a < 2 ^ 8 → bit_and a 255 ≡ a
keep_byte a h = omega (arith, bit_and_ones 8 a)

module _ (a b c d : ℕ) (a8 : a < 2 ^ 8) (b8 : b < 2 ^ 8) (c8 : c < 2 ^ 8) (d8 : d < 2 ^ 8) where
  odd_bytes : bit_and (word a b c d) 0xFF00_FF00 ≡ word a 0 c 0
  odd_bytes =
      bit_and-word a b c d 255 0 255 0 b8 c8 d8 (omega arith) (omega arith) (omega arith)
      ∙ rw (keep_byte a a8, keep_byte c c8, bit_and-zero b, bit_and-zero d) refl

  even_bytes : bit_and (word a b c d) 0x00FF_00FF ≡ word 0 b 0 d
  even_bytes =
      bit_and-word a b c d 0 255 0 255 b8 c8 d8 (omega arith) (omega arith) (omega arith)
      ∙ rw (keep_byte b b8, keep_byte d d8, bit_and-zero a, bit_and-zero c) refl

  join_bytes : bit_or (word a 0 c 0) (word 0 b 0 d) ≡ word a b c d
  join_bytes =
      bit_or-word a 0 c 0 0 b 0 d (omega arith) c8 (omega arith) b8 (omega arith) d8
      ∙ rw (bit_or-zero a, bit_or-zero c, zero-bit_or b, zero-bit_or d) refl

  join_halves : bit_or (word a b 0 0) (word 0 0 c d) ≡ word a b c d
  join_halves =
      bit_or-word a b 0 0 0 0 c d b8 (omega arith) (omega arith) (omega arith) c8 d8
      ∙ rw (bit_or-zero a, bit_or-zero b, zero-bit_or c, zero-bit_or d) refl

module _ (a b c d : ℕ) (a8 : a < 2 ^ 8) (b8 : b < 2 ^ 8) (c8 : c < 2 ^ 8) (d8 : d < 2 ^ 8) where
  ld_rot-word : ld_rot (word a b c d) ≡ word d c b a
  unfolding ld_rot
  ld_rot-word =
      let up : shl32 (word a b c d) 16 ≡ word c d 0 0 = omega arith in
      let down : shr32 (word a b c d) 16 ≡ word 0 0 a b = omega arith in
      let up' : shl32 (word c d a b) 8 ≡ word d a b 0 = omega arith in
      let down' : shr32 (word c d a b) 8 ≡ word 0 c d a = omega arith in
      let zero8 : 0 < 2 ^ 8 = omega arith in
      rw
        (
          up,
          down,
          join_halves c d a b c8 d8 a8 b8,
          up',
          down',
          odd_bytes d a b 0 d8 a8 b8 zero8,
          even_bytes 0 c d a zero8 c8 d8 a8,
          join_bytes d c b a d8 c8 b8 a8,
        )
        refl

-- For every 32-bit word, the swap by a rotation gives what the swap of the fast path gives.
pub ld_rot-ld_bswap : (x : ℕ) → x < 2 ^ 32 → ld_rot x ≡ ld_bswap x
unfolding ld_bswap
ld_rot-ld_bswap x h =
    let a = x / 2 ^ 24 in
    let b = x / 2 ^ 16 % 2 ^ 8 in
    let c = x / 2 ^ 8 % 2 ^ 8 in
    let d = x % 2 ^ 8 in
    let split : x ≡ word a b c d = omega arith in
    let swap : word d c b a ≡ bswap32 x = omega arith in
    ap ld_rot split
    ∙ ld_rot-word a b c d (omega arith) (omega arith) (omega arith) (omega arith)
    ∙ swap

-- The buffer holds 32-bit words.
abbrev pub IsBuf : (ℕ → ℕ) → Type 0
IsBuf buf = (q : ℕ) → buf q < 2 ^ 32

run_step-agree :
    (dep : Bool) (buf : ℕ → ℕ) (s : Pass) → IsBuf buf → run_step 1 dep buf s ≡ run_step 2 dep buf s
unfolding run_step
run_step-agree dep buf s h =
    let p = bit_and (if dep then s.idx else shr32 (next_lcg s.lin) 8) (buf_words - 1) in
    rw (ld_rot-ld_bswap (buf p) (h p)) refl

run_loop-agree :
    (dep : Bool) (buf : ℕ → ℕ) (n : ℕ) (s : Pass)
    → IsBuf buf
    → run_loop 1 dep buf n s ≡ run_loop 2 dep buf n s
unfolding run_loop
run_loop-agree dep buf zero s h = refl
run_loop-agree dep buf (suc n) s h =
    rw (run_step-agree dep buf s h) (run_loop-agree dep buf n (run_step 2 dep buf s) h)

-- For every buffer of 32-bit words, every number of rounds and both ways of chaining, the swap
-- by a rotation and the swap of the fast path give the same checksum.
pub run-agree :
    (dep : Bool) (buf : ℕ → ℕ) (iters : ℕ) → IsBuf buf → run 1 dep buf iters ≡ run 2 dep buf iters
unfolding run
run-agree dep buf iters h = ap (λ s. s.sum) (run_loop-agree dep buf iters start h)

-- Two passes about to load from the same address.
abbrev pub SameWalk : Pass → Pass → Type 0
SameWalk s t = (s.lin ≡ t.lin) × (s.idx ≡ t.idx)

run_step-walk :
    (kind kind' : ℕ) (dep : Bool) (buf : ℕ → ℕ) (s t : Pass)
    → SameWalk s t
    → SameWalk (run_step kind dep buf s) (run_step kind' dep buf t)
unfolding run_step
run_step-walk kind kind' dep buf s t (l, i) = (rw l refl, rw (l, i) refl)

-- Whatever the two formulations compute, their loops are in step: if they start with the same
-- generator state and the same chained index, they have the same ones after any number of rounds.
pub run_loop-walk :
    (kind kind' : ℕ) (dep : Bool) (buf : ℕ → ℕ) (n : ℕ) (s t : Pass)
    → SameWalk s t
    → SameWalk (run_loop kind dep buf n s) (run_loop kind' dep buf n t)
unfolding run_loop
run_loop-walk kind kind' dep buf zero s t h = h
run_loop-walk kind kind' dep buf (suc n) s t h =
    run_loop-walk kind kind' dep buf n _ _ (run_step-walk kind kind' dep buf s t h)

fill_buf-IsBuf : (n i s : ℕ) (buf : ℕ → ℕ) → IsBuf buf → IsBuf (fill_buf n i s buf)
unfolding fill_buf
fill_buf-IsBuf zero i s buf h = h
fill_buf-IsBuf (suc n) i s buf h =
    fill_buf-IsBuf n (i + 1) (next_lcg s) (λ q. if q == i then next_lcg s else buf q)
      λ q. ground (arith, h q)

checksum-agree :
    (dep : Bool) (buf : ℕ → ℕ) (iters : ℕ)
    → IsBuf buf
    → checksum buf iters dep 1 ≡ checksum buf iters dep 2
checksum-agree dep buf iters h = run-agree dep buf iters h

-- For every number of iterations, the two rows that `main` prints for the two swaps carry the
-- same checksum, of the independent loads and of the chained ones.
pub main_checksums-agree :
    (iters : ℕ)
    → (get_elem? (main_checksums iters) 1 ≡ get_elem? (main_checksums iters) 2)
      × (get_elem? (main_checksums iters) 4 ≡ get_elem? (main_checksums iters) 5)
unfolding main_checksums
main_checksums-agree iters =
    let h = fill_buf-IsBuf buf_words 0 12345 (λ _. 0) (λ q. omega arith) in
    (ap some (checksum-agree false _ iters h), ap some (checksum-agree true _ iters h))
