-- ===== src/Harness/Ppc/Emission.antt =====
-- The programs that the kernels of ppc/bench_main.c emit, as lists of words.
use emu_core_bench.Base.{
  ℕ, zero, suc, ◌+◌, ◌*◌, ◌^◌, ◌≤◌, ◌<◌, ◌≡◌, refl, ap, ◌∙◌, arith, some, get_elem?, List, [], ◌∷◌,
  ◌==◌, Bool-cases, inl, inr, if◌then◌else◌, add32, sub32, shr32,
}
use mathlib.Core.List.{◌++◌}
use emu_core_bench.Memory.{Env}
use emu_core_bench.Harness.{lcg, emit, emit_all, words}
use emu_core_bench.Harness.Ppc.Encode.{e_addis, e_b, e_bdnz}
use emu_core_bench.Harness.Ppc.Kernels.{
  emit_loop, emit_kernel_alu, emit_kernel_mem, emit_kernel_stress, stress_seeds, stress_stream,
  stream_len, code_base, data_base, store_base, alu_prologue, alu_body, mem_prologue, mem_body,
}
use emu_core_bench.Harness.Ppc.Setup.{emit_kernel}

-- The words that a loop's emission leaves, from `pc` on.
unfoldable pub loop_code : List ℕ → List ℕ → (ℕ → ℕ) → ℕ → List ℕ
loop_code prologue body close pc =
    let loop = pc + 4 * words prologue in
    prologue ++ (body ++ (close (sub32 loop (loop + 4 * words body)) ∷ []))

words-++ : (xs ys : List ℕ) → words (xs ++ ys) ≡ words xs + words ys
words-++ [] ys = omega arith
words-++ (x ∷ xs) ys = omega (arith, words-++ xs ys)

emit_all-++ :
    (ram : ℕ) (xs ys : List ℕ) (env : Env) (pc : ℕ)
    → emit_all ram env pc (xs ++ ys)
      ≡ emit_all ram (emit_all ram env pc xs).0 (emit_all ram env pc xs).1 ys
unfolding emit_all
emit_all-++ ram [] ys env pc = refl
emit_all-++ ram (x ∷ xs) ys env pc = emit_all-++ ram xs ys _ _

emit_all-pc :
    (ram : ℕ) (code : List ℕ) (env : Env) (pc : ℕ)
    → pc + 4 * words code < 2 ^ 32
    → (emit_all ram env pc code).1 ≡ pc + 4 * words code
unfolding emit_all emit
emit_all-pc ram [] env pc room = omega arith
emit_all-pc ram (x ∷ xs) env pc room =
    let next : add32 pc 4 ≡ pc + 4 = omega (arith, room) in
    emit_all-pc ram xs _ (add32 pc 4) (omega (arith, room, next)) ∙ omega (arith, next)

-- A loop is emitted as one program.
pub emit_loop-all :
    (prologue body : List ℕ) (close : ℕ → ℕ) (ram : ℕ) (env : Env) (pc : ℕ)
    → pc + 4 * words prologue + 4 * words body < 2 ^ 32
    → emit_loop prologue body close ram env pc
      ≡ emit_all ram env pc (loop_code prologue body close pc)
unfolding emit_loop loop_code emit_all
emit_loop-all prologue body close ram env pc room =
    let at1 = emit_all-pc ram prologue env pc (omega (arith, room)) in
    let env1 = (emit_all ram env pc prologue).0 in
    let at2 = emit_all-pc ram body env1 (pc + 4 * words prologue) (omega (arith, room)) in
    rw (emit_all-++ ram prologue, emit_all-++ ram body, at1, at2) refl

abbrev pub alu_code : List ℕ
alu_code = loop_code alu_prologue alu_body e_bdnz code_base

abbrev pub mem_code : List ℕ
mem_code = loop_code mem_prologue mem_body e_bdnz code_base

abbrev pub stress_prologue : List ℕ
stress_prologue = e_addis 20 0 (shr32 data_base 16) ∷ e_addis 21 0 (shr32 store_base 16) ∷ []

-- The stress kernel: its seeds, and its loop.
abbrev pub stress_start : List ℕ × ℕ
stress_start = stress_seeds 10 3 0xC0FF_EE01

abbrev pub stress_code : List ℕ
stress_code =
    stress_start.0
    ++ loop_code stress_prologue (stress_stream stream_len stress_start.1) e_b (code_base + 80)

-- The program of each kernel.
unfoldable pub kernel_code : ℕ → List ℕ
kernel_code k = if k == 0 then alu_code else if k == 1 then mem_code else stress_code

pub words-stress_stream : (n seed : ℕ) → words (stress_stream n seed) ≡ n
unfolding stress_stream
words-stress_stream zero seed = refl
words-stress_stream (suc n) seed = omega (arith, words-stress_stream n (lcg seed))

alu_lem :
    (ram : ℕ) (env : Env) → emit_kernel_alu ram env code_base ≡ emit_all ram env code_base alu_code
unfolding emit_kernel_alu
alu_lem ram env = emit_loop-all alu_prologue alu_body e_bdnz ram env code_base (omega arith)

mem_lem :
    (ram : ℕ) (env : Env) → emit_kernel_mem ram env code_base ≡ emit_all ram env code_base mem_code
unfolding emit_kernel_mem
mem_lem ram env = emit_loop-all mem_prologue mem_body e_bdnz ram env code_base (omega arith)

pub words-stress_seeds : (n r seed : ℕ) → words (stress_seeds n r seed).0 ≡ 2 * n
unfolding stress_seeds
words-stress_seeds zero r seed = refl
words-stress_seeds (suc n) r seed = omega (arith, words-stress_seeds n (r + 1) (lcg seed))

stress_lem :
    (ram : ℕ) (env : Env)
    → emit_kernel_stress ram env code_base ≡ emit_all ram env code_base stress_code
unfolding emit_kernel_stress
stress_lem ram env =
    let seeds = words-stress_seeds 10 3 0xC0FF_EE01 in
    let at : (emit_all ram env code_base stress_start.0).1 ≡ code_base + 80 =
      omega (arith, seeds, emit_all-pc ram stress_start.0 env code_base (omega (arith, seeds))) in
    rw (emit_all-++ ram stress_start.0, at)
      (emit_loop-all stress_prologue (stress_stream stream_len stress_start.1) e_b ram
        (emit_all ram env code_base stress_start.0).0 (code_base + 80)
        (omega (arith, words-stress_stream stream_len stress_start.1)))

-- A kernel is emitted as one program.
pub emit_kernel-all :
    (k ram : ℕ) (env : Env)
    → emit_kernel k ram env code_base ≡ emit_all ram env code_base (kernel_code k)
unfolding emit_kernel kernel_code
emit_kernel-all k ram env = elim (Bool-cases (k == 0)) [
  | inl e ↦ rw e (alu_lem ram env)
  | inr e ↦ elim (Bool-cases (k == 1)) [
    | inl e' ↦ rw (e, e') (mem_lem ram env)
    | inr e' ↦ rw (e, e') (stress_lem ram env)
  ]
]

stress_fits : code_base + 4 * words stress_code ≤ 0x4_0000
unfolding loop_code
stress_fits = omega (
  arith,
  words-++ stress_start.0,
  words-++ (stress_stream stream_len stress_start.1),
  words-stress_seeds 10 3 0xC0FF_EE01,
  words-stress_stream stream_len stress_start.1,
)

-- A kernel fits into the code region.
pub kernel_code-fits : (k : ℕ) → code_base + 4 * words (kernel_code k) ≤ 0x4_0000
unfolding kernel_code
kernel_code-fits k = elim (Bool-cases (k == 0)) [
  | inl e ↦ rw e (unfold loop_code in omega arith)
  | inr e ↦ elim (Bool-cases (k == 1)) [
    | inl e' ↦ rw (e, e') (unfold loop_code in omega arith)
    | inr e' ↦ rw (e, e') stress_fits
  ]
]

-- A place of a program in a longer one.
pub get_elem-++_left :
    (xs ys : List ℕ) (i w : ℕ) → get_elem? xs i ≡ some w → get_elem? (xs ++ ys) i ≡ some w
get_elem-++_left [] ys i w h = cc
get_elem-++_left (x ∷ xs) ys zero w h = h
get_elem-++_left (x ∷ xs) ys (suc i) w h = get_elem-++_left xs ys i w h

pub get_elem-++_right :
    (xs ys : List ℕ) (n j : ℕ) → words xs ≡ n → get_elem? (xs ++ ys) (n + j) ≡ get_elem? ys j
get_elem-++_right [] ys zero j h =
    let same : 0 + j ≡ j = omega arith in ap (λ t. get_elem? ys t) same
get_elem-++_right [] ys (suc n) j h = absurd (omega (arith, h))
get_elem-++_right (x ∷ xs) ys zero j h = absurd (omega (arith, h))
get_elem-++_right (x ∷ xs) ys (suc n) j h =
    let next : suc n + j ≡ suc (n + j) = omega arith in
    ap (λ t. get_elem? (x ∷ (xs ++ ys)) t) next ∙ get_elem-++_right xs ys n j (omega (arith, h))
