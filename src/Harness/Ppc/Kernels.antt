-- ===== src/Harness/Ppc/Kernels.antt =====
-- The kernels of ppc/bench_main.c. A kernel takes the environment and `g_emit_pc`, and gives
-- what its calls of `emit` leave.
use emu_core_bench.Base.{
  ℕ, zero, suc, ◌+◌, ◌%◌, bit_and, Bool, not, List, [], ◌∷◌, ltb, ◌==◌, if◌then◌else◌, sub32, shr32,
}
use emu_core_bench.Memory.{Env}
use emu_core_bench.Harness.{lcg, emit, emit_all}
use emu_core_bench.Harness.Ppc.Encode.{
  e_add, e_add_rc, e_addi, e_addis, e_and, e_andi_rc, e_b, e_bc, e_bdnz, e_cmpwi, e_lbz, e_lbzx,
  e_lhz, e_lwz, e_lwzx, e_mtctr, e_mulli, e_mullw, e_or, e_ori, e_rlwinm, e_srawi, e_stb, e_sth,
  e_stw, e_stwx, e_subf, e_xor,
}

abbrev pub code_base : ℕ
code_base = 0x1000

abbrev pub data_base : ℕ
data_base = 0x10_0000

abbrev pub store_base : ℕ
store_base = 0x18_0000

-- The instructions of `emit_kernel_alu` before its loop, and those of the loop but the last.
abbrev pub alu_prologue : List ℕ
alu_prologue =
    e_addis 4 0 0x1234
    ∷ e_ori 4 4 0x5678
    ∷ e_addi 5 0 0
    ∷ e_addis 7 0 0x7FFF
    ∷ e_ori 7 7 0xFFFF
    ∷ e_mtctr 7
    ∷ []

abbrev pub alu_body : List ℕ
alu_body =
    e_add 5 5 4
    ∷ e_rlwinm 8 5 7 0 31
    ∷ e_xor 5 5 8
    ∷ e_addi 4 4 3
    ∷ e_add_rc 9 5 4
    ∷ e_bc 12 0 8
    ∷ e_subf 5 4 5
    ∷ e_mulli 10 4 13
    ∷ e_xor 5 5 10
    ∷ []

-- A prologue, a loop body, and the branch back that `close` gives for the offset of the loop.
unfoldable pub emit_loop : List ℕ → List ℕ → (ℕ → ℕ) → ℕ → Env → ℕ → Env × ℕ
emit_loop prologue body close g_ram env pc =
    let (env1, loop) = emit_all g_ram env pc prologue in
    let (env2, last) = emit_all g_ram env1 loop body in
    emit g_ram env2 last (close (sub32 loop last))

unfoldable pub emit_kernel_alu : ℕ → Env → ℕ → Env × ℕ
emit_kernel_alu = emit_loop alu_prologue alu_body e_bdnz

abbrev pub mem_prologue : List ℕ
mem_prologue =
    e_addis 20 0 (shr32 data_base 16)
    ∷ e_addis 21 0 (shr32 store_base 16)
    ∷ e_addi 3 0 0
    ∷ e_addi 4 0 0
    ∷ e_addis 7 0 0x7FFF
    ∷ e_ori 7 7 0xFFFF
    ∷ e_mtctr 7
    ∷ []

abbrev pub mem_body : List ℕ
mem_body =
    e_lwzx 6 20 3
    ∷ e_add 4 4 6
    ∷ e_stwx 4 21 3
    ∷ e_lbzx 8 20 3
    ∷ e_xor 4 4 8
    ∷ e_addi 3 3 4
    ∷ e_andi_rc 3 3 0x3FFC
    ∷ []

unfoldable pub emit_kernel_mem : ℕ → Env → ℕ → Env × ℕ
emit_kernel_mem = emit_loop mem_prologue mem_body e_bdnz

abbrev pub stream_len : ℕ
stream_len = 16384

-- The instruction that the random number `r` gives; the last one of the stream is no branch.
unfoldable pub stress_insn : ℕ → Bool → ℕ
stress_insn r last =
    let rd = 3 + shr32 r 8 % 10 in
    let ra = 3 + shr32 r 12 % 10 in
    let rb = 3 + shr32 r 16 % 10 in
    let off = bit_and (shr32 r 20) 0x7FC in
    let pick = r % 100 in
    if ltb pick 8
    then e_add rd ra rb
    else if ltb pick 14
    then e_subf rd ra rb
    else if ltb pick 20
    then e_xor rd ra rb
    else if ltb pick 24
    then e_or rd ra rb
    else if ltb pick 28
    then e_and rd ra rb
    else if ltb pick 36
    then e_rlwinm rd ra (bit_and (shr32 r 3) 31) (bit_and (shr32 r 26) 31) 31
    else if ltb pick 44
    then e_addi rd ra (sub32 (bit_and r 0xFF) 128)
    else if ltb pick 48
    then e_addis rd ra 1
    else if ltb pick 52
    then e_mulli rd ra 13
    else if ltb pick 56
    then e_mullw rd ra rb
    else if ltb pick 61
    then e_srawi rd ra (bit_and (shr32 r 3) 31)
    else if ltb pick 68
    then e_lwz rd 20 off
    else if ltb pick 72
    then e_lhz rd 20 off
    else if ltb pick 76
    then e_lbz rd 20 off
    else if ltb pick 82
    then e_stw rd 21 off
    else if ltb pick 85
    then e_sth rd 21 off
    else if ltb pick 88
    then e_stb rd 21 off
    else if ltb pick 94
    then e_cmpwi 7 ra (sub32 (bit_and r 0x7FFF) 16384)
    else if not last
    then e_bc (if bit_and (shr32 r 5) 1 == 0 then 4 else 12) (28 + bit_and (shr32 r 6) 3) 8
    else e_add rd ra rb

-- The loop over r3 to r12, with the registers left and the next one: its instructions and the
-- seed it leaves.
unfoldable pub stress_seeds : ℕ → ℕ → ℕ → List ℕ × ℕ
stress_seeds zero r seed = ([], seed)
stress_seeds (suc n) r seed =
    let v = lcg seed in
    let (rest, seed') = stress_seeds n (r + 1) v in
    (e_addis r 0 (shr32 v 16) ∷ e_ori r r (bit_and v 0xFFFF) ∷ rest, seed')

-- The loop over the stream, with the instructions left.
unfoldable pub stress_stream : ℕ → ℕ → List ℕ
stress_stream zero seed = []
stress_stream (suc n) seed = let r = lcg seed in stress_insn r (n == 0) ∷ stress_stream n r

unfoldable pub emit_kernel_stress : ℕ → Env → ℕ → Env × ℕ
emit_kernel_stress g_ram env pc =
    let (seeds, seed) = stress_seeds 10 3 0xC0FF_EE01 in
    let (env0, pc0) = emit_all g_ram env pc seeds in
    emit_loop (e_addis 20 0 (shr32 data_base 16) ∷ e_addis 21 0 (shr32 store_base 16) ∷ [])
      (stress_stream stream_len seed) e_b g_ram env0 pc0
