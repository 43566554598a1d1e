-- ===== src/Harness/M68k/Kernels.antt =====
-- The kernels of m68k/bench_main.c. A kernel takes the environment and `g_pc`, and gives what its
-- calls of `ew` leave.
use emu_core_bench.Base.{
  ℕ, zero, suc, ◌+◌, ◌%◌, bit_and, Bool, true, false, not, List, [], ◌∷◌, ltb, leb, ◌==◌,
  if◌then◌else◌, sub32, shr32,
}
use emu_core_bench.Memory.{Env}
use emu_core_bench.Harness.{lcg}
use emu_core_bench.Harness.M68k.Assemble.{
  Macro, assemble, moveq, move_l_imm_dn, move_w_imm_dn, movea_l_imm, move_l_dd, move_l_anp_dn,
  move_l_dn_anp, move_l_d16_dn, move_l_dn_d16, move_w_d16_dn, move_w_dn_d16, move_b_d16_dn,
  move_b_dn_d16, add_l_dd, sub_l_dd, cmp_l_dd, eor_l_dd, and_l_dd, or_l_dd, addq_l_dn, subq_l_dn,
  cmpi_l_dn, tst_l_dn, lsl_l, lsr_l, bra_b, bra_w, bcc_b, dbra, cc_ne, cc_eq, cc_pl, cc_mi, cc_ge,
  cc_lt, cc_gt,
}

abbrev pub code_base : ℕ
code_base = 0x1000

abbrev pub data_base : ℕ
data_base = 0x10_0000

abbrev pub store_base : ℕ
store_base = 0x18_0000

-- A branch over the one word that follows it.
abbrev pub skip_word : ℕ → Macro
skip_word cond g_pc = bcc_b cond (g_pc + 2 + 2) g_pc

unfoldable pub emit_kernel_alu : ℕ → Env → ℕ → Env × ℕ
emit_kernel_alu g_ram env g_pc =
    let (env1, top) = assemble g_ram env g_pc (move_l_imm_dn 2 0x1234_5678 0x1234_5678 ∷ []) in
    let (env2, loop) = assemble g_ram env1 top (move_w_imm_dn 0 0x0FFF ∷ []) in
    assemble g_ram env2 loop (
      add_l_dd 1 2
      ∷ move_l_dd 3 1
      ∷ lsr_l 7 3
      ∷ eor_l_dd 1 3
      ∷ addq_l_dn 3 2
      ∷ cmp_l_dd 1 2
      ∷ skip_word cc_gt
      ∷ sub_l_dd 1 2
      ∷ lsl_l 1 4
      ∷ dbra 0 loop
      ∷ bra_b top
      ∷ [])

unfoldable pub emit_kernel_mem : ℕ → Env → ℕ → Env × ℕ
emit_kernel_mem g_ram env top =
    let (env1, loop) = assemble g_ram env top (
      movea_l_imm 0 data_base data_base
      ∷ movea_l_imm 1 store_base store_base
      ∷ move_w_imm_dn 0 0x0FFF
      ∷ []) in
    assemble g_ram env1 loop (
      move_l_anp_dn 1 0
      ∷ add_l_dd 2 1
      ∷ move_l_dn_anp 1 2
      ∷ move_b_d16_dn 3 0 2
      ∷ eor_l_dd 2 3
      ∷ dbra 0 loop
      ∷ bra_w top
      ∷ [])

abbrev pub stream_len : ℕ
stream_len = 8192

-- `conds[i]`.
abbrev pub conds : ℕ → ℕ
conds i =
    if i == 0
    then cc_eq
    else if i == 1
    then cc_ne
    else if i == 2
    then cc_lt
    else if i == 3
    then cc_ge
    else if i == 4
    then cc_mi
    else cc_pl

-- The macro that the random number `r` gives, with the seed and `force_short` that it leaves.
unfoldable pub stress_macro : ℕ → ℕ → Bool → Bool → Macro × ℕ × Bool
stress_macro r seed force_short last =
    let dn = bit_and (shr32 r 8) 7 in
    let dm = bit_and (shr32 r 12) 7 in
    let off = bit_and (shr32 r 16) 0x7FC in
    let q = 1 + bit_and (shr32 r 26) 7 in
    let pick = if force_short then r % 40 else r % 100 in
    let seed1 = lcg seed in
    let seed2 = lcg seed1 in
    let set = not (bit_and r 0x10_0000 == 0) in
    if ltb pick 8
    then (add_l_dd dn dm, seed, false)
    else if ltb pick 14
    then (sub_l_dd dn dm, seed, false)
    else if ltb pick 19
    then (eor_l_dd dn dm, seed, false)
    else if ltb pick 23
    then (and_l_dd dn dm, seed, false)
    else if ltb pick 26
    then (or_l_dd dn dm, seed, false)
    else if ltb pick 30
    then (move_l_dd dn dm, seed, false)
    else if ltb pick 33
    then (moveq dn (sub32 (bit_and r 0xFF) 128), seed, false)
    else if ltb pick 36
    then ((if set then addq_l_dn q dn else subq_l_dn q dn), seed, false)
    else if ltb pick 40
    then ((if set then lsr_l q dn else lsl_l q dn), seed, false)
    else if ltb pick 46
    then (move_l_d16_dn dn 5 off, seed, false)
    else if ltb pick 50
    then (move_w_d16_dn dn 5 off, seed, false)
    else if ltb pick 53
    then (move_b_d16_dn dn 5 off, seed, false)
    else if ltb pick 59
    then (move_l_dn_d16 6 off dn, seed, false)
    else if ltb pick 62
    then (move_w_dn_d16 6 off dn, seed, false)
    else if ltb pick 65
    then (move_b_dn_d16 6 off dn, seed, false)
    else if ltb pick 70
    then (move_l_imm_dn dn seed1 seed2, seed2, false)
    else if ltb pick 76
    then (cmp_l_dd dn dm, seed, false)
    else if ltb pick 80
    then (cmpi_l_dn seed1 seed2 dn, seed2, false)
    else if ltb pick 84
    then (tst_l_dn dn, seed, false)
    else if not last
    then (skip_word (conds (shr32 r 5 % 6)), seed, true)
    else (add_l_dd dn dm, seed, false)

-- The loop over D0 to D7, with the registers left and the next one, and the seed it leaves.
unfoldable pub stress_seeds : ℕ → ℕ → ℕ → List Macro × ℕ
stress_seeds zero r seed = ([], seed)
stress_seeds (suc n) r seed =
    let seed1 = lcg seed in
    let seed2 = lcg seed1 in
    let (rest, seed') = stress_seeds n (r + 1) seed2 in (move_l_imm_dn r seed1 seed2 ∷ rest, seed')

-- The loop over the stream, with the macros left.
unfoldable pub stress_stream : ℕ → ℕ → Bool → List Macro
stress_stream zero seed force_short = []
stress_stream (suc n) seed force_short =
    let r = lcg seed in
    let (macro, seed', force') = stress_macro r r force_short (leb n 1) in
    macro ∷ stress_stream n seed' force'

unfoldable pub emit_kernel_stress : ℕ → Env → ℕ → Env × ℕ
emit_kernel_stress g_ram env g_pc =
    let (seeds, seed) = stress_seeds 8 0 0xC0FF_EE02 in
    let (env1, pc1) =
      assemble g_ram env g_pc
        (movea_l_imm 5 data_base data_base ∷ movea_l_imm 6 store_base store_base ∷ []) in
    let (env2, loop) = assemble g_ram env1 pc1 seeds in
    let (env3, last) = assemble g_ram env2 loop (stress_stream stream_len seed false) in
    assemble g_ram env3 last (bra_w loop ∷ [])
