-- ===== src/Harness/Ppc/Encode.antt =====
-- The instruction encoders of ppc/bench_main.c. A negative argument is its 32-bit pattern.
use emu_core_bench.Base.{ℕ, bit_and, bit_or, shl32}

unfoldable pub e_d : ℕ → ℕ → ℕ → ℕ → ℕ
e_d op d a imm =
    bit_or (bit_or (bit_or (shl32 op 26) (shl32 d 21)) (shl32 a 16)) (bit_and imm 0xFFFF)

abbrev pub e_addi : ℕ → ℕ → ℕ → ℕ
e_addi d a i = e_d 14 d a i

abbrev pub e_addis : ℕ → ℕ → ℕ → ℕ
e_addis d a i = e_d 15 d a i

abbrev pub e_mulli : ℕ → ℕ → ℕ → ℕ
e_mulli d a i = e_d 7 d a i

-- The logical forms have rS in the place of d.
abbrev pub e_ori : ℕ → ℕ → ℕ → ℕ
e_ori a s ui = e_d 24 s a ui

abbrev pub e_xori : ℕ → ℕ → ℕ → ℕ
e_xori a s ui = e_d 26 s a ui

abbrev pub e_andi_rc : ℕ → ℕ → ℕ → ℕ
e_andi_rc a s ui = e_d 28 s a ui

abbrev pub e_cmpwi : ℕ → ℕ → ℕ → ℕ
e_cmpwi crf a i = e_d 11 (shl32 crf 2) a i

abbrev pub e_cmplwi : ℕ → ℕ → ℕ → ℕ
e_cmplwi crf a i = e_d 10 (shl32 crf 2) a i

abbrev pub e_lwz : ℕ → ℕ → ℕ → ℕ
e_lwz d a off = e_d 32 d a off

abbrev pub e_lhz : ℕ → ℕ → ℕ → ℕ
e_lhz d a off = e_d 40 d a off

abbrev pub e_lbz : ℕ → ℕ → ℕ → ℕ
e_lbz d a off = e_d 34 d a off

abbrev pub e_stw : ℕ → ℕ → ℕ → ℕ
e_stw s a off = e_d 36 s a off

abbrev pub e_sth : ℕ → ℕ → ℕ → ℕ
e_sth s a off = e_d 44 s a off

abbrev pub e_stb : ℕ → ℕ → ℕ → ℕ
e_stb s a off = e_d 38 s a off

unfoldable pub e_x : ℕ → ℕ → ℕ → ℕ → ℕ → ℕ
e_x d a b xo rc =
    bit_or
      (bit_or (bit_or (bit_or (bit_or (shl32 31 26) (shl32 d 21)) (shl32 a 16)) (shl32 b 11))
        (shl32 xo 1))
      rc

abbrev pub e_add : ℕ → ℕ → ℕ → ℕ
e_add d a b = e_x d a b 266 0

abbrev pub e_add_rc : ℕ → ℕ → ℕ → ℕ
e_add_rc d a b = e_x d a b 266 1

abbrev pub e_subf : ℕ → ℕ → ℕ → ℕ
e_subf d a b = e_x d a b 40 0

abbrev pub e_mullw : ℕ → ℕ → ℕ → ℕ
e_mullw d a b = e_x d a b 235 0

abbrev pub e_and : ℕ → ℕ → ℕ → ℕ
e_and a s b = e_x s a b 28 0

abbrev pub e_or : ℕ → ℕ → ℕ → ℕ
e_or a s b = e_x s a b 444 0

abbrev pub e_xor : ℕ → ℕ → ℕ → ℕ
e_xor a s b = e_x s a b 316 0

abbrev pub e_srawi : ℕ → ℕ → ℕ → ℕ
e_srawi a s sh = e_x s a sh 824 0

abbrev pub e_lwzx : ℕ → ℕ → ℕ → ℕ
e_lwzx d a b = e_x d a b 23 0

abbrev pub e_lbzx : ℕ → ℕ → ℕ → ℕ
e_lbzx d a b = e_x d a b 87 0

abbrev pub e_stwx : ℕ → ℕ → ℕ → ℕ
e_stwx s a b = e_x s a b 151 0

abbrev pub e_mtctr : ℕ → ℕ
e_mtctr s = e_x s 9 0 467 0

unfoldable pub e_rlwinm : ℕ → ℕ → ℕ → ℕ → ℕ → ℕ
e_rlwinm a s sh mb me =
    bit_or
      (bit_or (bit_or (bit_or (bit_or (shl32 21 26) (shl32 s 21)) (shl32 a 16)) (shl32 sh 11))
        (shl32 mb 6))
      (shl32 me 1)

unfoldable pub e_bc : ℕ → ℕ → ℕ → ℕ
e_bc bo bi off =
    bit_or (bit_or (bit_or (shl32 16 26) (shl32 bo 21)) (shl32 bi 16)) (bit_and off 0xFFFC)

abbrev pub e_bdnz : ℕ → ℕ
e_bdnz off = e_bc 16 0 off

unfoldable pub e_b : ℕ → ℕ
e_b off = bit_or (shl32 18 26) (bit_and off 0x03FF_FFFC)
