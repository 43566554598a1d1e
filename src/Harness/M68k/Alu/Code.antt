-- ===== src/Harness/M68k/Alu/Code.antt =====
-- The code of the first kernel of m68k/bench_main.c in the RAM, and what the decoder comes to in it.
use emu_core_bench.Base.{
  ℕ, ◌+◌, ◌*◌, ◌≡◌, refl, ap, arith, List, [], ◌∷◌, ok, true, shr32, add32, sext16, ◌>>=◌, ◌∙◌,
}
use emu_core_bench.Memory.{Env}
use emu_core_bench.M68k.State.{dr_off}
use emu_core_bench.M68k.Pd.Format.{MpdEnt, MpdId, Elidable}
use emu_core_bench.M68k.Pd.Decode.{
  Decoded, ent_of, mpd_decode, decode_op, decode_move, decode_5, decode_6, decode_cond, decode_dd,
}
use emu_core_bench.M68k.Pd.Run.{mpd_region_bytes}
use emu_core_bench.M68k.Pd.Heads.{Walk, here, round, Walk-join}
use emu_core_bench.M68k.Pd.Matches.{is_known}
use emu_core_bench.Harness.M68k.Assemble.{ew, ew_all, assemble}
use emu_core_bench.Harness.M68k.Kernels.{code_base, emit_kernel_alu}
use emu_core_bench.Harness.M68k.Placed.{HasCode, word, long, at_word, to_code, past_code}
use emu_core_bench.Harness.M68k.Setup.{emit_kernel}

abbrev pub alu_words : List ℕ
alu_words =
    0x243C ∷ 0x1234 ∷ 0x5678 ∷ 0x303C ∷ 0x0FFF ∷ 0xD282 ∷ 0x2601 ∷ 0xEE8B ∷ 0xB781 ∷ 0x5682 ∷ 0xB282
    ∷ 0x6E02 ∷ 0x9282 ∷ 0xE38C ∷ 0x51C8 ∷ 0xFFEC ∷ 0x60E4 ∷ []

pub emit_kernel_alu_lem :
    (ram : ℕ) (env : Env) → emit_kernel 0 ram env code_base ≡ ew_all ram env code_base alu_words
unfolding emit_kernel emit_kernel_alu assemble ew_all ew
emit_kernel_alu_lem ram env = refl

-- The place of an instruction of the kernel.
pub data Place : ℕ → Type 0 where
  move_seed : Place 0x1000
  move_count : Place 0x1006
  add : Place 0x100A
  copy : Place 0x100C
  lsr : Place 0x100E
  eor : Place 0x1010
  addq : Place 0x1012
  cmp : Place 0x1014
  bgt : Place 0x1016
  sub : Place 0x1018
  lsl : Place 0x101A
  dbra : Place 0x101C
  bra : Place 0x1020

-- The instruction there is known, and `len` words long.
abbrev pub Decodes : Env → ℕ → ℕ → Type 0
Decodes env a len = (e : MpdEnt) × (mpd_decode env a ≡ ok (e, len)) × (is_known e.id ≡ true)

abbrev pub words_of : {pc : ℕ} → Place pc → ℕ
words_of move_seed = 3
words_of move_count = 2
words_of dbra = 2
words_of _ = 1

module _ {ram pages : ℕ} {env : Env} (has : HasCode ram pages alu_words env) where
  pub decodes : {pc : ℕ} (p : Place pc) → Decodes env pc (words_of p)
  unfolding decode_op decode_move decode_5 decode_6 decode_cond decode_dd
  decodes move_seed = (
    _,
    at_word has 0 0x243C refl
        ∙ ap {B = Decoded}
            (λ r. r >>= λ c. ent_of (MpdId.pair Elidable.mv_l_imm_dn) (dr_off 2) 0 c 3)
            (long has 1 0x1234 0x5678 refl refl (omega arith)),
    refl,
  )
  decodes move_count = (
    _,
    at_word has 3 0x303C refl
        ∙ ap {B = Decoded}
            (λ r. r >>= λ c. ent_of (MpdId.pair Elidable.mv_w_imm_dn) (dr_off 0) 0 c 2)
            (word has 4 0x0FFF refl),
    refl,
  )
  decodes dbra = (
    _,
    at_word has 14 0x51C8 refl
        ∙ ap {B = Decoded}
            (λ r. r >>= λ d. ent_of MpdId.dbra 0 (dr_off 0) (shr32 (add32 0x101E (sext16 d)) 1) 2)
            (word has 15 0xFFEC refl),
    refl,
  )
  decodes add = (_, at_word has 5 0xD282 refl, refl)
  decodes copy = (_, at_word has 6 0x2601 refl, refl)
  decodes lsr = (_, at_word has 7 0xEE8B refl, refl)
  decodes eor = (_, at_word has 8 0xB781 refl, refl)
  decodes addq = (_, at_word has 9 0x5682 refl, refl)
  decodes cmp = (_, at_word has 10 0xB282 refl, refl)
  decodes bgt = (_, at_word has 11 0x6E02 refl, refl)
  decodes sub = (_, at_word has 12 0x9282 refl, refl)
  decodes lsl = (_, at_word has 13 0xE38C refl, refl)
  decodes bra = (_, at_word has 16 0x60E4 refl, refl)

  over : {a b : ℕ} → Walk env a b → (p : Place b) → Walk env a (b + words_of p * 2)
  over w p = let (_, d, _) = decodes p in Walk-join w (round _ d (here refl))

  at_move_seed : Walk env 0 0x1000
  at_move_seed = to_code has

  at_move_count : Walk env 0 0x1006
  at_move_count = over at_move_seed move_seed

  at_add : Walk env 0 0x100A
  at_add = over at_move_count move_count

  at_copy : Walk env 0 0x100C
  at_copy = over at_add add

  at_lsr : Walk env 0 0x100E
  at_lsr = over at_copy copy

  at_eor : Walk env 0 0x1010
  at_eor = over at_lsr lsr

  at_addq : Walk env 0 0x1012
  at_addq = over at_eor eor

  at_cmp : Walk env 0 0x1014
  at_cmp = over at_addq addq

  at_bgt : Walk env 0 0x1016
  at_bgt = over at_cmp cmp

  at_sub : Walk env 0 0x1018
  at_sub = over at_bgt bgt

  at_lsl : Walk env 0 0x101A
  at_lsl = over at_sub sub

  at_dbra : Walk env 0 0x101C
  at_dbra = over at_lsl lsl

  at_bra : Walk env 0 0x1020
  at_bra = over at_dbra dbra

  pub reached : {pc : ℕ} → Place pc → Walk env 0 pc
  reached move_seed = at_move_seed
  reached move_count = at_move_count
  reached add = at_add
  reached copy = at_copy
  reached lsr = at_lsr
  reached eor = at_eor
  reached addq = at_addq
  reached cmp = at_cmp
  reached bgt = at_bgt
  reached sub = at_sub
  reached lsl = at_lsl
  reached dbra = at_dbra
  reached bra = at_bra

  -- The decoder comes to the end of the region.
  pub to_end : Walk env 0 mpd_region_bytes
  to_end = Walk-join (over at_bra bra) (past_code has 0x1_F7EF refl)
