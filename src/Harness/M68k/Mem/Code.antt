-- ===== src/Harness/M68k/Mem/Code.antt =====
-- The code of the second kernel of m68k/bench_main.c, and its entries in the table.
use emu_core_bench.Base.{
  ℕ, ◌+◌, ◌*◌, ◌≡◌, refl, ap, ◌∙◌, arith, List, [], ◌∷◌, ok, true, shr32, add32, sext16, ◌>>=◌,
}
use emu_core_bench.Memory.{Env}
use emu_core_bench.M68k.State.{dr_off, ar_off}
use emu_core_bench.M68k.Pd.Format.{MpdEnt, MpdId, Elidable}
use emu_core_bench.M68k.Pd.Decode.{
  Decoded, ent_of, mpd_decode, decode_op, decode_move, decode_5, decode_6, decode_cond, decode_dd,
}
use emu_core_bench.M68k.Pd.Run.{mpd_region_bytes}
use emu_core_bench.M68k.Pd.Heads.{Walk, here, round, Walk-join}
use emu_core_bench.M68k.Pd.Matches.{is_known}
use emu_core_bench.Harness.M68k.Assemble.{ew, ew_all, assemble}
use emu_core_bench.Harness.M68k.Kernels.{code_base, emit_kernel_mem}
use emu_core_bench.Harness.M68k.Setup.{emit_kernel}
use emu_core_bench.Harness.M68k.Placed.{HasCode, word, long, at_word, to_code, past_code}

abbrev pub mem_words : List ℕ
mem_words =
    0x207C ∷ 0x0010 ∷ 0x0000 ∷ 0x227C ∷ 0x0018 ∷ 0x0000 ∷ 0x303C ∷ 0x0FFF ∷ 0x2218 ∷ 0xD481 ∷ 0x22C2
    ∷ 0x1628 ∷ 0x0002 ∷ 0xB782 ∷ 0x51C8 ∷ 0xFFF2 ∷ 0x6000 ∷ 0xFFDE ∷ []

pub emit_kernel_mem_lem :
    (ram : ℕ) (env : Env) → emit_kernel 1 ram env code_base ≡ ew_all ram env code_base mem_words
unfolding emit_kernel emit_kernel_mem assemble ew_all ew
emit_kernel_mem_lem ram env = refl

-- The place of an instruction of the kernel.
pub data Slot : ℕ → Type 0 where
  first : Slot 0x1000
  second : Slot 0x1006
  count : Slot 0x100C
  load : Slot 0x1010
  add : Slot 0x1012
  put : Slot 0x1014
  byte : Slot 0x1016
  eor : Slot 0x101A
  dbra : Slot 0x101C
  bra : Slot 0x1020

abbrev pub entry_of : {pc : ℕ} → Slot pc → MpdEnt
entry_of first = record { id = MpdId.movea_l_imm; a = ar_off 0; b = 0; c = 0x10_0000 }
entry_of second = record { id = MpdId.movea_l_imm; a = ar_off 1; b = 0; c = 0x18_0000 }
entry_of count = record { id = MpdId.pair Elidable.mv_w_imm_dn; a = dr_off 0; b = 0; c = 0x0FFF }
entry_of load = record {
  id = MpdId.pair Elidable.mv_l_anp_dn;
  a = dr_off 1;
  b = ar_off 0;
  c = 0x2218;
}
entry_of add = record { id = MpdId.pair Elidable.add_l_dd; a = dr_off 2; b = dr_off 1; c = 0xD481 }
entry_of put = record {
  id = MpdId.pair Elidable.mv_l_dn_anp;
  a = dr_off 2;
  b = ar_off 1;
  c = 0x22C2;
}
entry_of byte = record { id = MpdId.pair Elidable.mv_b_d16_dn; a = dr_off 3; b = ar_off 0; c = 2 }
entry_of eor = record { id = MpdId.pair Elidable.eor_l_dd; a = dr_off 2; b = dr_off 3; c = 0xB782 }
entry_of dbra = record { id = MpdId.dbra; a = 0; b = dr_off 0; c = 0x808 }
entry_of bra = record { id = MpdId.bra; a = 2; b = 0; c = 0x800 }

abbrev pub words_of : {pc : ℕ} → Slot pc → ℕ
words_of first = 3
words_of second = 3
words_of count = 2
words_of byte = 2
words_of dbra = 2
words_of bra = 2
words_of _ = 1

pub is_known-entry : {pc : ℕ} (p : Slot pc) → is_known (entry_of p).id ≡ true
is_known-entry first = refl
is_known-entry second = refl
is_known-entry count = refl
is_known-entry load = refl
is_known-entry add = refl
is_known-entry put = refl
is_known-entry byte = refl
is_known-entry eor = refl
is_known-entry dbra = refl
is_known-entry bra = refl

module _ {ram pages : ℕ} {env : Env} (has : HasCode ram pages mem_words env) where
  pub decodes : {pc : ℕ} (p : Slot pc) → mpd_decode env pc ≡ ok (entry_of p, words_of p)
  unfolding decode_op decode_move decode_5 decode_6 decode_cond decode_dd
  decodes first =
      at_word has 0 0x207C refl
      ∙ ap {B = Decoded} (λ r. r >>= λ c. ent_of MpdId.movea_l_imm (ar_off 0) 0 c 3)
          (long has 1 0x0010 0x0000 refl refl (omega arith))
  decodes second =
      at_word has 3 0x227C refl
      ∙ ap {B = Decoded} (λ r. r >>= λ c. ent_of MpdId.movea_l_imm (ar_off 1) 0 c 3)
          (long has 4 0x0018 0x0000 refl refl (omega arith))
  decodes count =
      at_word has 6 0x303C refl
      ∙ ap {B = Decoded} (λ r. r >>= λ c. ent_of (MpdId.pair Elidable.mv_w_imm_dn) (dr_off 0) 0 c 2)
          (word has 7 0x0FFF refl)
  decodes load = at_word has 8 0x2218 refl
  decodes add = at_word has 9 0xD481 refl
  decodes put = at_word has 10 0x22C2 refl
  decodes byte =
      at_word has 11 0x1628 refl
      ∙ ap {B = Decoded}
          (λ r.
            r >>= λ d. ent_of (MpdId.pair Elidable.mv_b_d16_dn) (dr_off 3) (ar_off 0) (sext16 d) 2)
          (word has 12 0x0002 refl)
  decodes eor = at_word has 13 0xB782 refl
  decodes dbra =
      at_word has 14 0x51C8 refl
      ∙ ap {B = Decoded}
          (λ r. r >>= λ d. ent_of MpdId.dbra 0 (dr_off 0) (shr32 (add32 0x101E (sext16 d)) 1) 2)
          (word has 15 0xFFF2 refl)
  decodes bra =
      at_word has 16 0x6000 refl
      ∙ ap {B = Decoded}
          (λ r. r >>= λ d. ent_of MpdId.bra 2 0 (shr32 (add32 0x1022 (sext16 d)) 1) 2)
          (word has 17 0xFFDE refl)

  over : {a b : ℕ} → Walk env a b → (p : Slot b) → Walk env a (b + words_of p * 2)
  over w p = Walk-join w (round _ (decodes p) (here refl))

  at_second : Walk env 0 0x1006
  at_second = over (to_code has) first

  at_count : Walk env 0 0x100C
  at_count = over at_second second

  at_load : Walk env 0 0x1010
  at_load = over at_count count

  at_add : Walk env 0 0x1012
  at_add = over at_load load

  at_put : Walk env 0 0x1014
  at_put = over at_add add

  at_byte : Walk env 0 0x1016
  at_byte = over at_put put

  at_eor : Walk env 0 0x101A
  at_eor = over at_byte byte

  at_dbra : Walk env 0 0x101C
  at_dbra = over at_eor eor

  at_bra : Walk env 0 0x1020
  at_bra = over at_dbra dbra

  pub reached : {pc : ℕ} → Slot pc → Walk env 0 pc
  reached first = to_code has
  reached second = at_second
  reached count = at_count
  reached load = at_load
  reached add = at_add
  reached put = at_put
  reached byte = at_byte
  reached eor = at_eor
  reached dbra = at_dbra
  reached bra = at_bra

  -- The decoder comes to the end of the region.
  pub to_end : Walk env 0 mpd_region_bytes
  to_end = Walk-join (over at_bra bra) (past_code has 0x1_F7EE refl)
