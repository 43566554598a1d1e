-- ===== src/M68k/Pd/Sized.antt =====
-- The lengths that `mpd_decode` of m68k/m68k_pd_impl.h returns.
use emu_core_bench.Base.{
  ℕ, ◌<◌, ◌≡◌, refl, inl, inr, arith, Bool, true, false, Option, none, some, Outcome, ◌>>=◌, After,
  After-bind_all, u8, ltb, bit_and, add32, ◌&&◌, ◌==◌, if◌then◌else◌, shr32, Bool-cases, find_case,
}
use emu_core_bench.Memory.{Env, memory_read_uint16, memory_read_uint32}
use emu_core_bench.M68k.Ops.{Cond, cond_key, m68k_conds}
use emu_core_bench.M68k.Pd.Format.{Elidable, MpdId, MpdEnt}
use emu_core_bench.M68k.Pd.Decode.{
  mpd_decode, decode_op, decode_move, decode_4, decode_5, decode_6, decode_cond, decode_dd, op_cond,
  undecoded, Decoded, ent_of, op_sm, op_dm, op_sr, sext8, d16_load, d16_store,
}
use emu_core_bench.M68k.Pd.Exec.{pair_len}
use emu_core_bench.M68k.Pd.Flags.{HasLen}

-- What the decoder returns: one to three words, and those of the handler.
abbrev pub Sized : MpdEnt × ℕ → Type 0
Sized r = HasLen r.0.id r.1 × (0 < r.1) × (r.1 < 4)

-- The same of a call of the decoder.
record IsSized (r : Decoded) : Type 0 where
  after : After r Sized

either : (b : Bool) {x y : Decoded} → IsSized x → IsSized y → IsSized (if b then x else y)
either true h k = h
either false h k = k

after_read : (r : Outcome ℕ) {f : ℕ → Decoded} → ((w : ℕ) → IsSized (f w)) → IsSized (r >>= f)
after_read r {f = f} h = record { after = After-bind_all Sized r f (λ w. (h w).after) }

sized :
    {id : MpdId} {a b c len : ℕ} → HasLen id len → 0 < len → len < 4 → IsSized (ent_of id a b c len)
sized h l k = record { after = (h, l, k) }

-- The instructions whose codes are not elided, and the words that are not decoded.
bad : {op : ℕ} → IsSized (undecoded op)
bad = sized tt (omega arith) (omega arith)

d16_load-pair_len : (szc : ℕ) → 2 ≡ pair_len (d16_load szc)
d16_load-pair_len szc = elim (Bool-cases (szc == 2)) [
  | inl e ↦ rw e
  | inr e ↦ elim (Bool-cases (szc == 3)) [ inl f ↦ rw (e, f) | inr f ↦ rw (e, f) ]
]

d16_store-pair_len : (szc : ℕ) → 2 ≡ pair_len (d16_store szc)
d16_store-pair_len szc = elim (Bool-cases (szc == 2)) [
  | inl e ↦ rw e
  | inr e ↦ elim (Bool-cases (szc == 3)) [ inl f ↦ rw (e, f) | inr f ↦ rw (e, f) ]
]

two_ids :
    (b : Bool) (p q : Elidable)
    → 1 ≡ pair_len p
    → 1 ≡ pair_len q
    → 1 ≡ pair_len (if b then p else q)
two_ids true p q h k = h
two_ids false p q h k = k

module _ (env : Env) (addr op : ℕ) where
  decode_move-IsSized : IsSized (decode_move env addr op)
  unfolding decode_move
  decode_move-IsSized =
      either ((shr32 op 12) == 2 && ((op_dm op) == 1 && ((op_sm op) == 7 && (op_sr op) == 4)))
        (after_read (memory_read_uint32 env (add32 addr 2))
          λ w. sized tt (omega arith) (omega arith))
        (either ((shr32 op 12) == 2 && ((op_sm op) == 7 && ((op_sr op) == 4 && (op_dm op) == 0)))
          (after_read (memory_read_uint32 env (add32 addr 2))
            λ w. sized refl (omega arith) (omega arith))
          (either ((shr32 op 12) == 3 && ((op_sm op) == 7 && ((op_sr op) == 4 && (op_dm op) == 0)))
            (after_read (memory_read_uint16 env (add32 addr 2))
              λ w. sized refl (omega arith) (omega arith))
            (either ((shr32 op 12) == 2 && ((op_sm op) == 0 && (op_dm op) == 0))
              (sized refl (omega arith) (omega arith))
              (either ((shr32 op 12) == 2 && ((op_sm op) == 3 && (op_dm op) == 0))
                (sized refl (omega arith) (omega arith))
                (either ((shr32 op 12) == 2 && ((op_sm op) == 0 && (op_dm op) == 3))
                  (sized refl (omega arith) (omega arith))
                  (either ((op_sm op) == 5 && (op_dm op) == 0)
                    (after_read (memory_read_uint16 env (add32 addr 2))
                      λ w. sized (d16_load-pair_len (shr32 op 12)) (omega arith) (omega arith))
                    (either ((op_sm op) == 0 && (op_dm op) == 5)
                      (after_read (memory_read_uint16 env (add32 addr 2))
                        λ w. sized (d16_store-pair_len (shr32 op 12)) (omega arith) (omega arith))
                      bad)))))))

  decode_4-IsSized : IsSized (decode_4 env addr op)
  unfolding decode_4
  decode_4-IsSized =
      either (bit_and op 0xFFC0 == 0x4A80 && op_sm op == 0) (sized refl (omega arith) (omega arith))
        (either (bit_and op 0xFFC0 == 0x4A40 && op_sm op == 0)
          (sized refl (omega arith) (omega arith))
          (either (bit_and op 0xFFC0 == 0x4A00 && op_sm op == 0)
            (sized refl (omega arith) (omega arith))
            (either (bit_and op 0xF1F8 == 0x41E8)
              (after_read (memory_read_uint16 env (add32 addr 2))
                λ w. sized tt (omega arith) (omega arith))
              (either (op == 0x4E71) (sized tt (omega arith) (omega arith)) bad))))

  decode_5-IsSized : IsSized (decode_5 env addr op)
  unfolding decode_5
  decode_5-IsSized =
      either (bit_and op 0xF0F8 == 0x50C8)
        (either (op_cond op == 1)
          (after_read (memory_read_uint16 env (add32 addr 2))
            λ w. sized tt (omega arith) (omega arith))
          bad)
        (either (bit_and (shr32 op 6) 3 == 2 && op_sm op == 0)
          (sized (two_ids (bit_and op 0x100 == 0) Elidable.addq_l_dn Elidable.subq_l_dn refl refl)
            (omega arith) (omega arith))
          (either (bit_and (shr32 op 6) 3 == 2 && (op_sm op == 1 && bit_and op 0x100 == 0))
            (sized tt (omega arith) (omega arith)) bad))

  decode_cond-IsSized :
      (target len : ℕ) → 0 < len → len < 4 → IsSized (decode_cond env addr op target len)
  unfolding decode_cond
  decode_cond-IsSized target len h k =
      either (op_cond op == 0) (sized tt h k) (by_cond (find_case cond_key m68k_conds (op_cond op)))
    where
      by_cond :
          (o : Option Cond)
          → IsSized (elim o as (λ _. Decoded) [
            | some k ↦ ent_of (MpdId.bcc k) (u8 len) 0 (shr32 target 1) len
            | none ↦ undecoded op
          ])
      by_cond (some c) = sized tt h k
      by_cond none = bad

  decode_6-IsSized : IsSized (decode_6 env addr op)
  unfolding decode_6
  decode_6-IsSized =
      either ((sext8 op) == 0)
        (after_read (memory_read_uint16 env (add32 addr 2))
          λ d. decode_cond-IsSized _ 2 (omega arith) (omega arith))
        (decode_cond-IsSized _ 1 (omega arith) (omega arith))

  decode_dd-IsSized : IsSized (decode_dd env addr op)
  unfolding decode_dd
  decode_dd-IsSized =
      either ((shr32 op 12) == 8 && (bit_and op 0x01F8 == 0x0080))
        (sized refl (omega arith) (omega arith))
        (either ((shr32 op 12) == 9 && (bit_and op 0x01F8 == 0x0080))
          (sized refl (omega arith) (omega arith))
          (either ((shr32 op 12) == 0xB && (bit_and op 0x01F8 == 0x0080))
            (sized refl (omega arith) (omega arith))
            (either ((shr32 op 12) == 0xB && bit_and op 0x01F8 == 0x0180)
              (sized refl (omega arith) (omega arith))
              (either ((shr32 op 12) == 0xC && (bit_and op 0x01F8 == 0x0080))
                (sized refl (omega arith) (omega arith))
                (either ((shr32 op 12) == 0xD && (bit_and op 0x01F8 == 0x0080))
                  (sized refl (omega arith) (omega arith)) bad)))))

  decode_op-IsSized : IsSized (decode_op env addr op)
  unfolding decode_op
  decode_op-IsSized =
      either ((shr32 op 12) == 0)
        (either (bit_and op 0xFFF8 == 0x0C80)
          (after_read (memory_read_uint32 env (add32 addr 2))
            λ w. sized refl (omega arith) (omega arith))
          bad)
        (either (ltb (shr32 op 12) 4) decode_move-IsSized (
          either ((shr32 op 12) == 4) decode_4-IsSized (
            either ((shr32 op 12) == 5) decode_5-IsSized (
              either ((shr32 op 12) == 6) decode_6-IsSized (
                either ((shr32 op 12) == 7) (sized refl (omega arith) (omega arith)) (
                  either ((shr32 op 12) == 0xE)
                    (either (bit_and (shr32 op 6) 3 == 2 && op_sm op == 1)
                      (sized
                        (two_ids (bit_and op 0x100 == 0) Elidable.lsr_l_imm Elidable.lsl_l_imm refl
                          refl)
                        (omega arith) (omega arith))
                      bad)
                    decode_dd-IsSized))))))

pub mpd_decode-Sized : (env : Env) (addr : ℕ) → After (mpd_decode env addr) Sized
unfolding mpd_decode
mpd_decode-Sized env addr =
    (after_read (memory_read_uint16 env addr) (decode_op-IsSized env addr)).after
