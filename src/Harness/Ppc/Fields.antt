-- ===== src/Harness/Ppc/Fields.antt =====
-- What the field extractors of ppc/ppc_ops.h read from the encoders of ppc/bench_main.c.
use emu_core_bench.Base.{
  ℕ, ◌+◌, ◌*◌, ◌/◌, ◌%◌, ◌^◌, ◌<◌, ◌≡◌, ◌∙◌, arith, bit_and, bit_or, shl32, shr32, bit_and_ones,
  bit_or_disjoint, bit_and_fields, bit_and-zero, ap, sym,
}
use emu_core_bench.Ppc.Ops.{p_rd, p_ra, p_rb, p_uimm}
use emu_core_bench.Harness.Ppc.Encode.{e_d, e_x, e_rlwinm, e_bc}

-- The extractors as remainders of quotients.
p_rd_lem : (w : ℕ) → p_rd w ≡ w / 2 ^ 21 % 2 ^ 5
p_rd_lem w = bit_and_ones 5 (shr32 w 21)

p_ra_lem : (w : ℕ) → p_ra w ≡ w / 2 ^ 16 % 2 ^ 5
p_ra_lem w = bit_and_ones 5 (shr32 w 16)

p_rb_lem : (w : ℕ) → p_rb w ≡ w / 2 ^ 11 % 2 ^ 5
p_rb_lem w = bit_and_ones 5 (shr32 w 11)

p_uimm_lem : (w : ℕ) → p_uimm w ≡ w % 2 ^ 16
p_uimm_lem w = bit_and_ones 16 w

-- The three upper fields, with a lower half of sixteen bits.
abbrev word : ℕ → ℕ → ℕ → ℕ → ℕ
word op d a low = ((op * 2 ^ 5 + d) * 2 ^ 5 + a) * 2 ^ 16 + low

module _ (op d a : ℕ) (ho : op < 64) (hd : d < 32) (ha : a < 32) where
  upper :
      bit_or (bit_or (shl32 op 26) (shl32 d 21)) (shl32 a 16)
      ≡ ((op * 2 ^ 5 + d) * 2 ^ 5 + a) * 2 ^ 16
  upper =
      rw
        (
          bit_or_disjoint 26 (shl32 op 26) (shl32 d 21) (omega arith) (omega arith),
          bit_or_disjoint 21 (shl32 op 26 + shl32 d 21) (shl32 a 16) (omega arith) (omega arith),
        )
        (omega arith)

  -- A lower half of sixteen bits.
  upper-low :
      (low : ℕ)
      → low < 2 ^ 16
      → bit_or (bit_or (bit_or (shl32 op 26) (shl32 d 21)) (shl32 a 16)) low ≡ word op d a low
  upper-low low h = rw upper (bit_or_disjoint 16 _ low (omega arith) h)

  -- For an opcode of six bits, registers of five and any immediate: `E_D` gives a 32-bit word
  -- from which the switch reads that opcode, and the extractors those registers and the low half
  -- of the immediate.
  pub e_d-fields :
      (imm : ℕ)
      → (e_d op d a imm < 2 ^ 32)
        × (shr32 (e_d op d a imm) 26 ≡ op)
        × (p_rd (e_d op d a imm) ≡ d)
        × (p_ra (e_d op d a imm) ≡ a)
        × (p_uimm (e_d op d a imm) ≡ imm % 2 ^ 16)
  unfolding e_d
  e_d-fields imm =
      let low = bit_and_ones 16 imm in
      rw (low, upper-low (imm % 2 ^ 16) (omega arith), p_rd_lem, p_ra_lem, p_uimm_lem) (omega arith)

-- For registers of five bits, an extended opcode of ten and a record bit: `E_X` gives a 32-bit
-- word of opcode 31 from which the extractors read those registers and the nested switch the
-- extended opcode with the record bit.
pub e_x-fields :
    (d a b xo rc : ℕ)
    → d < 32
    → a < 32
    → b < 32
    → xo < 1024
    → rc < 2
    → (e_x d a b xo rc < 2 ^ 32)
      × (shr32 (e_x d a b xo rc) 26 ≡ 31)
      × (p_rd (e_x d a b xo rc) ≡ d)
      × (p_ra (e_x d a b xo rc) ≡ a)
      × (p_rb (e_x d a b xo rc) ≡ b)
      × (bit_and (e_x d a b xo rc) 0x7FF ≡ xo * 2 + rc)
unfolding e_x
e_x-fields d a b xo rc hd ha hb hx hr =
    let w = ((31 * 2 ^ 5 + d) * 2 ^ 5 + a) * 2 ^ 16 in
    rw
      (
        upper 31 d a (omega arith) hd ha,
        bit_or_disjoint 16 w (shl32 b 11) (omega arith) (omega arith),
        bit_or_disjoint 11 (w + shl32 b 11) (shl32 xo 1) (omega arith) (omega arith),
        bit_or_disjoint 1 (w + shl32 b 11 + shl32 xo 1) rc (omega arith) (omega arith),
        p_rd_lem,
        p_ra_lem,
        p_rb_lem,
        bit_and_ones 11,
      )
      (omega arith)

-- For fields of five bits: `E_RLWINM` gives a 32-bit word of opcode 21 from which the extractors
-- read the source, the target and the shift, and `GEN_RLWINM` the ends of the mask.
pub e_rlwinm-fields :
    (a s sh mb me : ℕ)
    → a < 32
    → s < 32
    → sh < 32
    → mb < 32
    → me < 32
    → (e_rlwinm a s sh mb me < 2 ^ 32)
      × (shr32 (e_rlwinm a s sh mb me) 26 ≡ 21)
      × (p_rd (e_rlwinm a s sh mb me) ≡ s)
      × (p_ra (e_rlwinm a s sh mb me) ≡ a)
      × (p_rb (e_rlwinm a s sh mb me) ≡ sh)
      × (bit_and (shr32 (e_rlwinm a s sh mb me) 6) 31 ≡ mb)
      × (bit_and (shr32 (e_rlwinm a s sh mb me) 1) 31 ≡ me)
unfolding e_rlwinm
e_rlwinm-fields a s sh mb me ha hs hh hb he =
    let w = ((21 * 2 ^ 5 + s) * 2 ^ 5 + a) * 2 ^ 16 in
    rw
      (
        upper 21 s a (omega arith) hs ha,
        bit_or_disjoint 16 w (shl32 sh 11) (omega arith) (omega arith),
        bit_or_disjoint 11 (w + shl32 sh 11) (shl32 mb 6) (omega arith) (omega arith),
        bit_or_disjoint 6 (w + shl32 sh 11 + shl32 mb 6) (shl32 me 1) (omega arith) (omega arith),
        p_rd_lem,
        p_ra_lem,
        p_rb_lem,
        bit_and_ones 5,
        bit_and_ones 5,
      )
      (omega arith)

-- A lower half is read through a mask as it stands alone.
low_mask :
    (op d a low mask : ℕ)
    → low < 2 ^ 16
    → mask < 2 ^ 16
    → bit_and (word op d a low) mask ≡ bit_and low mask
low_mask op d a low mask hl hm =
    let alone : 0 * 2 ^ 16 + mask ≡ mask = omega arith in
    let split = bit_and_fields 16 ((op * 2 ^ 5 + d) * 2 ^ 5 + a) low 0 mask hl hm in
    ap (λ t. bit_and (word op d a low) t) (sym alone)
    ∙ split
    ∙ rw (bit_and-zero ((op * 2 ^ 5 + d) * 2 ^ 5 + a)) (omega arith)

-- For fields of five bits and an offset of sixteen that is a multiple of four: `E_BC` gives a
-- 32-bit word of opcode 16 from which the extractors read BO and BI, and `GEN_BC` the offset,
-- with the AA and LK bits clear.
pub e_bc-fields :
    (bo bi off : ℕ)
    → bo < 32
    → bi < 32
    → off < 2 ^ 16
    → bit_and off 0xFFFC ≡ off
    → bit_and off 3 ≡ 0
    → (e_bc bo bi off < 2 ^ 32)
      × (shr32 (e_bc bo bi off) 26 ≡ 16)
      × (p_rd (e_bc bo bi off) ≡ bo)
      × (p_ra (e_bc bo bi off) ≡ bi)
      × (bit_and (e_bc bo bi off) 0xFFFC ≡ off)
      × (bit_and (e_bc bo bi off) 3 ≡ 0)
unfolding e_bc
e_bc-fields bo bi off ho hi small whole clear =
    rw (whole, upper-low 16 bo bi (omega arith) ho hi off small)
      (
        omega arith,
        omega arith,
        p_rd_lem (word 16 bo bi off) ∙ omega arith,
        p_ra_lem (word 16 bo bi off) ∙ omega arith,
        low_mask 16 bo bi off 0xFFFC small (omega arith) ∙ whole,
        low_mask 16 bo bi off 3 small (omega arith) ∙ clear,
      )
