-- ===== src/M68k/Pd/Fuel.antt =====
-- The loops of m68k/m68k_pd_impl.h without a number of rounds, and that they end.
use emu_core_bench.Base.{
  ℕ, zero, suc, ◌+◌, ◌-◌, ◌*◌, ◌≤◌, ◌<◌, ◌≡◌, refl, inl, inr, arith, true, false, Fault, ok, fatal,
  Outcome, After, After-weaken, ltb, shr32, Bool-cases, ◌>>=◌,
}
use emu_core_bench.Memory.{Env}
use emu_core_bench.M68k.Pd.Format.{MpdEnt}
use emu_core_bench.M68k.Pd.Decode.{mpd_decode}
use emu_core_bench.M68k.Pd.Run.{
  MpdTable, mpd_entries, mpd_region_bytes, put_id, fill_words, mpd_fill, mpd_writes_all_nzvc,
  elided, mpd_elide_pass,
}
use emu_core_bench.M68k.Pd.Sized.{Sized, mpd_decode-Sized}
use emu_core_bench.M68k.Pd.Fill.{Chain, head_at, mpd_fill-Chain}

-- What the loop on `w` leaves of the table after the instruction at `addr`.
abbrev pub words_filled : MpdTable → ℕ → MpdEnt × ℕ → Outcome MpdTable
words_filled tab addr r = fill_words (r.1 - 1) (shr32 addr 1 + 1) (head_at tab addr r)

-- `Fills env tab addr out`: the decoding loop, with the table and `addr` so, comes to its end or
-- to a fault, and `out` is what it gives. A loop that goes on for ever has no derivation.
pub data Fills (env : Env) : MpdTable → ℕ → Outcome MpdTable → Type 0 where
  done : {tab : MpdTable} {addr : ℕ} → mpd_region_bytes ≤ addr → Fills env tab addr (ok tab)
  decode_fault :
      {tab : MpdTable} {addr : ℕ} {e : Fault}
      → addr < mpd_region_bytes
      → mpd_decode env addr ≡ fatal e
      → Fills env tab addr (fatal e)
  words_fault :
      {tab : MpdTable} {addr : ℕ} {r : MpdEnt × ℕ} {e : Fault}
      → addr < mpd_region_bytes
      → mpd_decode env addr ≡ ok r
      → words_filled tab addr r ≡ fatal e
      → Fills env tab addr (fatal e)
  again :
      {tab t : MpdTable} {addr : ℕ} {r : MpdEnt × ℕ} {out : Outcome MpdTable}
      → addr < mpd_region_bytes
      → mpd_decode env addr ≡ ok r
      → words_filled tab addr r ≡ ok t
      → Fills env t (addr + r.1 * 2) out
      → Fills env tab addr out

-- The loop of `mpd_elide_pass` from `idx`, likewise.
pub data Elides (len : ℕ → ℕ) : (ℕ → MpdEnt) → ℕ → (ℕ → MpdEnt) → Type 0 where
  past : {t : ℕ → MpdEnt} {idx : ℕ} → mpd_entries ≤ idx → Elides len t idx t
  last :
      {t : ℕ → MpdEnt} {idx : ℕ}
      → idx < mpd_entries
      → mpd_entries ≤ idx + len idx
      → Elides len t idx t
  dead :
      {t out : ℕ → MpdEnt} {idx : ℕ}
      → idx < mpd_entries
      → idx + len idx < mpd_entries
      → mpd_writes_all_nzvc (t (idx + len idx)).id ≡ true
      → Elides len (put_id t idx (elided (t idx).id)) (idx + len idx) out
      → Elides len t idx out
  live :
      {t out : ℕ → MpdEnt} {idx : ℕ}
      → idx < mpd_entries
      → idx + len idx < mpd_entries
      → mpd_writes_all_nzvc (t (idx + len idx)).id ≡ false
      → Elides len t (idx + len idx) out
      → Elides len t idx out

module _ (env : Env) where
  words_step :
      (fuel : ℕ) (tab : MpdTable) (addr : ℕ) (r : MpdEnt × ℕ)
      → addr < mpd_region_bytes
      → mpd_decode env addr ≡ ok r
      → ((t : MpdTable) → Fills env t (addr + r.1 * 2) (mpd_fill fuel env t (addr + r.1 * 2)))
      → (w : Outcome MpdTable) → words_filled tab addr r ≡ w
      → Fills env tab addr (w >>= λ t. mpd_fill fuel env t (addr + r.1 * 2))
  words_step fuel tab addr r inside d next (ok t) e = again inside d e (next t)
  words_step fuel tab addr r inside d next (fatal f) e = words_fault inside d e

  decode_step :
      (fuel : ℕ) (tab : MpdTable) (addr : ℕ)
      → addr < mpd_region_bytes
      → ((r : MpdEnt × ℕ)
          → Sized r
          → (t : MpdTable) → Fills env t (addr + r.1 * 2) (mpd_fill fuel env t (addr + r.1 * 2)))
      → (d : Outcome (MpdEnt × ℕ)) → mpd_decode env addr ≡ d
      → Fills env tab addr
          (d >>= λ r. words_filled tab addr r >>= λ t. mpd_fill fuel env t (addr + r.1 * 2))
  decode_step fuel tab addr inside next (fatal f) e = decode_fault inside e
  decode_step fuel tab addr inside next (ok r) e =
      let sized : Sized r = rw e at (mpd_decode-Sized env addr) in
      words_step fuel tab addr r inside e (next r sized) (words_filled tab addr r) refl

  fill-Fills :
      (fuel : ℕ) (tab : MpdTable) (addr : ℕ)
      → mpd_region_bytes ≤ addr + fuel * 2
      → Fills env tab addr (mpd_fill fuel env tab addr)
  unfolding mpd_fill
  fill-Fills zero tab addr h = done (omega (arith, h))
  fill-Fills (suc fuel) tab addr h = elim (Bool-cases (ltb addr mpd_region_bytes)) [
    | inr out ↦ rw out (done (ground (arith, out)))
    | inl ins ↦ rw ins (
        decode_step fuel tab addr (ground (arith, ins))
          (λ r sized t. fill-Fills fuel t (addr + r.1 * 2) (omega (arith, h, sized.1)))
          (mpd_decode env addr) refl)
  ]

pass-Elides :
    (fuel : ℕ) (len : ℕ → ℕ) (t0 t : ℕ → MpdEnt) (idx : ℕ)
    → Chain fuel t0 len idx
    → mpd_entries ≤ idx + fuel
    → Elides len t idx (mpd_elide_pass fuel len t idx)
unfolding mpd_elide_pass
pass-Elides zero len t0 t idx chain h = past (omega (arith, h))
pass-Elides (suc fuel) len t0 t idx (head, rest) h = elim (Bool-cases (ltb idx mpd_entries)) [
  | inr out ↦ rw out (past (ground (arith, out)))
  | inl ins ↦ elim (Bool-cases (ltb (idx + len idx) mpd_entries)) [
    | inr out ↦ rw (ins, out) (last (ground (arith, ins)) (ground (arith, out)))
    | inl next ↦
        let inside : idx < mpd_entries = ground (arith, ins) in
        let more : idx + len idx < mpd_entries = ground (arith, next) in
        let room : mpd_entries ≤ idx + len idx + fuel = omega (arith, h, (head inside).1) in
        elim (Bool-cases (mpd_writes_all_nzvc (t (idx + len idx)).id)) [
          | inl e ↦
              rw (ins, next, e)
                (dead inside more e (pass-Elides fuel len t0 _ (idx + len idx) rest room))
          | inr e ↦
              rw (ins, next, e)
                (live inside more e (pass-Elides fuel len t0 t (idx + len idx) rest room))
        ]
  ]
]

-- For every memory and whatever the tables held: the decoding loop comes to its end or to a fault,
-- and where it comes to its end, so does the pass on the table that it leaves; what they give is
-- what the model computes in as many rounds as the table has entries.
pub loops_end :
    (env : Env) (tab : MpdTable)
    → Fills env tab 0 (mpd_fill mpd_entries env tab 0)
      × After
          (mpd_fill mpd_entries env tab 0)
          (λ t. Elides t.len t.ent 0 (mpd_elide_pass mpd_entries t.len t.ent 0))
loops_end env tab = (
  fill-Fills env mpd_entries tab 0 (omega arith),
  After-weaken (λ t. Chain mpd_entries t.ent t.len 0) _ (mpd_fill mpd_entries env tab 0)
      (mpd_fill-Chain mpd_entries env tab 0)
      (λ t chain. pass-Elides mpd_entries t.len t.ent t.ent 0 chain (omega arith)),
)
