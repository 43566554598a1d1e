-- ===== src/M68k/Pd/Ends.antt =====
-- What the decoding loop of m68k/m68k_pd_impl.h ends in does not depend on what the table held.
use emu_core_bench.Base.{
  ℕ, zero, suc, ◌+◌, ◌-◌, ◌*◌, refl, inl, inr, Bool-cases, BothEnd, BothEnd-same, BothEnd-bind, ltb,
  shr32,
}
use emu_core_bench.Memory.{Env}
use emu_core_bench.M68k.Pd.Decode.{mpd_decode}
use emu_core_bench.M68k.Pd.Run.{MpdTable, mpd_entries, mpd_region_bytes, fill_words, mpd_fill}
use emu_core_bench.M68k.Pd.Fill.{head_at}

abbrev Any : MpdTable → MpdTable → Type 0
Any t t' = Unit

fill_words-ends :
    (k i : ℕ) (tab tab' : MpdTable) → BothEnd Any (fill_words k i tab) (fill_words k i tab')
unfolding fill_words
fill_words-ends zero i tab tab' = tt
fill_words-ends (suc k) i tab tab' = elim (Bool-cases (ltb i mpd_entries)) [
  | inl e ↦ rw e (fill_words-ends k (i + 1) _ _)
  | inr e ↦ rw e refl
]

pub mpd_fill-ends :
    (fuel : ℕ) (env : Env) (tab tab' : MpdTable) (addr : ℕ)
    → BothEnd
        (λ (t t' : MpdTable). Unit {0})
        (mpd_fill fuel env tab addr)
        (mpd_fill fuel env tab' addr)
unfolding mpd_fill
mpd_fill-ends zero env tab tab' addr = tt
mpd_fill-ends (suc fuel) env tab tab' addr = elim (Bool-cases (ltb addr mpd_region_bytes)) [
  | inr e ↦ rw e tt
  | inl e ↦ rw e (
      BothEnd-same Any (mpd_decode env addr) _ _ λ r.
        BothEnd-bind Any Any (fill_words (r.1 - 1) (shr32 addr 1 + 1) (head_at tab addr r))
          (fill_words (r.1 - 1) (shr32 addr 1 + 1) (head_at tab' addr r)) _ _
          (fill_words-ends (r.1 - 1) (shr32 addr 1 + 1) (head_at tab addr r) (head_at tab' addr r))
          λ t t' _. mpd_fill-ends fuel env t t' (addr + r.1 * 2))
]
