-- ===== src/M68k/Pd/Total.antt =====
-- The decoding loop of m68k/m68k_pd_impl.h where the instructions that it comes to end with the region.
use emu_core_bench.Base.{
  ℕ, zero, suc, ◌+◌, ◌-◌, ◌≤◌, ◌≡◌, arith, true, false, Returns, Returns-bind, ltb, shr32,
}
use emu_core_bench.Memory.{Env}
use emu_core_bench.M68k.Pd.Run.{MpdTable, mpd_region_bytes, mpd_entries, fill_words, mpd_fill}
use emu_core_bench.M68k.Pd.Sized.{Sized, mpd_decode-Sized}
use emu_core_bench.M68k.Pd.Heads.{Walk, here, round, Walk-le}

pub fill_words-returns :
    (k i : ℕ) (tab : MpdTable) → i + k ≤ mpd_entries → Returns (fill_words k i tab) (λ _. Unit {0})
unfolding fill_words
fill_words-returns zero i tab h = tt
fill_words-returns (suc k) i tab h =
    let inside : ltb i mpd_entries ≡ true = ground (arith, h) in
    rw inside (fill_words-returns k (i + 1) _ (omega (arith, h)))

-- Then the loop ends in no fault, whatever rounds it is given.
pub mpd_fill-returns :
    (fuel : ℕ) (env : Env) (tab : MpdTable) {addr : ℕ}
    → Walk env addr mpd_region_bytes
    → Returns (mpd_fill fuel env tab addr) (λ _. Unit {0})
unfolding mpd_fill
mpd_fill-returns zero env tab w = tt
mpd_fill-returns (suc fuel) env tab {addr} (here e) =
    let out : ltb addr mpd_region_bytes ≡ false = ground (arith, e) in rw out tt
mpd_fill-returns (suc fuel) env tab {addr} (round r e w) =
    let sized : Sized r = rw e at (mpd_decode-Sized env addr) in
    let inside : ltb addr mpd_region_bytes ≡ true = ground (arith, Walk-le w, sized.1) in
    rw (inside, e)
      (Returns-bind (λ _. Unit {0}) (λ _. Unit {0}) (fill_words (r.1 - 1) (shr32 addr 1 + 1) _) _
        (fill_words-returns (r.1 - 1) (shr32 addr 1 + 1) _ (omega (arith, Walk-le w, sized.1)))
        λ t _. mpd_fill-returns fuel env t w)
