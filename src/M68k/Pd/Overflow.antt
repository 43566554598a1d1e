-- ===== src/M68k/Pd/Overflow.antt =====
-- The write of m68k/m68k_pd_impl.h past its table.
use emu_core_bench.Base.{
  ℕ, Bool-cases, inl, inr, zero, suc, ◌+◌, ◌-◌, ◌*◌, ◌%◌, ◌≤◌, ◌<◌, ◌≡◌, refl, arith, true, Fault,
  ok, fatal, Returns-ok, ltb, shr32,
}
use emu_core_bench.Memory.{Env}
use emu_core_bench.M68k.Pd.Format.{MpdEnt}
use emu_core_bench.M68k.Pd.Decode.{mpd_decode}
use emu_core_bench.M68k.Pd.Run.{MpdTable, mpd_entries, mpd_region_bytes, fill_words, mpd_fill}
use emu_core_bench.M68k.Pd.Sized.{Sized, mpd_decode-Sized}
use emu_core_bench.M68k.Pd.Fill.{head_at}
use emu_core_bench.M68k.Pd.Heads.{Walk, here, round, Walk-le}
use emu_core_bench.M68k.Pd.Total.{fill_words-returns}

fill_words-past :
    (k i : ℕ) (tab : MpdTable)
    → i ≤ mpd_entries
    → mpd_entries < i + k
    → fill_words k i tab ≡ fatal Fault.out_of_bounds
unfolding fill_words
fill_words-past zero i tab low past = absurd (omega (arith, low, past))
fill_words-past (suc k) i tab low past = elim (Bool-cases (ltb i mpd_entries)) [
  | inr out ↦ rw out refl
  | inl ins ↦ rw ins (fill_words-past k (i + 1) _ (ground (arith, ins)) (omega (arith, past)))
]

module _ (env : Env) (b : ℕ) (r : MpdEnt × ℕ) (inside : b < mpd_region_bytes)
    (at : mpd_decode env b ≡ ok r) (over : mpd_region_bytes < b + r.1 * 2) where
  fill_overflows :
      (fuel : ℕ) (tab : MpdTable) {addr : ℕ}
      → addr % 2 ≡ 0
      → Walk env addr b
      → mpd_region_bytes ≤ addr + fuel * 2
      → mpd_fill fuel env tab addr ≡ fatal Fault.out_of_bounds
  unfolding mpd_fill
  fill_overflows zero tab even w h = absurd (omega (arith, h, inside, Walk-le w))
  fill_overflows (suc fuel) tab {addr} even (here e) h =
      let ins : ltb b mpd_region_bytes ≡ true = ground (arith, inside) in
      let past : fill_words (r.1 - 1) (shr32 b 1 + 1) (head_at tab b r)
          ≡ fatal Fault.out_of_bounds =
        fill_words-past (r.1 - 1) (shr32 b 1 + 1) _ (omega (arith, inside))
          (omega (arith, over, even, e)) in
      rw (e, ins, at, past) refl
  fill_overflows (suc fuel) tab {addr} even (round q e w) h =
      let sized : Sized q = rw e at (mpd_decode-Sized env addr) in
      let ins : ltb addr mpd_region_bytes ≡ true = ground (arith, Walk-le w, inside) in
      let (t, filled, _) =
        Returns-ok (λ _. Unit {0}) (fill_words (q.1 - 1) (shr32 addr 1 + 1) (head_at tab addr q))
          (fill_words-returns (q.1 - 1) (shr32 addr 1 + 1) _
            (omega (arith, Walk-le w, inside, sized.1, even))) in
      rw (ins, e, filled)
        (fill_overflows fuel t (omega (arith, even)) w (omega (arith, h, sized.1)))

-- For every memory and whatever the table held: where an instruction that decoding from address
-- zero comes to starts in the region and ends past it, the decoding loop writes past the end of its
-- table.
pub mpd_fill_overflows :
    (env : Env) (tab : MpdTable) (b : ℕ) (r : MpdEnt × ℕ)
    → Walk env 0 b
    → b < mpd_region_bytes
    → mpd_decode env b ≡ ok r
    → mpd_region_bytes < b + r.1 * 2
    → mpd_fill mpd_entries env tab 0 ≡ fatal Fault.out_of_bounds
mpd_fill_overflows env tab b r w inside at over =
    fill_overflows env b r inside at over mpd_entries tab refl w (omega arith)
