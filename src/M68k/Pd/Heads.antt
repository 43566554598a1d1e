-- ===== src/M68k/Pd/Heads.antt =====
-- The instructions that the decoding loop of m68k/m68k_pd_impl.h comes to, and their entries in the
-- table that it leaves.
use emu_core_bench.Base.{
  ℕ, zero, suc, ◌>>=◌, ap, ◌%◌, ◌+◌, ◌-◌, ◌*◌, ◌≤◌, ◌<◌, ◌≡◌, refl, sym, arith, true, After,
  After-bind, After-bind_all, After-weaken, After-both, Returns, Outcome, ok, fatal, ltb, shr32,
}
use emu_core_bench.Memory.{Env, memory_read_uint16}
use emu_core_bench.M68k.Pd.Format.{MpdEnt}
use emu_core_bench.M68k.Pd.Decode.{Decoded, mpd_decode, decode_op}
use emu_core_bench.M68k.Pd.Run.{MpdTable, mpd_region_bytes, fill_words, mpd_fill}
use emu_core_bench.M68k.Pd.Sized.{Sized, mpd_decode-Sized}
use emu_core_bench.M68k.Pd.Fill.{
  KeepsBelow, head_at, fill_words-KeepsBelow, head_kept, Filled, mpd_fill-Filled,
}

-- Decoding one instruction after another leads from the first address to the second.
pub data Walk (env : Env) : ℕ → ℕ → Type 0 where
  here : {a b : ℕ} → a ≡ b → Walk env a b
  round :
      {a b : ℕ} (r : MpdEnt × ℕ) → mpd_decode env a ≡ ok r → Walk env (a + r.1 * 2) b → Walk env a b

pub Walk-join : {env : Env} {a b c : ℕ} → Walk env a b → Walk env b c → Walk env a c
Walk-join (here e) w = rw e w
Walk-join (round r e w) w' = round r e (Walk-join w w')

pub Walk-le : {env : Env} {a b : ℕ} → Walk env a b → a ≤ b
Walk-le (here e) = omega (arith, e)
Walk-le (round r e w) = omega (arith, Walk-le w)

-- The decoder comes through empty words.
pub blank-Walk :
    (env : Env) (n a b : ℕ)
    → a + 2 * n ≡ b
    → a % 2 ≡ 0
    → ((c : ℕ) → a ≤ c → c < b → c % 2 ≡ 0 → memory_read_uint16 env c ≡ ok 0)
    → Walk env a b
unfolding mpd_decode decode_op
blank-Walk env zero a b at even empty = here (omega (arith, at))
blank-Walk env (suc n) a b at even empty =
    let op = empty a (omega arith) (omega (arith, at)) even in
    round _ (ap {B = Decoded} (λ r. r >>= λ op. decode_op env a op) op) (
      blank-Walk env n (a + 1 * 2) b (omega (arith, at)) (omega (arith, even))
        (λ c low. empty c (omega (arith, low))))

known_value : {A : Type 0} (r : Outcome A) → After r (λ a. r ≡ ok a)
known_value (ok a) = refl
known_value (fatal e) = tt

-- The table holds at the address the entry that is decoded there.
abbrev pub Holds : Env → ℕ → MpdTable → Type 0
Holds env b t = Returns (mpd_decode env b) (λ r. t.ent (shr32 b 1) ≡ r.0)

-- A round's own instruction.
fill-head :
    (fuel : ℕ) (env : Env) (tab : MpdTable) (addr : ℕ)
    → addr < mpd_region_bytes
    → After (mpd_fill (suc fuel) env tab addr) (Holds env addr)
unfolding mpd_fill
fill-head fuel env tab addr inside =
    let ins : ltb addr mpd_region_bytes ≡ true = ground arith in
    rw ins (
      After-bind (λ r. (mpd_decode env addr ≡ ok r) × Sized r) (Holds env addr)
        (mpd_decode env addr) _
        (After-both (λ r. mpd_decode env addr ≡ ok r) Sized (mpd_decode env addr)
          (known_value (mpd_decode env addr)) (mpd_decode-Sized env addr))
        λ r (e, z).
          After-bind (KeepsBelow (shr32 addr 1 + 1) (head_at tab addr r)) (Holds env addr)
            (fill_words (r.1 - 1) (shr32 addr 1 + 1) (head_at tab addr r)) _
            (fill_words-KeepsBelow (r.1 - 1) (shr32 addr 1 + 1) (head_at tab addr r))
            λ t k.
              After-weaken (Filled fuel t (addr + r.1 * 2)) (Holds env addr)
                (mpd_fill fuel env t (addr + r.1 * 2)) (mpd_fill-Filled fuel env t (addr + r.1 * 2))
                (λ t' f. rw e (head_kept tab addr r z t t' k f.0).0))

-- Every instruction that the loop comes to is in the table.
pub fill-Holds :
    (fuel : ℕ) (env : Env) (tab : MpdTable) (addr b : ℕ)
    → Walk env addr b
    → b < mpd_region_bytes
    → mpd_region_bytes ≤ addr + fuel * 2
    → After (mpd_fill fuel env tab addr) (Holds env b)
unfolding mpd_fill
fill-Holds zero env tab addr b w inside enough = absurd (omega (arith, Walk-le w))
fill-Holds (suc fuel) env tab addr b (here e) inside enough =
    rw (sym e) (fill-head fuel env tab addr (omega (arith, e)))
fill-Holds (suc fuel) env tab addr b (round r e w) inside enough =
    let ins : ltb addr mpd_region_bytes ≡ true = ground (arith, Walk-le w) in
    let sized : Sized r = rw e at (mpd_decode-Sized env addr) in
    rw (ins, e)
      (After-bind_all (Holds env b) (fill_words (r.1 - 1) (shr32 addr 1 + 1) (head_at tab addr r)) _
        λ t. fill-Holds fuel env t (addr + r.1 * 2) b w inside (omega (arith, enough, sized.1)))
