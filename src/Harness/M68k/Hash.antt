-- ===== src/Harness/M68k/Hash.antt =====
-- What the hash of m68k/bench_main.c tells apart.
use emu_core_bench.Base.{
  ℕ, zero, suc, ◌+◌, ◌*◌, ◌/◌, ◌%◌, ◌^◌, ◌<◌, ◌≡◌, refl, sym, ap, ◌∙◌, arith, Bool, true, false,
  bit_xor, bit_xor-cancel, bit_xor-lt, bit_xor_comm, if◌then◌else◌,
}
use emu_core_bench.Memory.{load32}
use emu_core_bench.M68k.State.{M68kMachine, set_pc}
use emu_core_bench.Harness.M68k.Setup.{mix, mix_regs, mix_flags, mix_ram, state_hash, ram_size}

-- The factor of `MIX` has an inverse.
unmix : (x : ℕ) → x < 2 ^ 64 → x * 0x100_0000_01B3 % 2 ^ 64 * 0xCE96_5057_AFF6_957B % 2 ^ 64 ≡ x
unmix x h = omega arith

factor-cancel :
    (x y : ℕ)
    → x < 2 ^ 64
    → y < 2 ^ 64
    → x * 0x100_0000_01B3 % 2 ^ 64 ≡ y * 0x100_0000_01B3 % 2 ^ 64
    → x ≡ y
factor-cancel x y hx hy h =
    sym (unmix x hx) ∙ ap (λ t. t * 0xCE96_5057_AFF6_957B % 2 ^ 64) h ∙ unmix y hy

mix-lt : (h v : ℕ) → mix h v < 2 ^ 64
unfolding mix
mix-lt h v = omega arith

mix-cancel : (h v w : ℕ) → h < 2 ^ 64 → v < 2 ^ 64 → w < 2 ^ 64 → mix h v ≡ mix h w → v ≡ w
unfolding mix
mix-cancel h v w hh hv hw e = bit_xor-cancel 64 h v w hv hw (
    factor-cancel (bit_xor h v) (bit_xor h w) (bit_xor-lt 64 h v hh hv) (bit_xor-lt 64 h w hh hw) e)

mix-cancel_hash : (h g v : ℕ) → h < 2 ^ 64 → g < 2 ^ 64 → v < 2 ^ 64 → mix h v ≡ mix g v → h ≡ g
unfolding mix
mix-cancel_hash h g v hh hg hv e =
    let same : bit_xor h v ≡ bit_xor g v =
      factor-cancel (bit_xor h v) (bit_xor g v) (bit_xor-lt 64 h v hh hv) (bit_xor-lt 64 g v hg hv)
        e in
    bit_xor-cancel 64 v h g hh hg (bit_xor_comm 64 v h hv hh ∙ same ∙ bit_xor_comm 64 g v hg hv)

mix_regs-lt : (n i : ℕ) (regs : ℕ → ℕ) (h : ℕ) → h < 2 ^ 64 → mix_regs n i regs h < 2 ^ 64
unfolding mix_regs
mix_regs-lt zero i regs h hh = hh
mix_regs-lt (suc n) i regs h hh = mix_regs-lt n (i + 1) regs (mix h (regs i)) (mix-lt h (regs i))

-- Bytes of eight bits and codes of 32: what a `uint8_t` and a `uint32_t` hold.
pub record WordSized (m : M68kMachine) : Type 0 where
  pub bytes : (q : ℕ) → m.mem.host q < 2 ^ 8
  pub n_word : m.cpu.n < 2 ^ 32
  pub z_word : m.cpu.z < 2 ^ 32
  pub v_word : m.cpu.v < 2 ^ 32
  pub cf_word : m.cpu.cf < 2 ^ 32
  pub x_word : m.cpu.x < 2 ^ 32

module _ (host : ℕ → ℕ) (bytes : (q : ℕ) → host q < 2 ^ 8) where
  load32-lt : (p : ℕ) → load32 host p < 2 ^ 32
  load32-lt p = omega (arith, bytes p, bytes (p + 1), bytes (p + 2), bytes (p + 3))

  mix_ram-cancel :
      (n p h g : ℕ) → h < 2 ^ 64 → g < 2 ^ 64 → mix_ram n p host h ≡ mix_ram n p host g → h ≡ g
  unfolding mix_ram
  mix_ram-cancel zero p h g hh hg e = e
  mix_ram-cancel (suc n) p h g hh hg e =
      let w = load32 host p + load32 host (p + 4) * 2 ^ 32 in
      mix-cancel_hash h g w hh hg (omega (arith, load32-lt p, load32-lt (p + 4)))
        (mix_ram-cancel n (p + 8) (mix h w) (mix g w) (mix-lt h w) (mix-lt g w) e)

mix_regs-cancel :
    (n j : ℕ) (regs : ℕ → ℕ) (h g : ℕ)
    → ((q : ℕ) → regs q < 2 ^ 32)
    → h < 2 ^ 64
    → g < 2 ^ 64
    → mix_regs n j regs h ≡ mix_regs n j regs g
    → h ≡ g
unfolding mix_regs
mix_regs-cancel zero j regs h g small hh hg e = e
mix_regs-cancel (suc n) j regs h g small hh hg e =
    mix-cancel_hash h g (regs j) hh hg (omega (arith, small j)) (
      mix_regs-cancel n (j + 1) regs (mix h (regs j)) (mix g (regs j)) small (mix-lt h (regs j))
        (mix-lt g (regs j)) e)

mix_regs-same :
    (n j i : ℕ) (regs regs' : ℕ → ℕ) (h : ℕ)
    → i < j
    → ((q : ℕ) → i < q → regs q ≡ regs' q)
    → mix_regs n j regs h ≡ mix_regs n j regs' h
unfolding mix_regs
mix_regs-same zero j i regs regs' h l same = refl
mix_regs-same (suc n) j i regs regs' h l same =
    rw (same j l) (mix_regs-same n (j + 1) i regs regs' (mix h (regs' j)) (omega arith) same)

module _ (i : ℕ) (regs regs' : ℕ → ℕ) (small : (q : ℕ) → regs q < 2 ^ 32)
    (small' : (q : ℕ) → regs' q < 2 ^ 32) (before : (q : ℕ) → q < i → regs q ≡ regs' q)
    (after : (q : ℕ) → i < q → regs q ≡ regs' q) where
  -- The registers from `j` on, `k` of them before the one that may differ.
  mix_regs-differ :
      (k n j h : ℕ)
      → j + k ≡ i
      → k < n
      → h < 2 ^ 64
      → mix_regs n j regs h ≡ mix_regs n j regs' h
      → regs i ≡ regs' i
  unfolding mix_regs
  mix_regs-differ k zero j h at l hh e = absurd (omega arith)
  mix_regs-differ zero (suc n) j h at l hh e =
      let here : j ≡ i = omega arith in
      let rest = mix_regs-same n (j + 1) i regs regs' (mix h (regs j)) (omega arith) after in
      let split =
        mix_regs-cancel n (j + 1) regs' (mix h (regs j)) (mix h (regs' j)) small'
          (mix-lt h (regs j)) (mix-lt h (regs' j)) (sym rest ∙ e) in
      rw (sym here) (
        mix-cancel h (regs j) (regs' j) hh (omega (arith, small j)) (omega (arith, small' j)) split)
  mix_regs-differ (suc k) (suc n) j h at l hh e =
      let eq = before j (omega arith) in
      mix_regs-differ k n (j + 1) (mix h (regs j)) (omega arith) (omega arith) (mix-lt h (regs j))
        (e ∙ ap (λ t. mix_regs n (j + 1) regs' (mix h t)) (sym eq))

-- `m` with another register file.
abbrev pub with_regs : M68kMachine → (ℕ → ℕ) → M68kMachine
with_regs m regs = record m { cpu = record m.cpu { regs = regs } }

module _ (m : M68kMachine) (sized : WordSized m) where
  mix_flags-cancel :
      (h g : ℕ) → h < 2 ^ 64 → g < 2 ^ 64 → mix_flags m.cpu h ≡ mix_flags m.cpu g → h ≡ g
  mix_flags-cancel h g hh hg e =
      let c = m.cpu in
      let step : (v a b : ℕ) → v < 2 ^ 32 → a < 2 ^ 64 → b < 2 ^ 64 → mix a v ≡ mix b v → a ≡ b =
        λ v a b hv ha hb. mix-cancel_hash a b v ha hb (omega arith) in
      step c.n h g sized.n_word hh hg (
        step c.z _ _ sized.z_word (mix-lt _ _) (mix-lt _ _) (
          step c.v _ _ sized.v_word (mix-lt _ _) (mix-lt _ _) (
            step c.cf _ _ sized.cf_word (mix-lt _ _) (mix-lt _ _)
              (step c.x _ _ sized.x_word (mix-lt _ _) (mix-lt _ _) e))))

  -- The hash after the registers and the pc is seen in the whole hash.
  prefix-cancel :
      (g_ram : ℕ) (f : Bool) (h g : ℕ)
      → h < 2 ^ 64
      → g < 2 ^ 64
      → mix_ram (ram_size / 8) g_ram m.mem.host (if f then mix_flags m.cpu h else h)
        ≡ mix_ram (ram_size / 8) g_ram m.mem.host (if f then mix_flags m.cpu g else g)
      → h ≡ g
  prefix-cancel g_ram true h g hh hg e =
      mix_flags-cancel h g hh hg
        (mix_ram-cancel m.mem.host sized.bytes (ram_size / 8) g_ram _ _ (mix-lt _ _) (mix-lt _ _) e)
  prefix-cancel g_ram false h g hh hg e =
      mix_ram-cancel m.mem.host sized.bytes (ram_size / 8) g_ram h g hh hg e

  -- For a state whose bytes and codes have their widths, and two different values of the pc of
  -- 32 bits: the hashes with those pcs differ, the full and the reduced one.
  pub state_hash-pc :
      (g_ram : ℕ) (f : Bool) (p q : ℕ)
      → p < 2 ^ 32
      → q < 2 ^ 32
      → ¬ (p ≡ q)
      → ¬ (state_hash g_ram (set_pc m p) f ≡ state_hash g_ram (set_pc m q) f)
  unfolding state_hash
  state_hash-pc g_ram f p q hp hq ne e =
      let h = mix_regs 16 0 m.cpu.regs 0xCBF2_9CE4_8422_2325 in
      ne (
        mix-cancel h p q (mix_regs-lt 16 0 m.cpu.regs _ (omega arith)) (omega arith) (omega arith)
          (prefix-cancel g_ram f (mix h p) (mix h q) (mix-lt h p) (mix-lt h q) e))

  -- For a state whose bytes, codes and pc have their widths, and two register files of 32-bit
  -- values that differ in one of the sixteen registers and agree in all others: the hashes with
  -- those files differ, the full and the reduced one.
  pub state_hash-register :
      (g_ram : ℕ) (f : Bool) (i : ℕ) (regs regs' : ℕ → ℕ)
      → i < 16
      → m.cpu.pc < 2 ^ 32
      → ((q : ℕ) → regs q < 2 ^ 32)
      → ((q : ℕ) → regs' q < 2 ^ 32)
      → ((q : ℕ) → q < i → regs q ≡ regs' q)
      → ((q : ℕ) → i < q → regs q ≡ regs' q)
      → ¬ (regs i ≡ regs' i)
      → ¬ (state_hash g_ram (with_regs m regs) f ≡ state_hash g_ram (with_regs m regs') f)
  unfolding state_hash
  state_hash-register g_ram f i regs regs' hi hp small small' before after ne e =
      let start : ℕ = 0xCBF2_9CE4_8422_2325 in
      let h = mix_regs 16 0 regs start in
      let g = mix_regs 16 0 regs' start in
      let pc = m.cpu.pc in
      let files : h ≡ g =
        mix-cancel_hash h g pc (mix_regs-lt 16 0 regs start (omega arith))
          (mix_regs-lt 16 0 regs' start (omega arith)) (omega arith)
          (prefix-cancel g_ram f (mix h pc) (mix g pc) (mix-lt h pc) (mix-lt g pc) e) in
      ne (
        mix_regs-differ i regs regs' small small' before after i 16 0 start (omega arith) hi
          (omega arith) files)
