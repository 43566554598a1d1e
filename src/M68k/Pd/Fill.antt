-- ===== src/M68k/Pd/Fill.antt =====
-- The decoding loop of m68k/m68k_pd_impl.h: the heads of the instructions and their lengths.
use emu_core_bench.Base.{
  ℕ, zero, suc, ◌+◌, ◌-◌, ◌*◌, ◌≤◌, ◌<◌, ◌≡◌, refl, sym, ◌∙◌, inl, inr, arith, After, After-weaken,
  After-bind, u8, ltb, ◌==◌, if◌then◌else◌, shr32, Bool-cases, ==-refl,
}
use emu_core_bench.Memory.{Env}
use emu_core_bench.M68k.Pd.Format.{MpdId, MpdEnt}
use emu_core_bench.M68k.Pd.Decode.{mpd_decode}
use emu_core_bench.M68k.Pd.Run.{
  MpdTable, mpd_entries, mpd_region_bytes, fill_words, mpd_fill, put_id, put_ent,
}
use emu_core_bench.M68k.Pd.Flags.{HasLen}
use emu_core_bench.M68k.Pd.Sized.{Sized, mpd_decode-Sized}

-- From `idx`, every instruction's length is one to three words, and that of its handler.
abbrev pub Chain : ℕ → (ℕ → MpdEnt) → (ℕ → ℕ) → ℕ → Type 0
Chain zero t len idx = Unit
Chain (suc n) t len idx =
    (idx < mpd_entries → HasLen (t idx).id (len idx) × (0 < len idx))
    × Chain n t len (idx + len idx)

-- Past the table there is nothing to ask.
Chain-past :
    (n : ℕ) (t : ℕ → MpdEnt) (len : ℕ → ℕ) (idx : ℕ) → mpd_entries ≤ idx → Chain n t len idx
Chain-past zero t len idx h = tt
Chain-past (suc n) t len idx h =
    ((λ l. absurd (omega (arith, l, h))), Chain-past n t len (idx + len idx) (omega (arith, h)))

-- The tables agree below `idx`.
abbrev pub KeepsBelow : ℕ → MpdTable → MpdTable → Type 0
KeepsBelow idx tab tab' = (q : ℕ) → q < idx → (tab'.ent q ≡ tab.ent q) × (tab'.len q ≡ tab.len q)

pub fill_words-KeepsBelow :
    (k i : ℕ) (tab : MpdTable) → After (fill_words k i tab) (KeepsBelow i tab)
unfolding fill_words
fill_words-KeepsBelow zero i tab = λ q l. (refl, refl)
fill_words-KeepsBelow (suc k) i tab = elim (Bool-cases (ltb i mpd_entries)) [
  | inr out ↦ rw out tt
  | inl ins ↦ rw ins (
      After-weaken (KeepsBelow (i + 1) next) (KeepsBelow i tab) (fill_words k (i + 1) next)
        (fill_words-KeepsBelow k (i + 1) next)
        (λ t h q l. (ground (arith, (h q (omega (arith, l))).0), (h q (omega (arith, l))).1)))
]
  where
    next : MpdTable
    next = record tab { ent = put_id tab.ent i MpdId.filler }

-- The loop from `addr` keeps what is below, and leaves a chain from there.
abbrev pub Filled : ℕ → MpdTable → ℕ → MpdTable → Type 0
Filled fuel tab addr t = KeepsBelow (shr32 addr 1) tab t × Chain fuel t.ent t.len (shr32 addr 1)

-- The table with the instruction at `addr` in it.
abbrev pub head_at : MpdTable → ℕ → MpdEnt × ℕ → MpdTable
head_at tab addr r = record {
  ent = put_ent tab.ent (shr32 addr 1) r.0;
  len = λ q. if q == shr32 addr 1 then u8 r.1 else tab.len q;
}

module _ (tab : MpdTable) (addr : ℕ) (r : MpdEnt × ℕ) (z : Sized r) (t t' : MpdTable)
    (k : KeepsBelow (shr32 addr 1 + 1) (head_at tab addr r) t) where
  next_idx : shr32 (addr + r.1 * 2) 1 ≡ shr32 addr 1 + r.1
  next_idx = omega arith

  pub head_kept :
      KeepsBelow (shr32 (addr + r.1 * 2) 1) t t'
      → (t'.ent (shr32 addr 1) ≡ r.0) × (t'.len (shr32 addr 1) ≡ r.1)
  head_kept f =
      let at = k (shr32 addr 1) (omega arith) in
      let after = f (shr32 addr 1) (omega (arith, next_idx, z.1)) in
      let same : u8 r.1 ≡ r.1 = omega (arith, z.2) in
      (
        after.0 ∙ at.0 ∙ rw (==-refl (shr32 addr 1)) refl,
        after.1 ∙ at.1 ∙ rw (==-refl (shr32 addr 1)) same,
      )

  below_kept : KeepsBelow (shr32 (addr + r.1 * 2) 1) t t' → KeepsBelow (shr32 addr 1) tab t'
  below_kept f q l =
      let at = k q (omega (arith, l)) in
      let after = f q (omega (arith, next_idx, l)) in
      (after.0 ∙ at.0 ∙ ground arith, after.1 ∙ at.1 ∙ ground arith)

  -- One round of the loop.
  step-Filled : (fuel : ℕ) → Filled fuel t (addr + r.1 * 2) t' → Filled (suc fuel) tab addr t'
  step-Filled fuel f =
      let (e, l) = head_kept f.0 in
      (below_kept f.0, ((λ h. rw (e, l) (z.0, z.1)), rw (l, sym next_idx) f.1))

pub mpd_fill-Filled :
    (fuel : ℕ) (env : Env) (tab : MpdTable) (addr : ℕ)
    → After (mpd_fill fuel env tab addr) (Filled fuel tab addr)
unfolding mpd_fill
mpd_fill-Filled zero env tab addr = ((λ q l. (refl, refl)), tt)
mpd_fill-Filled (suc fuel) env tab addr = elim (Bool-cases (ltb addr mpd_region_bytes)) [
  | inr out ↦
      rw out
        ((λ q l. (refl, refl)), Chain-past (suc fuel) tab.ent tab.len (shr32 addr 1) (ground arith))
  | inl ins ↦ rw ins (
      After-bind Sized (Filled (suc fuel) tab addr) (mpd_decode env addr) _
        (mpd_decode-Sized env addr)
        λ r z.
          After-bind (KeepsBelow (shr32 addr 1 + 1) (head_at tab addr r))
            (Filled (suc fuel) tab addr)
            (fill_words (r.1 - 1) (shr32 addr 1 + 1) (head_at tab addr r)) _
            (fill_words-KeepsBelow (r.1 - 1) (shr32 addr 1 + 1) (head_at tab addr r))
            λ t k.
              After-weaken (Filled fuel t (addr + r.1 * 2)) (Filled (suc fuel) tab addr)
                (mpd_fill fuel env t (addr + r.1 * 2)) (mpd_fill-Filled fuel env t (addr + r.1 * 2))
                (λ t' f. step-Filled tab addr r z t t' k fuel f))
]

pub mpd_fill-Chain :
    (fuel : ℕ) (env : Env) (tab : MpdTable) (addr : ℕ)
    → After (mpd_fill fuel env tab addr) (λ t. Chain fuel t.ent t.len (shr32 addr 1))
mpd_fill-Chain fuel env tab addr =
    After-weaken (Filled fuel tab addr) (λ t. Chain fuel t.ent t.len (shr32 addr 1))
      (mpd_fill fuel env tab addr) (mpd_fill-Filled fuel env tab addr) (λ t f. f.1)
