-- ===== src/M68k/Pd/Matches.antt =====
-- A decoded instruction of m68k/m68k_pd_impl.h that does what a round of m68k/m68k_switch.c does, and
-- how the branches of both are taken together.
use emu_core_bench.Base.{
  ℕ, ◌+◌, ◌*◌, ◌/◌, ◌%◌, ◌^◌, ◌<◌, ◌≡◌, refl, arith, Bool, true, false, Outcome, ok, fatal, ◌>>=◌,
  After, bit_and, bit_and-le, u8, add32, shr32, if◌then◌else◌,
}
use emu_core_bench.M68k.State.{M68kMachine}
use emu_core_bench.M68k.Move.{Stepped}
use emu_core_bench.M68k.Pd.Format.{MpdId}
use emu_core_bench.M68k.Pd.Decode.{Decoded, ent_of, undecoded, quick}
use emu_core_bench.M68k.Pd.Exec.{mpd_exec}

-- The entries that the decoder makes of instructions that it knows.
abbrev pub is_known : MpdId → Bool
is_known MpdId.illegal = false
is_known MpdId.filler = false
is_known _ = true

-- What a round of the switch leaves, with the pc as an index of the table.
abbrev pub by_entry : Stepped → Outcome (M68kMachine × ℕ)
by_entry s = s >>= λ r. ok (r.0, shr32 r.1 1)

eight : (n : ℕ) → bit_and n 7 < 8
eight n = omega (arith, bit_and-le n 7)

pub dr_index : (n : ℕ) → bit_and n 7 * 4 % 2 ^ 8 / 4 ≡ bit_and n 7
dr_index n = omega (arith, eight n)

pub ar_index : (n : ℕ) → (32 + bit_and n 7 * 4) % 2 ^ 8 / 4 ≡ 8 + bit_and n 7
ar_index n = omega (arith, eight n)

pub quick_small : (n : ℕ) → u8 (quick (bit_and n 7)) ≡ quick (bit_and n 7)
quick_small n = ground (arith, eight n)

-- If the decoder knows the instruction, its entry run does what the round does.
pub record Matches (m : M68kMachine) (addr : ℕ) (d : Decoded) (s : Stepped) : Type 0 where
  pub same :
      After d (λ r. is_known r.0.id ≡ true)
      → (d >>= λ r. mpd_exec r.0 m (shr32 addr 1)) ≡ by_entry s

false-ne-true : false ≡ true → ⊥
false-ne-true h = cc

module _ {m : M68kMachine} {addr : ℕ} where
  pub if_both :
      (b : Bool) {d d' : Decoded} {s s' : Stepped}
      → Matches m addr d s
      → Matches m addr d' s'
      → Matches m addr (if b then d else d') (if b then s else s')
  if_both true h k = h
  if_both false h k = k

  -- A branch of the decoder only.
  pub given :
      (b : Bool) {d d' : Decoded} {s : Stepped}
      → (b ≡ true → Matches m addr d s)
      → Matches m addr d' s
      → Matches m addr (if b then d else d') s
  given true h k = h refl
  given false h k = k

  pub unknown : (op : ℕ) {s : Stepped} → Matches m addr (undecoded op) s
  unknown op = record { same = λ h. absurd (false-ne-true h) }

  pub after_read :
      (r : Outcome ℕ) {f : ℕ → Decoded} {g : ℕ → Stepped}
      → ((w : ℕ) → Matches m addr (f w) (g w))
      → Matches m addr (r >>= f) (r >>= g)
  after_read (ok w) h = h w
  after_read (fatal e) h = record { same = λ k. refl }

  -- The round binds its reads to the left.
  pub after_operand :
      {A : Type 0} (r : Outcome ℕ) (f : ℕ → Decoded) (g : ℕ → Outcome A) (k : A → Stepped)
      → ((w : ℕ) → Matches m addr (f w) (g w >>= k))
      → Matches m addr (r >>= f) (r >>= g >>= k)
  after_operand (ok w) f g k h = h w
  after_operand (fatal e) f g k h = record { same = λ _. refl }

  pub leaf :
      {id : MpdId} {a b c len : ℕ} {s : Stepped}
      → mpd_exec (record { id = id; a = a; b = b; c = c }) m (shr32 addr 1) ≡ by_entry s
      → Matches m addr (ent_of id a b c len) s
  leaf h = record { same = λ k. h }

module _ (addr : ℕ) (inside : addr < 0x4_0000) where
  pub next1 : shr32 (add32 addr 2) 1 ≡ shr32 addr 1 + 1
  next1 = omega (arith, inside)

  pub next2 : shr32 (add32 (add32 addr 2) 2) 1 ≡ shr32 addr 1 + 2
  next2 = omega (arith, inside)

  pub next3 : shr32 (add32 (add32 addr 2) 4) 1 ≡ shr32 addr 1 + 3
  next3 = omega (arith, inside)
