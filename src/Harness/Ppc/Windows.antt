-- ===== src/Harness/Ppc/Windows.antt =====
-- The read and write windows of ppc/bench_main.c: the kernels' loads return, and their stores
-- leave everything below the write window as it was.
use emu_core_bench.Base.{
  ℕ, ◌+◌, ◌%◌, ◌^◌, ◌≤◌, ◌<◌, ◌≡◌, refl, ap, ◌∙◌, arith, true, false, leb, Bool-cases, inl, inr, ok,
  Outcome, ◌==◌, Returns, Returns-bind, add32, u8, u16,
}
use emu_core_bench.Memory.{Env, memory_read_uint32}
use emu_core_bench.Memory.Flat.{IsFlat}
use emu_core_bench.Memory.Access.{
  memory_read_uint8_lem, memory_read_uint16_lem, memory_write_uint8_lem, memory_write_uint16_lem,
  memory_write_uint32_lem,
}
use emu_core_bench.Memory.RoundTrip.{memory_read_uint32_aligned, put8-lt, put16-lt, put32-lt}
use emu_core_bench.Memory.Contained.{Contained, Contained-refl, put-Contained}
use emu_core_bench.Ppc.State.{Machine, set_gpr}
use emu_core_bench.Ppc.Ops.{p_rd, p_ra, p_rb, p_simm, base_or_zero}
use emu_core_bench.Ppc.Transfer.{
  read_width, write_width, gen_load_d, gen_load_x, gen_store_d, gen_store_x,
}
use emu_core_bench.Ppc.Lists.{keep_pc}
use emu_core_bench.Harness.Ppc.Kernels.{store_base}

-- What the kernels' stores keep: the tables, the host's memory outside the RAM, and the RAM below
-- the write window.
pub record Kept (ram pages : ℕ) (start env : Env) : Type 0 where
  pub contained : Contained ram 23 pages start env
  pub below : (q : ℕ) → q < ram + store_base → env.host q ≡ start.host q

pub Kept-refl : {ram pages : ℕ} {env : Env} → IsFlat ram 23 pages env → Kept ram pages env env
Kept-refl flat = record { contained = Contained-refl flat; below = λ q l. refl }

module _ {ram pages : ℕ} {start env : Env} (h : Kept ram pages start env) where
  -- A word below the write window is read as it was.
  pub read-Kept :
      IsFlat ram 23 pages start
      → (addr : ℕ) → addr % 4 ≡ 0
      → addr + 4 ≤ store_base
      → memory_read_uint32 env addr ≡ memory_read_uint32 start addr
  read-Kept flat addr aligned low =
      let masked : addr % 2 ^ 23 ≡ addr = omega (arith, low) in
      let at : (i : ℕ) → i < 4 → env.host (ram + addr + i) ≡ start.host (ram + addr + i) =
        λ i lt. h.below (ram + addr + i) (omega (arith, low, lt)) in
      rw
        (
          memory_read_uint32_aligned h.contained.flat addr aligned,
          memory_read_uint32_aligned flat addr aligned,
          masked,
        )
        (ap ok (
          omega (
            arith,
            h.below (ram + addr) (omega (arith, low)),
            at 1 (omega arith),
            at 2 (omega arith),
            at 3 (omega arith),
          )))

  -- A load from an aligned address returns.
  pub load-returns :
      (width addr : ℕ) → addr % 4 ≡ 0 → Returns (read_width env width addr) (λ v. Unit)
  unfolding read_width
  load-returns width addr aligned =
      let flat = h.contained.flat in
      elim (Bool-cases (width == 4)) [
        | inl e ↦ rw (e, memory_read_uint32_aligned flat addr aligned) tt
        | inr e ↦ elim (Bool-cases (width == 2)) [
          | inl e' ↦
              let short : leb (addr % 2 ^ 23 % 4096) 4094 ≡ true = ground (arith, aligned) in
              rw (e, e', memory_read_uint16_lem flat addr, short) tt
          | inr e' ↦ rw (e, e', memory_read_uint8_lem flat addr) tt
        ]
      ]

  module _ (addr v : ℕ) (aligned : addr % 4 ≡ 0) (low : store_base ≤ addr)
      (high : addr < 2 ^ 23) where
    put-Kept :
        (host : ℕ → ℕ)
        → ((q : ℕ) → host q < 256)
        → ((q : ℕ) → q < ram + addr → host q ≡ env.host q)
        → ((q : ℕ) → ram + addr + 4 ≤ q → host q ≡ env.host q)
        → Kept ram pages start (record env { host = host })
    put-Kept host bytes under over = record {
      contained = put-Contained h.contained host bytes λ q out. elim out [
        | inl l ↦ under q (omega (arith, l))
        | inr l ↦ over q (omega (arith, l, high, aligned))
      ];
      below = λ q l. under q (omega (arith, l, low)) ∙ h.below q l;
    }

    -- A store to an aligned address of the write window returns.
    pub store-returns : (width : ℕ) → Returns (write_width env width addr v) (Kept ram pages start)
    unfolding write_width
    store-returns width =
        let flat = h.contained.flat in
        let masked : addr % 2 ^ 23 ≡ addr = omega (arith, high) in
        let word : leb (addr % 4096) 4092 ≡ true = ground (arith, aligned) in
        let half : leb (addr % 4096) 4094 ≡ true = ground (arith, aligned) in
        elim (Bool-cases (width == 4)) [
          | inl e ↦
              rw (e, memory_write_uint32_lem flat addr v, masked, word)
                (put-Kept _ (put32-lt flat _ v) (λ q l. ground arith) (λ q l. ground arith))
          | inr e ↦ elim (Bool-cases (width == 2)) [
            | inl e' ↦
                rw (e, e', memory_write_uint16_lem flat addr (u16 v), masked, half)
                  (put-Kept _ (put16-lt flat _ (u16 v)) (λ q l. ground arith) (λ q l. ground arith))
            | inr e' ↦
                rw (e, e', memory_write_uint8_lem flat addr (u8 v), masked)
                  (put-Kept _ (put8-lt flat _ (u8 v)) (λ q l. ground arith) (λ q l. ground arith))
          ]
        ]

-- A statement that leaves the pc alone.
pub keep_pc-returns :
    (P : Machine × ℕ → Type 0) (pc : ℕ) (r : Outcome Machine)
    → Returns r (λ m. P (m, pc))
    → Returns (keep_pc pc r) P
keep_pc-returns P pc r h = Returns-bind (λ m. P (m, pc)) P r (λ m. ok (m, pc)) h (λ m q. q)

module _ {ram pages : ℕ} {start : Env} (Q : Machine → Type 0) (m : Machine)
    (h : Kept ram pages start m.mem) (insn width : ℕ) where
  -- The addresses of the indexed forms and of the displacement forms.
  abbrev address_x : ℕ
  address_x = add32 (base_or_zero m.cpu (p_ra insn)) (m.cpu.gpr (p_rb insn))

  abbrev address_d : ℕ
  address_d = add32 (base_or_zero m.cpu (p_ra insn)) (p_simm insn)

  pub load_x-returns :
      address_x % 4 ≡ 0
      → ((v : ℕ) → Q (record m { cpu = set_gpr m.cpu (p_rd insn) v }))
      → Returns (gen_load_x m insn width) Q
  unfolding gen_load_x
  load_x-returns aligned q =
      Returns-bind (λ v. Unit) Q (read_width m.mem width address_x) _
        (load-returns h width address_x aligned) (λ v u. q v)

  pub load_d-returns :
      address_d % 4 ≡ 0
      → ((v : ℕ) → Q (record m { cpu = set_gpr m.cpu (p_rd insn) v }))
      → Returns (gen_load_d m insn width false) Q
  unfolding gen_load_d
  load_d-returns aligned q =
      Returns-bind (λ v. Unit) Q (read_width m.mem width address_d) _
        (load-returns h width address_d aligned) (λ v u. q v)

  pub store_x-returns :
      address_x % 4 ≡ 0
      → store_base ≤ address_x
      → address_x < 2 ^ 23
      → ((mem : Env) → Kept ram pages start mem → Q (record m { mem = mem }))
      → Returns (gen_store_x m insn width) Q
  unfolding gen_store_x
  store_x-returns aligned low high q =
      Returns-bind (Kept ram pages start) Q
        (write_width m.mem width address_x (m.cpu.gpr (p_rd insn))) _
        (store-returns h address_x _ aligned low high width) q

  pub store_d-returns :
      address_d % 4 ≡ 0
      → store_base ≤ address_d
      → address_d < 2 ^ 23
      → ((mem : Env) → Kept ram pages start mem → Q (record m { mem = mem }))
      → Returns (gen_store_d m insn width false) Q
  unfolding gen_store_d
  store_d-returns aligned low high q =
      Returns-bind (Kept ram pages start) Q
        (write_width m.mem width address_d (m.cpu.gpr (p_rd insn))) _
        (store-returns h address_d _ aligned low high width) q
