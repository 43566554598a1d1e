-- ===== src/Ppc/Equiv/Preextracted.antt =====
-- Backends E and F, ppc/ppc_pdx8.c and ppc/ppc_pdx16.c, against ppc/ppc_switch.c.
use emu_core_bench.Base.{
  ℕ, zero, suc, ◌+◌, ◌*◌, ◌%◌, ◌^◌, ◌<◌, ◌≡◌, refl, sym, ap, ◌∙◌, Bool, true, some, List, [], ◌∷◌,
  get_elem?, ok, ◌>>=◌, bind_congr_after, bind_assoc, bind-eq-ok, ok-injective, After, After-both,
  shl32, shr32, arith,
}
use emu_core_bench.Memory.{Env, memory_read_uint32}
use emu_core_bench.Memory.Flat.{IsFlat}
use emu_core_bench.Memory.Access.{be32}
use emu_core_bench.Memory.RoundTrip.{memory_read_uint32_aligned}
use emu_core_bench.Ppc.State.{Machine}
use emu_core_bench.Ppc.Switch.{sw_step, sw_loop, ppc_run_switch}
use emu_core_bench.Ppc.Predecode.{pd_region_bytes}
use emu_core_bench.Ppc.Invariant.{IsPc, Sound, sw_step-Sound}
use emu_core_bench.Ppc.Pdx.Format.{PdxEnt}
use emu_core_bench.Ppc.Pdx.Decode.{pdx_decode}
use emu_core_bench.Ppc.Pdx.Exec.{generic, pdx_exec}
use emu_core_bench.Ppc.Pdx.Run.{pdx_fill, pdx_entries, pdx_fetch, pdx_loop, ppc_run_pdx}
use emu_core_bench.Ppc.Pdx.Round.{is_common, exec-sw_dispatch}

-- The next `n` steps of the switch backend stay inside the code region, fetch what the region
-- held in `start`, and meet only words that both decoders read alike.
abbrev pub KeepsCommonCode : Env → ℕ → Machine → ℕ → Type 0
KeepsCommonCode start zero m pc = Unit
KeepsCommonCode start (suc n) m pc =
    (pc < pd_region_bytes)
    × (memory_read_uint32 m.mem pc ≡ memory_read_uint32 start pc)
    × After (memory_read_uint32 start pc) (λ w. is_common w ≡ true)
    × After (sw_step m pc) (λ r. KeepsCommonCode start n r.0 r.1)

module _ (wide : Bool) where
  pdx_fill-get :
      (n : ℕ) (env : Env) (a : ℕ) (tab : List PdxEnt)
      → pdx_fill wide n env a ≡ ok tab
      → (i : ℕ) → i < n
      → (w : ℕ) × (memory_read_uint32 env (a + 4 * i) ≡ ok w)
        × (get_elem? tab i ≡ some (pdx_decode wide (a + 4 * i) w))
  unfolding pdx_fill
  pdx_fill-get zero env a tab h i lt = absurd (omega arith)
  pdx_fill-get (suc n) env a tab h zero lt =
      let (w, rd, h') = bind-eq-ok (memory_read_uint32 env a) _ h in
      let (rest, _, e) = bind-eq-ok (pdx_fill wide n env (a + 4)) _ h' in
      let first : a + 4 * 0 ≡ a = omega arith in
      (w, rw first rd, rw first (ap (λ t. get_elem? t 0) (sym (ok-injective e))))
  pdx_fill-get (suc n) env a tab h (suc i) lt =
      let (_, _, h') = bind-eq-ok (memory_read_uint32 env a) _ h in
      let (rest, filled, e) = bind-eq-ok (pdx_fill wide n env (a + 4)) _ h' in
      let (w, rd, at) = pdx_fill-get n env (a + 4) rest filled i (omega arith) in
      let next : a + 4 * suc i ≡ a + 4 + 4 * i = omega arith in
      (w, rw next rd, rw next (ap (λ t. get_elem? t (suc i)) (sym (ok-injective e)) ∙ at))

  pdx_fetch-get :
      (start : Env) (tab : List PdxEnt) (pc : ℕ)
      → pdx_fill wide pdx_entries start 0 ≡ ok tab
      → pc < pd_region_bytes
      → pc % 4 ≡ 0
      → (w : ℕ) × (memory_read_uint32 start pc ≡ ok w)
        × (pdx_fetch tab (shr32 pc 2) ≡ ok (pdx_decode wide pc w))
  unfolding pdx_fetch
  pdx_fetch-get start tab pc filled inside aligned =
      let (w, rd, at) = pdx_fill-get pdx_entries start 0 tab filled (shr32 pc 2) (omega arith) in
      let here : 0 + 4 * shr32 pc 2 ≡ pc = omega arith in
      (w, rw here at rd, rw (rw here at at, pdx_fetch))

  -- One step from the table is one step of the switch, with the pc as an entry index.
  pdx_step-sw_step :
      (start : Env) (tab : List PdxEnt) (m : Machine) (pc : ℕ)
      → pdx_fill wide pdx_entries start 0 ≡ ok tab
      → m.cpu.zero_base ≡ 0
      → pc < pd_region_bytes
      → pc % 4 ≡ 0
      → memory_read_uint32 m.mem pc ≡ memory_read_uint32 start pc
      → After (memory_read_uint32 start pc) (λ w. is_common w ≡ true)
      → (pdx_fetch tab (shr32 pc 2) >>= λ e. pdx_exec wide e m (shr32 pc 2))
        ≡ generic (sw_step m pc)
  unfolding sw_step
  pdx_step-sw_step start tab m pc filled z inside aligned same common =
      let (w, rd, at) = pdx_fetch-get start tab pc filled inside aligned in
      rw (at, same, rd) (exec-sw_dispatch m w pc inside aligned z wide (rw rd at common))

  pdx_loop-sw_loop :
      (start : Env) (tab : List PdxEnt)
      → pdx_fill wide pdx_entries start 0 ≡ ok tab
      → (n : ℕ) (m : Machine) (pc : ℕ) → m.cpu.zero_base ≡ 0
      → IsPc pc
      → KeepsCommonCode start n m pc
      → pdx_loop wide tab n m (shr32 pc 2) ≡ sw_loop n m pc
  unfolding pdx_loop sw_loop
  pdx_loop-sw_loop start tab filled zero m pc z h keeps =
      let back : shl32 (shr32 pc 2) 2 ≡ pc = omega arith in rw back
  pdx_loop-sw_loop start tab filled (suc n) m pc z h (inside, same, common, next) =
      sym (
        bind_assoc (pdx_fetch tab (shr32 pc 2)) (λ e. pdx_exec wide e m (shr32 pc 2))
          (λ r. pdx_loop wide tab n r.0 r.1))
      ∙ rw
          (
            pdx_step-sw_step start tab m pc filled z inside h.0 same common,
            bind_assoc {B = Machine × ℕ} (sw_step m pc) (λ s. ok (s.0, shr32 s.1 2))
                (λ r. pdx_loop wide tab n r.0 r.1),
          )
          (bind_congr_after (λ s. KeepsCommonCode start n s.0 s.1 × Sound m.cpu s) (sw_step m pc) _
            _
            (After-both (λ s. KeepsCommonCode start n s.0 s.1) (Sound m.cpu) (sw_step m pc) next
              (sw_step-Sound m pc h))
            (λ s k. pdx_loop-sw_loop start tab filled n s.0 s.1 (k.1.0 ∙ z) k.1.1 k.0))

  pdx_fill-total :
      {ram bits pages : ℕ} {env : Env}
      → IsFlat ram bits pages env
      → (n a : ℕ) → a % 4 ≡ 0
      → (tab : List PdxEnt) × (pdx_fill wide n env a ≡ ok tab)
  unfolding pdx_fill
  pdx_fill-total flat zero a h = ([], refl)
  pdx_fill-total {ram} {bits} {env = env} flat (suc n) a h =
      let (tab, filled) = pdx_fill-total flat n (a + 4) (omega arith) in
      (
        pdx_decode wide a (be32 env.host (ram + a % 2 ^ bits)) ∷ tab,
        rw (memory_read_uint32_aligned flat a h, filled),
      )

  -- In the environment that `mem_env_init` sets up, from a word-aligned pc and with the
  -- always-zero slot zero: if the run of the switch backend stays inside the code region, finds
  -- there the words that the region held at the start, and meets neither opcode 27 nor an update
  -- form with `ra = 0`, then the backend with pre-extracted operands, at either entry width, ends
  -- as the switch backend does, in the same state or with the same fault.
  pub run_pdx-run_switch :
      {ram bits pages : ℕ} (m : Machine) (budget : ℕ)
      → IsFlat ram bits pages m.mem
      → m.cpu.zero_base ≡ 0
      → IsPc m.cpu.pc
      → KeepsCommonCode m.mem budget m m.cpu.pc
      → ppc_run_pdx wide m budget ≡ ppc_run_switch m budget
  unfolding ppc_run_pdx ppc_run_switch
  run_pdx-run_switch m budget flat z h keeps =
      let (tab, filled) = pdx_fill-total flat pdx_entries 0 (omega arith) in
      rw filled (pdx_loop-sw_loop m.mem tab filled budget m m.cpu.pc z h keeps)
