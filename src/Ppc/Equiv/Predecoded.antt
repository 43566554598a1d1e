-- ===== src/Ppc/Equiv/Predecoded.antt =====
-- Backend D, ppc/ppc_predecode.c, against ppc/ppc_switch.c.
use emu_core_bench.Base.{
  ℕ, zero, suc, ◌+◌, ◌*◌, ◌%◌, ◌^◌, ◌<◌, ◌≡◌, refl, sym, ap, ◌∙◌, bind_congr_after, some, ok, ◌>>=◌,
  bind_assoc, bind-eq-ok, ok-injective, After, add32, shr32, arith, ◌==◌, Bool-cases, inl, inr,
  List, [], ◌∷◌, eq_of_==, get_elem?,
}
use emu_core_bench.Memory.{Env, memory_read_uint32}
use emu_core_bench.Memory.Flat.{IsFlat}
use emu_core_bench.Memory.Access.{be32}
use emu_core_bench.Memory.RoundTrip.{memory_read_uint32_aligned}
use emu_core_bench.Ppc.State.{Machine}
use emu_core_bench.Ppc.Lists.{Primary, find_primary, primary_stmt, do_op31, do_op19}
use emu_core_bench.Ppc.Switch.{sw_case, sw_dispatch, sw_step, sw_loop, ppc_run_switch}
use emu_core_bench.Ppc.Predecode.{
  PdEnt, pd_decode, pd_fill, pd_dispatch, pd_fetch, pd_loop, pd_entries, pd_region_bytes,
  ppc_run_pd,
}

find_at_31 : find_primary 31 ≡ some Primary.grp31
unfolding find_primary
find_at_31 = refl

find_at_19 : find_primary 19 ≡ some Primary.grp19
unfolding find_primary
find_at_19 = refl

-- For every word, machine and pc, decoding resolves to a leaf that does what the nested switches
-- do with the word.
pub pd_dispatch-pd_decode :
    (m : Machine) (insn pc : ℕ) → pd_dispatch (pd_decode insn) m insn pc ≡ sw_dispatch m insn pc
unfolding pd_dispatch pd_decode sw_dispatch sw_case do_op31 do_op19 primary_stmt
pd_dispatch-pd_decode m insn pc = elim (Bool-cases (shr32 insn 26 == 31)) [
  | inl e ↦ rw (eq_of_== _ _ e, find_at_31) (ground arith)
  | inr ne ↦ elim (Bool-cases (shr32 insn 26 == 19)) [
    | inl e ↦ rw (eq_of_== _ _ e, find_at_19) (ground arith)
    | inr ne' ↦ rw (ne, ne') (ground arith)
  ]
]

abbrev ent : ℕ → PdEnt
ent insn = record { id = pd_decode insn; insn = insn }

-- A table that is filled holds at each index the word read there, decoded.
pd_fill-get :
    (n : ℕ) (env : Env) (a : ℕ) (tab : List PdEnt)
    → pd_fill n env a ≡ ok tab
    → (i : ℕ) → i < n
    → (w : ℕ) × (memory_read_uint32 env (a + 4 * i) ≡ ok w) × (get_elem? tab i ≡ some (ent w))
unfolding pd_fill
pd_fill-get zero env a tab h i lt = absurd (omega arith)
pd_fill-get (suc n) env a tab h zero lt =
    let (w, rd, h') = bind-eq-ok (memory_read_uint32 env a) _ h in
    let (rest, _, e) = bind-eq-ok (pd_fill n env (a + 4)) _ h' in
    let first : a + 4 * 0 ≡ a = omega arith in
    (w, rw first rd, ap (λ t. get_elem? t 0) (sym (ok-injective e)))
pd_fill-get (suc n) env a tab h (suc i) lt =
    let (_, _, h') = bind-eq-ok (memory_read_uint32 env a) _ h in
    let (rest, filled, e) = bind-eq-ok (pd_fill n env (a + 4)) _ h' in
    let (w, rd, at) = pd_fill-get n env (a + 4) rest filled i (omega arith) in
    let next : a + 4 * suc i ≡ a + 4 + 4 * i = omega arith in
    (w, rw next rd, ap (λ t. get_elem? t (suc i)) (sym (ok-injective e)) ∙ at)

-- The next `n` steps of the switch backend stay inside the code region, word aligned, and fetch
-- what the region held in `start`.
abbrev pub KeepsCode : Env → ℕ → Machine → ℕ → Type 0
KeepsCode start zero m pc = Unit
KeepsCode start (suc n) m pc =
    (pc < pd_region_bytes)
    × (pc % 4 ≡ 0)
    × (memory_read_uint32 m.mem pc ≡ memory_read_uint32 start pc)
    × After (sw_step m pc) (λ r. KeepsCode start n r.0 r.1)

-- The entry fetched at an aligned pc of the region is the word in the region, decoded.
pd_fetch-get :
    (start : Env) (tab : List PdEnt) (pc : ℕ)
    → pd_fill pd_entries start 0 ≡ ok tab
    → pc < pd_region_bytes
    → pc % 4 ≡ 0
    → (w : ℕ) × (memory_read_uint32 start pc ≡ ok w) × (pd_fetch tab pc ≡ ok (ent w))
unfolding pd_fetch
pd_fetch-get start tab pc filled inside aligned =
    let (w, rd, at) = pd_fill-get pd_entries start 0 tab filled (shr32 pc 2) (omega arith) in
    let here : 0 + 4 * shr32 pc 2 ≡ pc = omega arith in (w, rw here at rd, rw (at, pd_fetch))

-- One step from the table is one step of the switch.
pd_step-sw_step :
    (start : Env) (tab : List PdEnt) (m : Machine) (pc : ℕ)
    → pd_fill pd_entries start 0 ≡ ok tab
    → pc < pd_region_bytes
    → pc % 4 ≡ 0
    → memory_read_uint32 m.mem pc ≡ memory_read_uint32 start pc
    → (pd_fetch tab pc >>= λ e. pd_dispatch e.id m e.insn (add32 pc 4)) ≡ sw_step m pc
unfolding sw_step
pd_step-sw_step start tab m pc filled inside aligned same =
    let (w, rd, at) = pd_fetch-get start tab pc filled inside aligned in
    rw (at, same, rd) (pd_dispatch-pd_decode m w (add32 pc 4))

pd_loop-sw_loop :
    (start : Env) (tab : List PdEnt)
    → pd_fill pd_entries start 0 ≡ ok tab
    → (n : ℕ) (m : Machine) (pc : ℕ) → KeepsCode start n m pc
    → pd_loop tab n m pc ≡ sw_loop n m pc
unfolding pd_loop sw_loop
pd_loop-sw_loop start tab filled zero m pc keeps = refl
pd_loop-sw_loop start tab filled (suc n) m pc (inside, aligned, same, next) =
    sym (
      bind_assoc (pd_fetch tab pc) (λ e. pd_dispatch e.id m e.insn (add32 pc 4))
        (λ r. pd_loop tab n r.0 r.1))
    ∙ rw (pd_step-sw_step start tab m pc filled inside aligned same) (
        bind_congr_after (λ r. KeepsCode start n r.0 r.1) (sw_step m pc) _ _ next
          λ r k. pd_loop-sw_loop start tab filled n r.0 r.1 k)

-- In a flat environment the region can be read.
pd_fill-total :
    {ram bits pages : ℕ} {env : Env}
    → IsFlat ram bits pages env
    → (n a : ℕ) → a % 4 ≡ 0
    → (tab : List PdEnt) × (pd_fill n env a ≡ ok tab)
unfolding pd_fill
pd_fill-total flat zero a h = ([], refl)
pd_fill-total {ram} {bits} {env = env} flat (suc n) a h =
    let (tab, filled) = pd_fill-total flat n (a + 4) (omega arith) in
    (
      ent (be32 env.host (ram + a % 2 ^ bits)) ∷ tab,
      rw (memory_read_uint32_aligned flat a h, filled),
    )

-- In the environment that `mem_env_init` sets up: if the run of the switch backend stays inside
-- the code region, word aligned, and finds there the words that the region held at the start,
-- then the predecoded backend ends as the switch backend does, in the same state or with the
-- same fault.
pub run_pd-run_switch :
    {ram bits pages : ℕ} (m : Machine) (budget : ℕ)
    → IsFlat ram bits pages m.mem
    → KeepsCode m.mem budget m m.cpu.pc
    → ppc_run_pd m budget ≡ ppc_run_switch m budget
unfolding ppc_run_pd ppc_run_switch
run_pd-run_switch m budget flat keeps =
    let (tab, filled) = pd_fill-total flat pd_entries 0 (omega arith) in
    rw filled (pd_loop-sw_loop m.mem tab filled budget m m.cpu.pc keeps)
