-- ===== src/Ppc/Equiv/Threaded.antt =====
-- Backends B and C, ppc/ppc_tail.c and ppc/ppc_call.c, against ppc/ppc_switch.c.
use emu_core_bench.Base.{
  ℕ, zero, suc, ◌≡◌, refl, Option, none, some, ◌>>=◌, bind_assoc, shr32, table-find_case, arith,
}
use emu_core_bench.Ppc.State.{Machine}
use emu_core_bench.Ppc.Lists.{Primary, primary_key, ppc_primary, find_primary}
use emu_core_bench.Ppc.Switch.{sw_case, sw_dispatch, sw_step, sw_loop, ppc_run_switch}
use emu_core_bench.Ppc.Call.{g_call_dispatch, call_handler, call_loop, ppc_run_call}
use emu_core_bench.Ppc.Tail.{g_dispatch, handler, ppc_run_tail}

call-dispatch-find : (k : ℕ) → g_call_dispatch k ≡ find_primary k
unfolding g_call_dispatch find_primary
call-dispatch-find k = table-find_case primary_key ppc_primary (λ _. none) k refl refl

tail-dispatch-find : (k : ℕ) → g_dispatch k ≡ find_primary k
unfolding g_dispatch find_primary
tail-dispatch-find k = table-find_case primary_key ppc_primary (λ _. none) k refl refl

call_handler-sw_dispatch :
    (m : Machine) (insn pc : ℕ)
    → call_handler (g_call_dispatch (shr32 insn 26)) m insn pc ≡ sw_dispatch m insn pc
unfolding call_handler sw_dispatch sw_case
call_handler-sw_dispatch m insn pc = ground (arith, call-dispatch-find (shr32 insn 26))

call_loop-sw_loop : (n : ℕ) (m : Machine) (pc : ℕ) → call_loop n m pc ≡ sw_loop n m pc
unfolding call_loop sw_loop sw_step
call_loop-sw_loop zero m pc = refl
call_loop-sw_loop (suc n) m pc = simp (call_handler-sw_dispatch, call_loop-sw_loop n, bind_assoc)

-- For every machine and budget, the call-threaded backend ends as the switch backend does: in
-- the same state, or with the same fault.
pub run_call-run_switch :
    (m : Machine) (budget : ℕ) → ppc_run_call m budget ≡ ppc_run_switch m budget
unfolding ppc_run_call ppc_run_switch
run_call-run_switch m budget = call_loop-sw_loop budget m m.cpu.pc

-- One link of the chain, given that the rest of it runs the loop.
handler-suc :
    (n : ℕ) (o : Option Primary) (m : Machine) (insn pc : ℕ)
    → ((m' : Machine) (insn' pc' : ℕ)
        → handler n (g_dispatch (shr32 insn' 26)) m' insn' pc'
          ≡ (sw_dispatch m' insn' pc' >>= λ r. sw_loop n r.0 r.1))
    → handler (suc n) o m insn pc ≡ (sw_case o m insn pc >>= λ r. sw_loop (suc n) r.0 r.1)
unfolding handler sw_case sw_loop sw_step
handler-suc n none m insn pc ih = refl
handler-suc n (some p) m insn pc ih = simp (ih, bind_assoc)

-- A handler runs its statement and then the loop for what is left.
handler-sw_loop :
    (n : ℕ) (m : Machine) (insn pc : ℕ)
    → handler n (g_dispatch (shr32 insn 26)) m insn pc
      ≡ (sw_dispatch m insn pc >>= λ r. sw_loop n r.0 r.1)
unfolding handler sw_dispatch sw_case sw_loop sw_step
handler-sw_loop zero m insn pc = ground (arith, tail-dispatch-find (shr32 insn 26))
handler-sw_loop (suc n) m insn pc =
    rw tail-dispatch-find
      (handler-suc n (find_primary (shr32 insn 26)) m insn pc (handler-sw_loop n))

-- For every machine and budget, the tail-call backend ends as the switch backend does: in the
-- same state, or with the same fault.
pub run_tail-run_switch :
    (m : Machine) (budget : ℕ) → ppc_run_tail m budget ≡ ppc_run_switch m budget
unfolding ppc_run_tail ppc_run_switch sw_loop sw_step
run_tail-run_switch m zero = refl
run_tail-run_switch m (suc budget) = simp (handler-sw_loop budget, bind_assoc)
