-- ===== src/M68k/Pd/Elide.antt =====
-- `m68k_run_pd_elide` of m68k/m68k_pd_impl.h against `m68k_run_pd`.
use emu_core_bench.Base.{
  ℕ, zero, suc, ◌+◌, ◌≤◌, ◌<◌, ◌≡◌, refl, sym, ap, ◌⊎◌, inl, inr, arith, true, false, Fault,
  Outcome, ok, fatal, ◌>>=◌, After, ◌&&◌, shl32, BothEnd, BothEnd-bind, BothEnd-same, ltb, ◌==◌,
  shr32, Bool-cases, eq_of_==, ==-refl,
}
use emu_core_bench.M68k.State.{M68kMachine, set_pc}
use emu_core_bench.M68k.Pd.Format.{MpdEnt}
use emu_core_bench.M68k.Pd.Exec.{mpd_exec, mpd_case}
use emu_core_bench.M68k.Pd.Run.{
  MpdTable, mpd_entries, mpd_fill, mpd_elide_pass, mpd_writes_all_nzvc, elided, put_id, mpd_fetch,
  mpd_loop, m68k_run_pd, m68k_run_pd_elide,
}
use emu_core_bench.M68k.Pd.Flags.{
  AgreeButNzvc, AgreeAt, mpd_exec-AgreeButNzvc, HasLen, mpd_case-elided,
}
use emu_core_bench.M68k.Pd.Fill.{Chain, mpd_fill-Chain}

-- An entry that the pass may leave at `q`: the decoded one, or the one with the elided id where
-- the next instruction in memory writes all of N, Z, V and C.
abbrev Retarget : (ℕ → MpdEnt) → ℕ → MpdEnt → Type 0
Retarget t q e =
    (e ≡ t q)
    ⊎ ((len : ℕ) × HasLen (t q).id len
        × (mpd_writes_all_nzvc (t (q + len)).id ≡ true)
        × (e ≡ record (t q) { id = elided (t q).id }))

module _ (t0 : ℕ → MpdEnt) (len : ℕ → ℕ) where
  put_id-Retarget :
      (t : ℕ → MpdEnt) (idx : ℕ)
      → HasLen (t0 idx).id (len idx)
      → ((q : ℕ) → idx ≤ q → t q ≡ t0 q)
      → ((q : ℕ) → Retarget t0 q (t q))
      → mpd_writes_all_nzvc (t0 (idx + len idx)).id ≡ true
      → (q : ℕ) → Retarget t0 q (put_id t idx (elided (t idx).id) q)
  put_id-Retarget t idx h ahead rt w q = elim (Bool-cases (q == idx)) [
    | inl e ↦
        rw (eq_of_== q idx e, ahead idx (omega arith), ==-refl idx) (inr (len idx, h, w, refl))
    | inr ne ↦ rw ne (rt q)
  ]

  put_id-ahead :
      (t : ℕ → MpdEnt) (idx r : ℕ)
      → idx < r
      → t r ≡ t0 r
      → put_id t idx (elided (t idx).id) r ≡ t0 r
  put_id-ahead t idx r l h = ground arith

  pass-Retarget :
      (fuel : ℕ) (t : ℕ → MpdEnt) (idx : ℕ)
      → Chain fuel t0 len idx
      → ((q : ℕ) → idx ≤ q → t q ≡ t0 q)
      → ((q : ℕ) → Retarget t0 q (t q))
      → (q : ℕ) → Retarget t0 q (mpd_elide_pass fuel len t idx q)
  unfolding mpd_elide_pass
  pass-Retarget zero t idx chain ahead rt q = rt q
  pass-Retarget (suc fuel) t idx (head, rest) ahead rt q =
      elim (Bool-cases (ltb idx mpd_entries && ltb next mpd_entries)) [
        | inr out ↦ rw out (rt q)
        | inl ins ↦ elim (Bool-cases (mpd_writes_all_nzvc (t next).id)) [
          | inr keep ↦
              rw (ins, keep)
                (pass-Retarget fuel t next rest (λ r l. ahead r (omega (arith, l))) rt q)
          | inl w ↦
              rw (ins, w)
                (pass-Retarget fuel (put_id t idx (elided (t idx).id)) next rest
                  (λ r l.
                    put_id-ahead t idx r (omega (arith, l, (head (within ins)).1))
                      (ahead r (omega (arith, l))))
                  (put_id-Retarget t idx ((head (within ins)).0) ahead rt
                    (rw (sym (ahead next (omega arith))) w))
                  q)
        ]
      ]
    where
      next : ℕ
      next = idx + len idx

      within : (ltb idx mpd_entries && ltb next mpd_entries) ≡ true → idx < mpd_entries
      within h = ground arith

module _ (t : ℕ → MpdEnt) (cur : ℕ) where
  fetch_inside : ltb cur mpd_entries ≡ true → mpd_fetch t cur ≡ ok (t cur)
  unfolding mpd_fetch
  fetch_inside h = rw h

  fetch_past : ltb cur mpd_entries ≡ false → mpd_fetch t cur ≡ fatal Fault.out_of_bounds
  unfolding mpd_fetch
  fetch_past h = rw h

module _ (t0 t' : ℕ → MpdEnt) (rt : (q : ℕ) → Retarget t0 q (t' q)) where
  exec_same :
      (m m' : M68kMachine) (cur : ℕ)
      → AgreeButNzvc m m'
      → (m ≡ m') ⊎ (mpd_writes_all_nzvc (t0 cur).id ≡ true)
      → mpd_exec (t0 cur) m cur ≡ mpd_exec (t0 cur) m' cur
  exec_same m m' cur h same = elim same [
    | inl e ↦ ap (λ k. mpd_exec (t0 cur) k cur) e
    | inr w ↦ mpd_exec-AgreeButNzvc (t0 cur) m m' cur w h
  ]

  -- One round from the same machine, given that the loops agree for what is left.
  round-Retarget :
      (n : ℕ)
      → ((m m' : M68kMachine) (cur : ℕ)
          → AgreeButNzvc m m'
          → (m ≡ m') ⊎ (mpd_writes_all_nzvc (t0 cur).id ≡ true)
          → BothEnd AgreeButNzvc (mpd_loop t0 n m cur) (mpd_loop t' n m' cur))
      → (m : M68kMachine) (cur : ℕ) → Retarget t0 cur (t' cur)
      → BothEnd AgreeButNzvc
          (mpd_exec (t0 cur) m cur >>= λ r. mpd_loop t0 n r.0 r.1)
          (mpd_exec (t' cur) m cur >>= λ r. mpd_loop t' n r.0 r.1)
  unfolding mpd_exec
  round-Retarget n ih m cur (inl e) = rw e (
      BothEnd-same AgreeButNzvc (mpd_exec (t0 cur) m cur) _ _ (λ r. ih r.0 r.0 r.1 refl (inl refl)))
  round-Retarget n ih m cur (inr (len, has, w, e)) =
      elim (mpd_case-elided (t0 cur).id (t0 cur) m cur len has) [
        | inl same ↦
            rw (e, same)
              (BothEnd-same AgreeButNzvc (mpd_exec (t0 cur) m cur) _ _
                (λ r. ih r.0 r.0 r.1 refl (inl refl)))
        | inr both ↦ rw e (
            BothEnd-bind (λ s s'. AgreeAt s s' × (s.1 ≡ cur + len)) AgreeButNzvc
              (mpd_case (t0 cur).id (t0 cur) m cur) _ _ _ both
              (λ r s k. rw (sym k.0.1) (ih r.0 s.0 r.1 k.0.0 (inr (rw k.1 w)))))
      ]

  -- The loops agree but for the codes, from machines that are equal or whose codes the next
  -- entry writes.
  loop-Retarget :
      (n : ℕ) (m m' : M68kMachine) (cur : ℕ)
      → AgreeButNzvc m m'
      → (m ≡ m') ⊎ (mpd_writes_all_nzvc (t0 cur).id ≡ true)
      → BothEnd AgreeButNzvc (mpd_loop t0 n m cur) (mpd_loop t' n m' cur)
  unfolding mpd_loop
  loop-Retarget zero m m' cur h same = ap (λ k. set_pc k (shl32 cur 1)) h
  loop-Retarget (suc n) m m' cur h same = elim (Bool-cases (ltb cur mpd_entries)) [
    | inr out ↦ rw (fetch_past t0 cur out, fetch_past t' cur out) refl
    | inl ins ↦
        rw (fetch_inside t0 cur ins, fetch_inside t' cur ins, exec_same m m' cur h same)
          (round-Retarget n (loop-Retarget n) m' cur (rt cur))
  ]

-- From any contents of the tables, the backend that elides condition codes ends as the plain
-- predecoded one does: with the same fault, or in states that agree on the registers, the pc, X
-- and the memory. Only N, Z, V and C may differ, for any code, machine and budget.
pub run_pd_elide-run_pd :
    (tab : MpdTable) (m : M68kMachine) (budget : ℕ)
    → BothEnd AgreeButNzvc (m68k_run_pd tab m budget) (m68k_run_pd_elide tab m budget)
unfolding m68k_run_pd m68k_run_pd_elide
run_pd_elide-run_pd tab m budget =
    by_fill (mpd_fill mpd_entries m.mem tab 0) (mpd_fill-Chain mpd_entries m.mem tab 0)
  where
    by_fill :
        (r : Outcome MpdTable)
        → After r (λ t. Chain mpd_entries t.ent t.len 0)
        → BothEnd AgreeButNzvc (r >>= λ t. mpd_loop t.ent budget m (shr32 m.cpu.pc 1)) (
            r >>= λ t.
            mpd_loop (mpd_elide_pass mpd_entries t.len t.ent 0) budget m (shr32 m.cpu.pc 1))
    by_fill (ok t) chain =
        loop-Retarget t.ent _
          (pass-Retarget t.ent t.len mpd_entries t.ent 0 chain (λ q l. refl) (λ q. inl refl)) budget
          m m _ refl (inl refl)
    by_fill (fatal e) chain = refl
