-- ===== src/Ppc/Pdx/Round.antt =====
-- Decoding a word and running its entry, ppc/ppc_pdx_impl.h, against one round of
-- ppc/ppc_switch.c.
use emu_core_bench.Base.{
  ℕ, ◌%◌, ◌<◌, ◌≡◌, refl, arith, Bool, true, false, ap, ◌&&◌, ◌||◌, not, ◌==◌, add32, shr32, Option,
  some, none, key-find_case,
}
use emu_core_bench.Ppc.State.{Machine}
use emu_core_bench.Ppc.Ops.{p_ra}
use emu_core_bench.Ppc.Lists.{find_primary, ppc_primary, Primary, primary_key}
use emu_core_bench.Ppc.Switch.{sw_case, sw_dispatch}
use emu_core_bench.Ppc.Pdx.Decode.{decode_primary, fresh, pdx_decode}
use emu_core_bench.Ppc.Pdx.Exec.{generic, exec_id, pdx_exec}
use emu_core_bench.Ppc.Pdx.Step.{exec_primary}

-- The words that the decoder of ppc/ppc_pdx_impl.h reads as the switch does: all but opcode 27,
-- which the switch does not have, and the update forms with `ra = 0`.
abbrev pub is_common : ℕ → Bool
is_common insn =
    let prim = shr32 insn 26 in
    not (prim == 27) && not ((prim == 33 || prim == 37) && p_ra insn == 0)

primary_of_key : (key : ℕ) (p : Primary) → find_primary key ≡ some p → key ≡ primary_key p
unfolding find_primary
primary_of_key key p = key-find_case primary_key ppc_primary key p

decode_primary-none :
    (wide : Bool) (key addr insn : ℕ)
    → find_primary key ≡ none
    → (key == 27) ≡ false
    → decode_primary wide key addr insn ≡ fresh insn
unfolding find_primary decode_primary
decode_primary-none wide key addr insn h ne = ground arith

module _ (m : Machine) (insn addr : ℕ) (inside : addr < 0x4_0000) (aligned : addr % 4 ≡ 0)
    (zero : m.cpu.zero_base ≡ 0) where
  -- With the always-zero slot zero, at a word-aligned address of the code region and at either
  -- entry width: decoding a word that is neither of opcode 27 nor an update form with `ra = 0`
  -- and running its entry does what the switch does with the word, with the next pc as an entry
  -- index, faults included.
  pub exec-sw_dispatch :
      (wide : Bool)
      → is_common insn ≡ true
      → pdx_exec wide (pdx_decode wide addr insn) m (shr32 addr 2)
        ≡ generic (sw_dispatch m insn (add32 addr 4))
  unfolding pdx_decode sw_dispatch sw_case
  exec-sw_dispatch wide common = by_case (find_primary (shr32 insn 26)) refl
    where
      by_case :
          (o : Option Primary)
          → find_primary (shr32 insn 26) ≡ o
          → pdx_exec wide (decode_primary wide (shr32 insn 26) addr insn) m (shr32 addr 2)
            ≡ generic (sw_case (find_primary (shr32 insn 26)) m insn (add32 addr 4))
      by_case (some p) e =
          let k = primary_of_key _ p e in
          rw (e, k)
            (exec_primary m insn addr inside aligned zero wide p
              (λ q. ground (arith, k, ap primary_key q)) (λ q. ground (arith, k, ap primary_key q)))
      by_case none e =
          rw (e, decode_primary-none wide _ addr insn e (ground arith))
            (unfold pdx_exec exec_id in refl)
