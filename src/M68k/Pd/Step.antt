-- ===== src/M68k/Pd/Step.antt =====
-- Decoding the instruction at an address and running its entry, m68k/m68k_pd_impl.h, against one
-- round of m68k/m68k_switch.c.
use emu_core_bench.Base.{ℕ, ◌<◌, ◌≡◌, true, After, ◌>>=◌, add32, shr32, ltb, ◌==◌}
use emu_core_bench.Memory.{memory_read_uint16}
use emu_core_bench.M68k.State.{M68kMachine}
use emu_core_bench.M68k.Switch.{m68k_dispatch, m68k_step}
use emu_core_bench.M68k.Pd.Decode.{decode_op, mpd_decode}
use emu_core_bench.M68k.Pd.Exec.{mpd_exec}
use emu_core_bench.M68k.Pd.Matches.{is_known, by_entry, Matches, if_both, after_read}
use emu_core_bench.M68k.Pd.Groups.{
  group_0-Matches, group_4-Matches, group_5-Matches, group_6-Matches, group_7-Matches,
  group_dd-Matches, group_e-Matches,
}
use emu_core_bench.M68k.Pd.Moves.{group_move-Matches}

module _ (m : M68kMachine) (addr : ℕ) (inside : addr < 0x4_0000)
    (bytes : (q : ℕ) → m.mem.host q < 256) where
  decode_op-Matches :
      (op : ℕ) → Matches m addr (decode_op m.mem addr op) (m68k_dispatch m op (add32 addr 2))
  unfolding decode_op m68k_dispatch
  decode_op-Matches op = if_both (shr32 op 12 == 0) (group_0-Matches m addr inside op) (
      if_both (ltb (shr32 op 12) 4) (group_move-Matches m addr inside op bytes) (
        if_both (shr32 op 12 == 4) (group_4-Matches m addr inside op) (
          if_both (shr32 op 12 == 5) (group_5-Matches m addr inside op) (
            if_both (shr32 op 12 == 6) (group_6-Matches m addr inside op) (
              if_both (shr32 op 12 == 7) (group_7-Matches m addr inside op) (
                if_both (shr32 op 12 == 0xE) (group_e-Matches m addr inside op)
                  (group_dd-Matches m addr inside op)))))))

  -- For an address of the code region, in a host that holds bytes: if the instruction at the
  -- address is one that the decoder knows, then decoding it and running its entry leaves what a
  -- round of the switch leaves, or ends in the same fault; the next entry is that of the switch's
  -- pc.
  pub decoded-m68k_step :
      After (mpd_decode m.mem addr) (λ r. is_known r.0.id ≡ true)
      → (mpd_decode m.mem addr >>= λ r. mpd_exec r.0 m (shr32 addr 1)) ≡ by_entry (m68k_step m addr)
  unfolding mpd_decode m68k_step
  decoded-m68k_step known =
      (after_read {m = m} {addr = addr} (memory_read_uint16 m.mem addr) decode_op-Matches).same
        known
