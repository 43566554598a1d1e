-- ===== src/M68k/Pd/Operands.antt =====
-- The MOVE family without displacements: what m68k/m68k_pd_impl.h decodes and runs, against the
-- operands of m68k/m68k_switch.c.
use emu_core_bench.Base.{
  ℕ, ◌+◌, ◌/◌, ◌<◌, ◌≡◌, refl, ap, arith, Outcome, ok, fatal, ◌>>=◌, After, add32, shr32,
}
use emu_core_bench.Memory.{memory_write_uint32, memory_read_uint16, memory_read_uint32}
use emu_core_bench.M68k.State.{M68kMachine, dr_off, ar_off}
use emu_core_bench.M68k.Move.{Stepped, move_source, move_dest, read_size, write_size, cc_size}
use emu_core_bench.M68k.Switch.{group_move}
use emu_core_bench.M68k.Pd.Format.{Elidable, MpdId}
use emu_core_bench.M68k.Pd.Decode.{ent_of, op_sm, op_dm, op_dr, op_sr}
use emu_core_bench.M68k.Pd.Exec.{hpair, mpd_case, mpd_exec}
use emu_core_bench.M68k.Pd.Matches.{
  by_entry, dr_index, ar_index, Matches, after_operand, leaf, next1, next2, next3,
}

-- Two sequences of calls that begin with the same call.
module _ {A : Type 0} {r r' : Outcome A} (same : r ≡ r') where
  pub both_write :
      (f : A → Outcome M68kMachine) (g : M68kMachine → Outcome (M68kMachine × ℕ)) (h : A → Stepped)
      → ((a : A) → (f a >>= g) ≡ by_entry (h a))
      → (r >>= f >>= g) ≡ by_entry (r' >>= h)
  both_write f g h k = rw same (by_result r')
    where
      by_result : (r : Outcome A) → (r >>= f >>= g) ≡ by_entry (r >>= h)
      by_result (ok a) = k a
      by_result (fatal e) = refl

  pub both_operand :
      {B : Type 0} (P : A → Type 0) (f : A → Outcome M68kMachine)
      (g : M68kMachine → Outcome (M68kMachine × ℕ)) (f' : A → Outcome B) (g' : B → Stepped)
      → After r' P
      → ((a : A) → P a → (f a >>= g) ≡ by_entry (f' a >>= g'))
      → (r >>= f >>= g) ≡ by_entry (r' >>= f' >>= g')
  both_operand P f g f' g' p k = rw same (by_result r' p)
    where
      by_result : (r : Outcome A) → After r P → (r >>= f >>= g) ≡ by_entry (r >>= f' >>= g')
      by_result (ok a) h = k a h
      by_result (fatal e) h = refl

pub ends : {A : Type 0} (r : Outcome A) → After r (λ _. Unit {0})
ends (ok a) = tt
ends (fatal e) = tt

module _ (m : M68kMachine) (addr : ℕ) (inside : addr < 0x4_0000) (op : ℕ) where
  pub movea_l :
      shr32 op 12 ≡ 2
      → op_dm op ≡ 1
      → op_sm op ≡ 7
      → op_sr op ≡ 4
      → Matches m addr
          (memory_read_uint32 m.mem (add32 addr 2) >>= λ c.
            ent_of MpdId.movea_l_imm (ar_off (op_dr op)) 0 c 3)
          (group_move m op (add32 addr 2))
  unfolding group_move move_source move_dest mpd_exec mpd_case
  movea_l sz dm sm sr =
      rw (group_move, move_source, move_dest, sz, dm, sm, sr)
        (after_operand (memory_read_uint32 m.mem (add32 addr 2)) _ _ _
          (λ c. leaf (ground (arith, ar_index (shr32 op 9), next3 addr inside))))

  pub mv_l_imm :
      shr32 op 12 ≡ 2
      → op_dm op ≡ 0
      → op_sm op ≡ 7
      → op_sr op ≡ 4
      → Matches m addr
          (memory_read_uint32 m.mem (add32 addr 2) >>= λ c.
            ent_of (MpdId.pair Elidable.mv_l_imm_dn) (dr_off (op_dr op)) 0 c 3)
          (group_move m op (add32 addr 2))
  unfolding group_move move_source move_dest mpd_exec mpd_case hpair cc_size
  mv_l_imm sz dm sm sr =
      rw (group_move, move_source, move_dest, sz, dm, sm, sr)
        (after_operand (memory_read_uint32 m.mem (add32 addr 2)) _ _ _
          (λ c. leaf (ground (arith, dr_index (shr32 op 9), next3 addr inside))))

  pub mv_w_imm :
      shr32 op 12 ≡ 3
      → op_dm op ≡ 0
      → op_sm op ≡ 7
      → op_sr op ≡ 4
      → Matches m addr
          (memory_read_uint16 m.mem (add32 addr 2) >>= λ c.
            ent_of (MpdId.pair Elidable.mv_w_imm_dn) (dr_off (op_dr op)) 0 c 2)
          (group_move m op (add32 addr 2))
  unfolding group_move move_source move_dest mpd_exec mpd_case hpair cc_size
  mv_w_imm sz dm sm sr =
      rw (group_move, move_source, move_dest, sz, dm, sm, sr)
        (after_operand (memory_read_uint16 m.mem (add32 addr 2)) _ _ _
          (λ c. leaf (ground (arith, dr_index (shr32 op 9), next2 addr inside))))

  pub mv_l_dd :
      shr32 op 12 ≡ 2
      → op_dm op ≡ 0
      → op_sm op ≡ 0
      → Matches m addr
          (ent_of (MpdId.pair Elidable.mv_l_dd) (dr_off (op_dr op)) (dr_off (op_sr op)) op 1)
          (group_move m op (add32 addr 2))
  unfolding group_move move_source move_dest mpd_exec mpd_case hpair cc_size
  mv_l_dd sz dm sm =
      rw (group_move, move_source, move_dest, sz, dm, sm)
        (leaf (ground (arith, dr_index (shr32 op 9), dr_index op, next1 addr inside)))

  pub mv_l_anp_dn :
      shr32 op 12 ≡ 2
      → op_dm op ≡ 0
      → op_sm op ≡ 3
      → Matches m addr
          (ent_of (MpdId.pair Elidable.mv_l_anp_dn) (dr_off (op_dr op)) (ar_off (op_sr op)) op 1)
          (group_move m op (add32 addr 2))
  unfolding group_move move_source move_dest mpd_exec mpd_case hpair cc_size read_size
  mv_l_anp_dn sz dm sm =
      let an = ar_index op in
      rw (group_move, move_source, move_dest, sz, dm, sm, read_size)
        (leaf (
          both_operand (ap (λ i. memory_read_uint32 m.mem (m.cpu.regs i)) an) (λ _. Unit {0}) _ _ _
            _ (ends (memory_read_uint32 m.mem (m.cpu.regs (8 + op_sr op))))
            (λ w _. ground (arith, an, dr_index (shr32 op 9), next1 addr inside))))

  pub mv_l_dn_anp :
      shr32 op 12 ≡ 2
      → op_dm op ≡ 3
      → op_sm op ≡ 0
      → Matches m addr
          (ent_of (MpdId.pair Elidable.mv_l_dn_anp) (dr_off (op_sr op)) (ar_off (op_dr op)) op 1)
          (group_move m op (add32 addr 2))
  unfolding group_move move_source move_dest mpd_exec mpd_case hpair cc_size write_size
  mv_l_dn_anp sz dm sm =
      let an = ar_index (shr32 op 9) in
      let dn = dr_index op in
      let call : memory_write_uint32 m.mem (m.cpu.regs (ar_off (op_dr op) / 4))
            (m.cpu.regs (dr_off (op_sr op) / 4))
          ≡ memory_write_uint32 m.mem (m.cpu.regs (8 + op_dr op)) (m.cpu.regs (op_sr op)) =
        cc (an, dn) in
      rw (group_move, move_source, move_dest, sz, dm, sm, write_size)
        (leaf (both_write call _ _ _ (λ mem. ground (arith, an, dn, next1 addr inside))))
