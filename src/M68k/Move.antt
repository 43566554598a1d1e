-- ===== src/M68k/Move.antt =====
-- The MOVE family of m68k/m68k_switch.c: the source operand, then the destination and the codes.
use emu_core_bench.Base.{
  ℕ, ◌+◌, bit_and, bit_or, ◌&&◌, Outcome, ok, ◌>>=◌, u8, u16, add32, shr32, sext16, ◌==◌,
  if◌then◌else◌,
}
use emu_core_bench.Memory.{
  Env, memory_read_uint8, memory_read_uint16, memory_read_uint32, memory_write_uint8,
  memory_write_uint16, memory_write_uint32,
}
use emu_core_bench.M68k.State.{M68k, M68kMachine, m68k_illegal}
use emu_core_bench.M68k.Ops.{cc_nz_l, cc_nz_w, cc_nz_b}
use emu_core_bench.M68k.Pd.Decode.{op_sm, op_dm, op_dr, op_sr}

-- What a case leaves: the machine and the local `pc`.
abbrev pub Stepped : Type 0
Stepped = Outcome (M68kMachine × ℕ)

-- `m->regs[i] = v`.
abbrev pub set_reg : M68k → ℕ → ℕ → M68k
set_reg c i w = record c { regs = λ q. if q == i then w else c.regs q }

abbrev pub with_cpu : M68kMachine → M68k → M68kMachine
with_cpu m c = record m { cpu = c }

-- A read and a write of `size` bytes.
unfoldable pub read_size : Env → ℕ → ℕ → Outcome ℕ
read_size env size a =
    if size == 4
    then memory_read_uint32 env a
    else if size == 2
    then memory_read_uint16 env a
    else memory_read_uint8 env a

unfoldable pub write_size : Env → ℕ → ℕ → ℕ → Outcome Env
write_size env size a w =
    if size == 4
    then memory_write_uint32 env a w
    else if size == 2
    then memory_write_uint16 env a (u16 w)
    else memory_write_uint8 env a (u8 w)

-- The codes of a move of `size` bytes.
unfoldable pub cc_size : M68k → ℕ → ℕ → M68k
cc_size c size w =
    if size == 4 then cc_nz_l c w else if size == 2 then cc_nz_w c (u16 w) else cc_nz_b c (u8 w)

-- `size` from the opcode's group.
abbrev pub move_size : ℕ → ℕ
move_size op = if shr32 op 12 == 2 then 4 else if shr32 op 12 == 3 then 2 else 1

-- The source operand, with the machine and the pc after it.
unfoldable pub move_source : M68kMachine → ℕ → ℕ → Outcome (ℕ × (M68kMachine × ℕ))
unfolding read_size
move_source m op pc =
    let size = move_size op in
    let sm = op_sm op in
    let sr = op_sr op in
    let an = m.cpu.regs (8 + sr) in
    if sm == 0
    then ok (m.cpu.regs sr, (m, pc))
    else if sm == 3
    then (read_size m.mem size an >>= λ w.
        ok (w, (with_cpu m (set_reg m.cpu (8 + sr) (add32 an size)), pc)))
    else if sm == 5
    then (memory_read_uint16 m.mem pc >>= λ d.
        read_size m.mem size (add32 an (sext16 d)) >>= λ w. ok (w, (m, add32 pc 2)))
    else if sm == 7 && sr == 4
    then (if size == 4
        then (memory_read_uint32 m.mem pc >>= λ w. ok (w, (m, add32 pc 4)))
        else (memory_read_uint16 m.mem pc >>= λ w. ok (w, (m, add32 pc 2))))
    else m68k_illegal op

-- The destination operand and the codes.
unfoldable pub move_dest : M68kMachine → ℕ → ℕ → ℕ → Stepped
unfolding write_size cc_size
move_dest m op pc w =
    let size = move_size op in
    let dm = op_dm op in
    let dr = op_dr op in
    let dn = m.cpu.regs dr in
    let an = m.cpu.regs (8 + dr) in
    if dm == 0
    then (let r =
          if size == 4
          then w
          else if size == 2
          then bit_or (bit_and dn 0xFFFF_0000) (bit_and w 0xFFFF)
          else bit_or (bit_and dn 0xFFFF_FF00) (bit_and w 0xFF) in
        ok (with_cpu m (cc_size (set_reg m.cpu dr r) size w), pc))
    else if dm == 1
    then ok (with_cpu m (set_reg m.cpu (8 + dr) w), pc)
    else if dm == 3
    then (write_size m.mem size an w >>= λ mem.
        ok
          (record { cpu = cc_size (set_reg m.cpu (8 + dr) (add32 an size)) size w; mem = mem }, pc))
    else if dm == 5
    then (memory_read_uint16 m.mem pc >>= λ d.
        write_size m.mem size (add32 an (sext16 d)) w >>= λ mem.
        ok (record { cpu = cc_size m.cpu size w; mem = mem }, add32 pc 2))
    else m68k_illegal op
