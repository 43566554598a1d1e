-- ===== src/Ppc/Pdx/Exec.antt =====
-- `PDX_RUN_NAME` of ppc/ppc_pdx_impl.h. The entry pointer `cur` is its index in the table.
use emu_core_bench.Base.{
  ℕ, ◌+◌, Bool, true, false, bit_and, bit_or, bit_xor, Outcome, ok, ◌>>=◌, ◌==◌, if◌then◌else◌, u8,
  u16, add32, sub32, mul32, shl32, shr32, not32, asr32,
}
use emu_core_bench.Memory.{
  Env, memory_read_uint8, memory_read_uint16, memory_read_uint32, memory_write_uint8,
  memory_write_uint16, memory_write_uint32,
}
use emu_core_bench.Ppc.State.{Ppc, Machine}
use emu_core_bench.Ppc.Ops.{record0, rotl32, ppc_mask, sraw_carry, compare_bits}
use emu_core_bench.Ppc.Transfer.{gen_b, gen_bc, ppc_illegal}
use emu_core_bench.Ppc.Lists.{do_op19, jump}
use emu_core_bench.Ppc.Pdx.Format.{PdxId, PdxEnt, gpro, set_gpro}

-- What a case leaves: the machine and the entry pointer.
abbrev pub Next : Type 0
Next = Outcome (Machine × ℕ)

-- `GPRO(c, off) = v; cur++`, and the same with `record0(c, v)` between.
abbrev pub assign : Machine → ℕ → ℕ → ℕ → Next
assign m cur off v = ok (record m { cpu = set_gpro m.cpu off v }, cur + 1)

abbrev pub assign_rc : Machine → ℕ → ℕ → ℕ → Next
assign_rc m cur off v = ok (record m { cpu = record0 (set_gpro m.cpu off v) v }, cur + 1)

-- The comparison cases, with the right-hand value.
abbrev pub compare_ent : Machine → ℕ → PdxEnt → Bool → ℕ → Next
compare_ent m cur e is_unsigned bv =
    let bits = compare_bits is_unsigned (gpro m.cpu e.a) bv in
    let cr = bit_or (bit_and m.cpu.cr (not32 (shl32 0xF e.b))) (shl32 bits e.b) in
    ok (record m { cpu = record m.cpu { cr = cr } }, cur + 1)

-- The arithmetic right shift: the carry, then the result.
abbrev pub shift_ent : Machine → PdxEnt → Machine × ℕ
shift_ent m e =
    let s = gpro m.cpu e.c in
    let r = asr32 s e.b in
    (record m { cpu = set_gpro (record m.cpu { xer_ca = sraw_carry s e.b }) e.a r }, r)

-- The rotated and masked value.
abbrev pub rotate_ent : Bool → Ppc → PdxEnt → ℕ
rotate_ent wide c e =
    if wide
    then bit_and (rotl32 (gpro c e.b) e.d) e.c
    else bit_and (rotl32 (gpro c e.b) (bit_and (shr32 e.c 11) 31))
        (ppc_mask (bit_and (shr32 e.c 6) 31) (bit_and (shr32 e.c 1) 31))

-- A load from an address into the register of the entry, and a store of that register.
abbrev pub load_ent : Machine → ℕ → PdxEnt → Outcome ℕ → Next
load_ent m cur e r = r >>= λ v. assign m cur e.a v

abbrev pub store_ent : Machine → ℕ → Outcome Env → Next
store_ent m cur r = r >>= λ mem. ok (record m { mem = mem }, cur + 1)

-- A branch by the generic body, with the pc rebuilt from `cur`.
abbrev pub generic : Outcome (Machine × ℕ) → Next
generic r = r >>= λ s. ok (s.0, shr32 s.1 2)

abbrev pub rebuilt_pc : ℕ → ℕ
rebuilt_pc cur = add32 (shl32 cur 2) 4

-- The `switch (e.id)`.
unfoldable pub exec_id : PdxId → Bool → PdxEnt → Machine → ℕ → Next
exec_id PdxId.illegal wide e m cur = ppc_illegal e.c
exec_id PdxId.add wide e m cur = assign m cur e.a (add32 (gpro m.cpu e.b) (gpro m.cpu e.c))
exec_id PdxId.add_rc wide e m cur = assign_rc m cur e.a (add32 (gpro m.cpu e.b) (gpro m.cpu e.c))
exec_id PdxId.subf wide e m cur = assign m cur e.a (sub32 (gpro m.cpu e.c) (gpro m.cpu e.b))
exec_id PdxId.subf_rc wide e m cur = assign_rc m cur e.a (sub32 (gpro m.cpu e.c) (gpro m.cpu e.b))
exec_id PdxId.mullw wide e m cur = assign m cur e.a (mul32 (gpro m.cpu e.b) (gpro m.cpu e.c))
exec_id PdxId.mullw_rc wide e m cur = assign_rc m cur e.a (mul32 (gpro m.cpu e.b) (gpro m.cpu e.c))
exec_id PdxId.and wide e m cur = assign m cur e.a (bit_and (gpro m.cpu e.b) (gpro m.cpu e.c))
exec_id PdxId.and_rc wide e m cur = assign_rc m cur e.a (bit_and (gpro m.cpu e.b) (gpro m.cpu e.c))
exec_id PdxId.or wide e m cur = assign m cur e.a (bit_or (gpro m.cpu e.b) (gpro m.cpu e.c))
exec_id PdxId.or_rc wide e m cur = assign_rc m cur e.a (bit_or (gpro m.cpu e.b) (gpro m.cpu e.c))
exec_id PdxId.xor wide e m cur = assign m cur e.a (bit_xor (gpro m.cpu e.b) (gpro m.cpu e.c))
exec_id PdxId.xor_rc wide e m cur = assign_rc m cur e.a (bit_xor (gpro m.cpu e.b) (gpro m.cpu e.c))
exec_id PdxId.slw wide e m cur =
    let bv = gpro m.cpu e.c in
    assign m cur e.a (if bit_and bv 0x20 == 0 then shl32 (gpro m.cpu e.b) (bit_and bv 31) else 0)
exec_id PdxId.srw wide e m cur =
    let bv = gpro m.cpu e.c in
    assign m cur e.a (if bit_and bv 0x20 == 0 then shr32 (gpro m.cpu e.b) (bit_and bv 31) else 0)
exec_id PdxId.srawi wide e m cur = ok ((shift_ent m e).0, cur + 1)
exec_id PdxId.srawi_rc wide e m cur =
    let (m', r) = shift_ent m e in ok (record m' { cpu = record0 m'.cpu r }, cur + 1)
exec_id PdxId.addi wide e m cur = assign m cur e.a (add32 (gpro m.cpu e.b) e.c)
exec_id PdxId.li wide e m cur = assign m cur e.a e.c
exec_id PdxId.mulli wide e m cur = assign m cur e.a (mul32 (gpro m.cpu e.b) e.c)
exec_id PdxId.ori wide e m cur = assign m cur e.a (bit_or (gpro m.cpu e.b) e.c)
exec_id PdxId.xori wide e m cur = assign m cur e.a (bit_xor (gpro m.cpu e.b) e.c)
exec_id PdxId.andi_rc wide e m cur = assign_rc m cur e.a (bit_and (gpro m.cpu e.b) e.c)
exec_id PdxId.rlwinm wide e m cur = assign m cur e.a (rotate_ent wide m.cpu e)
exec_id PdxId.rlwinm_rc wide e m cur = assign_rc m cur e.a (rotate_ent wide m.cpu e)
exec_id PdxId.cmpwi wide e m cur = compare_ent m cur e false e.c
exec_id PdxId.cmpw wide e m cur = compare_ent m cur e false (gpro m.cpu e.c)
exec_id PdxId.cmplwi wide e m cur = compare_ent m cur e true e.c
exec_id PdxId.cmplw wide e m cur = compare_ent m cur e true (gpro m.cpu e.c)
exec_id PdxId.lwz wide e m cur =
    load_ent m cur e (memory_read_uint32 m.mem (add32 (gpro m.cpu e.b) e.c))
exec_id PdxId.lhz wide e m cur =
    load_ent m cur e (memory_read_uint16 m.mem (add32 (gpro m.cpu e.b) e.c))
exec_id PdxId.lbz wide e m cur =
    load_ent m cur e (memory_read_uint8 m.mem (add32 (gpro m.cpu e.b) e.c))
exec_id PdxId.lwzu wide e m cur =
    let ea = add32 (gpro m.cpu e.b) e.c in
    memory_read_uint32 m.mem ea >>= λ v.
    ok (record m { cpu = set_gpro (set_gpro m.cpu e.a v) e.b ea }, cur + 1)
exec_id PdxId.stw wide e m cur =
    store_ent m cur (memory_write_uint32 m.mem (add32 (gpro m.cpu e.b) e.c) (gpro m.cpu e.a))
exec_id PdxId.sth wide e m cur =
    store_ent m cur (memory_write_uint16 m.mem (add32 (gpro m.cpu e.b) e.c) (u16 (gpro m.cpu e.a)))
exec_id PdxId.stb wide e m cur =
    store_ent m cur (memory_write_uint8 m.mem (add32 (gpro m.cpu e.b) e.c) (u8 (gpro m.cpu e.a)))
exec_id PdxId.stwu wide e m cur =
    let ea = add32 (gpro m.cpu e.b) e.c in
    memory_write_uint32 m.mem ea (gpro m.cpu e.a) >>= λ mem.
    ok (record { cpu = set_gpro m.cpu e.b ea; mem = mem }, cur + 1)
exec_id PdxId.lwzx wide e m cur =
    load_ent m cur e (memory_read_uint32 m.mem (add32 (gpro m.cpu e.b) (gpro m.cpu e.c)))
exec_id PdxId.lhzx wide e m cur =
    load_ent m cur e (memory_read_uint16 m.mem (add32 (gpro m.cpu e.b) (gpro m.cpu e.c)))
exec_id PdxId.lbzx wide e m cur =
    load_ent m cur e (memory_read_uint8 m.mem (add32 (gpro m.cpu e.b) (gpro m.cpu e.c)))
exec_id PdxId.stwx wide e m cur =
    store_ent m cur
      (memory_write_uint32 m.mem (add32 (gpro m.cpu e.b) (gpro m.cpu e.c)) (gpro m.cpu e.a))
exec_id PdxId.sthx wide e m cur =
    store_ent m cur
      (memory_write_uint16 m.mem (add32 (gpro m.cpu e.b) (gpro m.cpu e.c)) (u16 (gpro m.cpu e.a)))
exec_id PdxId.stbx wide e m cur =
    store_ent m cur
      (memory_write_uint8 m.mem (add32 (gpro m.cpu e.b) (gpro m.cpu e.c)) (u8 (gpro m.cpu e.a)))
exec_id PdxId.b wide e m cur = ok (m, e.c)
exec_id PdxId.bdnz wide e m cur =
    let ctr = sub32 m.cpu.ctr 1 in
    ok (record m { cpu = record m.cpu { ctr = ctr } }, if ctr == 0 then cur + 1 else e.c)
exec_id PdxId.bc_t wide e m cur =
    ok (m, if bit_and (shr32 m.cpu.cr e.a) 1 == 0 then cur + 1 else e.c)
exec_id PdxId.bc_f wide e m cur =
    ok (m, if bit_and (shr32 m.cpu.cr e.a) 1 == 0 then e.c else cur + 1)
exec_id PdxId.b_gen wide e m cur = generic (jump m (gen_b m.cpu e.c (rebuilt_pc cur)))
exec_id PdxId.bc_gen wide e m cur = generic (jump m (gen_bc m.cpu e.c (rebuilt_pc cur)))
exec_id PdxId.op19_gen wide e m cur = generic (do_op19 m e.c (rebuilt_pc cur))
exec_id PdxId.mtctr wide e m cur =
    ok (record m { cpu = record m.cpu { ctr = gpro m.cpu e.a } }, cur + 1)
exec_id PdxId.mfctr wide e m cur = assign m cur e.a m.cpu.ctr
exec_id PdxId.mtlr wide e m cur =
    ok (record m { cpu = record m.cpu { lr = gpro m.cpu e.a } }, cur + 1)
exec_id PdxId.mflr wide e m cur = assign m cur e.a m.cpu.lr

-- The case taken is that of the entry's id.
unfoldable pub pdx_exec : Bool → PdxEnt → Machine → ℕ → Next
pdx_exec wide e m cur = exec_id e.id wide e m cur
