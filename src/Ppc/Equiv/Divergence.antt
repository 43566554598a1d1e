-- ===== src/Ppc/Equiv/Divergence.antt =====
-- The two shapes of word on which ppc/ppc_pdx_impl.h and ppc/ppc_ops.h part.
use emu_core_bench.Base.{
  ℕ, ◌%◌, ◌^◌, ◌<◌, ◌≢◌, arith, ◌+◌, ◌≡◌, refl, Bool, Fault, ok, fatal, ◌>>=◌, bind_assoc, bit_xor,
  add32, shl32, shr32, none, some,
}
use emu_core_bench.Memory.{memory_read_uint32}
use emu_core_bench.Memory.Flat.{IsFlat}
use emu_core_bench.Memory.RoundTrip.{memory_read_uint32_aligned}
use emu_core_bench.Ppc.State.{Machine, set_gpr}
use emu_core_bench.Ppc.Ops.{p_rd, p_ra, p_simm, p_uimm}
use emu_core_bench.Ppc.Transfer.{gen_load_d, read_width}
use emu_core_bench.Ppc.Lists.{find_primary, Primary, primary_stmt}
use emu_core_bench.Ppc.Switch.{sw_case, sw_dispatch}
use emu_core_bench.Ppc.Pdx.Decode.{pdx_decode, decode_primary}
use emu_core_bench.Ppc.Pdx.Exec.{pdx_exec, exec_id}
use emu_core_bench.Ppc.Pdx.Fields.{gpro-rd, set_gpro-ra, gpro-ra, set_gpro-rd}

find_at_27 : find_primary 27 ≡ none
unfolding find_primary
find_at_27 = refl

-- On every word of opcode 27 (xoris) the switch ends the process with the illegal-instruction
-- diagnostic, while the pre-extracted backends execute it: they write `rS ^ (uimm << 16)` to rA
-- and go on to the next entry.
pub xoris_diverges :
    (wide : Bool) (m : Machine) (insn addr pc cur : ℕ)
    → shr32 insn 26 ≡ 27
    → (sw_dispatch m insn pc ≡ fatal (Fault.illegal insn))
      × (pdx_exec wide (pdx_decode wide addr insn) m cur
          ≡ ok (
            record m {
              cpu =
                  set_gpr m.cpu
                    (p_ra insn)
                    (bit_xor (m.cpu.gpr (p_rd insn)) (shl32 (p_uimm insn) 16));
            },
            cur + 1,
          ))
unfolding sw_dispatch sw_case pdx_exec exec_id pdx_decode decode_primary
xoris_diverges wide m insn addr pc cur h = (rw (h, find_at_27), rw h (simp (gpro-rd, set_gpro-ra)))

find_at_33 : find_primary 33 ≡ some Primary.lwzu
unfolding find_primary
find_at_33 = refl

-- The two kinds of backend on `lwzu` with `ra = 0`: the switch loads from the displacement alone,
-- the others from r0 plus the displacement; both then write their address to r0.
lwzu_lem :
    (wide : Bool) (m : Machine) (insn addr pc cur : ℕ)
    → shr32 insn 26 ≡ 33
    → p_ra insn ≡ 0
    → (sw_dispatch m insn pc ≡ (
        memory_read_uint32 m.mem (add32 0 (p_simm insn)) >>= λ v.
        ok
          (record m { cpu = set_gpr (set_gpr m.cpu (p_rd insn) v) 0 (add32 0 (p_simm insn)) }, pc)))
      × (pdx_exec wide (pdx_decode wide addr insn) m cur ≡ (
          memory_read_uint32 m.mem (add32 (m.cpu.gpr 0) (p_simm insn)) >>= λ v. ok (
            record m {
              cpu = set_gpr (set_gpr m.cpu (p_rd insn) v) 0 (add32 (m.cpu.gpr 0) (p_simm insn));
            },
            cur + 1,
          )))
unfolding sw_dispatch sw_case primary_stmt gen_load_d read_width pdx_exec exec_id pdx_decode
    decode_primary
lwzu_lem wide m insn addr pc cur h z = (
  rw (h, find_at_33, z) (simp bind_assoc),
  rw h (simp (gpro-ra, set_gpro-rd, set_gpro-ra) (rw z)),
)

-- In the environment that `mem_env_init` sets up, on every `lwzu` with `ra = 0`, where r0 is a
-- 32-bit value that is not zero, and r0 and the displacement are multiples of four: the switch and
-- the pre-extracted backends, at either entry width, both go on to the next instruction, and leave
-- different values in r0.
pub lwzu_diverges :
    {ram bits pages : ℕ} (wide : Bool) (m : Machine) (insn addr pc cur : ℕ)
    → IsFlat ram bits pages m.mem
    → shr32 insn 26 ≡ 33
    → p_ra insn ≡ 0
    → 0 < m.cpu.gpr 0
    → m.cpu.gpr 0 < 2 ^ 32
    → m.cpu.gpr 0 % 4 ≡ 0
    → p_simm insn % 4 ≡ 0
    → (m₁ : Machine) × (m₂ : Machine) × (sw_dispatch m insn pc ≡ ok (m₁, pc))
      × (pdx_exec wide (pdx_decode wide addr insn) m cur ≡ ok (m₂, cur + 1))
      × (m₁.cpu.gpr 0 ≢ m₂.cpu.gpr 0)
lwzu_diverges wide m insn addr pc cur flat h z pos small even even' =
    let (switched, extracted) = lwzu_lem wide m insn addr pc cur h z in
    let aligned : add32 0 (p_simm insn) % 4 ≡ 0 = omega (arith, even') in
    let aligned' : add32 (m.cpu.gpr 0) (p_simm insn) % 4 ≡ 0 = omega (arith, even, even') in
    (
      _,
      _,
      rw (memory_read_uint32_aligned flat (add32 0 (p_simm insn)) aligned) at switched,
      rw (memory_read_uint32_aligned flat (add32 (m.cpu.gpr 0) (p_simm insn)) aligned') at
          extracted,
      λ same. omega (arith, same, pos, small),
    )
