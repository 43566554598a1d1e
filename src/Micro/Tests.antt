-- ===== src/Micro/Tests.antt =====
-- The byte swaps and the checksums of micro/be_micro.c on small inputs.
use emu_core_bench.Base.{ℕ, ◌*◌, ◌%◌, ◌^◌, ◌≡◌, refl, arith, true, get_elem?}
use emu_core_bench.Micro.{ld_bswap, ld_rot, run, run_loop, main_checksums, start}
use emu_core_bench.Micro.Swaps.{
  ld_rot-ld_bswap, run-agree, run_loop-walk, SameWalk, main_checksums-agree,
}

rot_value : ld_rot 0x1234_5678 ≡ 0x7856_3412
unfolding ld_rot
rot_value = refl

ld_rot-ld_bswap_example : ld_rot 0xDEAD_BEEF ≡ ld_bswap 0xDEAD_BEEF
ld_rot-ld_bswap_example = ld_rot-ld_bswap 0xDEAD_BEEF (omega arith)

abbrev ramp : ℕ → ℕ
ramp q = q * 0x0103_0507 % 2 ^ 32

run-agree_example : run 1 true ramp 3 ≡ run 2 true ramp 3
run-agree_example = run-agree true ramp 3 (λ q. omega arith)

run_loop-walk_example : SameWalk (run_loop 0 true ramp 3 start) (run_loop 2 true ramp 3 start)
run_loop-walk_example = run_loop-walk 0 2 true ramp 3 start start (refl, refl)

main_checksums-agree_example :
    (get_elem? (main_checksums 7) 1 ≡ get_elem? (main_checksums 7) 2)
    × (get_elem? (main_checksums 7) 4 ≡ get_elem? (main_checksums 7) 5)
main_checksums-agree_example = main_checksums-agree 7
