-- ===== src/Arch/Tests.antt =====
-- The page macros at concrete addresses.
use os_cpp.Base.{◌+◌, ◌*◌, ◌%◌, ◌≤◌, ◌<◌, ◌≡◌, refl, arith}
use os_cpp.Arch.{pgsize, pg_round_up, pg_round_down, pte2pa, pa2pte, px, kstack}
use os_cpp.Arch.Pages.{pg_round_down_low, pg_round_up_low, pte_parts, px_parts, kstack_apart}

round_down_example : pg_round_down 0x12345 ≡ 0x12000
unfolding pg_round_down
round_down_example = refl

round_down_wide : pg_round_down 0x100000123 ≡ 0
unfolding pg_round_down
round_down_wide = refl

pg_round_down_low_example : pg_round_down 0x12345 % pgsize ≡ 0
pg_round_down_low_example = (pg_round_down_low 0x12345 (omega arith)).0

pg_round_up_low_example : 0x12345 ≤ pg_round_up 0x12345
pg_round_up_low_example = (pg_round_up_low 0x12345 (omega arith)).1

pte_parts_example : pte2pa (pa2pte 0x80001000 + 7) ≡ 0x80001000
pte_parts_example = (pte_parts 0x80001000 7 refl (omega arith) (omega arith)).0

px_parts_example : px 2 0x3ffffff000 < 512
px_parts_example = (px_parts 0x3ffffff000 (omega arith)).1

kstack_apart_example : kstack 1 + 2 * pgsize ≤ kstack 0
kstack_apart_example = kstack_apart 0 1 (omega arith) (omega arith)
