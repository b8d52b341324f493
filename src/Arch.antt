-- ===== src/Arch.antt =====
-- kernel/arch/riscv.h: the address and page-table macros of Sv39, and kernel/vm.h's constants.
-- A 64-bit value is a number below 2^64; shifts and masks are written as products, quotients and
-- remainders.
pub mod Pages
mod Tests
use os_cpp.Base.{ℕ, ◌+◌, ◌-◌, ◌*◌, ◌/◌, ◌%◌, ◌^◌}

abbrev pub pgsize : ℕ
pgsize = 4096

-- `~(PGSIZE - 1)` is computed in `uint32_t`, so the mask that it widens to is 0x00000000fffff000.
abbrev pub page_mask : ℕ → ℕ
page_mask a = a % 2 ^ 32 / 4096 * 4096

unfoldable pub pg_round_up : ℕ → ℕ
pg_round_up a = page_mask ((a + pgsize - 1) % 2 ^ 64)

unfoldable pub pg_round_down : ℕ → ℕ
pg_round_down a = page_mask a

unfoldable pub pte2pa : ℕ → ℕ
pte2pa pte = pte / 2 ^ 10 * 2 ^ 12 % 2 ^ 64

unfoldable pub pa2pte : ℕ → ℕ
pa2pte pa = pa / 2 ^ 12 * 2 ^ 10 % 2 ^ 64

unfoldable pub pte_flags : ℕ → ℕ
pte_flags pte = pte % 1024

abbrev pub px_shift : ℕ → ℕ
px_shift level = 12 + 9 * level

unfoldable pub px : ℕ → ℕ → ℕ
px level va = va / 2 ^ px_shift level % 512

abbrev pub va_max : ℕ
va_max = 2 ^ 38

abbrev pub trampoline : ℕ
trampoline = va_max - pgsize

abbrev pub trapframe : ℕ
trapframe = trampoline - pgsize

-- `vm::KSTACK`: its `int` argument is widened to 64 bits, and the subtraction wraps.
pub kstack : ℕ → ℕ
kstack p = (trampoline + 2 ^ 64 - (p + 1) * 2 * pgsize % 2 ^ 64) % 2 ^ 64
