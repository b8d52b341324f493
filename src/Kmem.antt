-- ===== src/Kmem.antt =====
-- kernel/vm.cpp, `kinit`, `kfree` and `kalloc`: the list of free pages, kept in the pages.
-- `kmem.lock` is held through each routine. A page is its first word, where a free page has the
-- address of the next one; a null pointer is 0.
pub mod Pages
mod Tests
use os_cpp.Base.{leb, ◌==◌, if◌then◌else◌, update, ℕ, zero, suc, ◌+◌, ◌/◌, Option, none, some}
use os_cpp.Arch.{pgsize, pg_round_up}

pub record Kmem : Type 0 where
  pub word : ℕ → ℕ
  pub freelist : ℕ

-- The words that `memset` with 1 and with 5 leaves.
abbrev pub ones : ℕ
ones = 0x0101010101010101

abbrev pub fives : ℕ
fives = 0x0505050505050505

-- PHY_END
abbrev pub phy_end : ℕ
phy_end = 0x88000000

pub kfree : ℕ → Kmem → Kmem
kfree addr k = record { word = update (update k.word addr ones) addr k.freelist; freelist = addr }

pub kalloc : Kmem → Option ℕ × Kmem
kalloc k = if k.freelist == 0 then (none, k) else (
  some k.freelist,
  record { word = update k.word k.freelist fives; freelist = k.word k.freelist },
)

-- The loop of `kinit` from `p_start` on, for at most `fuel` pages.
pub kinit_loop : ℕ → ℕ → Kmem → Kmem
kinit_loop zero p_start k = k
kinit_loop (suc fuel) p_start k =
    let rest = kinit_loop fuel (p_start + pgsize) (kfree p_start k) in
    if leb (p_start + pgsize) phy_end then rest else k

-- `kernel_end` is the linker's symbol `end`.
pub kinit : ℕ → Kmem → Kmem
kinit kernel_end k = kinit_loop (phy_end / pgsize) (pg_round_up kernel_end) k
