-- ===== src/Arch/Pages.antt =====
-- Rounding to pages, page-table entries, and the parts of a virtual address.
use os_cpp.Base.{ℕ, ◌+◌, ◌*◌, ◌%◌, ◌^◌, ◌≤◌, ◌<◌, ◌≡◌, arith}
use os_cpp.Arch.{pgsize, pg_round_up, pg_round_down, pte2pa, pa2pte, pte_flags, px, kstack}

-- Below 4 GiB PG_ROUND_DOWN gives the greatest multiple of the page size that is not above.
pub pg_round_down_low :
    (a : ℕ)
    → a < 2 ^ 32
    → (pg_round_down a % pgsize ≡ 0) × (pg_round_down a ≤ a) × (a < pg_round_down a + pgsize)
unfolding pg_round_down
pg_round_down_low a lt = omega arith

-- PG_ROUND_UP of an address whose page does not reach 4 GiB is the least multiple of the page size
-- that is not below.
pub pg_round_up_low :
    (a : ℕ)
    → a + pgsize ≤ 2 ^ 32
    → (pg_round_up a % pgsize ≡ 0) × (a ≤ pg_round_up a) × (pg_round_up a < a + pgsize)
unfolding pg_round_up
pg_round_up_low a lt = omega arith

-- A page-table entry made of a page's address and ten flag bits gives both back.
pub pte_parts :
    (pa flags : ℕ)
    → pa % pgsize ≡ 0
    → pa < 2 ^ 56
    → flags < 1024
    → (pte2pa (pa2pte pa + flags) ≡ pa) × (pte_flags (pa2pte pa + flags) ≡ flags)
unfolding pte2pa pa2pte pte_flags
pte_parts pa flags aligned small few = omega arith

-- The three indices and the offset make up a virtual address below 2^39, and no two addresses share
-- them.
pub px_parts :
    (va : ℕ)
    → va < 2 ^ 39
    → (((px 2 va * 512 + px 1 va) * 512 + px 0 va) * pgsize + va % pgsize ≡ va)
      × (px 2 va < 512)
      × (px 1 va < 512)
      × (px 0 va < 512)
unfolding px
px_parts va lt = omega arith

-- The kernel stacks of different slots of the process table do not share a page, and the page below
-- each belongs to none: for the byte distances that `proc::init` passes, as long as they stay below
-- 2^25.
pub kstack_apart : (p q : ℕ) → p < q → q < 2 ^ 24 → kstack q + 2 * pgsize ≤ kstack p
unfolding kstack
kstack_apart p q lt small = omega arith

-- The flags decide whether an entry made of a page and flags is valid.
pub pte_valid : (pa flags : ℕ) → flags % 2 ≡ 1 → (pa2pte pa + flags) % 2 ≡ 1
unfolding pa2pte
pte_valid pa flags odd = omega arith
