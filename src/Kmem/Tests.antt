-- ===== src/Kmem/Tests.antt =====
-- Runs of the page allocator.
use os_cpp.Base.{◌==◌, if◌then◌else◌, ◌+◌, ◌-◌, ◌/◌, ◌%◌, ◌≤◌, ◌<◌, ◌≡◌, refl, some, [], ◌∷◌, arith}
use os_cpp.Arch.{pgsize, pg_round_up}
use os_cpp.Arch.Pages.{pg_round_up_low}
use os_cpp.Kmem.{Kmem, phy_end, kfree, kalloc, kinit}
use os_cpp.Kmem.Pages.{NotIn, Free, kalloc-Free, kalloc-kfree, pages, kinit_lem}

abbrev no_pages : Kmem
no_pages = record { word = λ p. 0; freelist = 0 }

abbrev two_pages : Kmem
two_pages = record { word = λ p. if p == 0x80002000 then 0x80001000 else 0; freelist = 0x80002000 }

two_pages-Free : Free two_pages (0x80002000 ∷ 0x80001000 ∷ [])
two_pages-Free = (refl, omega arith, (omega arith, tt), (refl, omega arith, tt, refl))

kalloc-Free_run :
    ((kalloc two_pages).0 ≡ some 0x80002000)
    × Free (kalloc two_pages).1 (0x80001000 ∷ [])
    × NotIn 0x80002000 (0x80001000 ∷ [])
kalloc-Free_run = kalloc-Free two_pages (0x80002000 ∷ 0x80001000 ∷ []) two_pages-Free

kalloc-kfree_example :
    ((kalloc (kfree 0x80003000 two_pages)).0 ≡ some 0x80003000)
    × Free (kalloc (kfree 0x80003000 two_pages)).1 (0x80002000 ∷ 0x80001000 ∷ [])
kalloc-kfree_example =
    kalloc-kfree 0x80003000 two_pages (0x80002000 ∷ 0x80001000 ∷ []) (omega arith)
      (omega arith, (omega arith, tt)) two_pages-Free

-- Two pages are left for a kernel that ends just below them.
kinit_lem_example :
    Free
      (kinit 0x87ffd123 no_pages)
      (pages (pg_round_up 0x87ffd123) ((phy_end - pg_round_up 0x87ffd123) / pgsize))
kinit_lem_example =
    let low : (pg_round_up 0x87ffd123 % pgsize ≡ 0)
        × (0x87ffd123 ≤ pg_round_up 0x87ffd123)
        × (pg_round_up 0x87ffd123 < 0x87ffd123 + pgsize) =
      pg_round_up_low 0x87ffd123 (omega arith) in
    kinit_lem 0x87ffd123 no_pages (omega (arith, low.2)) (omega (arith, low.1)) refl
