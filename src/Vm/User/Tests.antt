-- ===== src/Vm/User/Tests.antt =====
-- Runs of the memory of a process.
use os_cpp.Base.{◌==◌, if◌then◌else◌, length, panic, ◌>>=◌, Returns, ◌≡◌, refl, true, some, [], ◌∷◌}
use os_cpp.Arch.{pg_round_up, pte2pa, pa2pte, pte_flags, px}
use os_cpp.Vm.{Mem, kalloc, kfree, walk_from, walk, map_loop, map_pages}
use os_cpp.Vm.User.{
  free_entries, free_walk, uvm_create, uvm_first, unmap_loop, uvm_unmap, uvm_free, uvm_dealloc,
  alloc_loop, uvm_alloc, copy_loop, uvm_copy, uvm_clear,
}

abbrev some_free : Mem
some_free = record {
  word = λ a. 0;
  byte = λ a. 0;
  free = 0x80001000 ∷ 0x80002000 ∷ 0x80003000 ∷ 0x80004000 ∷ [];
}

created :
    ((uvm_create some_free).0 ≡ some 0x80001000) × ((uvm_create some_free).1.word 0x80001008 ≡ 0)
unfolding uvm_create kalloc
created = (refl, refl)

-- A page is allocated with the two tables on its way, and the page below it is freed again.
grows :
    Returns (λ r. (r.0 ≡ 4096) × (length r.1.free ≡ 1)) (uvm_alloc 0x80000000 0 4096 4 some_free)
unfolding uvm_alloc alloc_loop kalloc map_pages map_loop walk walk_from px pte2pa pa2pte pg_round_up
grows = (refl, refl)

grows_and_shrinks :
    Returns
      (λ r. (r.0 ≡ 0) × (length r.1.free ≡ 2))
      (uvm_alloc 0x80000000 0 4096 4 some_free >>= λ r. uvm_dealloc 0x80000000 4096 0 r.1)
unfolding uvm_alloc alloc_loop kalloc kfree map_pages map_loop walk walk_from px pte2pa pa2pte
    pg_round_up uvm_dealloc uvm_unmap unmap_loop pte_flags
grows_and_shrinks = (refl, refl)

out_of_pages :
    Returns
      (λ r. (r.0 ≡ 0) × (length r.1.free ≡ 1))
      (uvm_alloc 0x80000000 0 8192 4 (record some_free { free = 0x80001000 ∷ [] }))
unfolding uvm_alloc alloc_loop kalloc kfree map_pages map_loop walk walk_from px pte2pa pa2pte
    pg_round_up uvm_dealloc uvm_unmap unmap_loop pte_flags
out_of_pages = (refl, refl)

first_page :
    Returns
      (λ s. (s.byte 0x80001003 ≡ 19) × (s.byte 0x80001004 ≡ 0))
      (uvm_first 0x80000000 (λ j. 19) 4 some_free)
unfolding uvm_first kalloc map_pages map_loop walk walk_from px pte2pa pa2pte
first_page = (refl, refl)

-- The copy has the bytes of the page.
copied :
    Returns
      (λ r. (r.0 ≡ true) × (r.1.byte 0x80005003 ≡ 19))
      (uvm_first 0x80000000 (λ j. 19) 4 some_free >>= λ s.
        uvm_copy 0x80000000 0x80010000 4096
          (record s { free = 0x80005000 ∷ 0x80006000 ∷ 0x80007000 ∷ [] }))
unfolding uvm_first kalloc map_pages map_loop walk walk_from px pte2pa pa2pte uvm_copy copy_loop
    pte_flags
copied = (refl, refl)

cleared :
    uvm_clear 0x80000000 0 (record some_free { free = [] }) ≡ panic "vm::uvm_clear: pte not exit"
unfolding uvm_clear walk walk_from px
cleared = refl

-- A table with a table below it, both given back; a leaf in a table is refused.
freed :
    Returns
      (λ s. length s.free ≡ 6)
      (uvm_free 0x80000000 0
        (record some_free { word = λ a. if a == 0x80000000 then 0x20001401 else 0 }))
unfolding uvm_free free_walk free_entries pte2pa kfree
freed = refl
