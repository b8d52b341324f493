-- ===== src/Vm/Copy/Tests.antt =====
-- Runs of the copies, over a process with pages 0 and 1 at 0x80100000 and 0x80103000.
use os_cpp.Base.{◌==◌, if◌then◌else◌, Returns, ◌+◌, ◌≡◌, refl, true, false, []}
use os_cpp.Arch.{pg_round_down, pte2pa, px}
use os_cpp.Vm.{Mem, walk_from}
use os_cpp.Vm.Copy.{
  walkaddr, chunk, copyin_loop, copyin, writable, copyout_loop, copyout, copy_chars, copyinstr_loop,
  copyinstr,
}

abbrev two_pages : Mem
two_pages = record {
  word = λ a.
      if a == 0x80000000
      then 0x20000401
      else if a == 0x80001000
      then 0x20000801
      else if a == 0x80002000
      then 0x20040017
      else if a == 0x80002008
      then 0x20040c17
      else 0;
  byte = λ a. if a == 0x80100ffe then 104 else if a == 0x80100fff then 105 else 0;
  free = [];
}

second_page : walkaddr 0x80000000 0x1234 two_pages ≡ 0x80103000
unfolding walkaddr walk_from px pte2pa
second_page = refl

-- The copy crosses into the second page, and stops at the third.
across :
    Returns
      (λ r. (r.0 ≡ true) × (r.1 0 ≡ 104) × (r.1 1 ≡ 105) × (r.1 2 ≡ 0) × (r.1 3 ≡ 9))
      (copyin 0x80000000 (λ j. 9) 0xffe 3 two_pages)
unfolding copyin copyin_loop chunk walkaddr walk_from px pte2pa pg_round_down
across = (refl, refl, refl, refl, refl)

too_far : Returns (λ r. (r.0 ≡ false) × (r.1 0 ≡ 0)) (copyin 0x80000000 (λ j. 9) 0x1fff 2 two_pages)
unfolding copyin copyin_loop chunk walkaddr walk_from px pte2pa pg_round_down
too_far = (refl, refl)

written :
    Returns
      (λ r.
        (r.0 ≡ true)
        × (r.1.byte 0x80100fff ≡ 7)
        × (r.1.byte 0x80103000 ≡ 8)
        × (r.1.byte 0x80103001 ≡ 0))
      (copyout 0x80000000 0xfff (λ j. 7 + j) 2 two_pages)
unfolding copyout copyout_loop writable chunk walk_from px pte2pa pg_round_down
written = (refl, refl, refl, refl)

a_string :
    Returns
      (λ r. (r.0 ≡ true) × (r.1 0 ≡ 104) × (r.1 1 ≡ 105) × (r.1 2 ≡ 0) × (r.1 3 ≡ 9))
      (copyinstr 0x80000000 (λ j. 9) 0xffe 16 two_pages)
unfolding copyinstr copyinstr_loop copy_chars chunk walkaddr walk_from px pte2pa pg_round_down
a_string = (refl, refl, refl, refl, refl)
