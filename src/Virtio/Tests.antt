-- ===== src/Virtio/Tests.antt =====
-- Runs of the descriptors of the disk.
use os_cpp.Base.{
  leb, ◌==◌, if◌then◌else◌, update, Returns, ℕ, ◌≡◌, refl, false, not, none, some, [], arith,
}
use os_cpp.Virtio.{
  Disk, zero_desc, alloc_loop, alloc_desc, third_desc, second_desc, alloc3_desc, enqueue, finish,
}
use os_cpp.Virtio.Descs.{Given, alloc3_desc-Given}
use os_cpp.Virtio.Chain.{given_back, finish-enqueue}
use os_cpp.Virtio.Interrupt.{virtio_disk_intr, Woken, virtio_disk_intr-Woken}

abbrev idle : Disk
idle = record {
  desc = λ i. zero_desc;
  free = λ i. not (i == 1);
  info_b = λ i. none;
  status = λ i. 0;
  ops = λ i. (false, 0);
  ring = λ i. 0;
  idx = 0;
  owned = λ b. false;
}

alloc3_desc_skips : Returns (λ r. r.0 ≡ some (0, 2, 3)) (alloc3_desc idle)
unfolding alloc3_desc second_desc third_desc alloc_desc alloc_loop
alloc3_desc_skips = refl

alloc3_desc-Given_run : Returns (Given idle) (alloc3_desc idle)
alloc3_desc-Given_run = alloc3_desc-Given idle

-- With 0, 1, 2 and 3 in use.
abbrev busy : Disk
busy = record idle { free = λ i. leb 4 i }

abbrev serve : Disk → Disk
serve d = record d { status = update d.status 0 0; owned = update d.owned 7 false }

finish-enqueue_example :
    Returns
      (λ d'.
        (n : ℕ)
        → d'.free n ≡ given_back (0, 2, 3) (serve (enqueue 7 80 false (0, 2, 3) busy)).free n)
      (finish (0, 2, 3) (serve (enqueue 7 80 false (0, 2, 3) busy)))
finish-enqueue_example =
    finish-enqueue 7 80 false (0, 2, 3) serve busy
      ((omega arith, omega arith, omega arith), (omega arith, omega arith, omega arith))
      (refl, refl, refl) (λ d. ((refl, refl, refl), (refl, refl, refl)))

-- One request, of buffer 7 with the descriptor 0, served; the indices wrap around.
abbrev served_one : Disk
served_one = record idle { info_b = λ i. if i == 0 then some 7 else none; owned = λ b. b == 7 }

virtio_disk_intr-Woken_example :
    Returns (Woken (λ k. 0) 0 65535 1 served_one []) (virtio_disk_intr (λ k. 0) 0 65535 served_one)
virtio_disk_intr-Woken_example =
    virtio_disk_intr-Woken (λ k. 0) 0 65535 served_one (omega arith) (omega arith)
      (λ k lt. (refl, (7, refl)))
