-- ===== src/Image/Tests.antt =====
-- Runs of the building of an image.
use os_cpp.Base.{ltb, ◌==◌, if◌then◌else◌, panic, Returns, ◌+◌, ◌≡◌, refl, false, ◌&&◌, arith}
use os_cpp.Image.{Image, winode, ialloc, balloc, addr_of, fssize, block_of, append_loop, iappend}
use os_cpp.Image.Bitmap.{balloc_first}
use os_cpp.Fs.{Superblock}
use os_cpp.Content.{blank_dinode}

-- The kernel's image has 44 blocks before the data; inode 1 is an empty directory, 2 a large file.
abbrev image : Image
image = record {
  dinode = λ inum. record (blank_dinode 2) {
    size = if inum == 2 then 12288 else 0;
    addrs = λ k. if inum == 2 && ltb k 12 then 50 + k else 0;
  };
  block = λ b j. 0;
  bitmap = λ block byte bit. false;
  bmapstart = 58;
  freeblock = 70;
  freeinode = 3;
}

abbrev kernel_view : Superblock
kernel_view = record { size = 2000; bmapstart = 58 }

balloc_first_example :
    Returns (λ im'. (os_cpp.Fs.balloc kernel_view im'.bitmap).0 ≡ 70) (balloc 70 image)
balloc_first_example = balloc_first 70 image kernel_view (omega arith) (omega arith) refl

-- The block 12 of a file is in the indirect block 70, which the kernel's bmap takes for the block.
indirect :
    Returns
      (λ im'. ((im'.dinode 2).addrs 12 ≡ 70) × (im'.block 70 0 ≡ 71) × (im'.block 71 3 ≡ 10))
      (iappend 2 (λ j. j + 7) 5 image)
unfolding iappend append_loop block_of addr_of winode
indirect = (refl, refl, refl)

first_inode : (ialloc 1000 2 7 5 0 image).0 ≡ 3
unfolding ialloc
first_inode = refl

-- The image has no sector 2000.
image_full :
    iappend 2 (λ j. j) 1 (record image { freeblock = fssize; dinode = λ i. blank_dinode 2 })
    ≡ panic "exit(-1)"
unfolding iappend append_loop block_of addr_of
image_full = refl
