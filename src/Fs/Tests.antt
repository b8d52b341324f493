-- ===== src/Fs/Tests.antt =====
-- Runs of the free map, the inode table and the paths.
use os_cpp.Base.{
  ◌==◌, if◌then◌else◌, replicate, update, ok, panic, Ensures, ℕ, zero, suc, ◌<◌, ◌≡◌, refl, true,
  false, ◌&&◌, ◌||◌, some, List, [], ◌∷◌, ◌++◌, arith,
}
use os_cpp.Fs.{
  Superblock, Disk, set_bit, bzero, balloc, bfree, Itable, recycle, iget_loop, iget, idup, drop,
  skip_slashes, skipelem,
}
use os_cpp.Fs.Bitmap.{Taken, balloc_lem}
use os_cpp.Fs.Inodes.{Single, iget_lem}
use os_cpp.Fs.Paths.{render, elements, skipelem_lem, elements-render}

abbrev small : Superblock
small = record { size = 20; bmapstart = 3 }

-- Blocks 0 to 8 are taken.
abbrev nine_taken : Disk
nine_taken block byte bit = block == 3 && (byte == 0 || (byte == 1 && bit == 0))

abbrev all_taken : Disk
all_taken block byte bit = true

ninth-Taken : (j : ℕ) → j < 9 → Taken small nine_taken j
ninth-Taken zero lt = refl
ninth-Taken (suc zero) lt = refl
ninth-Taken (suc (suc zero)) lt = refl
ninth-Taken (suc (suc (suc zero))) lt = refl
ninth-Taken (suc (suc (suc (suc zero)))) lt = refl
ninth-Taken (suc (suc (suc (suc (suc zero))))) lt = refl
ninth-Taken (suc (suc (suc (suc (suc (suc zero)))))) lt = refl
ninth-Taken (suc (suc (suc (suc (suc (suc (suc zero))))))) lt = refl
ninth-Taken (suc (suc (suc (suc (suc (suc (suc (suc zero)))))))) lt = refl
ninth-Taken (suc (suc (suc (suc (suc (suc (suc (suc (suc j))))))))) lt = absurd (omega arith)

balloc_lem_example : balloc small nine_taken ≡ (9, bzero 9 (set_bit nine_taken 3 9 true))
balloc_lem_example = (balloc_lem small nine_taken).0 9 (omega arith) refl ninth-Taken

-- Block 9 is free, and bfree does not see it, since bit 1 of byte 1 is clear.
bfree_panics : bfree small 9 nine_taken ≡ panic "fs::bfree: it's free"
unfolding bfree
bfree_panics = refl

-- Block 16 is free for bfree as well, whose test reads byte 0.
bfree_misses_a_free_block : bfree small 16 nine_taken ≡ ok (set_bit nine_taken 3 16 false)
unfolding bfree
bfree_misses_a_free_block = refl

abbrev one_inode : Itable
one_inode i = record { dev = 1; inum = 7; ref = if i == 4 then 1 else 0; valid = true }

one_inode-Single : Single one_inode
one_inode-Single i j li lj ri rj same = ground arith

iget_lem_example :
    iget 1 7 one_inode
    ≡ ok (4, update one_inode 4 (record { dev = 1; inum = 7; ref = 2; valid = true }))
iget_lem_example =
    (iget_lem 1 7 one_inode one_inode-Single).1 4 (omega arith, omega arith, refl, refl)

iget_new : Ensures (λ r. r.0 ≡ 0) (iget 1 8 one_inode)
unfolding iget iget_loop recycle
iget_new = refl

idup_then : ((idup 4 one_inode).1 4).ref ≡ 2
unfolding idup
idup_then = refl

abbrev bin : List ℕ
bin = 98 ∷ 105 ∷ 110 ∷ []

abbrev sh : List ℕ
sh = 115 ∷ 104 ∷ []

abbrev no_name : List ℕ
no_name = replicate 14 0

skipelem_lem_example :
    skipelem (render (bin ∷ sh ∷ [])) no_name ≡ ok (some (sh, bin ++ (0 ∷ drop 4 no_name)))
unfolding skip_slashes
skipelem_lem_example =
    (skipelem_lem bin (sh ∷ []) no_name
        (omega arith, omega arith, (omega arith, omega arith, (omega arith, omega arith, tt)))
        (omega arith)).0
      (omega arith)

elements-render_example : elements 3 (render (bin ∷ sh ∷ [])) no_name ≡ ok (bin ∷ sh ∷ [])
elements-render_example = elements-render (bin ∷ sh ∷ []) no_name (
  (
    (omega arith, omega arith, (omega arith, omega arith, (omega arith, omega arith, tt))),
    omega arith,
    omega arith,
  ),
  (((omega arith, omega arith, (omega arith, omega arith, tt)), omega arith, omega arith), tt),
)
