-- ===== src/Content/Tests.antt =====
-- Runs of the inodes, the files and the directories.
use os_cpp.Base.{
  ltb, ◌==◌, if◌then◌else◌, update, panic, blocked, fault, ◌>>=◌, Returns, ℕ, ◌+◌, ◌<◌, ◌≡◌, refl,
  ◌≢◌, true, false, ◌&&◌, ◌||◌, some, List, [], ◌∷◌, arith,
}
use os_cpp.Cstring.{copy_string, pad, strncmp}
use os_cpp.Vm.{Mem}
use os_cpp.Fs.{
  bzero, find_bit, balloc_loop, balloc, bfree, recycle, iget_loop, iget, idup, skip_slashes,
  split_elem, store_name, skipelem,
}
use os_cpp.Content.{
  Dinode, Volume, set_copy, take_block, give_block, ialloc_loop, ialloc, iupdate, ilock, iunlock,
  addr_of, bmap, free_direct, free_indirect, itrunc, iput, iunlockput,
}
use os_cpp.Content.Data.{
  stati, either_copyout, either_copyin, readi_loop, readi, writei_loop, writei,
}
use os_cpp.Content.Dirs.{
  to_array, same_name, read_entry, lookup_loop, dir_lookup, free_entry, link_name, set_fields,
  dir_link_with, dir_link, dir_link_inum, namex_loop, namex,
}
use os_cpp.Content.Blocks.{HasBlocks, Reads}
use os_cpp.Content.Reading.{readi-Reads}

-- Inode 1 is the root, with one block, number 9; inode 2 is a file with the blocks 10 and 11, and
-- 1500 bytes. The file is in slot 1, locked.
abbrev root_dinode : Dinode
root_dinode = record {
  type = 1;
  major = 0;
  minor = 0;
  nlink = 1;
  size = 0;
  uid = 0;
  gid = 0;
  mask_user = 7;
  mask_group = 5;
  mask_other = 5;
  addrs = λ k. if k == 0 then 9 else 0;
}

abbrev file_dinode : Dinode
file_dinode = record {
  type = 2;
  major = 0;
  minor = 0;
  nlink = 1;
  size = 1500;
  uid = 258;
  gid = 0;
  mask_user = 6;
  mask_group = 4;
  mask_other = 4;
  addrs = λ k. if k == 0 then 10 else if k == 1 then 11 else 0;
}

abbrev no_dinode : Dinode
no_dinode = record file_dinode { type = 0; nlink = 0; size = 0 }

abbrev volume : Volume
volume = record {
  sb = record { size = 20; bmapstart = 3 };
  ninodes = 10;
  bitmap = λ block byte bit. block == 3 && (byte == 0 || (byte == 1 && ltb bit 4));
  dinode = λ inum. if inum == 1 then root_dinode else if inum == 2 then file_dinode else no_dinode;
  block = λ b j. if b == 9 then 0 else b;
  table = λ i. record { dev = 1; inum = i + 1; ref = if ltb i 2 then 1 else 0; valid = ltb i 2 };
  copy = λ i. if i == 0 then root_dinode else file_dinode;
  locked = λ i. false;
}

file_blocks : HasBlocks volume 1 1500
file_blocks = record { direct = omega arith; there = λ k lt. has_addr k (omega arith) }
  where
    has_addr : (k : ℕ) → k < 2 → file_dinode.addrs k ≢ 0
    has_addr k lt = ground arith

readi-Reads_example :
    Returns (Reads volume 1 1000 500 3 0 (λ j. 0)) (readi to_array 1 3 1000 600 volume (λ j. 0))
readi-Reads_example =
    readi-Reads volume 1 1000 600 3 (λ j. 0) file_blocks (omega arith) (omega arith)

-- The block 12 is the indirect block itself, and the next one is past the addresses.
bmap_past_addresses : bmap 1 13 volume ≡ fault
unfolding bmap
bmap_past_addresses = refl

-- The first block that is free is 12.
allocates : Returns (λ r. (r.0 ≡ 12) × (((r.1.copy 1).addrs 2) ≡ 12)) (bmap 1 2 volume)
unfolding bmap addr_of take_block balloc balloc_loop find_bit bzero
allocates = (refl, refl)

inode_allocated : Returns (λ r. (r.0 ≡ some 2) × ((r.1.dinode 3).type ≡ 2)) (ialloc 1 2 volume)
unfolding ialloc ialloc_loop iget iget_loop recycle
inode_allocated = (refl, refl)

locked_and_unlocked : Returns (λ w. w.locked 1 ≡ false) (ilock 1 volume >>= λ w. iunlock 1 w)
unfolding ilock iunlock
locked_and_unlocked = refl

locked_twice : (ilock 1 volume >>= λ w. ilock 1 w) ≡ blocked
unfolding ilock
locked_twice = refl

-- The block 10 is tested by the byte 2, so that bfree finds it free.
not_truncated : itrunc 1 volume ≡ panic "fs::bfree: it's free"
unfolding itrunc free_direct give_block bfree
not_truncated = refl

emptied :
    Returns
      (λ w. ((w.copy 0).size ≡ 0) × ((w.table 0).ref ≡ 0) × ((w.dinode 1).type ≡ 0))
      (iput 0 (set_copy 0 (record root_dinode { nlink = 0; addrs = λ k. 0 }) volume))
unfolding iput itrunc free_direct iupdate
emptied = (refl, refl, refl)

indirect_freed : free_indirect 12 0 1 volume ≡ panic "fs::bfree: it's free"
unfolding free_indirect give_block bfree
indirect_freed = refl

kept : Returns (λ w. (w.table 1).ref ≡ 0) (ilock 1 volume >>= λ w. iunlockput 1 w)
unfolding ilock iunlockput iunlock iput
kept = refl

file_stat : (stati 1 volume).size ≡ 1500
unfolding stati
file_stat = refl

-- The name "ab".
abbrev name : List ℕ
name = 97 ∷ 98 ∷ 0 ∷ 0 ∷ 0 ∷ 0 ∷ 0 ∷ 0 ∷ 0 ∷ 0 ∷ 0 ∷ 0 ∷ 0 ∷ 0 ∷ []

-- An empty directory is one block without entries. The entry `ab` is found, with its inode in the
-- slot that iget takes.
linked :
    Returns
      (λ r. (r.0 ≡ true) × ((r.1.copy 0).size ≡ 32) × (r.1.block 9 15 ≡ 97) × (r.1.block 9 5 ≡ 1))
      (dir_link 0 name 1 volume)
unfolding dir_link dir_link_with dir_lookup lookup_loop free_entry link_name copy_string pad
    set_fields writei writei_loop bmap addr_of iupdate
linked = (refl, refl, refl, refl)

-- The directory after `dir_link` of the file as `ab`; its lock is free.
abbrev entries : ℕ → ℕ
entries j = if j == 0 then 2 else if j == 15 then 97 else if j == 16 then 98 else 0

abbrev directory : Volume
directory =
    set_copy 0 (record root_dinode { size = 32 })
      (record volume { block = update volume.block 9 entries })

found : Returns (λ r. r.0 ≡ some (0, 1)) (dir_lookup 0 name directory)
unfolding dir_lookup lookup_loop read_entry readi readi_loop bmap addr_of same_name strncmp iget
    iget_loop
found = refl

linked_again :
    Returns (λ r. (r.0 ≡ false) × ((r.1.table 1).ref ≡ 1)) (dir_link_inum 0 name 5 directory)
unfolding dir_link_inum dir_link_with dir_lookup lookup_loop read_entry readi readi_loop bmap
    addr_of same_name strncmp iget iget_loop iput
linked_again = (refl, refl)

-- The path `/ab`, and its parent.
path_found :
    Returns
      (λ r. (r.0 ≡ some 1) × ((r.2.table 1).ref ≡ 2) × ((r.2.table 0).ref ≡ 1))
      (namex 0 (47 ∷ 97 ∷ 98 ∷ []) false name directory)
unfolding namex namex_loop skipelem skip_slashes split_elem store_name ilock iunlockput iunlock iput
    dir_lookup lookup_loop read_entry readi readi_loop bmap addr_of same_name strncmp iget iget_loop
path_found = (refl, refl, refl)

parent_found :
    Returns
      (λ r. (r.0 ≡ some 0) × ((r.2.table 0).ref ≡ 2))
      (namex 0 (97 ∷ 98 ∷ []) true name directory)
unfolding namex namex_loop skipelem skip_slashes split_elem store_name ilock iunlock idup
parent_found = (refl, refl)

abbrev memory : Mem
memory = record { word = λ a. 0; byte = λ a. a; free = [] }

copied_out : Returns (λ r. r.1.byte 102 ≡ 9) (either_copyout false 0 100 (λ j. j + 7) 3 memory)
unfolding either_copyout
copied_out = refl

copied_in : Returns (λ r. r.1 2 ≡ 102) (either_copyin false 0 (λ j. 0) 100 3 memory)
unfolding either_copyin
copied_in = refl
