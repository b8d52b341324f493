-- ===== src/Sysfile/Tests.antt =====
-- Runs of the system calls on directories, and of the table of calls.
use os_cpp.Base.{
  ltb, ◌==◌, if◌then◌else◌, length, ok, panic, blocked, fault, Outcome, Ensures, Returns, ℕ, ◌+◌,
  ◌-◌, ◌≡◌, refl, true, false, ◌&&◌, ◌||◌, none, some, List, [], ◌∷◌,
}
use os_cpp.Arch.{pg_round_up, pg_round_down, pte2pa, pa2pte, pte_flags, px}
use os_cpp.Vm.{Mem, kalloc, kfree, walk_from, walk, map_loop, map_pages}
use os_cpp.Vm.User.{unmap_loop, uvm_unmap, uvm_dealloc, alloc_loop, uvm_alloc}
use os_cpp.Vm.Copy.{walkaddr, chunk, copyin_loop, copyin, copy_chars, copyinstr_loop, copyinstr}
use os_cpp.Fs.{iget_loop, iget, skip_slashes, split_elem, store_name, skipelem}
use os_cpp.Content.{
  Dinode, Volume, set_copy, ialloc_loop, ialloc, iupdate, ilock, iunlock, iput, iunlockput,
}
use os_cpp.Content.Dirs.{lookup_loop, dir_lookup, dir_link_with, dir_link_inum, namex_loop, namex}
use os_cpp.Sysfile.{
  Sys, get_argu, fetch_addr, fetch_str, give_up, link_dots, make_inode, create, create_for,
}
use os_cpp.Sysfile.Calls.{sys_chdir, sys_mkdir, sys_mknod, sys_setuid, sys_setgid}
use os_cpp.Sysfile.Balance.{Leaves, sys_ops}
use os_cpp.Sysfile.Memory.{grow, sys_sbrk, fail_work4exec, fetch_page, read_args, exec_arguments}
use os_cpp.Sysfile.Table.{syscall}

-- A file system with an empty root in slot 0.
abbrev dinode_of : ℕ → ℕ → Dinode
dinode_of type block = record {
  type = type;
  major = 0;
  minor = 0;
  nlink = 1;
  size = 0;
  uid = 0;
  gid = 0;
  mask_user = 7;
  mask_group = 5;
  mask_other = 5;
  addrs = λ k. if k == 0 then block else 0;
}

abbrev volume : Volume
volume = record {
  sb = record { size = 20; bmapstart = 3 };
  ninodes = 10;
  bitmap = λ block byte bit. block == 3 && (byte == 0 || (byte == 1 && ltb bit 4));
  dinode = λ inum. if inum == 1 then dinode_of 1 9 else dinode_of 0 0;
  block = λ b j. 0;
  table = λ i. record { dev = 1; inum = i + 1; ref = if i == 0 then 1 else 0; valid = i == 0 };
  copy = λ i. dinode_of 1 9;
  locked = λ i. false;
}

-- The page 0 of the process has the path `/d`, and at 8 the address 0 and a null pointer.
abbrev memory : Mem
memory = record {
  word = λ a.
      if a == 0x80000000
      then 0x20000401
      else if a == 0x80001000
      then 0x20000801
      else if a == 0x80002000
      then 0x20000c17
      else 0;
  byte = λ a. if a == 0x80003000 then 47 else if a == 0x80003001 then 100 else 0;
  free = 0x80004000 ∷ 0x80005000 ∷ [];
}

abbrev calling : ℕ → ℕ → Sys
calling first second = record {
  volume = volume;
  mem = memory;
  pagetable = 0x80000000;
  sz = 4096;
  args = λ k. if k == 0 then first else second;
  cwd = 0;
  uid = 5;
  gid = 6;
  ops = 0;
}

-- Without a free inode.
no_inode :
    Returns
      (λ r. (r.0 ≡ false) × (r.1.ops ≡ 0) × ((r.1.volume.table 0).ref ≡ 1))
      (sys_mkdir (record (calling 0 0) { volume = record volume { ninodes = 1 } }))
unfolding sys_mkdir get_argu fetch_str create_for create make_inode copyinstr copyinstr_loop
    walkaddr walk_from px pte2pa chunk copy_chars pg_round_down namex namex_loop skipelem
    skip_slashes split_elem store_name ilock iunlock iunlockput iput dir_lookup lookup_loop iget
    iget_loop ialloc ialloc_loop
no_inode = (refl, refl, refl)

not_a_directory :
    link_dots 0 (set_copy 0 (dinode_of 2 9) volume) ≡ panic "fs::dir_lookup: it's not a dir"
unfolding link_dots dir_link_inum dir_link_with dir_lookup
not_a_directory = refl

-- The root has no `d`.
not_there : Returns (λ r. (r.0 ≡ false) × (r.1.ops ≡ 0)) (sys_chdir (calling 0 0))
unfolding sys_chdir get_argu fetch_str copyinstr copyinstr_loop walkaddr walk_from px pte2pa chunk
    copy_chars pg_round_down namex namex_loop skipelem skip_slashes split_elem store_name ilock
    iunlock iunlockput iput dir_lookup lookup_loop iget iget_loop
not_there = (refl, refl)

-- The address 4096 is not mapped: the transaction stays open.
stays_open : Returns (λ r. (r.0 ≡ false) × (r.1.ops ≡ 1)) (sys_mknod (calling 4096 0))
unfolding sys_mknod get_argu fetch_str copyinstr copyinstr_loop walkaddr walk_from px pte2pa chunk
    pg_round_down
stays_open = (refl, refl)

given_up :
    Returns
      (λ r. (r.0 ≡ none) × ((r.1.table 0).ref ≡ 1))
      (give_up 0 1 (record volume {
        locked = λ i. true;
        table = λ i. record { dev = 1; inum = i + 1; ref = 2 - i; valid = false };
      }))
unfolding give_up iunlockput iunlock iput iupdate
given_up = (refl, refl)

grown : Returns (λ r. (r.0 ≡ some 4096) × (r.1.sz ≡ 8192)) (sys_sbrk (calling 4096 0))
unfolding sys_sbrk get_argu grow uvm_alloc alloc_loop kalloc map_pages map_loop walk walk_from px
    pte2pa pa2pte pg_round_up
grown = (refl, refl)

shrunk : Returns (λ r. (r.0 ≡ true) × (r.1.sz ≡ 0)) (grow 0xfffff000 (calling 0 0))
unfolding grow uvm_dealloc uvm_unmap unmap_loop kfree walk walk_from px pte2pa pg_round_up pte_flags
shrunk = (refl, refl)

-- The first argument is the string at 0x642f, which is not mapped: its page is given back.
no_argument : Returns (λ r. (r.0 ≡ none) × (length r.1.mem.free ≡ 2)) (exec_arguments (calling 0 0))
unfolding exec_arguments read_args fetch_page fail_work4exec get_argu fetch_str fetch_addr copyin
    copyin_loop copyinstr copyinstr_loop walkaddr walk_from px pte2pa chunk copy_chars pg_round_down
    kalloc kfree
no_argument = (refl, refl)

no_arguments : Returns (λ r. r.0 ≡ some (47 ∷ 100 ∷ [], [])) (exec_arguments (calling 0 16))
unfolding exec_arguments read_args get_argu fetch_str fetch_addr copyin copyin_loop copyinstr
    copyinstr_loop walkaddr walk_from px pte2pa chunk copy_chars pg_round_down
no_arguments = refl

users : Returns (λ r. r.1.uid ≡ 9) (sys_setuid (calling 9 0))
unfolding sys_setuid get_argu
users = refl

groups : Returns (λ r. r.1.gid ≡ 9) (sys_setgid (calling 9 0))
unfolding sys_setgid get_argu
groups = refl

sys_ops_example :
    Leaves 0 (sys_chdir (calling 0 0))
    × Leaves 0 (sys_mkdir (calling 0 0))
    × Ensures (λ r. r.1.ops ≡ (if r.0 then 0 else 1)) (sys_mknod (calling 0 0))
sys_ops_example = sys_ops (calling 0 0)

-- A table of two calls.
abbrev two_calls : List (ℕ → Outcome (ℕ × ℕ))
two_calls = (λ s. ok (7, s + 1)) ∷ (λ s. blocked) ∷ []

-- The number 2 is within the size of the table in bytes.
past_the_table : syscall two_calls 2 5 ≡ fault
unfolding syscall
past_the_table = refl

called : syscall two_calls 0 5 ≡ ok (some 7, 6)
unfolding syscall
called = refl
