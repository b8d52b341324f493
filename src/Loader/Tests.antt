-- ===== src/Loader/Tests.antt =====
-- Runs of the loader.
use os_cpp.Base.{
  ◌==◌, if◌then◌else◌, length, ok, panic, fault, Ensures, Returns, ◌+◌, ◌≡◌, refl, true, none, some,
  [], ◌∷◌,
}
use os_cpp.Arch.{pg_round_up, pg_round_down, pte2pa, pa2pte, px}
use os_cpp.Cstring.{scan, strlen}
use os_cpp.Vm.{Mem, kalloc, kfree, walk_from, walk, map_loop, map_pages}
use os_cpp.Vm.User.{
  free_entries, free_walk, uvm_create, unmap_loop, uvm_unmap, uvm_free, uvm_dealloc, alloc_loop,
  uvm_alloc,
}
use os_cpp.Vm.Copy.{walkaddr, chunk, writable, copyout_loop, copyout}
use os_cpp.Content.{
  Dinode, Volume, set_copy, blank_dinode, iunlock, addr_of, bmap, iput, iunlockput,
}
use os_cpp.Content.Data.{either_copyout, readi_loop, readi}
use os_cpp.Sysfile.{zeros}
use os_cpp.Loader.{
  Task, alloc_pagetable, free_pagetable, flags2perm, load_loop, loadseg, fail_work, failed,
  read_header, bad_segment, load_segments,
}
use os_cpp.Loader.Exec.{push_args, push_array, push_all, last_name, commit, build_stack, exec}
use os_cpp.Loader.Commit.{Commits, exec-Commits}

abbrev file_inode : Dinode
file_inode = record (blank_dinode 2) {
  nlink = 1;
  size = 1000;
  addrs = λ k. if k == 0 then 9 else 0;
}

-- The file in slot 0 is an ELF file without segments; it is locked.
abbrev elf_volume : Volume
elf_volume = record {
  sb = record { size = 20; bmapstart = 3 };
  ninodes = 10;
  bitmap = λ block byte bit. true;
  dinode = λ inum. file_inode;
  block = λ b j.
      if j == 0
      then 0x7f
      else if j == 1
      then 0x45
      else if j == 2
      then 0x4c
      else if j == 3
      then 0x46
      else 0;
  table = λ i. record { dev = 1; inum = i + 1; ref = 1; valid = true };
  copy = λ i. file_inode;
  locked = λ i. i == 0;
}

abbrev memory : Mem
memory = record {
  word = λ a. 0;
  byte = λ a. if a == 0x80000000 then 97 else 0;
  free = 0x80001000 ∷ 0x80002000 ∷ 0x80003000 ∷ [];
}

abbrev task : Task
task = record {
  sys = record {
    volume = elf_volume;
    mem = memory;
    pagetable = 0;
    sz = 4096;
    args = λ k. 0;
    cwd = 1;
    uid = 0;
    gid = 0;
    ops = 0;
  };
  trampoline_page = 0x80100000;
  trapframe_page = 0x80101000;
  a1 = 1;
  epc = 2;
  sp = 3;
  name = [];
}

exec-Commits_example : Ensures (Commits task) (exec 0 (97 ∷ []) [] task)
exec-Commits_example = exec-Commits 0 (97 ∷ []) [] task

-- An empty file is no program.
no_program :
    Returns
      (λ r. (r.0 ≡ none) × (r.1.sys.ops ≡ 0) × ((r.1.sys.volume.table 0).ref ≡ 0))
      (exec 0 (97 ∷ []) [] (record task {
        sys = record (task.sys) { volume = set_copy 0 (record file_inode { size = 0 }) elf_volume };
      }))
unfolding exec read_header failed fail_work readi readi_loop iunlockput iunlock iput
no_program = (refl, refl, refl)

table_made :
    Returns
      (λ r. (r.0 ≡ some 0x80001000) × (length r.1.free ≡ 0))
      (alloc_pagetable 0x80100000 0x80101000 memory)
unfolding alloc_pagetable uvm_create kalloc map_pages map_loop walk walk_from px pte2pa pa2pte
table_made = (refl, refl)

-- Without a second page for the tables, the first one is given back.
table_failed :
    Returns
      (λ r. (r.0 ≡ none) × (length r.1.free ≡ 1))
      (alloc_pagetable 0x80100000 0x80101000 (record memory { free = 0x80001000 ∷ [] }))
unfolding alloc_pagetable uvm_create kalloc map_pages map_loop walk walk_from px pte2pa pa2pte
    uvm_free free_walk free_entries kfree
table_failed = (refl, refl)

-- One page of a program, its entry in the lowest table at 0x80002000.
abbrev mapped : Mem
mapped = record {
  word = λ a.
      if a == 0x80000000
      then 0x20000401
      else if a == 0x80001000
      then 0x20000801
      else if a == 0x80002000
      then 0x20000c17
      else 0;
  byte = λ a. if a == 0x80004000 then 97 else 0;
  free = [];
}

segment_loaded :
    Returns
      (λ r. (r.0 ≡ true) × (r.2.byte 0x80003001 ≡ 0x45) × (r.2.byte 0x80003004 ≡ 0))
      (loadseg 0x80000000 0 0 0 4 elf_volume mapped)
unfolding loadseg load_loop walkaddr walk_from px pte2pa either_copyout readi readi_loop bmap
    addr_of
segment_loaded = (refl, refl, refl)

no_segments : load_segments 0 7 0 64 0 task.sys ≡ ok (true, 0, task.sys)
unfolding load_segments
no_segments = refl

-- A segment with more bytes in the file than in memory.
too_long : bad_segment (λ j. if j == 32 then 1 else 0) ≡ true
unfolding bad_segment
too_long = refl

permissions : (flags2perm 1 ≡ 8) × (flags2perm 3 ≡ 12) × (flags2perm 4 ≡ 0)
unfolding flags2perm
permissions = (refl, refl, refl)

-- The string "a" and the array of its address, below 4096.
pushed :
    Returns
      (λ r. (r.0 ≡ some (4064, 1)) × (r.1.byte 0x80003ff0 ≡ 97) × (r.1.byte 0x80003fe0 ≡ 0xf0))
      (push_all 0x80000000 4096 (0x80004000 ∷ []) mapped)
unfolding push_all push_args push_array strlen scan copyout copyout_loop writable chunk
    pg_round_down walk_from px pte2pa
pushed = (refl, refl, refl)

short_name : last_name (47 ∷ 97 ∷ []) (47 ∷ 97 ∷ []) ≡ 97 ∷ []
unfolding last_name
short_name = refl

-- Without a page for the stack, the page table is freed; this one has no trampoline.
no_page :
    build_stack 0x80000000 0 0 [] [] (record (task.sys) { mem = mapped }) task
    ≡ panic "vm::uvm_unmap: walk"
unfolding build_stack uvm_alloc alloc_loop kalloc uvm_dealloc pg_round_up failed fail_work
    free_pagetable uvm_unmap unmap_loop walk walk_from px
no_page = refl

name_too_long : commit 0 0 0 0 0 (zeros 32) task.sys task ≡ fault
unfolding commit last_name
name_too_long = refl
