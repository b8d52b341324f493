-- ===== src/Open/Tests.antt =====
-- Runs of `sys_open`.
use os_cpp.Base.{
  ltb, ◌==◌, if◌then◌else◌, Ensures, Returns, ℕ, ◌+◌, ◌≡◌, refl, inl, inr, false, ◌&&◌, ◌||◌, none,
  some, [], ◌∷◌, arith,
}
use os_cpp.Arch.{pg_round_down, pte2pa, px}
use os_cpp.Files.{fd_none, kept, File, alloc_loop, alloc, fd_alloc}
use os_cpp.Files.Counts.{Counted}
use os_cpp.Vm.{Mem, walk_from}
use os_cpp.Vm.Copy.{walkaddr, chunk, copy_chars, copyinstr_loop, copyinstr}
use os_cpp.Fs.{iget_loop, iget, skip_slashes, split_elem, store_name, skipelem}
use os_cpp.Content.{Dinode, Volume, set_copy, ilock, iunlock, iput, iunlockput}
use os_cpp.Content.Dirs.{namex_loop, namex}
use os_cpp.Sysfile.{Sys, get_argu, fetch_str}
use os_cpp.Open.{
  State, check_permission_for_file, may_open, give_up_open, fill_file, take_fd, take_file,
  with_inode, find_inode, sys_open,
}
use os_cpp.Open.Balance.{Settled, sys_open-Settled}
use os_cpp.Open.Access.{Tested, with_inode_denied, with_inode_unchecked}

abbrev closed_file : File
closed_file = record {
  kind = fd_none;
  ref = 0;
  readable = false;
  writable = false;
  object = 0;
  off = 0;
  major = 0;
}

-- A file system with an empty root in slot 0.
abbrev dinode_of : ℕ → ℕ → Dinode
dinode_of type block = record {
  type = type;
  major = 0;
  minor = 0;
  nlink = 1;
  size = 0;
  uid = 0;
  gid = 0;
  mask_user = 7;
  mask_group = 5;
  mask_other = 5;
  addrs = λ k. if k == 0 then block else 0;
}

abbrev volume : Volume
volume = record {
  sb = record { size = 20; bmapstart = 3 };
  ninodes = 10;
  bitmap = λ block byte bit. block == 3 && (byte == 0 || (byte == 1 && ltb bit 4));
  dinode = λ inum. if inum == 1 then dinode_of 1 9 else dinode_of 0 0;
  block = λ b j. 0;
  table = λ i. record { dev = 1; inum = i + 1; ref = if i == 0 then 1 else 0; valid = i == 0 };
  copy = λ i. dinode_of 1 9;
  locked = λ i. false;
}

-- The page 0 of the process has the path `/`.
abbrev memory : Mem
memory = record {
  word = λ a.
      if a == 0x80000000
      then 0x20000401
      else if a == 0x80001000
      then 0x20000801
      else if a == 0x80002000
      then 0x20000c17
      else 0;
  byte = λ a. if a == 0x80003000 then 47 else 0;
  free = 0x80004000 ∷ 0x80005000 ∷ [];
}

abbrev calling : ℕ → ℕ → Sys
calling first second = record {
  volume = volume;
  mem = memory;
  pagetable = 0x80000000;
  sz = 4096;
  args = λ k. if k == 0 then first else second;
  cwd = 0;
  uid = 5;
  gid = 6;
  ops = 0;
}

-- The call has the mode, and two free descriptors.
abbrev start : ℕ → State
start mode = record {
  sys = calling 0 mode;
  files = record { table = λ i. closed_file; ofile = none ∷ none ∷ [] };
  closed = kept;
}

nobody : ℕ → ℕ
nobody f = 0

start-Counted : Counted nobody (start 0).files
unfolding nobody
start-Counted f = refl

sys_open-Settled_example : Ensures (Settled nobody 0 (start 0).files) (sys_open (start 0))
sys_open-Settled_example = sys_open-Settled nobody (start 0) start-Counted

-- The root may be opened for reading, and not for writing.
root_opened :
    Returns
      (λ r. (r.0 ≡ some 0) × (r.1.sys.ops ≡ 0) × (r.1.files.ofile ≡ some 0 ∷ none ∷ []))
      (sys_open (start 0))
unfolding sys_open find_inode with_inode take_file take_fd fill_file may_open
    check_permission_for_file get_argu fetch_str copyinstr copyinstr_loop walkaddr walk_from px
    pte2pa chunk copy_chars pg_round_down namex namex_loop skipelem skip_slashes split_elem
    store_name ilock iunlock iunlockput iput iget iget_loop alloc alloc_loop fd_alloc
root_opened = (refl, refl, refl)

root_not_written :
    Returns
      (λ r. (r.0 ≡ none) × (r.1.sys.ops ≡ 0) × ((r.1.sys.volume.table 0).ref ≡ 1))
      (sys_open (start 1))
unfolding sys_open find_inode with_inode give_up_open get_argu fetch_str copyinstr copyinstr_loop
    walkaddr walk_from px pte2pa chunk copy_chars pg_round_down namex namex_loop skipelem
    skip_slashes split_elem store_name ilock iunlock iunlockput iput iget iget_loop
root_not_written = (refl, refl, refl)

not-Tested : ¬ Tested 0x401
not-Tested (inl (inl e)) = absurd (omega (arith, e))
not-Tested (inl (inr e)) = absurd (omega (arith, e))
not-Tested (inr (inl e)) = absurd (omega (arith, e))
not-Tested (inr (inr e)) = absurd (omega (arith, e))

-- A file of user 7 in slot 0 that others may only read.
abbrev private_file : State
private_file = record (start 0x401) {
  sys = record (calling 0 0x401) {
    volume = set_copy 0 (record (dinode_of 2 9) { uid = 7; mask_other = 4 }) volume;
  };
}

with_inode_unchecked_run : with_inode 0x401 0 private_file ≡ take_file 0x401 0 private_file
with_inode_unchecked_run = with_inode_unchecked 0x401 0 private_file not-Tested refl

with_inode_denied_run : with_inode 1 0 private_file ≡ give_up_open 0 private_file
unfolding check_permission_for_file
with_inode_denied_run = with_inode_denied 1 0 private_file (inl (inr refl)) refl
