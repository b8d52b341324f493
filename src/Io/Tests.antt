-- ===== src/Io/Tests.antt =====
-- Runs of the calls on open files.
use os_cpp.Base.{
  ◌==◌, if◌then◌else◌, blocked, Ensures, Returns, ◌+◌, ◌%◌, ◌≡◌, refl, ◌⊎◌, true, false, none, some,
  List, [], arith,
}
use os_cpp.Arch.{pg_round_down, pte2pa, px}
use os_cpp.Vm.{walk_from}
use os_cpp.Vm.Copy.{walkaddr, chunk, copyin_loop, copyin, writable, copyout_loop, copyout}
use os_cpp.Content.{Dinode, Volume, blank_dinode, iupdate, ilock, iunlock, addr_of, bmap}
use os_cpp.Content.Data.{
  stati, either_copyout, either_copyin, readi_loop, readi, writei_loop, writei,
}
use os_cpp.Sysfile.{Sys}
use os_cpp.Io.{
  fd_inode, fd_device, File, Call, Calls, call_device, stat, read_inode, read, write_some, Turn,
  write_loop, write_inode, write,
}
use os_cpp.Io.Offset.{write_inode_lem}

abbrev file_inode : Dinode
file_inode = record (blank_dinode 2) {
  nlink = 1;
  size = 1000;
  uid = 258;
  addrs = λ k. if k == 0 then 9 else 0;
}

abbrev volume : Volume
volume = record {
  sb = record { size = 20; bmapstart = 3 };
  ninodes = 10;
  bitmap = λ block byte bit. true;
  dinode = λ inum. file_inode;
  block = λ b j. j;
  table = λ i. record { dev = 1; inum = i + 1; ref = 1; valid = true };
  copy = λ i. file_inode;
  locked = λ i. false;
}

-- A process with the page 0 at 0x80003000.
abbrev caller : Sys
caller = record {
  volume = volume;
  mem = record {
    word = λ a.
        if a == 0x80000000
        then 0x20000401
        else if a == 0x80001000
        then 0x20000801
        else if a == 0x80002000
        then 0x20000c17
        else 0;
    byte = λ a. a % 256;
    free = [];
  };
  pagetable = 0x80000000;
  sz = 4096;
  args = λ k. 0;
  cwd = 1;
  uid = 0;
  gid = 0;
  ops = 0;
}

abbrev open_file : File
open_file = record {
  type = fd_inode;
  readable = true;
  writable = true;
  ip = 0;
  off = 10;
  major = 0;
}

abbrev no_call : Call
no_call addr n s = blocked

abbrev calls : Calls
calls = record {
  piperead = no_call;
  pipewrite = no_call;
  dev_read = λ m. none;
  dev_write = λ m. some no_call;
}

bytes_read :
    Returns
      (λ r. (r.0 ≡ some 3) × (r.1.off ≡ 13) × (r.2.mem.byte 0x80003002 ≡ 12))
      (read calls open_file 0 3 caller)
unfolding read read_inode ilock iunlock readi readi_loop bmap addr_of either_copyout copyout
    copyout_loop writable chunk pg_round_down walk_from px pte2pa
bytes_read = (refl, refl, refl)

bytes_written :
    Returns
      (λ r. (r.0 ≡ some 3) × (r.1.off ≡ 13) × (r.2.volume.block 9 11 ≡ 6))
      (write calls [] open_file 5 3 caller)
unfolding write write_inode write_loop write_some ilock iunlock writei writei_loop bmap addr_of
    iupdate either_copyin copyin copyin_loop walkaddr chunk pg_round_down walk_from px pte2pa
bytes_written = (refl, refl, refl)

-- Memory that is not mapped: the bytes are counted as written, and the block is as it was.
counted_only :
    Returns
      (λ r. (r.0 ≡ some 3) × (r.1.off ≡ 13) × (r.2.volume.block 9 11 ≡ 11))
      (write calls [] open_file 8192 3 caller)
unfolding write write_inode write_loop write_some ilock iunlock writei writei_loop bmap addr_of
    iupdate either_copyin copyin copyin_loop walkaddr chunk pg_round_down walk_from px pte2pa
counted_only = (refl, refl, refl)

no_device :
    Returns (λ r. r.0 ≡ none) (read calls (record open_file { type = fd_device }) 0 3 caller)
unfolding read call_device
no_device = refl

status :
    Returns
      (λ r. (r.0 ≡ true) × (r.1.mem.byte 0x80003018 ≡ 2) × (r.1.mem.byte 0x80003019 ≡ 1))
      (stat open_file 0 caller)
unfolding stat stati ilock iunlock copyout copyout_loop writable chunk pg_round_down walk_from px
    pte2pa
status = (refl, refl, refl)

abbrev nobody : List Turn
nobody = []

write_inode_lem_example :
    Ensures
      (λ r. (r.2.ops ≡ 0) × ((r.0 ≡ none) ⊎ ((r.0 ≡ some 3) × (nobody ≡ [] → r.1.off ≡ 13))))
      (write_inode nobody open_file 5 3 caller)
write_inode_lem_example = write_inode_lem nobody open_file 5 3 caller (omega arith)
