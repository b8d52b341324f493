-- ===== src/Lib.antt =====
-- Models of the kernel of os-cpp, a small operating system for RISC-V.
--
-- The kernel has processes (kernel/proc.cpp) that sleep and wake each other under spin locks and
-- sleeping locks (kernel/lock.cpp). They work on descriptors of open files (kernel/file.cpp,
-- kernel/sysfile.cpp), which are pipes (kernel/pipe.cpp), devices such as the console
-- (kernel/console.cpp) or inodes of the file system (kernel/fs.cpp). The file system reads and writes
-- blocks through a cache (kernel/bio.cpp), inside transactions of a log (kernel/log.cpp); the cache
-- passes them to the disk's queue (kernel/virtio_disk.cpp). Pages come from a free list
-- (kernel/vm.cpp); kernel/micro_libcxx/src/cstring.cpp and kernel/arch/riscv.h serve all of them.
--
-- Base has what the models share: Boolean tests, lists and arrays over the native numbers, how a
-- routine ends (it returns, panics, sleeps for ever or leaves an object's bounds), and rings.
-- Pipe models pipewrite, piperead and pipeclose of kernel/pipe.cpp.
-- Log models every routine of kernel/log.cpp. `lwrite`, `begin_op`, `end_op`, `commit`, `write_log`,
--   `whead`, `rhead`, `install_trans` and `recover` have the names of the code. A `Machine` is the
--   disk, the blocks in the cache, and the disks that a crash after each write so far would leave.
--   Log.Reserve has the operations in progress as steps, with the blocks that each may still write.
-- Proc models the process table of kernel/proc.cpp: `alloc_proc`, `fork`, `exit`, `wait`, `kill`,
--   `wakeup`, `reparent`; `dispatch`, `yield_cpu`, `fall_asleep` and `woken_up` are the parts of
--   `scheduler`, `yield` and `sleep` on either side of the switch. Proc.History has them as steps.
-- Cstring models kernel/micro_libcxx/src/cstring.cpp over a memory of bytes.
-- Bio models kernel/bio.cpp; the list of buffers is in the order that `head.next` leads through.
-- Lock models kernel/lock.cpp for one CPU at a time; Lock.Mutex has any number of CPUs whose accesses
--   to one lock interleave.
-- Arch models the page macros of kernel/arch/riscv.h and KSTACK of kernel/vm.h.
-- Fs models `balloc`, `bfree`, `iget`, `idup` and `skipelem` of kernel/fs.cpp.
-- Content models the rest of kernel/fs.cpp but `init`: the inodes on the disk, from `ialloc` to
--   `iunlockput`, `bmap` and `itrunc`; `readi`, `writei` and `stati` in Content.Data; `dir_lookup`,
--   `dir_link` and `namex` in Content.Dirs. It calls Fs for the free map and the inodes in memory.
-- Files models `alloc`, `dup` and `close` of kernel/file.cpp, and of kernel/sysfile.cpp `fd_alloc`,
--   `get_fd`, `sys_dup` and `sys_close`; in Files.Pipes `pipealloc` of kernel/pipe.cpp.
-- Open models `sys_open` and `check_permission_for_file` of kernel/sysfile.cpp, with the calls of
--   Sysfile, Content and Files that they make.
-- Io models `stat`, `read` and `write` of kernel/file.cpp on an inode; the calls of pipes and devices
--   are its arguments, and so is what others do between the rounds of `write`.
-- Sysfile models of kernel/sysfile.cpp the arguments of a call, `create`, `sys_chdir`, `sys_mkdir`,
--   `sys_mknod`, `sys_setuid` and `sys_setgid`; in Sysfile.Memory `sys_sbrk`, with `grow` of
--   kernel/proc.cpp, and the arguments of `sys_exec`; in Sysfile.Table kernel/syscall.cpp.
-- Loader models kernel/loader.cpp, with `alloc_pagetable` and `free_pagetable` of kernel/proc.cpp. Its
--   `exec` uses the page tables of Vm and the files of Content.
-- Image models `ialloc`, `balloc`, `iappend` and `winode` of mkfs/mkfs.cpp, which builds the file
--   system that Content reads.
-- Console models `intr` and `read` of kernel/console.cpp.
-- Kmem models `kinit`, `kfree` and `kalloc` of kernel/vm.cpp.
-- Vm models the page tables of kernel/vm.cpp: `walk` and `map_pages`; from `free_walk` to
--   `uvm_clear` in Vm.User; `walkaddr`, `copyin`, `copyout` and `copyinstr` in Vm.Copy. Its memory has
--   the words of the tables, the bytes of the other pages and the free list.
-- Uart models `putc` and `start` of kernel/uart.cpp.
-- Virtio models the descriptors of kernel/virtio_disk.cpp and the requests that `disk_rw` makes,
--   and `virtio_disk_intr` in Virtio.Interrupt.
--
-- A routine that holds a lock throughout is one function; where it sleeps, its argument is the list
-- of what others do in the meantime, and with no such turn left it is blocked. Loops over arrays
-- are recursions on the number of elements left. Other loops have a bound that is enough: `balloc`
-- visits at most a block of the map more than the device needs, `kinit` has as many rounds as
-- memory has pages, `readi`, `writei`, `write` and `iappend` have a round for each byte, a
-- directory has one for each entry, `uvm_alloc` and `loadseg` one for each page; the killing of a
-- line at most the characters of the line, `free_chain` the number of descriptors; the loop of
-- `namex` over a path, in Fs.Paths, has its bound as an argument. Integers of 32 and 64 bits wrap
-- around where the code can reach that; counts of references are `int`s that stay below the sizes
-- of their tables, and do not.
--
-- Not modelled: the assembly, the control registers and the devices, the setting up of the kernel,
-- formatted output, the page table of the kernel, the system calls that only pass their arguments
-- on, the user libraries and the user programs.
mod Base
pub mod Pipe
pub mod Log
pub mod Proc
pub mod Cstring
pub mod Bio
pub mod Lock
pub mod Arch
pub mod Fs
pub mod Files
pub mod Open
pub mod Console
pub mod Content
pub mod Kmem
pub mod Vm
pub mod Virtio
pub mod Uart
pub mod Sysfile
pub mod Io
pub mod Loader
pub mod Image
