-- ===== src/Files.antt =====
-- kernel/file.cpp and the descriptors of kernel/sysfile.cpp: the table of open files with its
-- reference counts, and the table of descriptors of a process.
-- Each routine is run with `ftable.lock` held. A null pointer in `ofile` is `none`, a pointer to an
-- open file is its index in `ftable`. The reading and writing of files is in Io.
pub mod Counts
pub mod Fresh
pub mod Single
pub mod Pipes
mod Tests
use os_cpp.Base.{
  ltb, ◌==◌, if◌then◌else◌, get_elem?, set, update, ok, panic, Outcome, ◌>>=◌, ℕ, zero, suc, ◌+◌,
  ◌-◌, ◌%◌, ◌^◌, Bool, Option, none, some, List, [], ◌∷◌,
}

-- The `type` of `struct file`.
pub data Kind : Type 0 where
  fd_none fd_pipe fd_inode fd_device : Kind

-- `struct file`: `object` is the pipe or the inode.
pub record File : Type 0 where
  pub kind : Kind
  pub ref : ℕ
  pub readable : Bool
  pub writable : Bool
  pub object : ℕ
  pub off : ℕ
  pub major : ℕ

abbrev pub Ftable : Type 0
Ftable = ℕ → File

-- NFILE and NOFILE
abbrev pub nfile : ℕ
nfile = 100

abbrev pub nofile : ℕ
nofile = 16

-- The loop of `alloc`, for `left` files from `i` on.
unfoldable pub alloc_loop : ℕ → ℕ → Ftable → Option (ℕ × Ftable)
alloc_loop i zero t = none
alloc_loop i (suc left) t =
    let rest = alloc_loop (i + 1) left t in
    if (t i).ref == 0 then some (i, update t i (record (t i) { ref = 1 })) else rest

unfoldable pub alloc : Ftable → Option (ℕ × Ftable)
alloc t = alloc_loop 0 nfile t

pub dup : ℕ → Ftable → Outcome Ftable
dup f t =
    if ltb (t f).ref 1
    then panic "file::dup"
    else ok (update t f (record (t f) { ref = (t f).ref + 1 }))

-- What `close` does once the table's lock is released: nothing, `pipeclose`, or `iput` in a
-- transaction.
pub data Released : Type 0 where
  kept : Released
  gone : Released
  close_pipe : ℕ → Bool → Released
  put_inode : ℕ → Released

abbrev pub release_file : File → Released
release_file ff = elim ff.kind [
  | fd_none ↦ gone
  | fd_pipe ↦ close_pipe ff.object ff.writable
  | fd_inode ↦ put_inode ff.object
  | fd_device ↦ put_inode ff.object
]

pub close : ℕ → Ftable → Outcome (Released × Ftable)
close f t =
    if ltb (t f).ref 1
    then panic "file::close"
    else (let ff = record (t f) { ref = (t f).ref - 1 } in
        if ltb 0 ff.ref
        then ok (kept, update t f ff)
        else ok (release_file ff, update t f (record ff { ref = 0; kind = fd_none })))

-- A process's `ofile` together with the table of open files.
pub record Files : Type 0 where
  pub table : Ftable
  pub ofile : List (Option ℕ)

abbrev pub further : ℕ → Option (ℕ × List (Option ℕ)) → Option (ℕ × List (Option ℕ))
further g none = none
further g (some (fd, fds)) = some (suc fd, some g ∷ fds)

-- `alloc_fd` and `fd_alloc`: the first empty place of `ofile` takes the file.
unfoldable pub fd_alloc : ℕ → List (Option ℕ) → Option (ℕ × List (Option ℕ))
fd_alloc f [] = none
fd_alloc f (none ∷ fds) = some (0, some f ∷ fds)
fd_alloc f (some g ∷ fds) = further g (fd_alloc f fds)

-- `get_fd`, the register cast to an `int`: the descriptor and its file.
pub get_fd : ℕ → List (Option ℕ) → Option (ℕ × ℕ)
get_fd argu ofile =
    let fd = argu % 2 ^ 32 in
    if ltb fd nofile
    then elim (get_elem? ofile fd) [ some (some f) ↦ some (fd, f) | some none ↦ none | none ↦ none ]
    else none

-- `sys_dup`; -1 is `none`.
pub sys_dup : ℕ → Files → Outcome (Option ℕ × Files)
sys_dup argu s = elim (get_fd argu s.ofile) [
  | none ↦ ok (none, s)
  | some (old, f) ↦ elim (fd_alloc f s.ofile) [
    | none ↦ ok (none, s)
    | some (fd, ofile) ↦ dup f s.table >>= λ t. ok (some fd, record { table = t; ofile = ofile })
  ]
]

-- `sys_close`; -1 is `none`, and 0 is what `close` released.
pub sys_close : ℕ → Files → Outcome (Option Released × Files)
sys_close argu s = elim (get_fd argu s.ofile) [
  | none ↦ ok (none, s)
  | some (fd, f) ↦
      close f s.table >>= λ r. ok (some r.0, record { table = r.1; ofile = set s.ofile fd none })
]
