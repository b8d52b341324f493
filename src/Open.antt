-- ===== src/Open.antt =====
-- kernel/sysfile.cpp, `sys_open` and the check of permissions: who may open what, and what is given
-- back on each way out.
-- The state is that of Sysfile's calls, with the table of open files and the process's descriptors.
pub mod Balance
pub mod Access
mod Tests
use os_cpp.Base.{
  leb, ◌==◌, if◌then◌else◌, update, ok, Outcome, ◌>>=◌, ℕ, ◌/◌, ◌%◌, ◌^◌, Bool, true, false, not,
  ◌&&◌, ◌||◌, Option, none, some, List,
}
use os_cpp.Files.{fd_inode, fd_device, File, alloc, Released, close, Files, fd_alloc}
use os_cpp.Vm.Copy.{writable}
use os_cpp.Fs.{dirsiz}
use os_cpp.Content.{Dinode, Volume, ilock, iunlock, itrunc, iunlockput}
use os_cpp.Content.Dirs.{namex}
use os_cpp.Sysfile.{
  Sys, begin_op, end_op, set_volume, maxpath, get_argu, fetch_str, zeros, create_for,
}
use Prim.Native.Nat.{bit_and}

-- `closed` is what the last `file::close` has given up: `pipeclose` and `iput` for it are not called.
pub record State : Type 0 where
  pub sys : Sys
  pub files : Files
  pub closed : Released

-- Whether the user and the group may do with the file what the mask has.
pub check_permission_for_file : ℕ → ℕ → Dinode → ℕ → Bool
check_permission_for_file uid gid ip mask =
    if ip.uid == uid
    then not (bit_and ip.mask_user mask == 0)
    else if ip.gid == gid
    then not (bit_and ip.mask_group mask == 0)
    else not (bit_and ip.mask_other mask == 0)

-- O_WRONLY, O_RDWR, O_CREATE and O_TRUNC in the mode.
abbrev pub has_wronly : ℕ → Bool
has_wronly mode = mode % 2 == 1

abbrev pub has_rdwr : ℕ → Bool
has_rdwr mode = mode / 2 % 2 == 1

abbrev pub has_create : ℕ → Bool
has_create mode = mode / 0x200 % 2 == 1

abbrev pub has_trunc : ℕ → Bool
has_trunc mode = mode / 0x400 % 2 == 1

-- The three tests of the mode, each for the mode as a whole.
pub may_open : ℕ → ℕ → ℕ → Dinode → Bool
may_open uid gid mode ip =
    if mode == 0
    then check_permission_for_file uid gid ip 4
    else if mode == 1 || mode == 0x400
    then check_permission_for_file uid gid ip 2
    else if mode == 2
    then check_permission_for_file uid gid ip 6
    else true

-- A device number out of range; the `int16_t` is negative from 2 ^ 15 on.
abbrev pub bad_device : Dinode → Bool
bad_device ip = ip.type == 3 && leb 10 ip.major

abbrev pub on_volume : Volume → State → State
on_volume v s = record s { sys = set_volume v s.sys }

abbrev pub end_open : State → State
end_open s = record s { sys = end_op s.sys }

-- The way out with -1 once the inode is locked.
pub give_up_open : ℕ → State → Outcome (Option ℕ × State)
give_up_open ip s = iunlockput ip s.sys.volume >>= λ v. ok (none, end_open (on_volume v s))

abbrev pub opened : ℕ → Dinode → ℕ → File → File
opened mode c ip f = record f {
  kind = if c.type == 3 then fd_device else fd_inode;
  major = if c.type == 3 then c.major else f.major;
  off = if c.type == 3 then f.off else 0;
  object = ip;
  readable = not (has_wronly mode);
  writable = has_wronly mode || has_rdwr mode;
}

-- From the setting of the file's fields on, with the descriptor `fd`.
pub fill_file : ℕ → ℕ → ℕ → ℕ → State → Outcome (Option ℕ × State)
fill_file mode ip f fd s =
    let v = s.sys.volume in
    let c = v.copy ip in
    let table = update s.files.table f (opened mode c ip (s.files.table f)) in
    (if has_trunc mode && c.type == 2 then itrunc ip v else ok v) >>= λ v1. iunlock ip v1 >>= λ v2.
    ok (some fd, end_open (on_volume v2 (record s { files = record s.files { table = table } })))

-- From `alloc_fd` on, with the open file `f`.
pub take_fd : ℕ → ℕ → ℕ → State → Outcome (Option ℕ × State)
take_fd mode ip f s = elim (fd_alloc f s.files.ofile) [
  | none ↦ close f s.files.table >>= λ r.
      give_up_open ip (record s { files = record s.files { table = r.1 }; closed = r.0 })
  | some (fd, ofile) ↦
      fill_file mode ip f fd (record s { files = record s.files { ofile = ofile } })
]

-- From `file::alloc` on.
pub take_file : ℕ → ℕ → State → Outcome (Option ℕ × State)
take_file mode ip s = elim (alloc s.files.table) [
  | none ↦ give_up_open ip s
  | some (f, table) ↦ take_fd mode ip f (record s { files = record s.files { table = table } })
]

-- With the inode locked and referred to.
pub with_inode : ℕ → ℕ → State → Outcome (Option ℕ × State)
with_inode mode ip s =
    let c = s.sys.volume.copy ip in
    elim (not (has_create mode) && (c.type == 1 && not (mode == 0))) [
      | true ↦ give_up_open ip s
      | false ↦ elim (may_open s.sys.uid s.sys.gid mode c) [
        | false ↦ give_up_open ip s
        | true ↦ elim (bad_device c) [ true ↦ give_up_open ip s | false ↦ take_file mode ip s ]
      ]
    ]

-- The inode of the path, locked: a new one from `create`, or one from `fs::namei`.
pub find_inode : ℕ → List ℕ → Sys → Outcome (Option ℕ × Sys)
find_inode mode path s = elim (has_create mode) [
  | true ↦ create_for path 2 0 0 s
  | false ↦ namex s.cwd path false (zeros dirsiz) s.volume >>= λ r. elim r.0 [
    | none ↦ ok (none, set_volume r.2 s)
    | some ip ↦ ilock ip r.2 >>= λ v. ok (some ip, set_volume v s)
  ]
]

-- `sys_open`; the result is a descriptor, or -1 as `none`. The mode is an `int`.
pub sys_open : State → Outcome (Option ℕ × State)
sys_open s = get_argu 1 s.sys >>= λ arg. get_argu 0 s.sys >>= λ addr.
    fetch_str addr maxpath s.sys >>= λ fetched. elim fetched [
      | none ↦ ok (none, s)
      | some path ↦
          let mode = arg % 2 ^ 32 in
          find_inode mode path (begin_op s.sys) >>= λ r. elim r.0 [
            | none ↦ ok (none, end_open (record s { sys = r.1 }))
            | some ip ↦ with_inode mode ip (record s { sys = r.1 })
          ]
    ]
