-- ===== src/Sysfile.antt =====
-- kernel/sysfile.cpp: the arguments of a system call, and the calls on directories; kernel/syscall.cpp.
-- The state is what the calling process sees: the file system, its memory and page table, its
-- arguments, its directory and user. `ops` counts the transactions that it has open: what `begin_op`
-- and `end_op` do to the log is Log's.
pub mod Calls
pub mod Balance
pub mod Memory
pub mod Table
mod Tests
use os_cpp.Base.{
  ltb, leb, ◌==◌, if◌then◌else◌, ok, panic, Outcome, ◌>>=◌, ℕ, zero, suc, ◌+◌, ◌-◌, ◌*◌, ◌%◌, ◌^◌,
  Bool, true, false, ◌&&◌, ◌||◌, Option, none, some, List, [], ◌∷◌,
}
use os_cpp.Vm.{Mem}
use os_cpp.Vm.Copy.{copyin, copyinstr}
use os_cpp.Fs.{dirsiz}
use os_cpp.Content.{Volume, set_copy, ialloc, iupdate, ilock, iunlockput}
use os_cpp.Content.Dirs.{dir_lookup, dir_link, dir_link_inum, namex}

pub record Sys : Type 0 where
  pub volume : Volume
  pub mem : Mem
  pub pagetable : ℕ
  pub sz : ℕ
  pub args : ℕ → ℕ
  pub cwd : ℕ
  pub uid : ℕ
  pub gid : ℕ
  pub ops : ℕ

abbrev pub begin_op : Sys → Sys
begin_op s = record s { ops = s.ops + 1 }

abbrev pub end_op : Sys → Sys
end_op s = record s { ops = s.ops - 1 }

abbrev pub set_volume : Volume → Sys → Sys
set_volume v s = record s { volume = v }

-- MAXPATH
abbrev pub maxpath : ℕ
maxpath = 128

unfoldable pub get_argu : ℕ → Sys → Outcome ℕ
get_argu index s =
    if ltb index 7 then ok (s.args index) else panic "syscall::get_argu: get arguments failed"

-- The number in eight bytes, the lowest first.
abbrev pub number : ℕ → (ℕ → ℕ) → ℕ
number zero a = 0
number (suc n) a = number n a + 2 ^ (8 * n) * a n

-- `none` is false.
pub fetch_addr : ℕ → Sys → Outcome (Option ℕ)
fetch_addr addr s =
    if leb s.sz addr || ltb s.sz ((addr + 8) % 2 ^ 64)
    then ok none
    else copyin s.pagetable (λ j. 0) addr 8 s.mem >>= λ r.
        ok (if r.0 then some (number 8 r.1) else none)

-- The characters of an array of `n` before the first NUL.
abbrev pub chars : ℕ → (ℕ → ℕ) → List ℕ
chars zero a = []
chars (suc n) a = let rest = chars n (λ j. a (j + 1)) in if a 0 == 0 then [] else a 0 ∷ rest

-- `fetch_str` into an array; `none` is false.
unfoldable pub fetch_str : ℕ → ℕ → Sys → Outcome (Option (List ℕ))
fetch_str addr len s = copyinstr s.pagetable (λ j. 0) addr len s.mem >>= λ r.
    ok (if r.0 then some (chars len r.1) else none)

-- An array `char name[DIRSIZ]`, and the names of the two first entries of a directory.
abbrev pub zeros : ℕ → List ℕ
zeros zero = []
zeros (suc n) = 0 ∷ zeros n

abbrev pub dot : List ℕ
dot = 46 ∷ zeros 13

abbrev pub dot_dot : List ℕ
dot_dot = 46 ∷ 46 ∷ zeros 12

-- The way out of `create` when an entry cannot be made.
pub give_up : ℕ → ℕ → Volume → Outcome (Option ℕ × Volume)
give_up ip dp v =
    iunlockput ip (iupdate ip (set_copy ip (record (v.copy ip) { nlink = 0 }) v)) >>= λ v1.
    iunlockput dp v1 >>= λ w. ok (none, w)

-- The entries `.` and `..`, both with the number of the new directory.
pub link_dots : ℕ → Volume → Outcome (Bool × Volume)
link_dots ip v = dir_link_inum ip dot (v.table ip).inum v >>= λ r. elim r.0 [
  | false ↦ ok r
  | true ↦ dir_link_inum ip dot_dot (v.table ip).inum r.1
]

-- `create` when there is no entry, with `dp` locked.
pub make_inode : ℕ → ℕ → ℕ → List ℕ → ℕ → ℕ → ℕ → Volume → Outcome (Option ℕ × Volume)
make_inode uid gid dp name type major minor v = ialloc (v.table dp).dev type v >>= λ r. elim r.0 [
  | none ↦ iunlockput dp r.1 >>= λ w. ok (none, w)
  | some ip ↦ ilock ip r.1 >>= λ v1.
      let c = record (v1.copy ip) {
        major = major;
        minor = minor;
        nlink = 1;
        uid = uid;
        gid = gid;
        mask_user = 7;
        mask_group = 7;
        mask_other = 7;
      } in
      let v2 = iupdate ip (set_copy ip c v1) in
      (if type == 1 then link_dots ip v2 else ok (true, v2)) >>= λ d. elim d.0 [
        | false ↦ give_up ip dp d.1
        | true ↦ dir_link dp name ip d.1 >>= λ l. elim l.0 [
          | false ↦ give_up ip dp l.1
          | true ↦
              let v3 = l.1 in
              let counted = record (v3.copy dp) { nlink = (v3.copy dp).nlink + 1 } in
              iunlockput dp (if type == 1 then iupdate dp (set_copy dp counted v3) else v3) >>= λ w.
              ok (some ip, w)
        ]
      ]
]

-- The inode of `create` is locked.
pub create : ℕ → ℕ → ℕ → List ℕ → ℕ → ℕ → ℕ → Volume → Outcome (Option ℕ × Volume)
create cwd uid gid path type major minor v = namex cwd path true (zeros dirsiz) v >>= λ r.
    elim r.0 [
      | none ↦ ok (none, r.2)
      | some dp ↦ ilock dp r.2 >>= λ v1. dir_lookup dp r.1 v1 >>= λ q. elim q.0 [
        | none ↦ make_inode uid gid dp r.1 type major minor q.1
        | some (off, ip) ↦ iunlockput dp q.1 >>= λ v2. ilock ip v2 >>= λ v3.
            if type == 2 && ((v3.copy ip).type == 2 || (v3.copy ip).type == 3)
            then ok (some ip, v3)
            else iunlockput ip v3 >>= λ w. ok (none, w)
      ]
    ]

-- `create` in the state of a call.
pub create_for : List ℕ → ℕ → ℕ → ℕ → Sys → Outcome (Option ℕ × Sys)
create_for path type major minor s =
    create s.cwd s.uid s.gid path type major minor s.volume >>= λ r. ok (r.0, set_volume r.1 s)
