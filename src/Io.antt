-- ===== src/Io.antt =====
-- kernel/file.cpp: `stat`, `read` and `write`.
-- The calls that a file leads to, of a pipe and of a device with its number, are an argument; Pipe
-- and Console model two of them. An `int` is its 32 bits; `none` is the result -1.
pub mod Offset
mod Tests
use os_cpp.Base.{
  ltb, leb, ◌==◌, if◌then◌else◌, ok, panic, blocked, Outcome, ◌>>=◌, ℕ, zero, suc, ◌+◌, ◌-◌, ◌%◌,
  ◌^◌, Bool, true, false, not, ◌&&◌, Option, none, some, List, [], ◌∷◌,
}
use os_cpp.Vm.Copy.{copyout}
use os_cpp.Content.{Volume, byte_of, ilock, iunlock}
use os_cpp.Content.Data.{Stat, stati, either_copyout, either_copyin, readi, writei}
use os_cpp.Sysfile.{Sys, begin_op, end_op, set_volume}

pub data Kind : Type 0 where
  fd_none fd_pipe fd_inode fd_device : Kind

-- `struct file` of an open file.
pub record File : Type 0 where
  pub type : Kind
  pub readable : Bool
  pub writable : Bool
  pub ip : ℕ
  pub off : ℕ
  pub major : ℕ

abbrev pub Call : Type 0
Call = ℕ → ℕ → Sys → Outcome (Option ℕ × Sys)

pub record Calls : Type 0 where
  pub piperead : Call
  pub pipewrite : Call
  pub dev_read : ℕ → Option Call
  pub dev_write : ℕ → Option Call

-- NDEV
abbrev pub ndev : ℕ
ndev = 10

-- A call of a device, -1 without one; a negative major number is 32768 or more.
pub call_device : (ℕ → Option Call) → ℕ → ℕ → ℕ → Sys → Outcome (Option ℕ × Sys)
call_device table major addr n s = elim (if ltb major ndev then table major else none) [
  | none ↦ ok (none, s)
  | some call ↦ call addr n s
]

-- The 32 bytes of `struct stat`.
abbrev pub stat_bytes : Stat → ℕ → ℕ
stat_bytes st j =
    if ltb j 4
    then byte_of st.dev j
    else if ltb j 8
    then byte_of st.ino (j - 4)
    else if ltb j 10
    then byte_of st.type (j - 8)
    else if ltb j 12
    then byte_of st.nlink (j - 10)
    else if leb 16 j && ltb j 24
    then byte_of st.size (j - 16)
    else if leb 24 j && ltb j 28
    then byte_of st.uid (j - 24)
    else if leb 28 j && ltb j 32
    then byte_of st.gid (j - 28)
    else 0

abbrev pub has_inode : Kind → Bool
has_inode fd_inode = true
has_inode fd_device = true
has_inode fd_pipe = false
has_inode fd_none = false

-- `stat`; true is 0, false is -1.
pub stat : File → ℕ → Sys → Outcome (Bool × Sys)
stat f addr s =
    if has_inode f.type
    then (ilock f.ip s.volume >>= λ v.
        let st = stati f.ip v in
        iunlock f.ip v >>= λ w. copyout s.pagetable addr (stat_bytes st) 32 s.mem >>= λ r.
        ok (r.0, record s { volume = w; mem = r.1 }))
    else ok (false, s)

-- The offset after `rs` bytes.
abbrev pub advance : ℕ → File → File
advance rs f = record f { off = (f.off + rs) % 2 ^ 32 }

-- `read` of an inode; the result of `readi` is taken for an `int`.
pub read_inode : File → ℕ → ℕ → Sys → Outcome (Option ℕ × File × Sys)
read_inode f addr n s = ilock f.ip s.volume >>= λ v.
    readi (either_copyout true s.pagetable) f.ip addr f.off n v s.mem >>= λ r.
    iunlock f.ip r.1 >>= λ w.
    let s' = record s { volume = w; mem = r.2 } in
    ok (if ltb r.0 (2 ^ 31) then (some r.0, advance r.0 f, s') else (none, f, s'))

-- A result with the file as it was.
abbrev pub keep : File → Option ℕ × Sys → Option ℕ × File × Sys
keep f r = (r.0, f, r.1)

pub read : Calls → File → ℕ → ℕ → Sys → Outcome (Option ℕ × File × Sys)
read calls f addr n s = if not f.readable then ok (none, f, s) else elim f.type [
  | fd_none ↦ panic "file::read"
  | fd_pipe ↦ calls.piperead addr n s >>= λ r. ok (keep f r)
  | fd_inode ↦ read_inode f addr n s
  | fd_device ↦ call_device calls.dev_read f.major addr n s >>= λ r. ok (keep f r)
]

-- The bytes that one transaction writes at most.
abbrev pub max_write : ℕ
max_write = 3072

-- One round of the loop of `write`: a transaction for `n1` bytes; whether all are written.
pub write_some : File → ℕ → ℕ → Sys → Outcome (Bool × File × Sys)
write_some f addr n1 s =
    let s0 = begin_op s in
    ilock f.ip s0.volume >>= λ v.
    writei (either_copyin true s.pagetable) f.ip addr f.off n1 v s0.mem >>= λ r.
    iunlock f.ip r.1 >>= λ w.
    let s1 = end_op (set_volume w s0) in
    ok (elim r.0 [ none ↦ (false, f, s1) | some m ↦ (m == n1, advance m f, s1) ])

-- What others who share the file do between two rounds, to its offset and the file system.
abbrev pub Turn : Type 0
Turn = File → Volume → File × Volume

abbrev pub take_turn : List Turn → File → Sys → File × Sys
take_turn [] f s = (f, s)
take_turn (t ∷ turns) f s = let (g, v) = t f s.volume in (g, set_volume v s)

abbrev pub later : List Turn → List Turn
later [] = []
later (t ∷ turns) = turns

-- The loop of `write`, with `left` bytes to go; a round writes a byte at least. A turn comes after each
-- round while there are some. The result is whether all were written.
pub write_loop : List Turn → ℕ → File → ℕ → ℕ → Sys → Outcome (Bool × File × Sys)
write_loop turns fuel f addr zero s = ok (true, f, s)
write_loop turns zero f addr (suc left) s = blocked
write_loop turns (suc fuel) f addr (suc left) s =
    let n1 = if ltb max_write (suc left) then max_write else suc left in
    write_some f addr n1 s >>= λ r. elim r.0 [
      | false ↦ ok r
      | true ↦
          let (g, s') = take_turn turns r.1 r.2 in
          write_loop (later turns) fuel g ((addr + n1) % 2 ^ 64) (suc left - n1) s'
    ]

-- A negative number of bytes is -1.
pub write_inode : List Turn → File → ℕ → ℕ → Sys → Outcome (Option ℕ × File × Sys)
write_inode turns f addr n s =
    if leb (2 ^ 31) n
    then ok (none, f, s)
    else (write_loop turns n f addr n s >>= λ r. ok (if r.0 then some n else none, r.1, r.2))

pub write : Calls → List Turn → File → ℕ → ℕ → Sys → Outcome (Option ℕ × File × Sys)
write calls turns f addr n s = if not f.writable then ok (none, f, s) else elim f.type [
  | fd_none ↦ panic "filewrite"
  | fd_pipe ↦ calls.pipewrite addr n s >>= λ r. ok (keep f r)
  | fd_inode ↦ write_inode turns f addr n s
  | fd_device ↦ call_device calls.dev_write f.major addr n s >>= λ r. ok (keep f r)
]
