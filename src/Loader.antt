-- ===== src/Loader.antt =====
-- kernel/loader.cpp, with `alloc_pagetable` and `free_pagetable` of kernel/proc.cpp.
-- A process is the state of its system call, and the parts of its trap frame that `exec` sets. The
-- addresses of the trampoline page and of the trap frame are fields of it.
pub mod Exec
pub mod Segments
pub mod Commit
mod Tests
use os_cpp.Base.{
  ltb, ◌==◌, if◌then◌else◌, ok, panic, blocked, Outcome, ◌>>=◌, ℕ, zero, suc, ◌+◌, ◌-◌, ◌/◌, ◌%◌,
  ◌^◌, Bool, true, false, not, ◌||◌, Option, none, some, List,
}
use os_cpp.Arch.{pgsize, trampoline, trapframe}
use os_cpp.Vm.{Mem, map_pages}
use os_cpp.Vm.User.{uvm_create, uvm_unmap, uvm_free, uvm_alloc}
use os_cpp.Vm.Copy.{walkaddr}
use os_cpp.Content.{Volume, iunlockput}
use os_cpp.Content.Data.{either_copyout, readi}
use os_cpp.Content.Dirs.{to_array}
use os_cpp.Sysfile.{Sys, end_op, set_volume, number}

pub record Task : Type 0 where
  pub sys : Sys
  pub trampoline_page : ℕ
  pub trapframe_page : ℕ
  pub a1 : ℕ
  pub epc : ℕ
  pub sp : ℕ
  pub name : List ℕ

pub alloc_pagetable : ℕ → ℕ → Mem → Outcome (Option ℕ × Mem)
alloc_pagetable code frame m =
    let (page, m0) = uvm_create m in
    elim page [
      | none ↦ ok (none, m0)
      | some uvm ↦ map_pages uvm trampoline code pgsize 10 m0 >>= λ r. elim r.0 [
        | false ↦ uvm_free uvm 0 r.1 >>= λ m1. ok (none, m1)
        | true ↦ map_pages uvm trapframe frame pgsize 6 r.1 >>= λ q. elim q.0 [
          | true ↦ ok (some uvm, q.1)
          | false ↦ uvm_unmap uvm trampoline 1 false q.1 >>= λ m1.
              uvm_free uvm 0 m1 >>= λ m2. ok (none, m2)
        ]
      ]
    ]

pub free_pagetable : ℕ → ℕ → Mem → Outcome Mem
free_pagetable pt sz m = uvm_unmap pt trampoline 1 false m >>= λ m1.
    uvm_unmap pt trapframe 1 false m1 >>= λ m2. uvm_free pt sz m2

-- PTE_X is 8 and PTE_W is 4.
pub flags2perm : ℕ → ℕ
flags2perm flags = (if flags % 2 == 1 then 8 else 0) + (if flags / 2 % 2 == 1 then 4 else 0)

-- The loop of `loadseg` from `i` on; a round loads a page.
pub load_loop : ℕ → ℕ → ℕ → ℕ → ℕ → ℕ → ℕ → Volume → Mem → Outcome (Bool × Volume × Mem)
load_loop zero pt va ip offset i sz v m = if ltb i sz then blocked else ok (true, v, m)
load_loop (suc fuel) pt va ip offset i sz v m = elim (ltb i sz) [
  | false ↦ ok (true, v, m)
  | true ↦
      let pa = walkaddr pt ((va + i) % 2 ^ 64) m in
      let n = if ltb (sz - i) pgsize then sz - i else pgsize in
      elim (pa == 0) [
        | true ↦ panic "loadseg: address should exist"
        | false ↦ readi (either_copyout false 0) ip pa ((offset + i) % 2 ^ 32) n v m >>= λ r.
            elim (r.0 == n) [
              | false ↦ ok (false, r.1, r.2)
              | true ↦ load_loop fuel pt va ip offset (i + pgsize) sz r.1 r.2
            ]
      ]
]

-- The offset and the size are cut to 32 bits.
pub loadseg : ℕ → ℕ → ℕ → ℕ → ℕ → Volume → Mem → Outcome (Bool × Volume × Mem)
loadseg pt va ip offset sz v m =
    load_loop (sz % 2 ^ 32 / pgsize + 1) pt va ip (offset % 2 ^ 32) 0 (sz % 2 ^ 32) v m

-- The field of `n` bytes at `at` of a header.
abbrev pub field : (ℕ → ℕ) → ℕ → ℕ → ℕ
field a at n = number n (λ j. a (at + j))

pub fail_work : Option ℕ → Option ℕ → ℕ → Sys → Outcome Sys
fail_work pt ip sz s = (elim pt [ none ↦ ok s.mem | some p ↦ free_pagetable p sz s.mem ]) >>= λ m.
    elim ip [
      | none ↦ ok (record s { mem = m })
      | some i ↦ iunlockput i s.volume >>= λ v. ok (end_op (record s { mem = m; volume = v }))
    ]

-- The way out with -1.
pub failed : Option ℕ → Option ℕ → ℕ → Sys → Task → Outcome (Option ℕ × Task)
failed pt ip sz s t = fail_work pt ip sz s >>= λ s'. ok (none, record t { sys = s' })

-- `readi` of a header of `n` bytes; `none` if there are fewer.
pub read_header : ℕ → ℕ → ℕ → Sys → Outcome (Option (ℕ → ℕ) × Sys)
read_header ip off n s = readi to_array ip 0 (off % 2 ^ 32) n s.volume (λ j. 0) >>= λ r.
    let (count, v, a) = r in ok (if count == n then some a else none, set_volume v s)

-- The three tests of a segment's header that make `exec` fail.
pub bad_segment : (ℕ → ℕ) → Bool
bad_segment ph =
    let end = (field ph 16 8 + field ph 40 8) % 2 ^ 64 in
    ltb (field ph 40 8) (field ph 32 8)
    || (ltb end (field ph 16 8) || not (field ph 16 8 % pgsize == 0))

-- The loop over the program headers, with the size so far; false where `exec` fails.
pub load_segments : ℕ → ℕ → ℕ → ℕ → ℕ → Sys → Outcome (Bool × ℕ × Sys)
load_segments zero pt ip off sz s = ok (true, sz, s)
load_segments (suc left) pt ip off sz s = read_header ip off 56 s >>= λ h. elim h.0 [
  | none ↦ ok (false, sz, h.1)
  | some ph ↦
      let vaddr = field ph 16 8 in
      let filesz = field ph 32 8 in
      let memsz = field ph 40 8 in
      let end = (vaddr + memsz) % 2 ^ 64 in
      elim (field ph 0 4 == 1) [
        | false ↦ load_segments left pt ip ((off + 56) % 2 ^ 64) sz h.1
        | true ↦ elim (bad_segment ph) [
          | true ↦ ok (false, sz, h.1)
          | false ↦ uvm_alloc pt sz end (flags2perm (field ph 4 4)) h.1.mem >>= λ a.
              elim (a.0 == 0) [
                | true ↦ ok (false, sz, record h.1 { mem = a.1 })
                | false ↦ loadseg pt vaddr ip (field ph 8 8) filesz h.1.volume a.1 >>= λ l.
                    let s' = record h.1 { volume = l.1; mem = l.2 } in
                    elim l.0 [
                      | false ↦ ok (false, a.0, s')
                      | true ↦ load_segments left pt ip ((off + 56) % 2 ^ 64) a.0 s'
                    ]
              ]
        ]
      ]
]
