-- ===== src/Loader/Exec.antt =====
-- kernel/loader.cpp: `exec` from the loaded segments on: the stack, the commit, and the whole.
use os_cpp.Base.{
  ltb, leb, ◌==◌, if◌then◌else◌, length, ok, fault, Outcome, ◌>>=◌, ℕ, ◌+◌, ◌-◌, ◌*◌, ◌/◌, ◌%◌, ◌^◌,
  true, false, Option, none, some, List, [], ◌∷◌, ◌++◌,
}
use os_cpp.Arch.{pgsize, pg_round_up}
use os_cpp.Cstring.{strlen}
use os_cpp.Vm.{Mem}
use os_cpp.Vm.User.{uvm_alloc, uvm_clear}
use os_cpp.Vm.Copy.{sub64, copyout}
use os_cpp.Fs.{slash}
use os_cpp.Content.{byte_of, iunlockput}
use os_cpp.Content.Dirs.{char_at}
use os_cpp.Sysfile.{Sys, begin_op, end_op, set_volume}
use os_cpp.Loader.{Task, alloc_pagetable, free_pagetable, field, failed, read_header, load_segments}

-- The bytes of a number, and of a list of numbers of eight bytes.
abbrev pub words : List ℕ → ℕ → ℕ
words xs j = byte_of (char_at xs (j / 8)) (j % 8)

-- The loop that pushes the strings of `argv`, the kernel's pointers before the null pointer: the
-- stack pointer and the addresses of the strings. A string ends within its page.
unfoldable pub push_args : ℕ → ℕ → List ℕ → ℕ → List ℕ → Mem → Outcome (Option (ℕ × List ℕ) × Mem)
push_args pt stackbase [] sp ustack m = ok (some (sp, ustack), m)
push_args pt stackbase (p ∷ argv) sp ustack m = elim (leb 32 (length ustack)) [
  | true ↦ ok (none, m)
  | false ↦ strlen pgsize p m.byte >>= λ len.
      let sp1 = sub64 sp (len + 1) in
      let sp2 = sp1 - sp1 % 16 in
      elim (ltb sp2 stackbase) [
        | true ↦ ok (none, m)
        | false ↦ copyout pt sp2 (λ j. m.byte (p + j)) (len + 1) m >>= λ r. elim r.0 [
          | false ↦ ok (none, r.1)
          | true ↦ push_args pt stackbase argv sp2 (ustack ++ (sp2 ∷ [])) r.1
        ]
      ]
]

-- The addresses with a null pointer after them, on the stack: its pointer, and the number of
-- arguments. With 32 of them the null pointer is stored past `ustack`.
unfoldable pub push_array : ℕ → ℕ → ℕ → List ℕ → Mem → Outcome (Option (ℕ × ℕ) × Mem)
push_array pt stackbase sp ustack m =
    let argc = length ustack in
    let sp1 = sub64 sp ((argc + 1) * 8) in
    let sp2 = sp1 - sp1 % 16 in
    elim (leb 32 argc) [
      | true ↦ fault
      | false ↦ elim (ltb sp2 stackbase) [
        | true ↦ ok (none, m)
        | false ↦ copyout pt sp2 (words (ustack ++ (0 ∷ []))) ((argc + 1) * 8) m >>= λ r.
            ok (if r.0 then some (sp2, argc) else none, r.1)
      ]
    ]

-- The arguments on the stack that ends at `sz`.
unfoldable pub push_all : ℕ → ℕ → List ℕ → Mem → Outcome (Option (ℕ × ℕ) × Mem)
push_all pt sz argv m = push_args pt (sz - pgsize) argv sz [] m >>= λ r. elim r.0 [
  | none ↦ ok (none, r.1)
  | some (sp, ustack) ↦ push_array pt (sz - pgsize) sp ustack r.1
]

-- The part of a path after its last slash.
unfoldable pub last_name : List ℕ → List ℕ → List ℕ
last_name last [] = last
last_name last (c ∷ path) = if c == slash then last_name path path else last_name last path

-- `exec` from the commit on. A name that fills `p->name` makes `strncpy` write past it.
unfoldable pub commit : ℕ → ℕ → ℕ → ℕ → ℕ → List ℕ → Sys → Task → Outcome (Option ℕ × Task)
commit pt sz entry sp argc path s t =
    if leb 32 (length (last_name path path))
    then fault
    else free_pagetable s.pagetable s.sz s.mem >>= λ m. ok (
      some argc,
      record t {
        sys = record s { pagetable = pt; sz = sz; mem = m };
        a1 = sp;
        epc = entry;
        sp = sp;
        name = last_name path path;
      },
    )

-- `exec` from the stack on, with the inode given back.
unfoldable pub build_stack : ℕ → ℕ → ℕ → List ℕ → List ℕ → Sys → Task → Outcome (Option ℕ × Task)
build_stack pt size entry path argv s t =
    let sz = pg_round_up size in
    uvm_alloc pt sz ((sz + 2 * pgsize) % 2 ^ 64) 4 s.mem >>= λ a. elim (a.0 == 0) [
      | true ↦ failed (some pt) none sz (record s { mem = a.1 }) t
      | false ↦ uvm_clear pt (sub64 a.0 (2 * pgsize)) a.1 >>= λ m1. push_all pt a.0 argv m1 >>= λ p.
          elim p.0 [
            | none ↦ failed (some pt) none a.0 (record s { mem = p.1 }) t
            | some (sp, argc) ↦ commit pt a.0 entry sp argc path (record s { mem = p.1 }) t
          ]
    ]

-- The number of arguments, or none for -1.
unfoldable pub exec : ℕ → List ℕ → List ℕ → Task → Outcome (Option ℕ × Task)
exec ip path argv t = read_header ip 0 64 (begin_op t.sys) >>= λ h. elim h.0 [
  | none ↦ failed none (some ip) 0 h.1 t
  | some elf ↦ elim (field elf 0 4 == 0x464c457f) [
    | false ↦ failed none (some ip) 0 h.1 t
    | true ↦ alloc_pagetable t.trampoline_page t.trapframe_page h.1.mem >>= λ a.
        let s1 = record h.1 { mem = a.1 } in
        elim a.0 [
          | none ↦ failed none (some ip) 0 s1 t
          | some pt ↦ load_segments (field elf 56 2) pt ip (field elf 32 8) 0 s1 >>= λ l. elim l.0 [
            | false ↦ failed (some pt) (some ip) l.1 l.2 t
            | true ↦ iunlockput ip l.2.volume >>= λ v.
                build_stack pt l.1 (field elf 24 8) path argv (end_op (set_volume v l.2)) t
          ]
        ]
  ]
]
