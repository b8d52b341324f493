-- ===== src/Sysfile/Memory.antt =====
-- kernel/proc.cpp: `grow`; kernel/sysfile.cpp: `sys_sbrk`, and the arguments that `sys_exec` reads.
use os_cpp.Base.{
  ltb, ◌==◌, if◌then◌else◌, ok, blocked, fault, Outcome, ◌>>=◌, ℕ, zero, suc, ◌+◌, ◌-◌, ◌*◌, ◌%◌,
  ◌^◌, Bool, true, false, Option, none, some, List, [], ◌∷◌, ◌++◌,
}
use os_cpp.Arch.{pgsize}
use os_cpp.Vm.{Mem, kalloc, kfree}
use os_cpp.Vm.User.{put_bytes, uvm_dealloc, uvm_alloc}
use os_cpp.Vm.Copy.{copyinstr}
use os_cpp.Sysfile.{Sys, maxpath, get_argu, fetch_addr, fetch_str}

abbrev pub set_mem : Mem → ℕ → Sys → Sys
set_mem m sz s = record s { mem = m; sz = sz }

-- `n` is the 32 bits of an `int`; true is 0, false is -1.
unfoldable pub grow : ℕ → Sys → Outcome (Bool × Sys)
grow n s =
    if n == 0
    then ok (true, s)
    else if ltb n (2 ^ 31)
    then (uvm_alloc s.pagetable s.sz ((s.sz + n) % 2 ^ 64) 4 s.mem >>= λ r.
        ok (if r.0 == 0 then (false, set_mem r.1 s.sz s) else (true, set_mem r.1 r.0 s)))
    else (uvm_dealloc s.pagetable s.sz ((s.sz + n + (2 ^ 64 - 2 ^ 32)) % 2 ^ 64) s.mem >>= λ r.
        ok (true, set_mem r.1 r.0 s))

-- The size before, or none for -1.
unfoldable pub sys_sbrk : Sys → Outcome (Option ℕ × Sys)
sys_sbrk s =
    get_argu 0 s >>= λ n. grow (n % 2 ^ 32) s >>= λ r. ok (if r.0 then some s.sz else none, r.1)

-- MAXARGV
abbrev pub maxargv : ℕ
maxargv = 32

-- `fail_work4exec` of the pages that hold the arguments.
unfoldable pub fail_work4exec : List ℕ → Mem → Mem
fail_work4exec [] m = m
fail_work4exec (p ∷ ps) m = fail_work4exec ps (kfree p m)

-- `fetch_str` of at most a page into the page at `p`; a string that is not complete is there as far
-- as it goes.
unfoldable pub fetch_page : ℕ → ℕ → Sys → Outcome (Bool × Sys)
fetch_page addr p s = copyinstr s.pagetable (λ j. s.mem.byte (p + j)) addr pgsize s.mem >>= λ r.
    ok (r.0, record s { mem = put_bytes p pgsize r.1 s.mem })

-- The loop of `sys_exec` from the argument `i` on, with the pages of those before. Without a page
-- the value of an empty optional is read; the argument MAXARGV is stored past the array.
unfoldable pub read_args : ℕ → ℕ → ℕ → List ℕ → Sys → Outcome (Option (List ℕ) × Sys)
read_args zero uargv i pages s = blocked
read_args (suc fuel) uargv i pages s =
    let failed = record s { mem = fail_work4exec pages s.mem } in
    elim (ltb maxargv i) [
      | true ↦ ok (none, failed)
      | false ↦ fetch_addr ((uargv + 8 * i) % 2 ^ 64) s >>= λ uarg. elim uarg [
        | none ↦ ok (none, failed)
        | some a ↦ elim (i == maxargv) [
          | true ↦ fault
          | false ↦ elim (a == 0) [
            | true ↦ ok (some pages, s)
            | false ↦
                (let (page, m) = kalloc s.mem in
                  elim page [
                    | none ↦ fault
                    | some p ↦ fetch_page a p (record s { mem = m }) >>= λ r. elim r.0 [
                      | true ↦ read_args fuel uargv (i + 1) (pages ++ (p ∷ [])) r.1
                      | false ↦
                          ok (none, record r.1 { mem = fail_work4exec (pages ++ (p ∷ [])) r.1.mem })
                    ]
                  ])
          ]
        ]
      ]
    ]

-- What `sys_exec` does before it looks for the program: the path and the pages of the arguments.
unfoldable pub exec_arguments : Sys → Outcome (Option (List ℕ × List ℕ) × Sys)
exec_arguments s = get_argu 1 s >>= λ uargv. get_argu 0 s >>= λ addr.
    fetch_str addr maxpath s >>= λ fetched. elim fetched [
      | none ↦ ok (none, s)
      | some path ↦ read_args (maxargv + 2) uargv 0 [] s >>= λ r.
          ok (elim r.0 [ none ↦ none | some pages ↦ some (path, pages) ], r.1)
    ]
