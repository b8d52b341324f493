-- ===== src/Vm/User.antt =====
-- kernel/vm.cpp from `free_walk` to `uvm_clear`: the memory of a process.
-- A physical page is freed with `kfree`; `memmove` and `memset` of pages are on the bytes.
pub mod Unmap
mod Tests
use os_cpp.Base.{
  ltb, leb, ◌==◌, if◌then◌else◌, ok, panic, blocked, fault, Outcome, ◌>>=◌, ℕ, zero, suc, ◌+◌, ◌-◌,
  ◌*◌, ◌/◌, ◌%◌, ◌^◌, Bool, true, false, not, ◌&&◌, Option, none, some,
}
use os_cpp.Arch.{pgsize, pg_round_up, pte2pa, pte_flags}
use os_cpp.Vm.{Mem, fill, kalloc, kfree, set_word, has_v, has_rwx, walk, map_pages}

-- The entries of a table from `i` on, each with what `free_walk` does with the table below.
unfoldable pub free_entries : (ℕ → Mem → Outcome Mem) → ℕ → ℕ → ℕ → Mem → Outcome Mem
free_entries below pt i zero s = ok s
free_entries below pt i (suc left) s =
    let pte = s.word (pt + 8 * i) in
    elim (has_v pte && not (has_rwx pte)) [
      | true ↦ below (pte2pa pte) s >>= λ s'.
          free_entries below pt (i + 1) left (set_word (pt + 8 * i) 0 s')
      | false ↦
          if has_v pte then panic "vm::free_walk: leaf" else free_entries below pt (i + 1) left s
    ]

-- `free_walk` of a table with at most `depth` levels.
unfoldable pub free_walk : ℕ → ℕ → Mem → Outcome Mem
free_walk zero pt s = blocked
free_walk (suc depth) pt s = free_entries (free_walk depth) pt 0 512 s >>= λ s'. ok (kfree pt s')

unfoldable pub uvm_create : Mem → Option ℕ × Mem
uvm_create s =
    let (page, s') = kalloc s in elim page [ none ↦ (none, s') | some p ↦ (some p, fill p 0 s') ]

-- `std::memmove` of `n` bytes from `src`, an array, to `dst`.
abbrev pub put_bytes : ℕ → ℕ → (ℕ → ℕ) → Mem → Mem
put_bytes dst n src s = record s {
  byte = λ a. if leb dst a && ltb a (dst + n) then src (a - dst) else s.byte a;
}

-- The value of an empty optional is read: the behaviour is undefined.
pub uvm_first : ℕ → (ℕ → ℕ) → ℕ → Mem → Outcome Mem
uvm_first pt src size s =
    if ltb pgsize size
    then panic "uvm_first: size > PGSIZE"
    else (let (page, s') = kalloc s in
        elim page [
          | none ↦ fault
          | some mem ↦
              map_pages pt 0 mem pgsize 30 (fill mem 0 s') >>= λ r. ok (put_bytes mem size src r.1)
        ])

-- The loop of `uvm_unmap` from the address `a` on, for `left` pages.
unfoldable pub unmap_loop : ℕ → ℕ → ℕ → Bool → Mem → Outcome Mem
unmap_loop pt a zero do_free s = ok s
unmap_loop pt a (suc left) do_free s = walk pt a false s >>= λ r. elim r.0 [
  | none ↦ panic "vm::uvm_unmap: walk"
  | some at ↦ elim (has_v (s.word at)) [
    | false ↦ unmap_loop pt (a + pgsize) left do_free s
    | true ↦ elim (pte_flags (s.word at) == 1) [
      | true ↦ panic "vm::uvm_unmap: not a leaf"
      | false ↦
          let s' = if do_free then kfree (pte2pa (s.word at)) s else s in
          unmap_loop pt (a + pgsize) left do_free (set_word at 0 s')
    ]
  ]
]

-- The loop goes on below the sum `va + npages * PGSIZE`, which wraps around.
unfoldable pub uvm_unmap : ℕ → ℕ → ℕ → Bool → Mem → Outcome Mem
uvm_unmap pt va npages do_free s =
    let end = (va + npages * pgsize) % 2 ^ 64 in
    if not (va % pgsize == 0)
    then panic "vm::uvm_unmap: not aligned"
    else unmap_loop pt va (if ltb va end then (end - va) / pgsize else 0) do_free s

unfoldable pub uvm_free : ℕ → ℕ → Mem → Outcome Mem
uvm_free pt sz s =
    (if ltb 0 sz then uvm_unmap pt 0 (pg_round_up sz / pgsize) true s else ok s) >>= λ s'.
    free_walk 3 pt s'

-- The result is the new size.
unfoldable pub uvm_dealloc : ℕ → ℕ → ℕ → Mem → Outcome (ℕ × Mem)
uvm_dealloc pt oldsz newsz s =
    if leb oldsz newsz
    then ok (oldsz, s)
    else if ltb (pg_round_up newsz) (pg_round_up oldsz)
    then (uvm_unmap pt (pg_round_up newsz) ((pg_round_up oldsz - pg_round_up newsz) / pgsize) true s
        >>= λ s'. ok (newsz, s'))
    else ok (newsz, s)

-- The loop of `uvm_alloc` from `a` on, for at most `fuel` pages; `xperm` and PTE_R and PTE_U are
-- different bits.
unfoldable pub alloc_loop : ℕ → ℕ → ℕ → ℕ → ℕ → ℕ → Mem → Outcome (ℕ × Mem)
alloc_loop pt oldsz a newsz xperm zero s = if ltb a newsz then blocked else ok (newsz, s)
alloc_loop pt oldsz a newsz xperm (suc fuel) s = elim (ltb a newsz) [
  | false ↦ ok (newsz, s)
  | true ↦
      (let (page, s') = kalloc s in
        elim page [
          | none ↦ uvm_dealloc pt a oldsz s' >>= λ r. ok (0, r.1)
          | some mem ↦ map_pages pt a mem pgsize (18 + xperm) (fill mem 0 s') >>= λ r. elim r.0 [
            | false ↦ uvm_dealloc pt a oldsz (kfree mem r.1) >>= λ q. ok (0, q.1)
            | true ↦ alloc_loop pt oldsz (a + pgsize) newsz xperm fuel r.1
          ]
        ])
]

-- The new size, or 0.
unfoldable pub uvm_alloc : ℕ → ℕ → ℕ → ℕ → Mem → Outcome (ℕ × Mem)
uvm_alloc pt oldsz newsz xperm s =
    if ltb newsz oldsz
    then ok (oldsz, s)
    else (let start = pg_round_up oldsz in
        alloc_loop pt start start newsz xperm (newsz / pgsize + 1) s)

-- The loop of `uvm_copy` from `i` on, for at most `fuel` pages.
pub copy_loop : ℕ → ℕ → ℕ → ℕ → ℕ → Mem → Outcome (Bool × Mem)
copy_loop old new sz i zero s = if ltb i sz then blocked else ok (true, s)
copy_loop old new sz i (suc fuel) s = elim (ltb i sz) [
  | false ↦ ok (true, s)
  | true ↦ walk old i false s >>= λ r. elim r.0 [
    | none ↦ panic "vm::uvm_copy: pte not exit"
    | some at ↦ elim (has_v (s.word at)) [
      | false ↦ copy_loop old new sz (i + pgsize) fuel s
      | true ↦
          (let (page, s') = kalloc s in
            elim page [
              | none ↦ uvm_unmap new i (i / pgsize) true s' >>= λ q. ok (false, q)
              | some mem ↦
                  map_pages new i mem pgsize (pte_flags (s.word at))
                    (put_bytes mem pgsize (λ j. s'.byte (pte2pa (s.word at) + j)) s')
                  >>= λ q. elim q.0 [
                    | false ↦ uvm_unmap new i (i / pgsize) true q.1 >>= λ u. ok (false, u)
                    | true ↦ copy_loop old new sz (i + pgsize) fuel q.1
                  ]
            ])
    ]
  ]
]

pub uvm_copy : ℕ → ℕ → ℕ → Mem → Outcome (Bool × Mem)
uvm_copy old new sz s = copy_loop old new sz 0 (sz / pgsize + 1) s

-- `*pte &= ~PTE_V`
unfoldable pub uvm_clear : ℕ → ℕ → Mem → Outcome Mem
uvm_clear pt va s = walk pt va false s >>= λ r. elim r.0 [
  | none ↦ panic "vm::uvm_clear: pte not exit"
  | some at ↦ ok (set_word at (s.word at / 2 * 2) s)
]
