-- ===== src/Vm.antt =====
-- kernel/vm.cpp: page tables, the memory of a process, and copies between it and the kernel.
-- The memory has the words of the pages that are page tables and the bytes of the other pages; that
-- no page is both is what the tables' owners in Vm.Tables are about. The free pages are a list, as
-- Kmem shows of `kalloc` and `kfree`. A null pointer or an empty optional is `none`.
pub mod Tables
pub mod Growth
pub mod Walk
pub mod Leaf
pub mod Maps
pub mod User
pub mod Copy
mod Tests
use os_cpp.Base.{
  ltb, leb, ◌==◌, if◌then◌else◌, update, ok, panic, Outcome, ◌>>=◌, ℕ, zero, suc, ◌+◌, ◌*◌, ◌/◌,
  ◌%◌, ◌^◌, Bool, true, false, not, ◌&&◌, Option, none, some, List, [], ◌∷◌,
}
use os_cpp.Arch.{pgsize, pte2pa, pa2pte, px, va_max}
use Prim.Native.Nat.{bit_or}

pub record Mem : Type 0 where
  pub word : ℕ → ℕ
  pub byte : ℕ → ℕ
  pub free : List ℕ

abbrev pub in_page : ℕ → ℕ → Bool
in_page p a = leb p a && ltb a (p + pgsize)

-- `std::memset` of a page.
abbrev pub fill : ℕ → ℕ → Mem → Mem
fill p b s = record s {
  word = λ a. if in_page p a then b * 0x0101010101010101 else s.word a;
  byte = λ a. if in_page p a then b else s.byte a;
}

unfoldable pub kalloc : Mem → Option ℕ × Mem
kalloc s = elim s.free [ [] ↦ (none, s) | (p ∷ ps) ↦ (some p, fill p 5 (record s { free = ps })) ]

unfoldable pub kfree : ℕ → Mem → Mem
kfree p s = let s' = fill p 1 s in record s' { free = p ∷ s.free }

abbrev pub set_word : ℕ → ℕ → Mem → Mem
set_word a v s = record s { word = update s.word a v }

-- PTE_V, PTE_R, PTE_W, PTE_X and PTE_U in an entry.
abbrev pub has_v : ℕ → Bool
has_v pte = pte % 2 == 1

abbrev pub has_w : ℕ → Bool
has_w pte = pte / 4 % 2 == 1

abbrev pub has_rwx : ℕ → Bool
has_rwx pte = not (pte / 2 % 8 == 0)

abbrev pub has_u : ℕ → Bool
has_u pte = pte / 16 % 2 == 1

-- `PA2PTE(pa) | flag | PTE_V`, for any flags: the ten low bits, which PA2PTE leaves 0, and the others
-- apart.
abbrev pub make_pte : ℕ → ℕ → ℕ
make_pte pa flag = 1024 * bit_or (pa2pte pa / 1024) (flag / 1024) + (flag % 1024 / 2 * 2 + 1)

-- A table that `walk` has just allocated, with its entry in the table above at `a`.
abbrev pub new_table : ℕ → ℕ → Mem → Mem
new_table a p s = set_word a (pa2pte p + 1) (fill p 0 s)

-- The loop of `walk` from `level` on, with the table `pt`.
unfoldable pub walk_from : ℕ → ℕ → ℕ → Bool → Mem → Option ℕ × Mem
walk_from zero pt va alloc s = (some (pt + 8 * px 0 va), s)
walk_from (suc level) pt va alloc s =
    let a = pt + 8 * px (suc level) va in
    elim (has_v (s.word a)) [
      | true ↦ walk_from level (pte2pa (s.word a)) va alloc s
      | false ↦ elim alloc [
        | false ↦ (none, s)
        | true ↦
            (let (page, s') = kalloc s in
              elim page [
                | none ↦ (none, s')
                | some p ↦ walk_from level p va true (new_table a p s')
              ])
      ]
    ]

unfoldable pub walk : ℕ → ℕ → Bool → Mem → Outcome (Option ℕ × Mem)
walk pt va alloc s =
    if ltb va_max va then panic "vm::walk: va > VA_MAX" else ok (walk_from 2 pt va alloc s)

-- The loop of `map_pages`, for `left` pages.
unfoldable pub map_loop : ℕ → ℕ → ℕ → ℕ → ℕ → Mem → Outcome (Bool × Mem)
map_loop pt va pa flag zero s = ok (true, s)
map_loop pt va pa flag (suc left) s = walk pt va true s >>= λ r. elim r.0 [
  | none ↦ ok (false, r.1)
  | some a ↦ elim (has_v (r.1.word a)) [
    | true ↦ panic "vm::mappages: remap"
    | false ↦
        map_loop pt ((va + pgsize) % 2 ^ 64) ((pa + pgsize) % 2 ^ 64) flag left
          (set_word a (make_pte pa flag) r.1)
  ]
]

unfoldable pub map_pages : ℕ → ℕ → ℕ → ℕ → ℕ → Mem → Outcome (Bool × Mem)
map_pages pt va pa size flag s =
    if not (va % pgsize == 0)
    then panic "mappages: va not aligned"
    else if not (size % pgsize == 0)
    then panic "mappages: size not aligned"
    else if size == 0
    then panic "mappages: size"
    else map_loop pt va pa flag (size / pgsize) s
