-- ===== src/Vm/Maps.antt =====
-- `map_pages` as a change of the map from pages to entries.
use os_cpp.Base.{
  ltb, leb, if◌then◌else◌, ok, panic, Outcome, ℕ, ◌+◌, ◌-◌, ◌*◌, ◌/◌, ◌%◌, ◌^◌, ◌≤◌, ◌<◌, ◌≡◌, sym,
  ap, ◌∙◌, Bool, true, false, ◌&&◌, Option, none, some, arith,
}
use os_cpp.Arch.{pgsize}
use os_cpp.Vm.{Mem, set_word, has_v, make_pte, map_loop}
use os_cpp.Vm.Tables.{Owner, prefix, IsTree, lookup}

-- The map with the `n` pages from `va` on mapped to those from `pa` on.
abbrev pub mapped : ℕ → ℕ → ℕ → ℕ → (ℕ → ℕ) → ℕ → ℕ
mapped va pa flag n old x =
    if leb (va / pgsize) (x / pgsize) && ltb (x / pgsize) (va / pgsize + n)
    then make_pte (pa + (x / pgsize - va / pgsize) * pgsize) flag
    else old x

-- No page of the range is mapped.
abbrev pub Unmapped : (ℕ → ℕ) → ℕ → ℕ → Type 0
Unmapped old va n =
    (x : ℕ) → va / pgsize ≤ x / pgsize → x / pgsize < va / pgsize + n → has_v (old x) ≡ false

-- The first `m` pages are mapped, all of them if the result is true.
pub record Maps (root va pa flag n : ℕ) (s : Mem) (r : Bool × Mem) : Type 0 where
  pub own : Owner
  pub m : ℕ
  pub tree : IsTree own root r.1
  pub few : m ≤ n
  pub all : r.0 ≡ true → m ≡ n
  pub reads : (x : ℕ) → x < 2 ^ 39 → lookup root r.1 x ≡ mapped va pa flag m (lookup root s) x

top_prefix : (x : ℕ) → x < 2 ^ 39 → prefix 2 x ≡ 0
top_prefix x lt = omega arith

pub top_owner :
    (own : Owner) (root : ℕ) (s : Mem) (x : ℕ)
    → IsTree own root s
    → x < 2 ^ 39
    → own root ≡ some (2, prefix 2 x)
top_owner own root s x t lt = t.top ∙ ap (λ k. some (2, k)) (sym (top_prefix x lt))

-- What `map_loop` does with the entry that `walk` found.
abbrev pub map_here : ℕ → ℕ → ℕ → ℕ → ℕ → Option ℕ × Mem → Outcome (Bool × Mem)
map_here pt va pa flag left r = elim r.0 [
  | none ↦ ok (false, r.1)
  | some a ↦ elim (has_v (r.1.word a)) [
    | true ↦ panic "vm::mappages: remap"
    | false ↦
        map_loop pt ((va + pgsize) % 2 ^ 64) ((pa + pgsize) % 2 ^ 64) flag left
          (set_word a (make_pte pa flag) r.1)
  ]
]
