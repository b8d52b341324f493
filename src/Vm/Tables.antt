-- ===== src/Vm/Tables.antt =====
-- The three levels of page tables as one map from pages to entries.
use os_cpp.Base.{
  if◌then◌else◌, ℕ, zero, suc, ◌+◌, ◌*◌, ◌/◌, ◌%◌, ◌^◌, ◌<◌, ◌≡◌, sym, ap, ◌∙◌, ◌≢◌, true, false,
  Option, none, some, List, [], ◌∷◌, arith,
}
use os_cpp.Arch.{pgsize, pte2pa, px}
use os_cpp.Vm.{Mem, in_page, has_v}

-- What a table page is for: its level, and the addresses that lead to it.
abbrev pub Owner : Type 0
Owner = ℕ → Option (ℕ × ℕ)

abbrev pub prefix : ℕ → ℕ → ℕ
prefix level va = va / 2 ^ (21 + 9 * level)

pub record IsPage (own : Owner) (p : ℕ) : Type 0 where
  pub unowned : own p ≡ none
  pub aligned : p % pgsize ≡ 0
  pub small : p < 2 ^ 56

abbrev pub NotIn : ℕ → List ℕ → Type 0
NotIn p [] = Unit
NotIn p (q ∷ qs) = (p ≢ q) × NotIn p qs

abbrev pub AllPages : Owner → List ℕ → Type 0
AllPages own [] = Unit
AllPages own (p ∷ ps) = IsPage own p × NotIn p ps × AllPages own ps

-- The tables form a tree below the root: each entry of an inner table leads to a table of its own.
pub record IsTree (own : Owner) (root : ℕ) (s : Mem) : Type 0 where
  pub top : own root ≡ some (2, 0)
  pub child :
      (p level k i : ℕ)
      → own p ≡ some (suc level, k)
      → i < 512
      → has_v (s.word (p + 8 * i)) ≡ true
      → own (pte2pa (s.word (p + 8 * i))) ≡ some (level, k * 512 + i)
  pub aligned : (p : ℕ) (x : ℕ × ℕ) → own p ≡ some x → p % pgsize ≡ 0
  pub pages : AllPages own s.free

-- The entry that an address leads to from a table, 0 if there is none.
unfoldable pub read_from : ℕ → ℕ → ℕ → Mem → ℕ
read_from zero pt va s = s.word (pt + 8 * px 0 va)
read_from (suc level) pt va s =
    let rest = read_from level (pte2pa (s.word (pt + 8 * px (suc level) va))) va s in
    if has_v (s.word (pt + 8 * px (suc level) va)) then rest else 0

unfoldable pub lookup : ℕ → Mem → ℕ → ℕ
lookup root s va = read_from 2 root va s

pub px_bound : (level va : ℕ) → px level va < 512
unfolding px
px_bound level va = omega arith

pub prefix-px :
    (level va : ℕ) → level < 2 → prefix level va ≡ prefix (suc level) va * 512 + px (suc level) va
unfolding px
prefix-px zero va lt = omega arith
prefix-px (suc zero) va lt = omega arith
prefix-px (suc (suc level)) va lt = absurd (omega arith)

-- Entries of pages that differ, or at indices that differ, have addresses that differ.
pub same_entry :
    (p q i j : ℕ)
    → p % pgsize ≡ 0
    → q % pgsize ≡ 0
    → i < 512
    → j < 512
    → p + 8 * i ≡ q + 8 * j
    → (p ≡ q) × (i ≡ j)
same_entry p q i j hp hq hi hj e = (omega arith, omega arith)

pub outside :
    (p q i : ℕ) → p % pgsize ≡ 0 → q % pgsize ≡ 0 → i < 512 → p ≢ q → in_page p (q + 8 * i) ≡ false
outside p q i hp hq lt ne = ground arith

pub inside : (p i : ℕ) → i < 512 → in_page p (p + 8 * i) ≡ true
inside p i lt = ground arith

-- The page that an entry of an inner table leads to is the owner's of the longer prefix.
pub child_owner :
    {own : Owner} {root : ℕ} {s : Mem} (level p va : ℕ)
    → IsTree own root s
    → level < 2
    → own p ≡ some (suc level, prefix (suc level) va)
    → has_v (s.word (p + 8 * px (suc level) va)) ≡ true
    → own (pte2pa (s.word (p + 8 * px (suc level) va))) ≡ some (level, prefix level va)
child_owner level p va t lt o v =
    t.child p level _ (px (suc level) va) o (px_bound (suc level) va) v
    ∙ ap (λ k. some (level, k)) (sym (prefix-px level va lt))

-- A page has one owner.
pub owner_unique :
    (own : Owner) (p q l m j k : ℕ)
    → own p ≡ some (l, j)
    → own q ≡ some (m, k)
    → p ≡ q
    → (l ≡ m) × (j ≡ k)
owner_unique own p q l m j k o o' e =
    let same : (l, j) ≡ (m, k) = ap owner_of (sym o ∙ ap own e ∙ o') in
    (ap (λ (x : ℕ × ℕ). x.0) same, ap (λ (x : ℕ × ℕ). x.1) same)
  where
    owner_of : Option (ℕ × ℕ) → ℕ × ℕ
    owner_of none = (0, 0)
    owner_of (some x) = x
