-- ===== src/Vm/Tests.antt =====
-- Runs of the page tables.
use os_cpp.Base.{
  ◌==◌, if◌then◌else◌, Returns, ℕ, suc, ◌+◌, ◌*◌, ◌%◌, ◌<◌, ◌≡◌, refl, sym, ap, ◌∙◌, subst, ◌⊎◌,
  inl, inr, true, false, none, some, [], ◌∷◌, arith,
}
use os_cpp.Arch.{pte2pa, pte_flags, px}
use os_cpp.Vm.{Mem, has_v}
use os_cpp.Vm.Tables.{Owner, IsTree, read_from, lookup}
use os_cpp.Vm.Leaf.{lookup_page}
use os_cpp.Vm.Maps.{Maps}
use os_cpp.Vm.User.{uvm_unmap}
use os_cpp.Vm.User.Unmap.{Unmaps, Mapped, uvm_unmap-Unmaps}
use os_cpp.Vm.Copy.{copyin}
use os_cpp.Vm.Copy.Bytes.{Copied, copyin-Copied}
use native.Mathlib.Decide.{ℕ_discrete}

abbrev root : ℕ
root = 0x80000000

-- An empty table, and two free pages.
abbrev empty_table : Mem
empty_table = record { word = λ a. 0; byte = λ a. a % 256; free = 0x80001000 ∷ 0x80002000 ∷ [] }

abbrev root_owner : Owner
root_owner p = if p == root then some (2, 0) else none

-- Tables of all three levels, with one page mapped at 0x4000.
abbrev one_mapped : Mem
one_mapped = record {
  word = λ a.
      if a == 0x80000000
      then 0x20000401
      else if a == 0x80001000
      then 0x20000801
      else if a == 0x80002020
      then 0x20000c17
      else 0;
  byte = λ a. 0;
  free = [];
}

abbrev three_owners : Owner
three_owners p =
    if p == 0x80000000
    then some (2, 0)
    else if p == 0x80001000
    then some (1, 0)
    else if p == 0x80002000
    then some (0, 0)
    else none

abbrev RootOrBelow : ℕ → ℕ × ℕ → Type 0
RootOrBelow p x =
    ((p ≡ 0x80000000) × (x ≡ (2, 0)))
    ⊎ (((p ≡ 0x80001000) × (x ≡ (1, 0))) ⊎ ((p ≡ 0x80002000) × (x ≡ (0, 0))))

some_pair : {x y : ℕ × ℕ} → some x ≡ some y → y ≡ x
some_pair {x} e = sym (ap (λ o. elim o [ none ↦ x | some z ↦ z ]) e)

three_owners-cases : (p : ℕ) (x : ℕ × ℕ) → three_owners p ≡ some x → RootOrBelow p x
three_owners-cases p x o = elim (ℕ_discrete p 0x80000000) [
  | yes e ↦ inl (e, some_pair (sym (ap three_owners e) ∙ o))
  | no ne ↦ elim (ℕ_discrete p 0x80001000) [
    | yes e ↦ inr (inl (e, some_pair (sym (ap three_owners e) ∙ o)))
    | no ne' ↦ elim (ℕ_discrete p 0x80002000) [
      | yes e ↦ inr (inr (e, some_pair (sym (ap three_owners e) ∙ o)))
      | no ne'' ↦
          let none_there : three_owners p ≡ none = ground arith in
          absurd (contradiction (sym none_there ∙ o))
    ]
  ]
]
  where
    contradiction : {x : ℕ × ℕ} → none ≡ some x → ⊥
    contradiction e = ground (arith, e)

one_mapped-IsTree : IsTree three_owners root one_mapped
unfolding pte2pa
one_mapped-IsTree = record {
  top = refl;
  child = λ p l k i o lt v. below p l k i lt v (three_owners-cases p (suc l, k) o);
  aligned = λ p x o. elim (three_owners-cases p x o) [
    | inl (e, q) ↦ omega (arith, e)
    | inr (inl (e, q)) ↦ omega (arith, e)
    | inr (inr (e, q)) ↦ omega (arith, e)
  ];
  pages = tt;
}
  where
    zeroth : (i : ℕ) → i < 512 → has_v (one_mapped.word (0x80000000 + 8 * i)) ≡ true → i ≡ 0
    zeroth i lt v = ground (arith, v)

    zeroth' : (i : ℕ) → i < 512 → has_v (one_mapped.word (0x80001000 + 8 * i)) ≡ true → i ≡ 0
    zeroth' i lt v = ground (arith, v)

    below_root :
        (p l k i : ℕ)
        → p ≡ 0x80000000
        → ◌≡◌ {A = ℕ × ℕ} (suc l, k) (2, 0)
        → i ≡ 0
        → three_owners (pte2pa (one_mapped.word (p + 8 * i))) ≡ some (l, k * 512 + i)
    below_root p l k i e q z =
        let one : l ≡ 1 = omega (arith, ap (λ x. x.0) q) in
        let none_before : k ≡ 0 = ap (λ x. x.1) q in rw (e, z, one, none_before) refl

    below_inner :
        (p l k i : ℕ)
        → p ≡ 0x80001000
        → ◌≡◌ {A = ℕ × ℕ} (suc l, k) (1, 0)
        → i ≡ 0
        → three_owners (pte2pa (one_mapped.word (p + 8 * i))) ≡ some (l, k * 512 + i)
    below_inner p l k i e q z =
        let none_above : l ≡ 0 = omega (arith, ap (λ x. x.0) q) in
        let none_before : k ≡ 0 = ap (λ x. x.1) q in rw (e, z, none_above, none_before) refl

    below :
        (p l k i : ℕ)
        → i < 512
        → has_v (one_mapped.word (p + 8 * i)) ≡ true
        → RootOrBelow p (suc l, k)
        → three_owners (pte2pa (one_mapped.word (p + 8 * i))) ≡ some (l, k * 512 + i)
    below p l k i lt v (inl (e, q)) =
        below_root p l k i e q
          (zeroth i lt (sym (ap (λ a. has_v (one_mapped.word (a + 8 * i))) e) ∙ v))
    below p l k i lt v (inr (inl (e, q))) =
        below_inner p l k i e q
          (zeroth' i lt (sym (ap (λ a. has_v (one_mapped.word (a + 8 * i))) e) ∙ v))
    below p l k i lt v (inr (inr (e, q))) = absurd (omega (arith, ap (λ x. x.0) q))

one_mapped-Mapped : Mapped (lookup root one_mapped) 0x4000 1
unfolding lookup read_from px pte2pa pte_flags
one_mapped-Mapped x lt r =
    subst (λ w. (has_v w ≡ true) × ((pte_flags w == 1) ≡ false))
      (lookup_page root one_mapped 0x4000 x (omega (arith, r))) (refl, refl)

uvm_unmap-Unmaps_example :
    Returns
      (Unmaps three_owners root 0x4000 1 one_mapped)
      (uvm_unmap root 0x4000 1 false one_mapped)
uvm_unmap-Unmaps_example =
    (uvm_unmap-Unmaps three_owners root 0x4000 1 one_mapped one_mapped-IsTree (omega arith)
        (omega arith)).1
      one_mapped-Mapped

copyin-Copied_example :
    Returns
      (Copied root 0x4ffe 4 0 (λ j. 0) empty_table)
      (copyin root (λ j. 0) 0x4ffe 4 empty_table)
copyin-Copied_example = copyin-Copied root 0x4ffe 4 (λ j. 0) empty_table (omega arith)
